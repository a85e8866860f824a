-- ===== src/Scheduler/Startup.antt =====
-- The part of `scheduled_job` (apps/worker/src/signal_observatory_worker/main.py) that runs before
-- its loop: missing windows are planned, then unfinished ones are reconciled.
pub mod Order
pub mod Gaps
use signal_observatory.Prelude.{
  ℕ, Bool, true, false, Option, none, some, List, [], ◌∷◌, String, ◌==◌, if◌then◌else◌, exists,
  Result, ok, err, ◌>>=◌,
}
use signal_observatory.Errors.{Error}
use signal_observatory.Text.{Text}
use signal_observatory.Clock.{Datetime, aware}
use signal_observatory.Cron.{elapsed_cron_runs}
use signal_observatory.Scheduler.Row.{Table}
use signal_observatory.Scheduler.Ledger.{plan, reconcile, materialized_windows, ReconciledExecution}

-- `window in known_windows`.
abbrev pub is_known : ℕ → List ℕ → Bool
is_known w known = exists (λ u. u == w) known

-- The loop over the elapsed windows.
unfoldable pub plan_missing : Table → String → String → List ℕ → List ℕ → Result Error Table
plan_missing table name source known [] = ok table
plan_missing table name source known (w ∷ ws) = elim (is_known w known) [
  | true ↦ plan_missing table name source known ws
  | false ↦ elim (plan table name source (aware w) []) [
    | err e ↦ err e
    | ok (table', _) ↦ plan_missing table' name source known ws
  ]
]

-- The planning step; `none` would mean that the fuel of the window loop ran out.
unfoldable pub plan_elapsed :
    Table → String → String → Text → Datetime → List ℕ → Option (Result Error Table)
unfolding plan_missing
plan_elapsed table name source schedule observed [] = some (ok table)
plan_elapsed table name source schedule observed (first ∷ rest) =
    elim (elapsed_cron_runs schedule (aware first) observed) [
      | none ↦ none
      | some (err e) ↦ some (err e)
      | some (ok windows) ↦ some (plan_missing table name source (first ∷ rest) windows)
    ]

unfoldable pub startup :
    Table
    → String
    → String
    → Text
    → Datetime
    → Option (Result Error (Table × List ReconciledExecution))
unfolding plan_elapsed
startup table name source schedule observed =
    elim (plan_elapsed table name source schedule observed (materialized_windows table name)) [
      | none ↦ none
      | some (err e) ↦ some (err e)
      | some (ok planned) ↦ some (reconcile planned name observed)
    ]
