-- ===== src/Scheduler/Worker.antt =====
-- The loop of `scheduled_job`, with `wait_until_due` and `scheduler_status_for_collector`
-- (apps/worker/src/signal_observatory_worker/main.py). What the task meets while it waits is given
-- as a trace: clock readings, the stop event, the job's end. The database is used by this task alone
-- between its own calls, which the leadership lock and the job's name make sure of.
pub mod Waiting
pub mod Rounds
use signal_observatory.Prelude.{
  ℕ, ◌-◌, Bool, true, false, not, Option, none, some, List, [], ◌∷◌, ◌++◌, String, str_eq, leb, min,
  if◌then◌else◌, Result, ok, err, ◌>>=◌,
}
use signal_observatory.Errors.{Error, unsupported_status, nonterminal_status}
use signal_observatory.Text.{Text}
use signal_observatory.Clock.{aware, second}
use signal_observatory.Cron.{next_cron_run}
use signal_observatory.Scheduler.Row.{
  Table, Status, scheduled, running, succeeded, partial, failed, missed, interrupted, Metadata,
  is_outcome,
}
use signal_observatory.Scheduler.Ledger.{plan, start, finish}

-- One round of the polling loop: the stop event at its head, the clock, and whether the event came
-- within the wait.
pub record Poll : Type 0 where
  pub stop_set : Bool
  pub clock : ℕ
  pub stopped_waiting : Bool

-- The answer and the timeouts of the waits; `none` while the trace has no answer yet.
unfoldable pub wait_until_due : List Poll → ℕ → ℕ → Option (Bool × List ℕ)
wait_until_due [] due poll = none
wait_until_due (p ∷ ps) due poll = elim p.stop_set [
  | true ↦ some (false, [])
  | false ↦ elim (leb due p.clock) [
    | true ↦ some (true, [])
    | false ↦ elim p.stopped_waiting [
      | true ↦ some (false, min poll (due - p.clock) ∷ [])
      | false ↦ elim (wait_until_due ps due poll) [
        | none ↦ none
        | some (answer, waits) ↦ some (answer, min poll (due - p.clock) ∷ waits)
      ]
    ]
  ]
]

-- The member's `value`.
abbrev pub value : Status → String
value scheduled = "scheduled"
value running = "running"
value succeeded = "succeeded"
value partial = "partial"
value failed = "failed"
value missed = "missed"
value interrupted = "interrupted"

-- `SchedulerExecutionStatus(status)`: the first member with that value.
first_with : String → List Status → Option Status
first_with text [] = none
first_with text (s ∷ ss) =
    let rest = first_with text ss in if str_eq text (value s) then some s else rest

abbrev pub statuses : List Status
statuses = scheduled ∷ running ∷ succeeded ∷ partial ∷ failed ∷ missed ∷ interrupted ∷ []

unfoldable pub scheduler_status_for_collector : String → Result Error Status
unfolding first_with
scheduler_status_for_collector text = elim (first_with text statuses) [
  | none ↦ err unsupported_status
  | some s ↦ if is_outcome s then ok s else err nonterminal_status
]

-- How `await job()` ends: with a status, or with an exception of the named type.
pub data JobEnd : Type 0 where
  returned : Status → JobEnd
  raised : String → JobEnd

abbrev pub end_status : JobEnd → Status
end_status (returned s) = s
end_status (raised _) = failed

abbrev pub end_error : JobEnd → Option String
end_error (returned succeeded) = none
end_error (returned partial) = some "collector_partial"
end_error (returned failed) = some "collector_failed"
end_error (returned scheduled) = some "collector_scheduled"
end_error (returned running) = some "collector_running"
end_error (returned missed) = some "collector_missed"
end_error (returned interrupted) = some "collector_interrupted"
end_error (raised name) = some name

-- The jobs of `scheduler_host`: the status of a collector's summary, or what the collector raises. A
-- status that is refused raises `ValueError`.
pub data CollectorEnd : Type 0 where
  summary : String → CollectorEnd
  raises_error : String → CollectorEnd

unfoldable pub collector_job : CollectorEnd → JobEnd
unfolding scheduler_status_for_collector
collector_job (raises_error name) = raised name
collector_job (summary status) = elim (scheduler_status_for_collector status) [
  | ok s ↦ returned s
  | err e ↦ raised "ValueError"
]

-- What one round of the loop meets.
pub record Trace : Type 0 where
  pub planned_at : ℕ
  pub polls : List Poll
  pub stop_after_lock : Bool
  pub started_at : ℕ
  pub job_end : JobEnd
  pub finished_at : ℕ

pub data RoundEnd : Type 0 where
  waiting stopped not_claimed finished : RoundEnd

poll_seconds : ℕ
poll_seconds = 60000000

-- From the wait on, for a window that is planned.
unfoldable pub dispatch : Table → String → ℕ → Trace → Result Error (Table × RoundEnd)
dispatch table name window trace = elim trace.stop_after_lock [
  | true ↦ ok (table, stopped)
  | false ↦ do
    (table', claimed) ← start table name (aware window) (aware trace.started_at)
    elim claimed [
      | false ↦ ok (table', not_claimed)
      | true ↦ do
        table'' ←
            finish table' name (aware window) (aware trace.finished_at) (end_status trace.job_end)
              (end_error trace.job_end)
        ok (table'', finished)
    ]
]

after_wait : Table → String → ℕ → Trace → Option (Bool × List ℕ) → Result Error (Table × RoundEnd)
unfolding dispatch
after_wait table name window trace none = ok (table, waiting)
after_wait table name window trace (some (false, _)) = ok (table, stopped)
after_wait table name window trace (some (true, _)) = dispatch table name window trace

-- One round of `while not stop_event.is_set()`.
unfoldable pub round :
    Table → String → String → Text → Metadata → Trace → Result Error (Table × RoundEnd)
unfolding after_wait poll_seconds
round table name source schedule metadata trace = do
  window ← next_cron_run schedule (aware trace.planned_at)
  (table', _) ← plan table name source (aware window) metadata
  after_wait table' name window trace (wait_until_due trace.polls window poll_seconds)
