-- ===== src/Tests/SchedulerTests.antt =====
-- The ledger on a small table: one window that succeeded, one that is running, one that is planned.
use signal_observatory.Prelude.{
  ℕ, ◌+◌, ◌*◌, ◌≡◌, ◌<◌, ◌≤◌, refl, true, false, some, none, Option, List, [], ◌∷◌, ok, arith, All,
  Member, exists, inl,
}
use signal_observatory.Clock.{aware, day, hour, minute}
use signal_observatory.Cron.Next.{Matches}
use signal_observatory.Scheduler.Row.{
  Row, Table, Status, scheduled, running, succeeded, failed, same_window,
}
use signal_observatory.Scheduler.Ledger.{plan, start, reconcile, ReconciledExecution, planned_row}
use signal_observatory.Scheduler.Table.{TableIsValid}
use signal_observatory.Scheduler.Lifecycle.{
  Request, start_window, finish_window, reconcile_job, run, run-TableIsValid, run-terminal_kept,
}
use signal_observatory.Scheduler.Claims.{start_once, reconcile-Settled, Settled}
use signal_observatory.Scheduler.Startup.{startup}
use signal_observatory.Scheduler.Startup.Gaps.{startup-NoGaps}
use signal_observatory.Tests.CronTests.{daily, daily_cron, daily_parsed, noon}

abbrev pub first_window : ℕ
first_window = 738998 * day + 6 * hour + 30 * minute

abbrev pub second_window : ℕ
second_window = 738999 * day + 6 * hour + 30 * minute

abbrev pub row : ℕ → Status → Option ℕ → Option ℕ → Row
row w status begun ended = record {
  job_name = "arxiv_daily";
  source_name = "arxiv";
  scheduled_at = w;
  started_at = begun;
  finished_at = ended;
  status = status;
  error_type = none;
  metadata = [];
}

abbrev pub done_row : Row
done_row = row first_window succeeded (some first_window) (some (first_window + minute))

abbrev pub table : Table
table =
    done_row
    ∷ row second_window running (some second_window) none
    ∷ row (noon + day) scheduled none none
    ∷ []

pub table-IsValid : TableIsValid table
table-IsValid = record { rows = ground arith; windows = (refl, (refl, (refl, tt))) }

abbrev history : List Request
history =
    start_window "arxiv_daily" (aware (noon + day)) (aware (noon + day + 5))
    ∷ finish_window "arxiv_daily" (aware (noon + day)) (aware (noon + day + 9)) failed
        (some "timeout")
    ∷ reconcile_job "arxiv_daily" (aware (noon + 2 * day))
    ∷ []

run-TableIsValid_example : TableIsValid (run history table)
run-TableIsValid_example = run-TableIsValid history table table-IsValid

run-terminal_kept_example : Member done_row (run history table)
run-terminal_kept_example = run-terminal_kept history table done_row table-IsValid refl (inl refl)

started_ok :
    start table "arxiv_daily" (aware (noon + day)) (aware (noon + day + 5))
    ≡ ok (
      done_row
          ∷ row second_window running (some second_window) none
          ∷ row (noon + day) running (some (noon + day + 5)) none
          ∷ [],
      true,
    )
unfolding start
started_ok = refl

abbrev started_table : Table
started_table =
    done_row
    ∷ row second_window running (some second_window) none
    ∷ row (noon + day) running (some (noon + day + 5)) none
    ∷ []

start_once_example :
    start started_table "arxiv_daily" (aware (noon + day)) (aware (noon + day + 7))
    ≡ ok (started_table, false)
start_once_example =
    start_once "arxiv_daily" (noon + day) table (noon + day + 5) (noon + day + 7) started_ok

reconcile-Settled_example :
    (t : Table) × (rep : List ReconciledExecution) × (reconcile table "arxiv_daily" (aware noon)
      ≡ ok (t, rep))
    × All (Settled "arxiv_daily" noon) t
reconcile-Settled_example = reconcile-Settled "arxiv_daily" noon table

planned_ok :
    plan [] "arxiv_daily" "arxiv" (aware noon) []
    ≡ ok (planned_row "arxiv_daily" "arxiv" noon [] ∷ [], true)
unfolding plan
planned_ok = refl

startup-NoGaps_example :
    (t : Table) × (rep : List ReconciledExecution) × (startup table "arxiv_daily" "arxiv" daily
        (aware noon)
      ≡ some (ok (t, rep)))
    × ((u : ℕ)
        → exists (same_window "arxiv_daily" u) table ≡ true
        → exists (same_window "arxiv_daily" u) t ≡ true)
    × ((u w : ℕ)
        → exists (same_window "arxiv_daily" u) table ≡ true
        → u < w
        → w ≤ noon
        → Matches daily_cron w
        → exists (same_window "arxiv_daily" w) t ≡ true)
    × All (Settled "arxiv_daily" noon) t
startup-NoGaps_example =
    startup-NoGaps "arxiv_daily" "arxiv" daily daily_cron noon daily_parsed table
