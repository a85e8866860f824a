-- ===== src/Tests/WorkerTests.antt =====
-- The worker's wait, status mapping and dispatch.
use signal_observatory.Prelude.{◌+◌, ◌≡◌, refl, true, false, some, List, [], ◌∷◌}
use signal_observatory.Clock.{day, hour}
use signal_observatory.Scheduler.Worker.{
  Poll, wait_until_due, Trace, raised, summary, collector_job, dispatch,
}
use signal_observatory.Scheduler.Worker.Waiting.{IsWait, wait_until_due-IsWait}
use signal_observatory.Scheduler.Worker.Rounds.{Dispatched, dispatch-Dispatched}
use signal_observatory.Tests.CronTests.{noon}
use signal_observatory.Tests.SchedulerTests.{table}

abbrev polls : List Poll
polls =
    record { stop_set = false; clock = 100; stopped_waiting = false }
    ∷ record { stop_set = false; clock = 160; stopped_waiting = false }
    ∷ record { stop_set = false; clock = 190; stopped_waiting = false }
    ∷ []

waited : wait_until_due polls 185 60 ≡ some (true, 60 ∷ 25 ∷ [])
unfolding wait_until_due
waited = refl

wait_until_due-IsWait_example : IsWait polls 185 60 true (60 ∷ 25 ∷ [])
wait_until_due-IsWait_example = wait_until_due-IsWait polls 185 60 waited

abbrev trace : Trace
trace = record {
  planned_at = noon;
  polls = polls;
  stop_after_lock = false;
  started_at = noon + day;
  job_end = raised "TimeoutError";
  finished_at = noon + day + hour;
}

dispatch-Dispatched_example : Dispatched "arxiv_daily" (noon + day) (
    dispatch table "arxiv_daily"
      (noon + day)
      (record trace { job_end = collector_job (summary "missed") }))
dispatch-Dispatched_example =
    dispatch-Dispatched table "arxiv_daily" (noon + day) trace (summary "missed")
