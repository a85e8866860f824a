-- ===== src/Scheduler/Timing.antt =====
-- `scheduler_timing` and `_delay_seconds`: the dispatch timing of one execution. Delays are in
-- milliseconds; how Python's `round(seconds, 3)` takes microseconds there is a parameter.
use signal_observatory.Prelude.{
  ℕ, ◌+◌, ◌-◌, ◌*◌, ◌≤◌, Option, none, some, leb, if◌then◌else◌, Result, ok, ◌>>=◌,
}
use signal_observatory.Errors.{Error}
use signal_observatory.Clock.{Datetime, utc}
use signal_observatory.Scheduler.Row.{Row, Status}

pub data TimingState : Type 0 where
  on_time late missed interrupted pending : TimingState

-- Rounding to the nearest millisecond, either way at a tie.
pub record Rounding : Type 0 where
  pub to_ms : ℕ → ℕ
  pub not_below : (us : ℕ) → us ≤ 1000 * to_ms us + 500
  pub not_above : (us : ℕ) → 1000 * to_ms us ≤ us + 500

module _ (round3 : Rounding) where
  -- `max(0.0, …)` is the truncated difference.
  unfoldable pub delay_seconds : Option ℕ → ℕ → Option ℕ
  delay_seconds none planned = none
  delay_seconds (some started) planned = some (round3.to_ms (started - planned))

  -- The row has not ended as missed or interrupted.
  dispatch_timing : Option ℕ → ℕ → ℕ → ℕ → TimingState × Option ℕ
  unfolding delay_seconds
  dispatch_timing none planned now threshold =
      if leb planned now then (TimingState.missed, none) else (TimingState.pending, none)
  dispatch_timing (some started) planned now threshold =
      let delay = round3.to_ms (started - planned) in
      (if leb delay (threshold * 1000) then TimingState.on_time else TimingState.late, some delay)

  timing_by_status : Status → Row → ℕ → ℕ → TimingState × Option ℕ
  unfolding dispatch_timing delay_seconds
  timing_by_status Status.missed row now threshold = (TimingState.missed, none)
  timing_by_status Status.interrupted row now threshold =
      (TimingState.interrupted, delay_seconds row.started_at row.scheduled_at)
  timing_by_status _ row now threshold =
      dispatch_timing row.started_at row.scheduled_at now threshold

  unfoldable pub row_timing : Row → ℕ → ℕ → TimingState × Option ℕ
  unfolding timing_by_status
  row_timing row now threshold = timing_by_status row.status row now threshold

  unfoldable pub scheduler_timing : Row → Datetime → ℕ → Result Error (TimingState × Option ℕ)
  unfolding row_timing
  scheduler_timing row now threshold = do observed ← utc now; ok (row_timing row observed threshold)
