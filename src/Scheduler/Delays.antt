-- ===== src/Scheduler/Delays.antt =====
-- The timing classes of `scheduler_timing` in terms of the row and the clock.
use signal_observatory.Prelude.{ℕ, ◌+◌, ◌-◌, ◌*◌, ◌≤◌, ◌≡◌, ◌≢◌, ◌↔◌, ◌⊎◌, none, some, arith}
use signal_observatory.Clock.{second}
use signal_observatory.Scheduler.Row.{Row, Status}
use signal_observatory.Scheduler.Table.{RowIsValid}
use signal_observatory.Scheduler.Timing.{on_time, late, missed, Rounding, row_timing}

module _ (round3 : Rounding) (r : Row) (now threshold : ℕ) where
  -- A dispatched execution that has not been interrupted is late or on time: on time whenever its
  -- delay is within the threshold, and only if it exceeds it by at most half a millisecond.
  pub on_time-threshold :
      (s : ℕ)
      → r.started_at ≡ some s
      → r.status ≢ Status.missed
      → r.status ≢ Status.interrupted
      → (s ≤ r.scheduled_at + threshold * second → (row_timing round3 r now threshold).0 ≡ on_time)
        × ((row_timing round3 r now threshold).0 ≡ on_time
            → s ≤ r.scheduled_at + threshold * second + 500)
        × (((row_timing round3 r now threshold).0 ≡ on_time)
            ⊎ ((row_timing round3 r now threshold).0 ≡ late))
  unfolding row_timing
  on_time-threshold s e m i =
      let a = round3.not_below (s - r.scheduled_at) in
      let b = round3.not_above (s - r.scheduled_at) in (ground arith, ground arith, ground arith)

  -- For a valid row, missed means: recorded as missed, or still scheduled with its time passed.
  missed_iff :
      RowIsValid r
      → ((row_timing round3 r now threshold).0 ≡ missed)
        ↔ ((r.status ≡ Status.missed) ⊎ ((r.status ≡ Status.scheduled) × (r.scheduled_at ≤ now)))
  unfolding row_timing
  missed_iff v = (λ h. ground arith, λ h. ground arith)

  -- A delay is reported exactly if the execution has been started, for every valid row.
  pub delay_iff :
      RowIsValid r → ((row_timing round3 r now threshold).1 ≡ none) ↔ (r.started_at ≡ none)
  unfolding row_timing
  delay_iff v = (λ h. ground arith, λ h. ground arith)
