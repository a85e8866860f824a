-- ===== src/Tests/VerifierTests.antt =====
-- The timing classes and the punctuality verifier on small histories.
use signal_observatory.Prelude.{◌+◌, ◌*◌, ◌/◌, ◌≡◌, refl, some, none, [], ◌∷◌, arith, All, length}
use signal_observatory.Clock.{hour, second}
use signal_observatory.Scheduler.Row.{Row, running, text}
use signal_observatory.Scheduler.Timing.{TimingState, Rounding, row_timing}
use signal_observatory.Scheduler.Punctuality.{
  passed, continuity_state, punctuality_state, due_windows,
}
use signal_observatory.Scheduler.Punctuality.Qualification.{IsOnTime, punctuality_passed}
use signal_observatory.Tests.SchedulerTests.{row, first_window, done_row}

-- Rounding half up.
abbrev half_up : Rounding
half_up = record {
  to_ms = λ us. (us + 500) / 1000;
  not_below = λ us. omega arith;
  not_above = λ us. omega arith;
}

abbrev late_row : Row
late_row = row first_window running (some (first_window + 301 * second)) none

abbrev tagged_row : Row
tagged_row = record done_row {
  metadata = ("punctuality_contract", text "scheduler-punctuality-v2") ∷ [];
}

late_timing :
    row_timing half_up late_row (first_window + hour) 300 ≡ (TimingState.late, some 301000)
unfolding row_timing
late_timing = refl

continuity_run :
    continuity_state half_up (first_window + hour) 300 (done_row ∷ []) "arxiv" (first_window ∷ [])
    ≡ passed
unfolding continuity_state row_timing
continuity_run = refl

qualified : punctuality_state half_up (first_window + hour) 300 (tagged_row ∷ []) 1 ≡ (passed, 0)
unfolding punctuality_state row_timing
qualified = refl

punctuality_passed_example :
    (length (due_windows half_up (first_window + hour) 300 (tagged_row ∷ []) 1) ≡ 1)
    × All
        (IsOnTime half_up (first_window + hour) 300 (tagged_row ∷ []))
        (due_windows half_up (first_window + hour) 300 (tagged_row ∷ []) 1)
punctuality_passed_example =
    punctuality_passed half_up (first_window + hour) 300 (tagged_row ∷ []) 1 qualified
