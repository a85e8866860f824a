-- ===== src/Scheduler/Punctuality/NextWindow.antt =====
-- The `while` loop that looks for the next qualification window ends.
use signal_observatory.Prelude.{ℕ, ◌≤◌, ◌≡◌, false, not, List, exists}
use signal_observatory.Scheduler.Row.{Row}
use signal_observatory.Scheduler.Timing.{Rounding}
use signal_observatory.Scheduler.Punctuality.{rows_at, is_tagged}

module _ (round3 : Rounding) (now threshold : ℕ) (rows : List Row) where
  -- What the search for a free window finds.
  pub record IsFree (from w : ℕ) : Type 0 where
    pub not_before : from ≤ w
    pub free : exists (λ r. not (is_tagged r)) (rows_at rows w) ≡ false
