-- ===== src/Scheduler/Punctuality/Qualification.antt =====
-- When the punctuality qualification passes, and the search for its next window.
use signal_observatory.Prelude.{
  ℕ, zero, suc, ◌+◌, ◌-◌, ◌≤◌, ◌≡◌, ◌≢◌, refl, inl, inr, Bool, true, false, Option, none, some,
  List, [], ◌∷◌, leb, leb→le, ◌==◌, is_empty, length, select, All, Member, Member_of_select,
  Bool-cases, arith,
}
use signal_observatory.Clock.{day}
use signal_observatory.Scheduler.Row.{Row, is_terminal}
use signal_observatory.Scheduler.Timing.{TimingState, Rounding, row_timing}
use signal_observatory.Scheduler.Punctuality.{
  rows_at, count, days_on, passed, timing, matching, unmatched, matched_twice, completed, is_timing,
  disqualifying, due_windows, expected, earliest, tagged, is_tagged, punctuality_state,
}

length-select : (p : ℕ → Bool) (ts : List ℕ) → length (select p ts) ≤ length ts
length-select p [] = omega arith
length-select p (t ∷ ts) = ground (arith, length-select p ts)

length-days_on : (n start : ℕ) → length (days_on n start) ≡ n
length-days_on zero start = refl
length-days_on (suc n) start = omega (arith, length-days_on n (start + day))

All-select : (p : ℕ → Bool) (ts : List ℕ) → All (λ t. p t ≡ true) (select p ts)
All-select p [] = tt
All-select p (t ∷ ts) = elim (Bool-cases (p t)) [
  | inl e ↦ rw e (e, All-select p ts)
  | inr e ↦ rw e (All-select p ts)
]

module _ (round3 : Rounding) (now threshold : ℕ) (rows : List Row) where
  abbrev time_of : Row → TimingState
  time_of r = timing round3 now threshold rows r

  -- One tagged execution, which has ended and was dispatched on time.
  pub record IsOnTime (w : ℕ) : Type 0 where
    pub row : Row
    pub only : matching round3 now threshold rows w ≡ row ∷ []
    pub ended : is_terminal row.status ≡ true
    pub punctual : time_of row ≡ TimingState.on_time

  pending_future : (r : Row) → r.scheduled_at ≤ now → time_of r ≢ TimingState.pending
  unfolding row_timing
  pending_future r h e = ground arith

  at_window : (w : ℕ) (r : Row) → matching round3 now threshold rows w ≡ r ∷ [] → r.scheduled_at ≡ w
  at_window w r e =
      let m : Member r (matching round3 now threshold rows w) = rw e (inl refl) in
      let (n, _) = Member_of_select is_tagged r (rows_at rows w) m in
      let (_, h) = Member_of_select (λ s. s.scheduled_at == w) r rows n in ground arith

  -- What a window's rows count as.
  record Counts (l : List Row) : Type 0 where
    one : (r : Row) × (l ≡ r ∷ [])
    at_most_one : count (λ r. is_terminal r.status) l ≤ 1

  one_match : (l : List Row) → is_empty l ≡ false → length l - 1 ≡ 0 → Counts l
  one_match [] a b = cc
  one_match (r ∷ []) a b = record { one = (r, refl); at_most_one = ground arith }
  one_match (r ∷ s ∷ rs) a b = absurd (omega arith)

  -- The counts of a list of windows without a fault.
  record IsClean (ws : List ℕ) : Type 0 where
    all_matched : is_empty (unmatched round3 now threshold rows ws) ≡ true
    none_twice : matched_twice round3 now threshold rows ws ≡ 0
    none_late : disqualifying round3 now threshold rows ws ≡ 0

  IsClean-tail :
      (w : ℕ) (ws : List ℕ)
      → IsClean (w ∷ ws)
      → Counts (matching round3 now threshold rows w) × IsClean ws
  IsClean-tail w ws c = elim (Bool-cases (is_empty (matching round3 now threshold rows w))) [
    | inl e ↦ cc (rw e at c.all_matched)
    | inr e ↦ (
      one_match (matching round3 now threshold rows w) e (omega (arith, c.none_twice)),
      record {
        all_matched = rw e at c.all_matched;
        none_twice = omega (arith, c.none_twice);
        none_late = omega (arith, c.none_late);
      },
    )
  ]

  completed_le : (ws : List ℕ) → IsClean ws → completed round3 now threshold rows ws ≤ length ws
  completed_le [] c = omega arith
  completed_le (w ∷ ws) c =
      let (a, rest) = IsClean-tail w ws c in omega (arith, a.at_most_one, completed_le ws rest)

  on_time_row :
      (l : List Row) (r : Row)
      → l ≡ r ∷ []
      → r.scheduled_at ≤ now
      → count (λ s. is_timing round3 now threshold rows TimingState.late (time_of s)) l ≡ 0
      → count (λ s. is_timing round3 now threshold rows TimingState.missed (time_of s)) l ≡ 0
      → count (λ s. is_timing round3 now threshold rows TimingState.interrupted (time_of s)) l ≡ 0
      → 1 ≤ count (λ s. is_terminal s.status) l
      → (is_terminal r.status ≡ true) × (time_of r ≡ TimingState.on_time)
  on_time_row l r e due a b c d = single (rw e at a) (rw e at b) (rw e at c) (rw e at d)
    where
      single :
          count (λ s. is_timing round3 now threshold rows TimingState.late (time_of s)) (r ∷ []) ≡ 0
          → count (λ s. is_timing round3 now threshold rows TimingState.missed (time_of s)) (r ∷ [])
            ≡ 0
          → count
              (λ s. is_timing round3 now threshold rows TimingState.interrupted (time_of s))
              (r ∷ [])
            ≡ 0
          → 1 ≤ count (λ s. is_terminal s.status) (r ∷ [])
          → (is_terminal r.status ≡ true) × (time_of r ≡ TimingState.on_time)
      single a b c d = let p = pending_future r due in ground arith

  All-IsOnTime :
      (ws : List ℕ)
      → All (λ w. leb w now ≡ true) ws
      → IsClean ws
      → length ws ≤ completed round3 now threshold rows ws
      → All IsOnTime ws
  All-IsOnTime [] due c h = tt
  All-IsOnTime (w ∷ ws) due c h =
      let (counts, rest) = IsClean-tail w ws c in
      let (r, only) = counts.one in
      let le = completed_le ws rest in
      let (ended, punctual) =
        on_time_row (matching round3 now threshold rows w) r only
          (rw (at_window w r only) (leb→le w now due.0)) (omega (arith, c.none_late))
          (omega (arith, c.none_late)) (omega (arith, c.none_late)) (omega (arith, le)) in
      (
        record { row = r; only = only; ended = ended; punctual = punctual },
        All-IsOnTime ws due.1 rest (omega (arith, counts.at_most_one)),
      )

  passed_counts :
      (n : ℕ)
      → punctuality_state round3 now threshold rows n ≡ (passed, 0)
      → IsClean (due_windows round3 now threshold rows n)
        × (n ≤ completed round3 now threshold rows (due_windows round3 now threshold rows n))
  unfolding punctuality_state
  passed_counts n h = (ground arith, ground arith)

  length-due_windows : (n : ℕ) → length (due_windows round3 now threshold rows n) ≤ n
  length-due_windows n =
      bound (earliest round3 now threshold rows (tagged round3 now threshold rows))
    where
      bound :
          (o : Option ℕ)
          → length (select (λ w. leb w now) (expected round3 now threshold rows n o)) ≤ n
      bound none = omega arith
      bound (some start) =
          omega (arith, length-select (λ w. leb w now) (days_on n start), length-days_on n start)

  -- The qualification passes only if all n windows of the contract are due, and each has exactly
  -- one tagged execution, which has ended and was dispatched on time.
  pub punctuality_passed :
      (n : ℕ)
      → punctuality_state round3 now threshold rows n ≡ (passed, 0)
      → (length (due_windows round3 now threshold rows n) ≡ n)
        × All IsOnTime (due_windows round3 now threshold rows n)
  punctuality_passed n h =
      let (c, done) = passed_counts n h in
      let upper = length-due_windows n in
      let lower = completed_le (due_windows round3 now threshold rows n) c in
      (
        omega arith,
        All-IsOnTime (due_windows round3 now threshold rows n)
            (All-select (λ w. leb w now) (expected round3 now threshold rows n _)) c (omega arith),
      )
