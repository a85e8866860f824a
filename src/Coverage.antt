-- ===== src/Coverage.antt =====
-- `MissingObservationDetector.between` and `CoverageDeriver._cursor_gaps` (coverage.py). A date is its
-- day number, an instant its microseconds in UTC.
pub mod Missing
pub mod Gaps
pub mod Derive
pub mod Rebuild
use signal_observatory.Prelude.{
  ℕ, zero, suc, ◌+◌, ◌-◌, Bool, true, false, not, List, [], ◌∷◌, ◌++◌, map, if◌then◌else◌, exists,
  select, ltb, leb, ◌==◌, max,
}

-- `sorted(set(dates))`.
unfoldable pub insert_day : ℕ → List ℕ → List ℕ
insert_day d [] = d ∷ []
insert_day d (e ∷ es) =
    let rest = insert_day d es in
    if d == e then e ∷ es else (if ltb d e then d ∷ e ∷ es else e ∷ rest)

unfoldable pub sort_days : List ℕ → List ℕ
unfolding insert_day
sort_days [] = []
sort_days (d ∷ ds) = insert_day d (sort_days ds)

abbrev pub last_day : ℕ → List ℕ → ℕ
last_day d [] = d
last_day d (e ∷ es) = last_day e es

-- `while cursor <= observed[-1]`, with a unit of fuel for each day that is left.
unfoldable pub days_from : ℕ → ℕ → List ℕ
days_from cursor zero = []
days_from cursor (suc left) = cursor ∷ days_from (cursor + 1) left

-- The days of the range that are not observed.
unfoldable pub absent : List ℕ → List ℕ
unfolding days_from
absent [] = []
absent (d ∷ []) = []
absent (d ∷ e ∷ es) =
    select (λ x. not (exists (λ o. o == x) (d ∷ e ∷ es))) (days_from d (last_day e es + 1 - d))

unfoldable pub between : List ℕ → List ℕ
unfolding absent sort_days
between dates = absent (sort_days dates)

pub record Window : Type 0 where
  pub from : ℕ
  pub until : ℕ

-- `sorted(…, key=lambda item: item[0])`, which keeps the order of equal keys.
insert_window : Window → List Window → List Window
insert_window w [] = w ∷ []
insert_window w (v ∷ vs) =
    let rest = insert_window w vs in if leb w.from v.from then w ∷ v ∷ vs else v ∷ rest

unfoldable pub sort_windows : List Window → List Window
unfolding insert_window
sort_windows [] = []
sort_windows (w ∷ ws) = insert_window w (sort_windows ws)

-- The loop over the later windows: `current_end` is the end of what is covered so far.
unfoldable pub gaps_from : ℕ → List Window → List Window
gaps_from current_end [] = []
gaps_from current_end (w ∷ ws) =
    let rest = gaps_from (max current_end w.until) ws in
    if ltb current_end w.from then record { from = current_end; until = w.from } ∷ rest else rest

unfoldable pub gaps_between : List Window → List Window
unfolding gaps_from
gaps_between [] = []
gaps_between (w ∷ ws) = gaps_from w.until ws

unfoldable pub cursor_gaps : List Window → List Window
unfolding gaps_between sort_windows
cursor_gaps windows = gaps_between (sort_windows windows)
