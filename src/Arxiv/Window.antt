-- ===== src/Arxiv/Window.antt =====
-- Query windows: `QueryWindow`, `partition_windows` and `_split_window`. Instants are microseconds.
pub mod Tiling
use signal_observatory.Prelude.{
  ℕ, zero, suc, ◌+◌, ◌-◌, ◌*◌, ◌/◌, ◌%◌, Bool, true, false, ◌||◌, Option, none, some, List, [], ◌∷◌,
  ltb, leb, ◌==◌, if◌then◌else◌, min, Result, ok, err,
}
use signal_observatory.Errors.{Error, window_days}
use signal_observatory.Clock.{day, minute}

pub record QueryWindow : Type 0 where
  pub window_from : ℕ
  pub window_until : ℕ

abbrev pub window : ℕ → ℕ → QueryWindow
window a b = record { window_from = a; window_until = b }

-- The `while` loop; `none` if the fuel runs out.
unfoldable pub partition_from : ℕ → ℕ → ℕ → ℕ → Option (List QueryWindow)
partition_from zero cursor until step = none
partition_from (suc fuel) cursor until step = elim (ltb cursor until) [
  | false ↦ some []
  | true ↦ elim (partition_from fuel (min (cursor + step) until) until step) [
    | none ↦ none
    | some rest ↦ some (window cursor (min (cursor + step) until) ∷ rest)
  ]
]

-- One round takes at least a microsecond off what is left, hence the fuel.
unfoldable pub partition_windows : ℕ → ℕ → ℕ → Option (Result Error (List QueryWindow))
unfolding partition_from
partition_windows from until days =
    if ltb days 1
    then some (err window_days)
    else elim (partition_from (suc (until - from)) from until (days * day)) [
      | none ↦ none
      | some ws ↦ some (ok ws)
    ]

-- `duration / 2` of a `timedelta`: to the microsecond, ties to even.
half : ℕ → ℕ
half d = let k = d / 2 in if (d % 2 == 0) || (k % 2 == 0) then k else k + 1

-- `_split_window`, with the setting `arxiv_min_query_partition_minutes`.
unfoldable pub split_window : ℕ → QueryWindow → Option (QueryWindow × QueryWindow)
unfolding half
split_window minutes w =
    let duration = w.window_until - w.window_from in
    let minimum = minutes * minute in
    let midpoint = w.window_from + half duration in
    if leb duration minimum
    then none
    else (if ltb (midpoint - w.window_from) minimum || ltb (w.window_until - midpoint) minimum
        then none
        else some (window w.window_from midpoint, window midpoint w.window_until))
