-- ===== src/Arxiv/Window/Tiling.antt =====
-- Partitions and splits tile their window: no gap, no overlap.
use signal_observatory.Prelude.{
  ℕ, zero, suc, ◌+◌, ◌-◌, ◌*◌, ◌≤◌, ◌<◌, ◌≡◌, refl, inl, inr, false, none, some, List, [], ◌∷◌,
  ◌++◌, ltb, ltb→lt, ◌↔◌, min, All, Bool-cases, arith, ok,
}
use signal_observatory.Clock.{day, minute}
use signal_observatory.Arxiv.Window.{
  QueryWindow, window, partition_from, partition_windows, split_window,
}

-- The windows cover `lo` to `hi`: each begins where the one before it ends, and none is empty.
abbrev pub Tiles : ℕ → ℕ → List QueryWindow → Type 0
Tiles lo hi [] = lo ≡ hi
Tiles lo hi (w ∷ ws) =
    (w.window_from ≡ lo) × (w.window_from < w.window_until) × Tiles w.window_until hi ws

pub Tiles-append :
    (lo hi : ℕ) (xs ys : List QueryWindow) (mid : ℕ)
    → Tiles lo mid xs
    → Tiles mid hi ys
    → Tiles lo hi (xs ++ ys)
Tiles-append lo hi [] ys mid p q = rw p q
Tiles-append lo hi (x ∷ xs) ys mid p q = (p.0, p.1, Tiles-append x.window_until hi xs ys mid p.2 q)

-- Where the first of two groups of windows ends.
pub Tiles-parts :
    (lo hi : ℕ) (xs ys : List QueryWindow)
    → Tiles lo hi (xs ++ ys)
    → (mid : ℕ) × Tiles lo mid xs × Tiles mid hi ys
Tiles-parts lo hi [] ys p = (lo, refl, p)
Tiles-parts lo hi (x ∷ xs) ys p =
    let (mid, a, b) = Tiles-parts x.window_until hi xs ys p.2 in (mid, (p.0, p.1, a), b)

abbrev pub NoLonger : ℕ → QueryWindow → Type 0
NoLonger step w = w.window_until ≤ w.window_from + step

partition_from-Tiles :
    (fuel cursor until step : ℕ)
    → cursor ≤ until
    → until - cursor < fuel
    → 0 < step
    → (ws : List QueryWindow) × (partition_from fuel cursor until step ≡ some ws)
      × Tiles cursor until ws
      × All (NoLonger step) ws
unfolding partition_from
partition_from-Tiles zero cursor until step le h k = elim h [ ]
partition_from-Tiles (suc fuel) cursor until step le h k = elim (Bool-cases (ltb cursor until)) [
  | inr e ↦ ([], rw (e, partition_from), ground arith, tt)
  | inl e ↦
      (let lt : cursor < until = ltb→lt cursor until e in
        let next = min (cursor + step) until in
        let (ws, r, t, a) =
          partition_from-Tiles fuel next until step (omega arith) (omega arith) k in
        (
          window cursor next ∷ ws,
          rw (e, partition_from) (rw r),
          (refl, omega arith, t),
          (omega arith, a),
        ))
]

not_less : (d : ℕ) → 1 ≤ d → ltb d 1 ≡ false
not_less d h = ground arith

-- A backfill range is partitioned into windows that tile it exactly, each at most the configured
-- number of days long; the loop ends.
pub partition_windows-Tiles :
    (from until days : ℕ)
    → from ≤ until
    → 1 ≤ days
    → (ws : List QueryWindow) × (partition_windows from until days ≡ some (ok ws))
      × Tiles from until ws
      × All (NoLonger (days * day)) ws
unfolding partition_windows
partition_windows-Tiles from until days le h =
    let (ws, r, t, a) =
      partition_from-Tiles (suc (until - from)) from until (days * day) le (omega arith)
        (omega arith) in
    (ws, rw (not_less days h, partition_windows) (rw r), t, a)

-- A split gives two windows that tile the window, each at least the configured minimum long and
-- strictly shorter than the window.
pub split_window-Tiles :
    (minutes : ℕ) (w : QueryWindow) {a b : QueryWindow}
    → 1 ≤ minutes
    → split_window minutes w ≡ some (a, b)
    → Tiles w.window_from w.window_until (a ∷ b ∷ [])
      × (a.window_from + minutes * minute ≤ a.window_until)
      × (b.window_from + minutes * minute ≤ b.window_until)
      × (a.window_until < w.window_until)
      × (w.window_from < b.window_from)
unfolding split_window
split_window-Tiles minutes w h e = ground arith

-- A window is left whole exactly if it is shorter than twice the configured minimum.
split_window-none_iff :
    (minutes : ℕ) (w : QueryWindow)
    → 1 ≤ minutes
    → (split_window minutes w ≡ none) ↔ (w.window_until - w.window_from < 2 * (minutes * minute))
unfolding split_window
split_window-none_iff minutes w h = (λ e. ground arith, λ k. ground arith)
