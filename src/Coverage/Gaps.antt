-- ===== src/Coverage/Gaps.antt =====
-- The gaps between windows are the instants between two windows' starts that no window covers.
use signal_observatory.Prelude.{
  ℕ, ◌≤◌, Bool, true, false, not, ◌&&◌, ◌||◌, List, [], ◌∷◌, exists, ltb, leb, max, ◌≡◌, refl, ◌∙◌,
  arith, Bool-cases, inl, inr, All,
}
use signal_observatory.Coverage.{
  Window, insert_window, sort_windows, gaps_from, gaps_between, cursor_gaps,
}

-- A window is half-open.
abbrev pub covers : ℕ → Window → Bool
covers t w = leb w.from t && ltb t w.until

abbrev pub started : ℕ → Window → Bool
started t w = leb w.from t

abbrev pub starts_later : ℕ → Window → Bool
starts_later t w = ltb t w.from

abbrev pub IsOrdered : Window → Type 0
IsOrdered w = w.from ≤ w.until

abbrev NotBefore : ℕ → List Window → Type 0
NotBefore f ws = All (λ v. f ≤ v.from) ws

abbrev Sorted : List Window → Type 0
Sorted [] = Unit
Sorted (w ∷ ws) = NotBefore w.from ws × Sorted ws

exists-insert_window :
    (p : Window → Bool) (w : Window) (ws : List Window)
    → exists p (insert_window w ws) ≡ (p w || exists p ws)
unfolding insert_window
exists-insert_window p w [] = refl
exists-insert_window p w (v ∷ vs) = ground (arith, exists-insert_window p w vs)

exists-sort_windows :
    (p : Window → Bool) (ws : List Window) → exists p (sort_windows ws) ≡ exists p ws
unfolding sort_windows
exists-sort_windows p [] = refl
exists-sort_windows p (w ∷ ws) =
    exists-insert_window p w (sort_windows ws) ∙ ground (arith, exists-sort_windows p ws)

All-insert_window :
    (P : Window → Type 0) (w : Window) (ws : List Window)
    → P w
    → All P ws
    → All P (insert_window w ws)
unfolding insert_window
All-insert_window P w [] p a = (p, tt)
All-insert_window P w (v ∷ vs) p a = elim (Bool-cases (leb w.from v.from)) [
  | inl q ↦ rw q (p, a)
  | inr q ↦ rw q (a.0, All-insert_window P w vs p a.1)
]

NotBefore-weaken : {f g : ℕ} (ws : List Window) → f ≤ g → NotBefore g ws → NotBefore f ws
NotBefore-weaken [] h a = tt
NotBefore-weaken (v ∷ vs) h a = (omega arith, NotBefore-weaken vs h a.1)

insert_window-Sorted : (w : Window) (ws : List Window) → Sorted ws → Sorted (insert_window w ws)
unfolding insert_window
insert_window-Sorted w [] s = (tt, tt)
insert_window-Sorted w (v ∷ vs) s = elim (Bool-cases (leb w.from v.from)) [
  | inl q ↦ let h : w.from ≤ v.from = ground arith in rw q ((h, NotBefore-weaken vs h s.0), s)
  | inr q ↦
      let h : v.from ≤ w.from = ground arith in
      rw q (All-insert_window _ w vs h s.0, insert_window-Sorted w vs s.1)
]

sort_windows-Sorted : (ws : List Window) → Sorted (sort_windows ws)
unfolding sort_windows
sort_windows-Sorted [] = tt
sort_windows-Sorted (w ∷ ws) = insert_window-Sorted w (sort_windows ws) (sort_windows-Sorted ws)

All-sort_windows : (P : Window → Type 0) (ws : List Window) → All P ws → All P (sort_windows ws)
unfolding sort_windows
All-sort_windows P [] a = tt
All-sort_windows P (w ∷ ws) a =
    All-insert_window P w (sort_windows ws) a.0 (All-sort_windows P ws a.1)

uncovered_before :
    (t f : ℕ) (ws : List Window) → NotBefore f ws → ltb t f ≡ true → exists (covers t) ws ≡ false
uncovered_before t f [] a h = refl
uncovered_before t f (v ∷ vs) a h = ground (arith, uncovered_before t f vs)

gaps_from_lem :
    (t current_end : ℕ) (ws : List Window)
    → Sorted ws
    → exists (covers t) (gaps_from current_end ws)
      ≡ (leb current_end t && exists (starts_later t) ws && not (exists (covers t) ws))
unfolding gaps_from
gaps_from_lem t c [] s = ground arith
gaps_from_lem t c (w ∷ ws) s = elim (Bool-cases (ltb t w.from)) [
  | inl q ↦
      ground (arith, gaps_from_lem t (max c w.until) ws s.1, uncovered_before t w.from ws s.0 q)
  | inr q ↦ ground (arith, gaps_from_lem t (max c w.until) ws s.1)
]

started_none :
    (t f : ℕ) (ws : List Window) → NotBefore f ws → ltb t f ≡ true → exists (started t) ws ≡ false
started_none t f [] a h = refl
started_none t f (v ∷ vs) a h = ground (arith, started_none t f vs)

gaps_between_lem :
    (t : ℕ) (ws : List Window)
    → Sorted ws
    → All IsOrdered ws
    → exists (covers t) (gaps_between ws)
      ≡ (exists (started t) ws && exists (starts_later t) ws && not (exists (covers t) ws))
unfolding gaps_between
gaps_between_lem t [] s o = refl
gaps_between_lem t (w ∷ ws) s o = elim (Bool-cases (ltb t w.from)) [
  | inl q ↦ ground (
    arith,
    gaps_from_lem t w.until ws s.1,
    uncovered_before t w.from ws s.0 q,
    started_none t w.from ws s.0 q,
  )
  | inr q ↦ ground (arith, gaps_from_lem t w.until ws s.1)
]

-- For windows that do not end before they start: an instant lies in a gap exactly if a window has
-- started by then, one starts later, and none covers it.
pub covers-cursor_gaps :
    (t : ℕ) (ws : List Window)
    → All IsOrdered ws
    → exists (covers t) (cursor_gaps ws)
      ≡ (exists (started t) ws && exists (starts_later t) ws && not (exists (covers t) ws))
unfolding cursor_gaps
covers-cursor_gaps t ws o =
    gaps_between_lem t (sort_windows ws) (sort_windows-Sorted ws) (All-sort_windows IsOrdered ws o)
    ∙ rw (exists-sort_windows (started t) ws)
        (rw (exists-sort_windows (starts_later t) ws) (rw (exists-sort_windows (covers t) ws) refl))
