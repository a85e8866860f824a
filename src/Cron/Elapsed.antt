-- ===== src/Cron/Elapsed.antt =====
-- `elapsed_cron_runs` lists every window between two times, each once and in order.
use signal_observatory.Prelude.{
  ℕ, zero, suc, ◌-◌, ◌≤◌, ◌<◌, ◌≡◌, sym, ap, ◌∙◌, inl, inr, false, some, List, [], ◌∷◌, ◌++◌, arith,
  dec_lt, ltb, ltb→lt, Bool-cases, Member, ok,
}
use mathlib.Core.List.{append-nil, append_assoc}
use signal_observatory.Text.{Text}
use signal_observatory.Clock.{aware}
use signal_observatory.Cron.{Cron, parse_cron, next_cron_run, elapsed_from, elapsed_cron_runs}
use signal_observatory.Cron.Next.{Matches, IsNext, next_cron_run-IsNext}

-- Strictly increasing, above `lo`.
abbrev pub Ascending : ℕ → List ℕ → Type 0
Ascending lo [] = Unit
Ascending lo (t ∷ ts) = (lo < t) × Ascending t ts

-- `ts` holds exactly the windows of `c` after `lo` and up to `hi`, in order.
pub record AreWindows (c : Cron) (lo hi : ℕ) (ts : List ℕ) : Type 0 where
  pub ascending : Ascending lo ts
  pub sound : (t : ℕ) → Member t ts → (lo < t) × (t ≤ hi) × Matches c t
  pub complete : (t : ℕ) → lo < t → t ≤ hi → Matches c t → Member t ts

module _ (c : Cron) (lo hi : ℕ) {t : ℕ} (next : IsNext c lo t) where
  none_left : hi < t → AreWindows c lo hi []
  none_left h = record {
    ascending = tt;
    sound = λ u m. elim m [ ];
    complete = λ u p q w. absurd (omega (arith, next.least u p w));
  }

  one_more : {ts : List ℕ} → t ≤ hi → AreWindows c t hi ts → AreWindows c lo hi (t ∷ ts)
  one_more {ts} h rest = record {
    ascending = (next.after, rest.ascending);
    sound = in_range;
    complete = λ u p q w. split u p q w (dec_lt t u);
  }
    where
      in_range : (u : ℕ) → Member u (t ∷ ts) → (lo < u) × (u ≤ hi) × Matches c u
      in_range u (inl e) = (rw e next.after, rw e h, rw e next.window)
      in_range u (inr m) = let (a, b, w) = rest.sound u m in (omega (arith, next.after), b, w)

      split : (u : ℕ) → lo < u → u ≤ hi → Matches c u → Dec (t < u) → Member u (t ∷ ts)
      split u p q w (yes d) = inr (rest.complete u d q w)
      split u p q w (no d) = inl (omega (arith, next.least u p w))

-- What the loop appends to its accumulator.
record Lists (schedule : Text) (c : Cron) (fuel lo hi : ℕ) : Type 0 where
  found : List ℕ
  appended : (acc : List ℕ) → elapsed_from fuel schedule lo hi acc ≡ some (ok (acc ++ found))
  windows : AreWindows c lo hi found

not_late : (hi t : ℕ) → ltb hi t ≡ false → t ≤ hi
not_late hi t h = ground arith

-- A round that appends a window, and the rounds that follow.
one_round :
    (fuel : ℕ) (schedule : Text) (c : Cron) (lo hi t : ℕ)
    → next_cron_run schedule (aware lo) ≡ ok t
    → IsNext c lo t
    → ltb hi t ≡ false
    → Lists schedule c fuel t hi
    → Lists schedule c (suc fuel) lo hi
unfolding elapsed_from
one_round fuel schedule c lo hi t e next due rest = record {
  found = t ∷ rest.found;
  appended = λ acc.
      rw (e, elapsed_from)
        (rw due (
          rest.appended (acc ++ t ∷ [])
          ∙ ap (λ x. some (ok x)) (append_assoc acc (t ∷ []) rest.found)));
  windows = one_more c lo hi next (not_late hi t due) rest.windows;
}

elapsed_from-Lists :
    (fuel : ℕ) (schedule : Text) (c : Cron) (lo hi : ℕ)
    → parse_cron schedule ≡ ok c
    → hi - lo < fuel
    → Lists schedule c fuel lo hi
unfolding elapsed_from
elapsed_from-Lists zero schedule c lo hi p h = elim h [ ]
elapsed_from-Lists (suc fuel) schedule c lo hi p h =
    let (t, e, next) = next_cron_run-IsNext schedule c lo p in
    elim (Bool-cases (ltb hi t)) [
      | inl late ↦ record {
        found = [];
        appended =
            λ acc. rw (e, elapsed_from) (rw late (ap (λ x. some (ok x)) (sym (append-nil acc))));
        windows = none_left c lo hi next (ltb→lt hi t late);
      }
      | inr due ↦
          one_round fuel schedule c lo hi t e next due (
            elapsed_from-Lists fuel schedule c t hi p
              (omega (arith, not_late hi t due, next.after)))
    ]

-- For a valid schedule and aware bounds the call returns, and its result holds exactly the windows
-- after the first bound up to the second, each once and in increasing order.
pub elapsed_cron_runs-AreWindows :
    (schedule : Text) (c : Cron) (after until : ℕ)
    → parse_cron schedule ≡ ok c
    → (ts : List ℕ) × (elapsed_cron_runs schedule (aware after) (aware until) ≡ some (ok ts))
      × AreWindows c after until ts
unfolding elapsed_cron_runs
elapsed_cron_runs-AreWindows schedule c after until p =
    let r = elapsed_from-Lists (suc (until - after)) schedule c after until p (omega arith) in
    (r.found, r.appended [], r.windows)
