-- ===== src/Coverage/Missing.antt =====
-- The missing days are those without an observation between an earlier and a later one.
use signal_observatory.Prelude.{
  ℕ, zero, suc, ◌+◌, ◌-◌, ◌≤◌, Bool, true, false, not, ◌&&◌, ◌||◌, List, [], ◌∷◌, exists, select,
  ltb, leb, ◌==◌, ◌≡◌, refl, ap, ◌∙◌, arith, Bool-cases, inl, inr,
}
use signal_observatory.Coverage.{insert_day, sort_days, last_day, days_from, absent, between}

abbrev pub is_day : ℕ → ℕ → Bool
is_day x d = d == x

-- Increasing, from `f` on.
abbrev Increasing : ℕ → List ℕ → Type 0
Increasing f [] = Unit
Increasing f (d ∷ ds) = (f ≤ d) × Increasing (d + 1) ds

exists-insert_day :
    (p : ℕ → Bool) (d : ℕ) (ds : List ℕ) → exists p (insert_day d ds) ≡ (p d || exists p ds)
unfolding insert_day
exists-insert_day p d [] = refl
exists-insert_day p d (e ∷ es) = elim (Bool-cases (d == e)) [
  | inl q ↦ let h : d ≡ e = ground (arith) in rw h (ground arith)
  | inr q ↦ ground (arith, exists-insert_day p d es)
]

exists-sort_days : (p : ℕ → Bool) (ds : List ℕ) → exists p (sort_days ds) ≡ exists p ds
unfolding sort_days
exists-sort_days p [] = refl
exists-sort_days p (d ∷ ds) =
    exists-insert_day p d (sort_days ds) ∙ ground (arith, exists-sort_days p ds)

insert_day-Increasing :
    (f d : ℕ) (ds : List ℕ) → f ≤ d → Increasing f ds → Increasing f (insert_day d ds)
unfolding insert_day
insert_day-Increasing f d [] h a = (h, tt)
insert_day-Increasing f d (e ∷ es) h a = elim (Bool-cases (d == e)) [
  | inl q ↦ rw q a
  | inr q ↦ elim (Bool-cases (ltb d e)) [
    | inl l ↦ rw q (rw l (h, (ground arith, a.1)))
    | inr l ↦
        let k : e + 1 ≤ d = ground arith in
        rw q (rw l (a.0, insert_day-Increasing (e + 1) d es k a.1))
  ]
]

sort_days-Increasing : (ds : List ℕ) → Increasing 0 (sort_days ds)
unfolding sort_days
sort_days-Increasing [] = tt
sort_days-Increasing (d ∷ ds) =
    insert_day-Increasing 0 d (sort_days ds) (omega arith) (sort_days-Increasing ds)

exists-days_from :
    (x cursor left : ℕ)
    → exists (is_day x) (days_from cursor left) ≡ (leb cursor x && ltb x (cursor + left))
unfolding days_from
exists-days_from x cursor zero = ground arith
exists-days_from x cursor (suc left) = ground (arith, exists-days_from x (cursor + 1) left)

exists-select :
    (x : ℕ) (p : ℕ → Bool) (ds : List ℕ)
    → exists (is_day x) (select p ds) ≡ (p x && exists (is_day x) ds)
exists-select x p [] = ground arith
exists-select x p (d ∷ ds) = elim (Bool-cases (d == x)) [
  | inl q ↦ let h : d ≡ x = ground arith in rw h (ground (arith, exists-select x p ds))
  | inr q ↦ ground (arith, exists-select x p ds)
]

-- In an increasing list the last day is the latest.
exists_later :
    (x d : ℕ) (es : List ℕ)
    → Increasing (d + 1) es
    → exists (λ e. ltb x e) (d ∷ es) ≡ ltb x (last_day d es)
exists_later x d [] a = ground arith
exists_later x d (e ∷ es) a = ground (arith, exists_later x e es a.1)

exists_earlier :
    (x d : ℕ) (es : List ℕ) → Increasing (d + 1) es → exists (λ e. ltb e x) (d ∷ es) ≡ ltb d x
exists_earlier x d [] a = ground arith
exists_earlier x d (e ∷ es) a = ground (arith, exists_earlier x e es a.1)

last_day_bound : (d : ℕ) (es : List ℕ) → Increasing (d + 1) es → d ≤ last_day d es
last_day_bound d [] a = omega arith
last_day_bound d (e ∷ es) a =
    let h = last_day_bound e es a.1 in let k : d + 1 ≤ e = a.0 in omega arith

last_day_observed : (d : ℕ) (es : List ℕ) → exists (is_day (last_day d es)) (d ∷ es) ≡ true
last_day_observed d [] = ground arith
last_day_observed d (e ∷ es) = ground (arith, last_day_observed e es)

not_last :
    (x d : ℕ) (es : List ℕ) → exists (is_day x) (d ∷ es) ≡ false → (x == last_day d es) ≡ false
not_last x d es h = elim (Bool-cases (x == last_day d es)) [
  | inl q ↦
      let k : x ≡ last_day d es = ground arith in
      let a : exists (is_day x) (d ∷ es) ≡ true =
        ap (λ y. exists (is_day y) (d ∷ es)) k ∙ last_day_observed d es in
      cc
  | inr q ↦ q
]

range_lem :
    (x d last : ℕ) (b : Bool)
    → d ≤ last
    → (b ≡ false → ((x == d) ≡ false) × ((x == last) ≡ false))
    → (not b && (leb d x && ltb x (d + (last + 1 - d)))) ≡ (ltb d x && ltb x last && not b)
range_lem x d last true h k = ground arith
range_lem x d last false h k = let (a, c) = k refl in ground arith

absent_lem :
    (x : ℕ) (ds : List ℕ)
    → Increasing 0 ds
    → exists (is_day x) (absent ds)
      ≡ (exists (λ d. ltb d x) ds && exists (λ d. ltb x d) ds && not (exists (is_day x) ds))
unfolding absent
absent_lem x [] a = refl
absent_lem x (d ∷ []) a = ground arith
absent_lem x (d ∷ e ∷ es) a =
    exists-select x (λ x. not (exists (λ o. o == x) (d ∷ e ∷ es)))
      (days_from d (last_day e es + 1 - d))
    ∙ rw (exists-days_from x d (last_day e es + 1 - d)) (
        rw (exists_earlier x d (e ∷ es) a.1) (
          rw (exists_later x d (e ∷ es) a.1) (
            range_lem x d (last_day e es) (exists (is_day x) (d ∷ e ∷ es))
              (last_day_bound d (e ∷ es) a.1) (λ q. (ground arith, not_last x d (e ∷ es) q)))))

-- A day is reported as missing exactly if it is not observed, and an earlier and a later day are.
pub is_day-between :
    (x : ℕ) (dates : List ℕ)
    → exists (is_day x) (between dates) ≡ (
        exists (λ d. ltb d x) dates && exists (λ d. ltb x d) dates && not (exists (is_day x) dates))
unfolding between
is_day-between x dates =
    absent_lem x (sort_days dates) (sort_days-Increasing dates)
    ∙ rw (exists-sort_days (λ d. ltb d x) dates)
        (rw (exists-sort_days (λ d. ltb x d) dates) (rw (exists-sort_days (is_day x) dates) refl))
