-- ===== src/Github/Search/Tables.antt =====
-- Rows after an update or insertion: how many there are, and which are still found.
use signal_observatory.Prelude.{
  ◌+◌, ◌≡◌, refl, Bool, true, false, none, some, find, List, [], ◌∷◌, length, exists, upsert,
  if◌then◌else◌, arith, Bool-cases, inl, inr,
}
use signal_observatory.Github.State.{to_int}

module _ {A : Type 0} (same : A → Bool) (new : A) (change : A → A) where
  pub length-upsert :
      (xs : List A)
      → length (upsert same new change xs)
        ≡ length xs + to_int (if exists same xs then false else true)
  length-upsert [] = refl
  length-upsert (x ∷ xs) = ground (arith, length-upsert xs)

  -- A row that `p` finds is still found, if an update does not change what `p` reads.
  pub exists-upsert :
      (p : A → Bool) (xs : List A)
      → ((x : A) → p (change x) ≡ p x)
      → exists p xs ≡ true
      → exists p (upsert same new change xs) ≡ true
  exists-upsert p [] same_p h = cc
  exists-upsert p (x ∷ xs) same_p h =
      let ih = exists-upsert p xs same_p in
      let e = same_p x in
      elim (Bool-cases (same x)) [
        | inl q ↦ rw q (rw e h)
        | inr q ↦
            rw q (elim (Bool-cases (p x)) [ inl y ↦ rw y refl | inr n ↦ rw n (ih (rw n at h)) ])
      ]

  -- The row itself is found.
  pub exists-upserted :
      (xs : List A)
      → same new ≡ true
      → ((x : A) → same (change x) ≡ same x)
      → exists same (upsert same new change xs) ≡ true
  exists-upserted [] n same_p = rw n refl
  exists-upserted (x ∷ xs) n same_p =
      let ih = exists-upserted xs n same_p in
      let e = same_p x in
      elim (Bool-cases (same x)) [ inl q ↦ rw q (rw e (rw q refl)) | inr q ↦ rw q (rw q ih) ]

  pub find-upserted :
      (xs : List A)
      → same new ≡ true
      → ((x : A) → same (change x) ≡ same x)
      → find same (upsert same new change xs)
        ≡ some (elim (find same xs) [ none ↦ new | some x ↦ change x ])
  find-upserted [] n same_p = rw n refl
  find-upserted (x ∷ xs) n same_p =
      let ih = find-upserted xs n same_p in
      let e = same_p x in
      elim (Bool-cases (same x)) [ inl q ↦ rw q (rw e (rw q refl)) | inr q ↦ rw q (rw q ih) ]

  -- Other rows are found as before.
  pub find-upsert :
      (p : A → Bool) (xs : List A)
      → p new ≡ false
      → ((x : A) → same x ≡ true → p x ≡ false)
      → ((x : A) → p (change x) ≡ p x)
      → find p (upsert same new change xs) ≡ find p xs
  find-upsert p [] n apart same_p = rw n refl
  find-upsert p (x ∷ xs) n apart same_p =
      let ih = find-upsert p xs n apart same_p in
      let e = same_p x in
      let a = apart x in
      elim (Bool-cases (same x)) [
        | inl q ↦ rw q (rw e (rw (a q) refl))
        | inr q ↦ rw q (elim (Bool-cases (p x)) [ inl y ↦ rw y refl | inr m ↦ rw m ih ])
      ]
