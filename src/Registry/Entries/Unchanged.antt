-- ===== src/Registry/Entries/Unchanged.antt =====
-- Where a comparison finds no change, the table already says what the registry says.
use signal_observatory.Prelude.{
  true, false, Option, none, some, List, [], ◌∷◌, ◌++◌, map, String, str_eq, eq_iff, ◌≡◌, refl,
  Bool-cases, inl, inr, All,
}
use signal_observatory.Registry.Entries.{Entity, row_of, differs, change_of, changes}
use signal_observatory.Registry.Entries.Contents.{
  overlay, seen, stored, defined, in_table, in_registry,
}

pub append_none : {A : Type 0} (xs : List A) {ys : List A} → xs ++ ys ≡ [] → (xs ≡ []) × (ys ≡ [])
append_none [] h = (refl, h)
append_none (x ∷ xs) h = cc

pub map_none : {A B : Type 0} (f : A → B) (xs : List A) → map f xs ≡ [] → xs ≡ []
map_none f [] h = refl
map_none f (x ∷ xs) h = cc

module _ {D R C : Type 0} (e : Entity D R C) where
  -- A row's field already has what a definition gives it.
  abbrev pub Laid {ℓ} : {X : Type ℓ} → (D → Option X) → (R → Option X) → List R → D → Type ℓ
  Laid g f rows d = stored e f (e.key d) rows ≡ overlay (g d) (stored e f (e.key d) rows)

  pub stored-Laid {ℓ} :
      {X : Type ℓ} (g : D → Option X) (f : R → Option X) (k : String) (ds : List D) (rows : List R)
      → All (Laid g f rows) ds
      → stored e f k rows ≡ overlay (defined e g k ds) (stored e f k rows)
  stored-Laid g f k [] rows a = refl
  stored-Laid g f k (d ∷ ds) rows a = elim (Bool-cases (str_eq (e.key d) k)) [
    | inl m ↦ rw m (rw (← (eq_iff (e.key d) k).0 m) a.0)
    | inr m ↦ rw m (stored-Laid g f k ds rows a.1)
  ]

  differs_none : (a b : C) → differs e a b ≡ false → a ≡ b
  unfolding differs
  differs_none a b h = of_decision (e.discrete a b) h
    where
      of_decision : (t : Dec (a ≡ b)) → elim t [ yes _ ↦ false | no _ ↦ true ] ≡ false → a ≡ b
      of_decision (yes p) q = p
      of_decision (no n) q = cc

  pub change_of-some : (d : D) (r : R) → change_of e d (some r) ≡ [] → e.view r ≡ e.wanted d
  unfolding change_of
  change_of-some d r h = elim (Bool-cases (differs e (e.view r) (e.wanted d))) [
    | inl q ↦ cc
    | inr q ↦ differs_none (e.view r) (e.wanted d) q
  ]

  change_of-Laid :
      (d : D) (o : Option R)
      → change_of e d o ≡ []
      → seen (λ r. some (e.view r)) o ≡ overlay (some (e.wanted d)) (seen (λ r. some (e.view r)) o)
  unfolding change_of
  change_of-Laid d none h = cc
  change_of-Laid d (some r) h = rw (change_of-some d r h) refl

  unchanged :
      (ds : List D) (rows : List R)
      → changes e ds rows ≡ []
      → All (Laid (λ d. some (e.wanted d)) (λ r. some (e.view r)) rows) ds
  unfolding changes
  unchanged [] rows h = tt
  unchanged (d ∷ ds) rows h =
      let (a, b) = append_none (change_of e d (row_of e (e.key d) rows)) h in
      (change_of-Laid d (row_of e (e.key d) rows) a, unchanged ds rows b)

  pub in_table_unchanged :
      (k : String) (ds : List D) (rows : List R)
      → changes e ds rows ≡ []
      → in_table e k rows ≡ overlay (in_registry e k ds) (in_table e k rows)
  in_table_unchanged k ds rows h = stored-Laid _ _ k ds rows (unchanged ds rows h)
