-- ===== src/Prelude/Lists.antt =====
-- Lists measured by native numbers, predicates over lists by recursion, and Boolean selection.
use Prim.Native.Nat.{ℕ, zero, suc, ◌+◌}
use mathlib.Core.Path.{◌≡◌, refl}
use mathlib.Core.Logic.{◌⊎◌, inl, inr}
use mathlib.Core.Bool.{Bool, true, false, ◌||◌}
use mathlib.Core.Option.{Option, none, some}
use mathlib.Core.List.{List, [], ◌∷◌, ◌++◌}
use native.Mathlib.Omega.{arith}
use signal_observatory.Prelude.Tests.{if◌then◌else◌, Bool-cases}

module _ {ℓ} {A : Type ℓ} where
  abbrev pub length : List A → ℕ
  length [] = 0
  length (x ∷ xs) = suc (length xs)

  abbrev pub is_empty : List A → Bool
  is_empty [] = true
  is_empty (x ∷ xs) = false

  -- The comprehension `[x for x in xs if p(x)]`.
  abbrev pub select : (A → Bool) → List A → List A
  select p [] = []
  select p (x ∷ xs) = let rest = select p xs in if p x then x ∷ rest else rest

  -- `any(p(x) for x in xs)`.
  abbrev pub exists : (A → Bool) → List A → Bool
  exists p [] = false
  exists p (x ∷ xs) = p x || exists p xs

  abbrev pub find : (A → Bool) → List A → Option A
  find p [] = none
  find p (x ∷ xs) = let rest = find p xs in if p x then some x else rest

  -- A query for one row, then an update of it, or an insertion where there is none.
  abbrev pub upsert : (A → Bool) → A → (A → A) → List A → List A
  upsert same new change [] = new ∷ []
  upsert same new change (x ∷ xs) =
      let rest = upsert same new change xs in if same x then change x ∷ xs else x ∷ rest

  abbrev pub get_elem? : List A → ℕ → Option A
  get_elem? [] i = none
  get_elem? (x ∷ xs) zero = some x
  get_elem? (x ∷ xs) (suc i) = get_elem? xs i

  abbrev pub All {κ} : (A → Type κ) → List A → Type κ
  All P [] = Unit
  All P (x ∷ xs) = P x × All P xs

  pub length-append : (xs ys : List A) → length (xs ++ ys) ≡ length xs + length ys
  length-append [] ys = omega arith
  length-append (x ∷ xs) ys = omega (arith, length-append xs ys)

  pub All-append {κ} :
      (P : A → Type κ) (front back : List A) → All P front → All P back → All P (front ++ back)
  All-append P (x ∷ front) back f b = (f.0, All-append P front back f.1 b)
  All-append P [] back f b = b

  pub All-mono {κ ι} :
      (P : A → Type κ) (Q : A → Type ι) (xs : List A) → ((x : A) → P x → Q x) → All P xs → All Q xs
  All-mono P Q [] f h = tt
  All-mono P Q (x ∷ xs) f h = (f x h.0, All-mono P Q xs f h.1)

module _ {A : Type 0} where
  -- `x in xs`, by recursion, so that case splits see it.
  abbrev pub Member : A → List A → Type 0
  Member x [] = ⊥
  Member x (y ∷ ys) = (x ≡ y) ⊎ Member x ys

  pub Member-select :
      (p : A → Bool) (x : A) (xs : List A) → Member x xs → p x ≡ true → Member x (select p xs)
  Member-select p x [] m h = elim m [ ]
  Member-select p x (y ∷ ys) (inl e) h = rw (← e) (rw h (inl refl))
  Member-select p x (y ∷ ys) (inr m) h =
      let ih = Member-select p x ys m h in
      elim (Bool-cases (p y)) [ inl e ↦ rw e (inr ih) | inr e ↦ rw e ih ]

  pub Member_of_select :
      (p : A → Bool) (x : A) (xs : List A) → Member x (select p xs) → Member x xs × (p x ≡ true)
  Member_of_select p x [] m = elim m [ ]
  Member_of_select p x (y ∷ ys) m = elim (Bool-cases (p y)) [
    | inl e ↦ at_head e (rw e at m) (Member_of_select p x ys)
    | inr e ↦ let (a, b) = Member_of_select p x ys (rw e at m) in (inr a, b)
  ]
    where
      at_head :
          p y ≡ true
          → Member x (y ∷ select p ys)
          → (Member x (select p ys) → Member x ys × (p x ≡ true))
          → Member x (y ∷ ys) × (p x ≡ true)
      at_head e (inl q) rest = (inl q, rw q e)
      at_head e (inr n) rest = (inr (rest n).0, (rest n).1)

  some-injective : (x y : A) → some x ≡ some y → x ≡ y
  some-injective x y h = cc

  pub All_at {κ} : (P : A → Type κ) (x : A) (xs : List A) → All P xs → Member x xs → P x
  All_at P x [] h m = elim m [ ]
  All_at P x (y ∷ ys) h (inl e) = rw e h.0
  All_at P x (y ∷ ys) h (inr m) = All_at P x ys h.1 m

  pub find_passed : (p : A → Bool) (xs : List A) (x : A) → find p xs ≡ some x → p x ≡ true
  find_passed p [] x h = cc
  find_passed p (y ∷ ys) x h = elim (Bool-cases (p y)) [
    | inl e ↦ let same : some y ≡ some x = rw e at h in rw (← some-injective y x same) e
    | inr e ↦ find_passed p ys x (rw e at h)
  ]
