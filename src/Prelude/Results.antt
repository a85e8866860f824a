-- ===== src/Prelude/Results.antt =====
-- A call that returns or raises: `ok` and `err`, with bind for `do` blocks.
use mathlib.Core.Path.{◌≡◌, refl}
use mathlib.Core.Bool.{Bool, true, false}

pub data Result {ℓ κ} (E : Type ℓ) (A : Type κ) : Type (ℓ ⊔ κ) where
  ok : A → Result E A
  err : E → Result E A

module _ {ℓ} {E : Type ℓ} where
  infixl 5 ◌>>=◌ ◌>>◌
  abbrev pub ◌>>=◌ {κ ι} : {A : Type κ} {B : Type ι} → Result E A → (A → Result E B) → Result E B
  ok a >>= f = f a
  err e >>= f = err e

  abbrev pub ◌>>◌ {ι} : {B : Type ι} → Result E (Unit {0}) → Result E B → Result E B
  m >> k = m >>= λ _. k

  -- `if b: raise e`.
  abbrev pub raise_if : Bool → E → Result E (Unit {0})
  raise_if true e = err e
  raise_if false e = ok tt

  -- What a call that returned has passed.
  pub raise_if_passed {κ} :
      {A : Type κ} (b : Bool) (e : E) (k : Result E A) {a : A}
      → (raise_if b e >> k) ≡ ok a
      → k ≡ ok a
  raise_if_passed true e k h = cc
  raise_if_passed false e k h = h

  pub bind_passed {κ ι} :
      {A : Type κ} {B : Type ι} (m : Result E A) (next : A → Result E B) {y : B}
      → (m >>= next) ≡ ok y
      → (x : A) × (next x ≡ ok y) × (m ≡ ok x)
  bind_passed (err e) next h = cc
  bind_passed (ok x) next h = (x, h, refl)
