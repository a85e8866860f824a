-- ===== src/Retry/Bounds.antt =====
-- How often an operation is retried, and with which delays.
use signal_observatory.Prelude.{
  ℕ, zero, suc, ◌+◌, ◌*◌, ◌<◌, ◌≡◌, refl, false, List, [], ◌∷◌, ◌==◌, min, ok, err, arith,
}
use native.Mathlib.Nat.{add-zero, zero-add}
use signal_observatory.Errors.{Error}
use signal_observatory.Retry.{Answer, value, retryable, Policy, attempts_from, execute}

shift : (n j : ℕ) → n + suc j ≡ suc n + j
shift n j = omega arith

some_left : (k left : ℕ) → suc k < suc left → (left == 0) ≡ false
some_left k left h = ground arith

module _ {A : Type 0} (maximum : ℕ) (operation : ℕ → Answer A) where
  -- The sleeps in turn: `delay`, then doubled each time and cut at the maximum.
  abbrev pub backoff : ℕ → ℕ → List ℕ
  backoff zero delay = []
  backoff (suc k) delay = delay ∷ backoff k (min (delay * 2) maximum)

  first_value :
      (k left number delay : ℕ) (a : A)
      → k < left
      → ((j : ℕ) → j < k → (e : Error) × (operation (number + j) ≡ retryable e))
      → operation (number + k) ≡ value a
      → attempts_from left number delay maximum operation ≡ (ok a, backoff k delay)
  unfolding attempts_from
  first_value k zero number delay a lt before at = absurd (omega arith)
  first_value zero (suc left) number delay a lt before at =
      let now : operation number ≡ value a = rw add-zero at at in rw (now, attempts_from)
  first_value (suc k) (suc left) number delay a lt before at =
      let (e, first) = before 0 (omega arith) in
      let now : operation number ≡ retryable e = rw add-zero at first in
      let rest =
        first_value k left (suc number) (min (delay * 2) maximum) a (omega arith)
          (λ j h. let (x, q) = before (suc j) (omega arith) in (x, rw (shift number j) at q))
          (rw (shift number k) at at) in
      rw (now, attempts_from) (rw (some_left k left (omega arith)) (rw rest refl))

  all_retryable :
      (left number delay : ℕ)
      → ((j : ℕ) → j < suc left → (e : Error) × (operation (number + j) ≡ retryable e))
      → (e : Error) × (operation (number + left) ≡ retryable e)
        × (attempts_from (suc left) number delay maximum operation ≡ (err e, backoff left delay))
  unfolding attempts_from
  all_retryable zero number delay before =
      let (e, last) = before 0 (omega arith) in
      let now : operation number ≡ retryable e = rw add-zero at last in
      (e, last, rw (now, attempts_from))
  all_retryable (suc left) number delay before =
      let (e, first) = before 0 (omega arith) in
      let now : operation number ≡ retryable e = rw add-zero at first in
      let (x, at, rest) =
        all_retryable left (suc number) (min (delay * 2) maximum)
          (λ j h. let (y, q) = before (suc j) (omega arith) in (y, rw (shift number j) at q)) in
      (
        x,
        rw (← shift number left) at at,
        rw (now, attempts_from) (rw (some_left 0 (suc left) (omega arith)) (rw rest refl)),
      )

-- If the first k calls raise a retryable exception and the next one returns, with fewer than
-- `attempts` calls before it, then the policy returns that value after k sleeps: the initial delay,
-- then each twice the last, cut at the maximum.
pub execute-value :
    {A : Type 0} (p : Policy) (operation : ℕ → Answer A) (k : ℕ) (a : A)
    → k < p.attempts
    → ((j : ℕ) → j < k → (e : Error) × (operation j ≡ retryable e))
    → operation k ≡ value a
    → execute p operation ≡ (ok a, backoff p.maximum_delay operation k p.initial_delay)
unfolding execute
execute-value p operation k a lt before at =
    first_value p.maximum_delay operation k p.attempts 0 p.initial_delay a lt
      (λ j h. let (e, q) = before j h in (e, rw zero-add q)) (rw zero-add at)

-- If each of the allowed calls raises a retryable exception, the last one is raised, after one
-- sleep fewer than there were calls.
execute_exhausted :
    {A : Type 0} (p : Policy) (operation : ℕ → Answer A) (k : ℕ)
    → p.attempts ≡ suc k
    → ((j : ℕ) → j < suc k → (e : Error) × (operation j ≡ retryable e))
    → (e : Error) × (operation k ≡ retryable e)
      × (execute p operation ≡ (err e, backoff p.maximum_delay operation k p.initial_delay))
unfolding execute
execute_exhausted p operation k n before =
    let (e, at, r) =
      all_retryable p.maximum_delay operation k 0 p.initial_delay
        (λ j h. let (x, q) = before j h in (x, rw zero-add q)) in
    (e, rw zero-add at at, rw n r)
