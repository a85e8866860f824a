-- ===== src/Retry.antt =====
-- `ExponentialRetryPolicy` (packages/collector-core/src/collector_core/retry.py). Delays are in any
-- fixed unit, and not negative. The operation's answers are given by the number of the call, from 0.
pub mod Bounds
use signal_observatory.Prelude.{
  ℕ, zero, suc, ◌*◌, Bool, true, false, List, [], ◌∷◌, ltb, ◌==◌, if◌then◌else◌, min, Result, ok,
  err, ◌>>=◌, ◌>>◌, raise_if,
}
use signal_observatory.Errors.{Error, bad_attempts, assertion_error}

-- One call: a value, an exception of a retryable class, or any other.
pub data Answer (A : Type 0) : Type 0 where
  value : A → Answer A
  retryable : Error → Answer A
  fatal : Error → Answer A

pub record Policy : Type 0 where
  pub attempts : ℕ
  pub initial_delay : ℕ
  pub maximum_delay : ℕ

-- The check of `__init__`.
unfoldable pub new_policy : ℕ → ℕ → ℕ → Result Error Policy
new_policy attempts initial maximum = do
  raise_if (ltb attempts 1) bad_attempts
  ok (record { attempts = attempts; initial_delay = initial; maximum_delay = maximum })

module _ {A : Type 0} where
  -- What leaves `execute`, and the sleeps before it. The loop over the attempts that are left.
  unfoldable pub attempts_from : ℕ → ℕ → ℕ → ℕ → (ℕ → Answer A) → Result Error A × List ℕ
  attempts_from zero number delay maximum operation = (err assertion_error, [])
  attempts_from (suc left) number delay maximum operation = elim (operation number) [
    | value a ↦ (ok a, [])
    | fatal e ↦ (err e, [])
    | retryable e ↦
        let rest = attempts_from left (suc number) (min (delay * 2) maximum) maximum operation in
        if left == 0 then (err e, []) else (rest.0, delay ∷ rest.1)
  ]

  unfoldable pub execute : Policy → (ℕ → Answer A) → Result Error A × List ℕ
  unfolding attempts_from
  execute p operation = attempts_from p.attempts 0 p.initial_delay p.maximum_delay operation
