-- ===== src/Tests/PolicyTests.antt =====
-- Retries and health states at concrete inputs.
use signal_observatory.Prelude.{ℕ, ◌*◌, ◌<◌, ◌≡◌, refl, some, [], ◌∷◌, ok, err, arith, zero, suc}
use signal_observatory.Clock.{hour}
use signal_observatory.Errors.{Error, client_error, bad_attempts}
use signal_observatory.Retry.{Answer, value, retryable, Policy, new_policy, execute}
use signal_observatory.Retry.Bounds.{backoff, execute-value}
use signal_observatory.Operations.{stale, freshness_state}

abbrev three : Policy
three = record { attempts = 3; initial_delay = 4; maximum_delay = 6 }

-- Two calls fail, then one returns 7.
abbrev third_time : ℕ → Answer ℕ
third_time zero = retryable client_error
third_time (suc zero) = retryable client_error
third_time (suc (suc n)) = value 7

abbrev never : ℕ → Answer ℕ
never n = retryable client_error

no_attempts : new_policy 0 1 1 ≡ err bad_attempts
unfolding new_policy
no_attempts = refl

third : execute three third_time ≡ (ok 7, 4 ∷ 6 ∷ [])
unfolding execute
third = refl

twice_fails : (j : ℕ) → j < 2 → (e : Error) × (third_time j ≡ retryable e)
twice_fails zero h = (client_error, refl)
twice_fails (suc zero) h = (client_error, refl)
twice_fails (suc (suc j)) h = absurd (omega arith)

execute-value_example : execute three third_time ≡ (ok 7, backoff 6 third_time 2 4)
execute-value_example = execute-value three third_time 2 7 (omega arith) twice_fails refl

always_fails : (j : ℕ) → j < 3 → (e : Error) × (never j ≡ retryable e)
always_fails j h = (client_error, refl)

goes_stale : freshness_state (some (10 * hour)) (50 * hour) 24 48 ≡ stale
unfolding freshness_state
goes_stale = refl
