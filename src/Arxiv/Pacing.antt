-- ===== src/Arxiv/Pacing.antt =====
-- How the client spaces its requests: `MinimumIntervalLimiter` and `ArxivClient._backoff`
-- (collectors/arxiv/src/arxiv_collector/client.py). Times are microseconds of the monotonic clock;
-- one call of `acquire` has its clock reading and the reading after its sleep, if it sleeps.
pub mod Spacing
use signal_observatory.Prelude.{
  ℕ, ◌+◌, ◌-◌, ◌*◌, ◌^◌, Option, none, some, List, [], ◌∷◌, ltb, if◌then◌else◌, min, max, Result,
  ok, err, ◌>>=◌, ◌>>◌, raise_if,
}
use signal_observatory.Errors.{Error, bad_interval}
use signal_observatory.Clock.{second}
use signal_observatory.Text.{ℤ, pos, negsuc}

pub record Limiter : Type 0 where
  pub minimum_interval : ℕ
  pub last_request_started : Option ℕ

unfoldable pub new_limiter : ℕ → Result Error Limiter
new_limiter interval = do
  raise_if (ltb interval (3 * second)) bad_interval
  ok (record { minimum_interval = interval; last_request_started = none })

-- How long `acquire` sleeps; 0 where it does not.
unfoldable pub remaining : Limiter → ℕ → ℕ
remaining l now = elim l.last_request_started [
  | none ↦ 0
  | some last ↦ l.minimum_interval + last - now
]

unfoldable pub acquire : Limiter → ℕ → ℕ → Limiter × ℕ
unfolding remaining
acquire l now after =
    let started = if ltb 0 (remaining l now) then after else now in
    (record l { last_request_started = some started }, started)

-- The starts of a row of requests.
unfoldable pub request_starts : Limiter → List (ℕ × ℕ) → List ℕ
unfolding acquire
request_starts l [] = []
request_starts l ((now, after) ∷ readings) =
    (acquire l now after).1 ∷ request_starts (acquire l now after).0 readings

-- A header that is there: not a number, or a number of seconds, here in microseconds.
retry_after_seconds : Option (Option ℤ) → ℕ
retry_after_seconds (some (some (pos n))) = n
retry_after_seconds _ = 0

-- The delay before the next attempt.
unfoldable pub backoff_delay : ℕ → ℕ → Option (Option ℤ) → ℕ → ℕ
unfolding retry_after_seconds
backoff_delay minimum attempt retry_after jitter =
    let exponential = min (30 * second) (minimum * 2 ^ (attempt - 1)) in
    max (retry_after_seconds retry_after) (exponential + jitter)
