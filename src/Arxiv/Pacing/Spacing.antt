-- ===== src/Arxiv/Pacing/Spacing.antt =====
-- Requests keep the minimum interval, and back-off respects the server's header.
use signal_observatory.Prelude.{
  ℕ, ◌+◌, ◌-◌, ◌*◌, ◌^◌, ◌≤◌, Option, none, some, List, [], ◌∷◌, ltb, if◌then◌else◌, min, arith,
}
use signal_observatory.Clock.{second}
use signal_observatory.Text.{pos}
use signal_observatory.Arxiv.Pacing.{Limiter, remaining, acquire, request_starts, backoff_delay}

-- Each sleep lasts at least as long as it is asked to.
abbrev pub Sleeps : Limiter → List (ℕ × ℕ) → Type 0
Sleeps l [] = Unit
Sleeps l ((now, after) ∷ readings) =
    (now + remaining l now ≤ after) × Sleeps (acquire l now after).0 readings

-- Each time is at least `d` after the one before it.
abbrev pub Spaced : ℕ → Option ℕ → List ℕ → Type 0
Spaced d last [] = Unit
Spaced d none (t ∷ ts) = Spaced d (some t) ts
Spaced d (some last) (t ∷ ts) = (last + d ≤ t) × Spaced d (some t) ts

-- Where every sleep lasts at least as long as asked, any two requests in a row start at least the
-- minimum interval apart, the first one counted from the limiter's last request.
pub request_starts-Spaced :
    (l : Limiter) (readings : List (ℕ × ℕ))
    → Sleeps l readings
    → Spaced l.minimum_interval l.last_request_started (request_starts l readings)
unfolding request_starts remaining
request_starts-Spaced l [] h = tt
request_starts-Spaced l ((now, after) ∷ readings) h =
    let ih = request_starts-Spaced (acquire l now after).0 readings h.1 in
    spaced l.last_request_started h.0 ih
  where
    spaced :
        (last : Option ℕ)
        → now + (elim last [ none ↦ 0 | some t ↦ l.minimum_interval + t - now ]) ≤ after
        → Spaced l.minimum_interval
            (some (
              if ltb 0 (elim last [ none ↦ 0 | some t ↦ l.minimum_interval + t - now ])
              then after
              else now))
            (request_starts (acquire l now after).0 readings)
        → Spaced l.minimum_interval last (
            (if ltb 0 (elim last [ none ↦ 0 | some t ↦ l.minimum_interval + t - now ])
              then after
              else now)
            ∷ request_starts (acquire l now after).0 readings)
    spaced none b s = s
    spaced (some t) b s = (ground arith, s)

-- The delay before a further attempt is at least what a nonnegative `Retry-After` asks for; without
-- the header it lies between the doubled interval, cut at 30 seconds, and 30 seconds and the jitter.
pub backoff_delay_bounds :
    (minimum attempt n jitter : ℕ)
    → (n ≤ backoff_delay minimum attempt (some (some (pos n))) jitter)
      × (backoff_delay minimum attempt none jitter ≤ 30 * second + jitter)
      × (min (30 * second) (minimum * 2 ^ (attempt - 1))
          ≤ backoff_delay minimum attempt none jitter)
unfolding backoff_delay
backoff_delay_bounds minimum attempt n jitter = (omega arith, omega arith, omega arith)
