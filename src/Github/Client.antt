-- ===== src/Github/Client.antt =====
-- `GithubClient.get` and `GithubRateLimitManager` (client.py), with the two callbacks of the service:
-- `_attempt_sink` before each attempt and `_raw_sink` for each response. The semaphore orders requests of one process and is left out.
pub mod Bounds
pub mod Ends
use signal_observatory.Prelude.{
  ℕ, zero, suc, ◌+◌, ◌-◌, ◌*◌, ◌^◌, Bool, true, false, not, ◌&&◌, ◌||◌, Option, none, some, is_some,
  List, [], ◌∷◌, ◌++◌, String, str_eq, leb, ltb, ◌==◌, min, if◌then◌else◌,
}
use signal_observatory.Clock.{second}
use signal_observatory.Github.State.{
  Settings, RateLimit, Response, Attempt, GithubError, budget_exhausted, transport_error,
  request_limit_reached, assertion_error, raw_error, http_error, rate_limit_error, RunAccumulator,
  Run, to_int,
}

pub data GetEnd : Type 0 where
  answered : Response → GetEnd
  raises : GithubError → GetEnd
  unanswered : GetEnd

abbrev set_budget : (String → Option RateLimit) → RateLimit → String → Option RateLimit
set_budget budgets r k = elim r.resource [
  | none ↦ budgets k
  | some name ↦ if str_eq name k then some r else budgets k
]

-- `require_floor`.
abbrev pub below_floor : ℕ → Option RateLimit → Bool
below_floor floor none = false
below_floor floor (some r) = elim r.remaining [ none ↦ false | some n ↦ leb n floor ]

abbrev is_zero : Option ℕ → Bool
is_zero none = false
is_zero (some n) = n == 0

-- `_raw_sink`'s `persist`, after Raw has the payload.
abbrev pub preserved : Response → RunAccumulator → RunAccumulator
preserved r acc =
    let limited = r.status_code == 403 || r.status_code == 429 in
    record acc {
      raw_payloads = acc.raw_payloads + 1;
      responses_200 = acc.responses_200 + to_int (r.status_code == 200);
      responses_304 = acc.responses_304 + to_int (r.status_code == 304);
      responses_404 = acc.responses_404 + to_int (r.status_code == 404);
      rate_limited_responses = acc.rate_limited_responses + to_int limited;
      rate_limit_pauses =
          acc.rate_limit_pauses
          + to_int
              (limited && (is_some r.rate_limit.retry_after || is_zero r.rate_limit.remaining));
    }

-- `_attempt_sink`, after its guard.
abbrev pub counted : RunAccumulator → RunAccumulator
counted acc = record acc { requests_sent = acc.requests_sent + 1 }

abbrev pub is_transient : ℕ → Bool
is_transient code = code == 500 || code == 502 || code == 503 || code == 504

abbrev pub is_answer : ℕ → Bool
is_answer code = (leb 200 code && ltb code 300) || code == 304

-- `_is_rate_limited`.
abbrev pub is_rate_limited : Response → Bool
is_rate_limited r =
    r.status_code == 429
    || (r.status_code == 403
        && ((is_zero r.rate_limit.remaining || is_some r.rate_limit.retry_after) || r.says_limited))

-- `_backoff_seconds`, for the attempts before this one.
abbrev pub backoff : ℕ → ℕ → ℕ
backoff before jitter = min (30 * second) (2 ^ before * second) + jitter

-- `_rate_wait_seconds`.
abbrev pub rate_wait : Response → ℕ → Attempt → ℕ
rate_wait r before a = elim r.rate_limit.retry_after [
  | some s ↦ s * second
  | none ↦ elim r.rate_limit.reset_at [
    | some reset ↦ if is_zero r.rate_limit.remaining then reset - a.now else backoff before a.jitter
    | none ↦ backoff before a.jitter
  ]
]

-- A call of the transport.
abbrev pub called : RunAccumulator → RunAccumulator
called acc = record acc { transport_calls = acc.transport_calls + 1 }

abbrev pub attempted : Run → Run
attempted run = record run { acc = called (counted run.acc) }

-- The Raw store has raised.
abbrev pub unstored : Response → Run → Run
unstored r run = record run {
  acc = called (counted run.acc);
  budgets = set_budget run.budgets r.rate_limit;
}

abbrev pub received : Response → Run → Run
received r run = record run {
  acc = preserved r (called (counted run.acc));
  budgets = set_budget run.budgets r.rate_limit;
}

abbrev pub slept : ℕ → Run → Run
slept delay run = record run { sleeps = run.sleeps ++ (delay ∷ []) }

-- An attempt ends the request, or the next one follows.
pub data Turn : Type 0 where
  over : GetEnd → Run → Turn
  again : Run → Turn

-- What follows an attempt after which `left` others are allowed, `before` having been made before it.
unfoldable pub after_response : Settings → ℕ → ℕ → Attempt → Response → Run → Turn
after_response s left before a r run =
    if is_answer r.status_code
    then over (answered r) run
    else (if is_rate_limited r
        then (if left == 0 || ltb s.max_rate_limit_wait (rate_wait r before a)
            then over (raises (rate_limit_error r)) run
            else again (slept (rate_wait r before a) run))
        else (if is_transient r.status_code && not (left == 0)
            then again (slept (backoff before a.jitter) run)
            else over (raises (http_error r)) run))

unfoldable pub attempt : Settings → ℕ → ℕ → ℕ → Attempt → Run → Turn
unfolding after_response
attempt s limit left before a run = elim (leb limit run.acc.requests_sent) [
  | true ↦ over (raises request_limit_reached) run
  | false ↦ elim a.answer [
    | none ↦
        if left == 0
        then over (raises transport_error) (attempted run)
        else again (slept (backoff before a.jitter) (attempted run))
    | some r ↦
        if a.raw_fails
        then over (raises raw_error) (unstored r run)
        else after_response s left before a r (received r run)
  ]
]

-- The loop over attempts; `left` counts those that are left, `before` those made.
unfoldable pub attempts_from : Settings → ℕ → ℕ → ℕ → Run → List Attempt → GetEnd × Run
unfolding attempt
attempts_from s limit zero before run as' = (raises assertion_error, run)
attempts_from s limit (suc left) before run [] = (unanswered, run)
attempts_from s limit (suc left) before run (a ∷ as') = elim (attempt s limit left before a run) [
  | over end run' ↦ (end, run')
  | again run' ↦ attempts_from s limit left (before + 1) run' as'
]

-- `resource` and `floor` are those of the endpoint.
unfoldable pub get : Settings → ℕ → String → ℕ → Run → List Attempt → GetEnd × Run
unfolding attempts_from
get s limit resource floor run as' =
    if below_floor floor (run.budgets resource)
    then (raises budget_exhausted, run)
    else attempts_from s limit s.retry_attempts 0 run as'

abbrev pub search_resource : String
search_resource = "search"

abbrev pub core_resource : String
core_resource = "core"

-- The request for a page of a search, and for a repository.
abbrev pub get_search : Settings → ℕ → Run → List Attempt → GetEnd × Run
get_search s limit run as' = get s limit search_resource s.min_search_remaining run as'

abbrev pub get_repository : Settings → ℕ → Run → List Attempt → GetEnd × Run
get_repository s limit run as' = get s limit core_resource s.min_core_remaining run as'
