-- ===== src/Github/Client/Ends.antt =====
-- A request that meets enough answers, which the Raw store takes, ends: with a response, or with an error that the calls handle.
use signal_observatory.Prelude.{
  ℕ, zero, suc, ◌+◌, ◌≤◌, ◌<◌, ◌≡◌, false, Option, none, some, List, [], ◌∷◌, leb, ltb, ◌==◌, arith,
  Bool-cases, inl, inr, String, length, All, if◌then◌else◌,
}
use signal_observatory.Github.State.{
  Settings, Response, Attempt, GithubError, budget_exhausted, transport_error,
  request_limit_reached, parse_error, value_error, query_error, collection_error, assertion_error,
  raw_error, http_error, rate_limit_error, Run,
}
use signal_observatory.Github.Client.{
  Turn, over, again, attempt, after_response, GetEnd, answered, raises, unanswered, attempts_from,
  get, is_answer, is_rate_limited, is_transient, rate_wait, backoff, attempted, received, unstored,
  slept, below_floor,
}

-- The errors of a request.
abbrev pub IsRequestError : GithubError → Type 0
IsRequestError budget_exhausted = Unit
IsRequestError transport_error = Unit
IsRequestError request_limit_reached = Unit
IsRequestError (http_error r) = Unit
IsRequestError (rate_limit_error r) = Unit
IsRequestError parse_error = ⊥
IsRequestError value_error = ⊥
IsRequestError query_error = ⊥
IsRequestError collection_error = ⊥
IsRequestError assertion_error = ⊥
IsRequestError raw_error = ⊥

-- The Raw store takes what an attempt is answered with.
abbrev pub AreStored : List Attempt → Type 0
AreStored as' = All (λ a. a.raw_fails ≡ false) as'

abbrev pub Ends : GetEnd → Type 0
Ends (answered r) = Unit
Ends (raises e) = IsRequestError e
Ends unanswered = ⊥

-- Another attempt follows only where one is left.
abbrev TurnEnds : ℕ → Turn → Type 0
TurnEnds left (over end run) = Ends end
TurnEnds left (again run) = (left == 0) ≡ false

after_response-TurnEnds :
    (s : Settings) (left before : ℕ) (a : Attempt) (r : Response) (run : Run)
    → TurnEnds left (after_response s left before a r run)
unfolding after_response
after_response-TurnEnds s left before a r run = elim (Bool-cases (is_answer r.status_code)) [
  | inl e ↦ rw (e, after_response) tt
  | inr e ↦
      rw (e, after_response)
        (elim (Bool-cases (left == 0)) [
          | inl z ↦ rw z (elim (Bool-cases (is_rate_limited r)) [
            | inl f ↦ rw f tt
            | inr f ↦ rw f (elim (Bool-cases (is_transient r.status_code)) [
              | inl g ↦ rw g tt
              | inr g ↦ rw g tt
            ])
          ])
          | inr n ↦ rw n (elim (Bool-cases (is_rate_limited r)) [
            | inl f ↦ rw f (elim (Bool-cases (ltb s.max_rate_limit_wait (rate_wait r before a))) [
              | inl g ↦ rw g tt
              | inr g ↦ rw g n
            ])
            | inr f ↦ rw f (elim (Bool-cases (is_transient r.status_code)) [
              | inl g ↦ rw g n
              | inr g ↦ rw g tt
            ])
          ])
        ])
]

attempt-TurnEnds :
    (s : Settings) (limit left before : ℕ) (a : Attempt) (run : Run)
    → a.raw_fails ≡ false
    → TurnEnds left (attempt s limit left before a run)
unfolding attempt
attempt-TurnEnds s limit left before a run kept =
    elim (Bool-cases (leb limit run.acc.requests_sent)) [
      | inl full ↦ rw (full, attempt) tt
      | inr free ↦ rw (free, attempt) (heard a.answer)
    ]
  where
    heard :
        (answer : Option Response)
        → TurnEnds left (elim answer [
          | none ↦
              if left == 0
              then over (raises transport_error) (attempted run)
              else again (slept (backoff before a.jitter) (attempted run))
          | some r ↦
              if a.raw_fails
              then over (raises raw_error) (unstored r run)
              else after_response s left before a r (received r run)
        ])
    heard none = elim (Bool-cases (left == 0)) [ inl last ↦ rw last tt | inr more ↦ rw more more ]
    heard (some r) = rw kept (after_response-TurnEnds s left before a r (received r run))

attempts_from-Ends :
    (s : Settings) (limit left before : ℕ) (run : Run) (as' : List Attempt)
    → 0 < left
    → left ≤ length as'
    → AreStored as'
    → Ends (attempts_from s limit left before run as').0
unfolding attempts_from
attempts_from-Ends s limit zero before run as' some' enough kept =
    let bad : ⊥ = omega (arith, some') in elim bad [ ]
attempts_from-Ends s limit (suc left) before run [] some' enough kept =
    let bad : ⊥ = omega (arith, enough) in elim bad [ ]
attempts_from-Ends s limit (suc left) before run (a ∷ as') some' enough kept =
    turned (attempt s limit left before a run) (attempt-TurnEnds s limit left before a run kept.0)
      (λ run' more.
        attempts_from-Ends s limit left (before + 1) run' as' more (omega (arith, enough)) kept.1)
  where
    turned :
        (t : Turn)
        → TurnEnds left t
        → ((run' : Run) → 0 < left → Ends (attempts_from s limit left (before + 1) run' as').0)
        → Ends
            (elim t as (λ _. GetEnd × Run) [
              | over end run' ↦ (end, run')
              | again run' ↦ attempts_from s limit left (before + 1) run' as'
            ]).0
    turned (over end run') h ih = h
    turned (again run') h ih = ih run' (ground (arith, h))

pub get-Ends :
    (s : Settings) (limit : ℕ) (resource : String) (floor : ℕ) (run : Run) (as' : List Attempt)
    → 0 < s.retry_attempts
    → s.retry_attempts ≤ length as'
    → AreStored as'
    → Ends (get s limit resource floor run as').0
unfolding get
get-Ends s limit resource floor run as' some' enough kept =
    elim (Bool-cases (below_floor floor (run.budgets resource))) [
      | inl e ↦ rw (e, get) tt
      | inr e ↦
          rw (e, get) (attempts_from-Ends s limit s.retry_attempts 0 run as' some' enough kept)
    ]
