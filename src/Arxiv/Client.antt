-- ===== src/Arxiv/Client.antt =====
-- `ArxivClient.get` (collectors/arxiv/src/arxiv_collector/client.py) with the two callbacks that
-- `_collect_window` gives it: `count_attempt` before every attempt, `preserve` for every response.
-- Sleeping between attempts changes no state and is left out.
use signal_observatory.Prelude.{
  ℕ, zero, suc, ◌+◌, ◌≤◌, ◌≡◌, Bool, true, false, not, ◌&&◌, ◌||◌, List, [], ◌∷◌, leb, ltb, ◌==◌,
  max, arith,
}
use signal_observatory.Errors.{Error, forbidden, client_error, collection_error, assertion_error}
use signal_observatory.Arxiv.State.{
  Settings, Accumulator, Body, no_response, response, Attempt, request_limit_reached,
}

-- How a request ends; `unanswered` where the trace of the environment stops.
pub data GetEnd : Type 0 where
  answered : Body → GetEnd
  raises : Error → GetEnd
  unanswered : GetEnd

abbrev pub is_transient : ℕ → Bool
is_transient code = code == 429 || code == 500 || code == 502 || code == 503 || code == 504

abbrev pub is_success : ℕ → Bool
is_success code = leb 200 code && ltb code 300

-- `count_attempt`, after its two guards.
abbrev pub counted : ℕ → Accumulator → Accumulator
counted requested acc = record acc {
  api_requests = acc.api_requests + 1;
  records_requested = acc.records_requested + requested;
}

-- A call of the transport.
abbrev pub called : Accumulator → Accumulator
called acc = record acc { transport_calls = acc.transport_calls + 1 }

-- `preserve`: the response is in Raw before anything reads it.
abbrev pub preserved : Accumulator → Accumulator
preserved acc = record acc { raw_payloads = acc.raw_payloads + 1 }

-- The loop over attempts; the first argument counts those that are left.
unfoldable pub get : ℕ → Settings → ℕ → Accumulator → List Attempt → GetEnd × Accumulator
get zero s requested acc as' = (raises assertion_error, acc)
get (suc left) s requested acc [] = (unanswered, acc)
get (suc left) s requested acc (a ∷ as') = elim (request_limit_reached s acc || a.over_time) [
  | true ↦ (raises collection_error, acc)
  | false ↦ elim a.answer [
    | no_response ↦ elim (left == 0) [
      | true ↦ (raises client_error, called (counted requested acc))
      | false ↦ get left s requested (called (counted requested acc)) as'
    ]
    | response code body ↦ elim (code == 403) [
      | true ↦ (raises forbidden, preserved (called (counted requested acc)))
      | false ↦ elim (is_success code) [
        | true ↦ (answered body, preserved (called (counted requested acc)))
        | false ↦ elim (not (is_transient code) || left == 0) [
          | true ↦ (raises client_error, preserved (called (counted requested acc)))
          | false ↦ get left s requested (preserved (called (counted requested acc))) as'
        ]
      ]
    ]
  ]
]

-- What a request leaves alone, and the bounds that it keeps.
pub record IsRequest (s : Settings) (left requested : ℕ) (acc acc' : Accumulator) : Type 0 where
  pub within : acc'.api_requests ≤ max acc.api_requests s.max_requests_per_run
  pub attempts : acc'.api_requests ≤ acc.api_requests + left
  pub grows : acc.api_requests ≤ acc'.api_requests
  pub calls : acc'.transport_calls + acc.api_requests ≡ acc.transport_calls + acc'.api_requests
  pub asked : acc.records_requested ≤ acc'.records_requested
  pub raw_grows : acc.raw_payloads ≤ acc'.raw_payloads
  pub raw_bound : acc'.raw_payloads + acc.api_requests ≤ acc.raw_payloads + acc'.api_requests
  pub entries : acc'.entries_received ≡ acc.entries_received
  pub errors : acc'.errors ≡ acc.errors
  pub stopped : acc'.stopped_by_safety_limit ≡ acc.stopped_by_safety_limit
  pub windows : acc'.successful_windows ≡ acc.successful_windows
  pub results : acc'.results_by_topic ≡ acc.results_by_topic

-- A request makes at most the allowed attempts, never passes the run's request limit, and keeps
-- at most one Raw payload for each attempt; no other count of the run changes.
pub get-IsRequest :
    (left : ℕ) (s : Settings) (requested : ℕ) (acc : Accumulator) (as' : List Attempt)
    → IsRequest s left requested acc (get left s requested acc as').1
unfolding get
get-IsRequest zero s requested acc as' = ground arith
get-IsRequest (suc left) s requested acc [] = ground arith
get-IsRequest (suc left) s requested acc (a ∷ as') =
    let one = get-IsRequest left s requested (called (counted requested acc)) as' in
    let two = get-IsRequest left s requested (preserved (called (counted requested acc))) as' in
    ground arith
