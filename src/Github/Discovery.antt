-- ===== src/Github/Discovery.antt =====
-- `GithubCollectionService.discover` (collectors/github/src/github_collector/service.py): the loop over the
-- enabled mappings, and the discovery state of each.
pub mod Rounds
pub mod States
pub mod Whole
pub mod Calls
use signal_observatory.Prelude.{
  ℕ, zero, suc, ◌+◌, ◌-◌, Bool, true, false, not, ◌&&◌, ◌||◌, Option, none, some, is_some, List, [],
  ◌∷◌, map, length, select, exists, is_empty, leb, ltb, ◌==◌, if◌then◌else◌, Result, ok, err,
  upsert, String,
}
use signal_observatory.Github.State.{
  Settings, RateLimit, Response, TrackingState, tracked, candidate, ignored, RepositoryData,
  DiscoveryState, OperationStatus, Store, Attempt, GithubError, budget_exhausted, transport_error,
  request_limit_reached, parse_error, value_error, query_error, collection_error, assertion_error,
  raw_error, http_error, rate_limit_error, new_accumulator, RunAccumulator, Run, to_int, add_id,
  distinct,
}
use signal_observatory.Github.Client.{GetEnd, answered, raises, unanswered, get_search}
use signal_observatory.Github.Persistence.{upsert_repository, upsert_match}
use signal_observatory.Github.Snapshots.{
  VisitEnd, observed, fails, cut_off, Pass, goes_on, stops, LoopEnd, loop_ended, loop_starved,
  loop_raised, CallEnd, refused, dry_run, finish, start_run, or_number, new_run, error_counted,
  item_failed, is_final, is_runtime_exceeded,
}
use signal_observatory.Github.Search.{
  Mapping, PageEnd, next_page, query_done, page_fails, page_cut_off, Progress, query_loop,
}

-- `_enabled_mappings`, from the active and enabled ones in the order of their topics' slugs; a topic
-- stands for its slug.
unfoldable pub enabled_mappings : List ℕ → List Mapping → Result GithubError (List Mapping)
enabled_mappings topics mappings =
    let rows =
      select (λ m. is_empty topics || exists (λ topic. topic == m.topic) topics) mappings in
    if is_empty rows || exists (λ topic. not (exists (λ m. m.topic == topic) rows)) topics
    then err collection_error
    else ok rows

abbrev pub new_discovery_state : ℕ → DiscoveryState
new_discovery_state mapping = record {
  mapping = mapping;
  status = OperationStatus.pending;
  last_checked_at = none;
  last_successful_at = none;
  next_eligible_at = none;
  has_error = false;
}

abbrev pub is_state : ℕ → DiscoveryState → Bool
is_state mapping d = d.mapping == mapping

-- `_discovery_state`, with the assignments that follow it.
abbrev pub with_discovery_state : ℕ → (DiscoveryState → DiscoveryState) → Store → Store
with_discovery_state mapping change store = record store {
  discovery =
      upsert (is_state mapping) (change (new_discovery_state mapping)) change store.discovery;
}

abbrev pub as_running : ℕ → DiscoveryState → DiscoveryState
as_running now d = record d { status = OperationStatus.running; last_checked_at = some now }

abbrev pub mark_running : ℕ → ℕ → Store → Store
mark_running mapping now store = with_discovery_state mapping (as_running now) store

abbrev pub as_succeeded : Settings → ℕ → DiscoveryState → DiscoveryState
as_succeeded s now d = record d {
  status = OperationStatus.succeeded;
  last_checked_at = some now;
  last_successful_at = some now;
  next_eligible_at = some (now + s.discovery_due);
  has_error = false;
}

abbrev pub mark_succeeded : Settings → ℕ → ℕ → Store → Store
mark_succeeded s mapping now store = with_discovery_state mapping (as_succeeded s now) store

abbrev pub as_failed : ℕ → DiscoveryState → DiscoveryState
as_failed now d = record d {
  status = OperationStatus.failed;
  last_checked_at = some now;
  has_error = true;
}

-- `_record_mapping_error`.
abbrev pub record_mapping_error : ℕ → ℕ → Store → Store
record_mapping_error mapping now store = with_discovery_state mapping (as_failed now) store

-- The clock before the work on a mapping, at its start and at its end, and the answers to its requests.
pub record Exploration : Type 0 where
  pub now : ℕ
  pub started : ℕ
  pub ended : ℕ
  pub requests : List (List Attempt)

abbrev pub after_queries : Settings → ℕ → ℕ → PageEnd × Progress → VisitEnd × Run × Store
after_queries s mapping now (query_done, at') =
    (observed, at'.run, mark_succeeded s mapping now at'.store)
after_queries s mapping now (next_page, at') =
    (observed, at'.run, mark_succeeded s mapping now at'.store)
after_queries s mapping now (page_fails e, at') = (fails e, at'.run, at'.store)
after_queries s mapping now (page_cut_off, at') = (cut_off, at'.run, at'.store)

-- `_discover_mapping`.
unfoldable pub discover_mapping :
    Settings → ℕ → ℕ → Mapping → Exploration → Run → Store → VisitEnd × Run × Store
unfolding query_loop
discover_mapping s results limit mapping x run store =
    let store' = mark_running mapping.id x.started store in
    elim mapping.queries [
      | none ↦ (fails query_error, run, store')
      | some queries ↦ after_queries s mapping.id x.ended (
          query_loop s results limit mapping queries x.requests
            (record { received = 0; run = run; store = store' }))
    ]

-- The errors that `discover` handles.
abbrev pub is_caught : GithubError → Bool
is_caught value_error = false
is_caught collection_error = false
is_caught assertion_error = false
is_caught raw_error = false
is_caught _ = true

abbrev pub after_mapping : ℕ → ℕ → VisitEnd × Run × Store → Pass
after_mapping mapping now (observed, run, store) = goes_on run store
after_mapping mapping now (cut_off, run, store) = stops loop_starved run store
after_mapping mapping now (fails e, run, store) =
    let store' = record_mapping_error mapping now store in
    if not (is_caught e)
    then stops (loop_raised e) run store
    else (if is_final e
        then stops loop_ended (item_failed run) store'
        else goes_on (item_failed run) store')

abbrev pub mapping_executed : Run → Run
mapping_executed run = record run {
  acc = record run.acc { mappings_executed = run.acc.mappings_executed + 1 };
}

unfoldable pub discover_pass : Settings → ℕ → ℕ → ℕ → Mapping → Exploration → Run → Store → Pass
unfolding discover_mapping
discover_pass s results limit started_at mapping x run store =
    if is_runtime_exceeded s started_at x.now
    then stops loop_ended (error_counted run) (record_mapping_error mapping.id x.ended store)
    else after_mapping mapping.id x.ended
        (discover_mapping s results limit mapping x (mapping_executed run) store)

unfoldable pub discover_loop :
    Settings → ℕ → ℕ → ℕ → List Mapping → List Exploration → Run → Store → LoopEnd × Run × Store
unfolding discover_pass
discover_loop s results limit started_at [] xs run store = (loop_ended, run, store)
discover_loop s results limit started_at (mapping ∷ rest) [] run store = (loop_starved, run, store)
discover_loop s results limit started_at (mapping ∷ rest) (x ∷ xs) run store =
    elim (discover_pass s results limit started_at mapping x run store) [
      | stops end run' store' ↦ (end, run', store')
      | goes_on run' store' ↦ discover_loop s results limit started_at rest xs run' store'
    ]

-- The call's arguments; no topics mean all of them.
pub record DiscoveryRequest : Type 0 where
  pub topics : List ℕ
  pub is_dry : Bool
  -- What `_client` or `_start_run` raises.
  pub setup_error : Option GithubError
  pub max_results : Option ℕ
  pub max_requests : Option ℕ

-- The run over the mappings, planned before it starts.
unfoldable pub run_discovery :
    Settings
    → DiscoveryRequest
    → ℕ
    → (String → Option RateLimit)
    → List Mapping
    → List Exploration
    → Store
    → CallEnd × Store
unfolding discover_loop
run_discovery s q started_at budgets mappings xs store =
    let results = or_number q.max_results s.max_results_per_mapping in
    let limit = or_number q.max_requests s.max_requests_per_run in
    let acc = new_accumulator (length (distinct (map (λ m. m.topic) mappings))) 0 in
    if results == 0 || limit == 0
    then (refused collection_error, store)
    else (if exists (λ m. not (is_some m.queries)) mappings
        then (refused query_error, store)
        else (if q.is_dry
            then (dry_run acc, store)
            else start_run q.setup_error store (
                finish (
                  discover_loop s results limit started_at mappings xs (new_run acc budgets)
                    store))))

unfoldable pub discover :
    Settings
    → DiscoveryRequest
    → ℕ
    → (String → Option RateLimit)
    → List Mapping
    → List Exploration
    → Store
    → CallEnd × Store
unfolding enabled_mappings run_discovery
discover s q started_at budgets mappings xs store = elim (enabled_mappings q.topics mappings) [
  | err e ↦ (refused e, store)
  | ok rows ↦ run_discovery s q started_at budgets rows xs store
]
