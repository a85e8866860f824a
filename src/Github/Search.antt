-- ===== src/Github/Search.antt =====
-- The searches of `_discover_mapping` (collectors/github/src/github_collector/service.py): the pages of
-- each query of a mapping, up to the limit of results. What a request asks for (URL, page size) is
-- left to the network.
pub mod Counts
pub mod Pages
pub mod Tables
use signal_observatory.Prelude.{
  ℕ, zero, suc, ◌+◌, ◌-◌, Bool, true, false, not, ◌&&◌, ◌||◌, Option, none, some, is_some, List, [],
  ◌∷◌, map, length, select, exists, is_empty, leb, ltb, ◌==◌, if◌then◌else◌, Result, ok, err,
  upsert, String,
}
use signal_observatory.Github.State.{
  Settings, RateLimit, Response, TrackingState, tracked, candidate, ignored, RepositoryData,
  DiscoveryState, OperationStatus, Store, Attempt, GithubError, budget_exhausted, transport_error,
  request_limit_reached, parse_error, value_error, query_error, collection_error, assertion_error,
  http_error, rate_limit_error, new_accumulator, RunAccumulator, Run, to_int, add_id, distinct,
}
use signal_observatory.Github.Client.{GetEnd, answered, raises, unanswered, get_search}
use signal_observatory.Github.Persistence.{upsert_repository, upsert_match}
use signal_observatory.Github.Snapshots.{
  LoopEnd, loop_ended, loop_starved, loop_raised, CallEnd, refused, dry_run, finish, or_number,
  new_run, error_counted, item_failed, is_final, is_runtime_exceeded,
}

-- A mapping with the queries of `from_mapping`, each with the qualifiers of `_effective_query`; `none`
-- where it raises.
pub record Mapping : Type 0 where
  pub id : ℕ
  pub topic : ℕ
  pub queries : Option (List String)

-- `_tracking_state`.
abbrev pub tracking_state : Settings → RepositoryData → TrackingState
tracking_state s data' =
    if data'.archived || data'.disabled || (data'.is_fork && not s.track_forks)
    then candidate
    else tracked

-- The count of a mapping's results, and the run and the tables with them.
pub record Progress : Type 0 where
  pub received : ℕ
  pub run : Run
  pub store : Store

abbrev pub repository_counted : RepositoryData → Bool → Bool → RunAccumulator → RunAccumulator
repository_counted data' created added acc = record acc {
  repositories_received = acc.repositories_received + 1;
  repository_ids = add_id data'.github_repository_id acc.repository_ids;
  fork_count = acc.fork_count + to_int data'.is_fork;
  archived_count = acc.archived_count + to_int (data'.archived || data'.disabled);
  new_repositories = acc.new_repositories + to_int created;
  existing_repositories = acc.existing_repositories + to_int (not created);
  topic_matches_added = acc.topic_matches_added + to_int added;
}

-- One repository of a page. The count of the mapping's results is its rank.
unfoldable pub collect_repository :
    Settings → Mapping → String → Response → RepositoryData → Progress → Progress
collect_repository s mapping query r data' at' =
    let (store', created) = upsert_repository data' r.requested_at at'.store in
    let (store'', added) =
      upsert_match mapping.topic data'.github_repository_id mapping.id query (at'.received + 1)
        r.requested_at (tracking_state s data') store' in
    record {
      received = at'.received + 1;
      run = record at'.run { acc = repository_counted data' created added at'.run.acc };
      store = store'';
    }

-- The repositories of a page, of which at most `room` are taken.
unfoldable pub collect_page :
    Settings → Mapping → String → Response → ℕ → List RepositoryData → Progress → Progress
unfolding collect_repository
collect_page s mapping query r zero repositories at' = at'
collect_page s mapping query r (suc room) [] at' = at'
collect_page s mapping query r (suc room) (data' ∷ rest) at' =
    collect_page s mapping query r room rest (collect_repository s mapping query r data' at')

-- After a page: the next one of the query is asked for, or the query is done, or the mapping ends.
pub data PageEnd : Type 0 where
  next_page query_done : PageEnd
  page_fails : GithubError → PageEnd
  page_cut_off : PageEnd

-- `results` is the limit of the mapping's results.
unfoldable pub after_search :
    Settings → ℕ → Mapping → String → GetEnd → Progress → PageEnd × Progress
unfolding collect_page
after_search s results mapping query unanswered at' = (page_cut_off, at')
after_search s results mapping query (raises e) at' = (page_fails e, at')
after_search s results mapping query (answered r) at' =
    if not (r.status_code == 200) then (page_fails (http_error r), at') else elim r.search [
      | none ↦ (page_fails parse_error, at')
      | some repositories ↦ (
        if is_some r.next && not (is_empty repositories) then next_page else query_done,
        collect_page s mapping query r (results - at'.received) repositories at',
      )
    ]

-- One request of a search.
unfoldable pub search_page :
    Settings → ℕ → ℕ → Mapping → String → List Attempt → Progress → PageEnd × Progress
unfolding after_search
search_page s results limit mapping query attempts at' =
    let (got, run) = get_search s limit at'.run attempts in
    after_search s results mapping query got (record at' { run = run })

-- The pages of one query, and the answers that are left for the next one.
unfoldable pub query_pages :
    Settings
    → ℕ
    → ℕ
    → Mapping
    → String
    → List (List Attempt)
    → Progress
    → PageEnd × Progress × List (List Attempt)
unfolding search_page
query_pages s results limit mapping query [] at' =
    (if leb results at'.received then query_done else page_cut_off, at', [])
query_pages s results limit mapping query (attempts ∷ trace) at' = elim (leb results at'.received) [
  | true ↦ (query_done, at', attempts ∷ trace)
  | false ↦
      let (end, next) = search_page s results limit mapping query attempts at' in
      elim end [
        | next_page ↦ query_pages s results limit mapping query trace next
        | query_done ↦ (query_done, next, trace)
        | page_fails e ↦ (page_fails e, next, trace)
        | page_cut_off ↦ (page_cut_off, next, trace)
      ]
]

unfoldable pub query_loop :
    Settings → ℕ → ℕ → Mapping → List String → List (List Attempt) → Progress → PageEnd × Progress
unfolding query_pages
query_loop s results limit mapping [] trace at' = (query_done, at')
query_loop s results limit mapping (query ∷ queries) trace at' = elim (leb results at'.received) [
  | true ↦ (query_done, at')
  | false ↦
      let (end, next, rest) = query_pages s results limit mapping query trace at' in
      elim end [
        | query_done ↦ query_loop s results limit mapping queries rest next
        | next_page ↦ (next_page, next)
        | page_fails e ↦ (page_fails e, next)
        | page_cut_off ↦ (page_cut_off, next)
      ]
]
