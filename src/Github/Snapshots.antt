-- ===== src/Github/Snapshots.antt =====
-- `GithubCollectionService.snapshot` (collectors/github/src/github_collector/service.py): one
-- request for each repository that is due. A repository is visited with what the
-- network answers; that the request names the last ETag is left to the network. What the set-up of the
-- client and of the run raises (`_client`, `_start_run`, `_github_source`) is an input of the call, and so is an error of the Raw store;
-- the run's record and its errors' rows are left out.
pub mod Steps
pub mod Visits
pub mod Runs
pub mod Whole
pub mod Returns
pub mod Observed
use signal_observatory.Prelude.{
  String, ℕ, ◌+◌, ◌-◌, ◌≤◌, Bool, true, false, not, ◌&&◌, ◌||◌, Option, none, some, List, [], ◌∷◌,
  length, select, find, exists, is_empty, leb, ◌==◌, if◌then◌else◌, Result, ok, err,
}
use signal_observatory.Github.State.{
  Settings, RateLimit, Response, distinct, tracked, candidate, ignored, TrackingState, Repository,
  Match, PollState, Store, Attempt, GithubError, budget_exhausted, transport_error,
  request_limit_reached, parse_error, value_error, collection_error, assertion_error, raw_error,
  http_error, rate_limit_error, RunAccumulator, new_accumulator, Run, to_int,
}
use signal_observatory.Operations.{IngestionStatus}
use signal_observatory.Github.Due.{tracked_repositories}
use signal_observatory.Github.Client.{GetEnd, answered, raises, unanswered, get_repository}
use signal_observatory.Github.Persistence.{
  is_repository, upsert_repository, with_poll_state, mark_poll_failure, create_full_snapshot,
  create_unchanged_snapshot,
}

-- `a or b`, where 0 counts as nothing.
abbrev pub or_number : Option ℕ → ℕ → ℕ
or_number none b = b
or_number (some a) b = if a == 0 then b else a

-- How the work on one repository ends.
pub data VisitEnd : Type 0 where
  observed : VisitEnd
  fails : GithubError → VisitEnd
  cut_off : VisitEnd

-- The row that the session holds for the repository.
abbrev pub current : Store → Repository → Repository
current store repository =
    elim (find (is_repository repository.github_repository_id) store.repositories) [
      | none ↦ repository
      | some row ↦ row
    ]

-- The counts of a 304, and of a full response.
abbrev pub unchanged_counted : Bool → Run → Run
unchanged_counted created run = record run {
  acc = record run.acc {
    snapshots_created = run.acc.snapshots_created + to_int created;
    unchanged_observations = run.acc.unchanged_observations + 1;
  };
}

abbrev pub full_counted : Bool → Run → Run
full_counted created run = record run {
  acc = record run.acc { snapshots_created = run.acc.snapshots_created + to_int created };
}

-- What follows a request that is answered, and one that may have failed.
unfoldable pub after_answer : Repository → Store → Response → Run → VisitEnd × Run × Store
after_answer repository store r run = elim (r.status_code == 304) [
  | true ↦ elim (create_unchanged_snapshot (current store repository) r store) [
    | err e ↦ (fails e, run, store)
    | ok (store', created) ↦ (observed, unchanged_counted created run, store')
  ]
  | false ↦ elim (r.status_code == 200) [
    | false ↦ (fails (http_error r), run, store)
    | true ↦ elim r.repository [
      | none ↦ (
        fails parse_error,
        run,
        mark_poll_failure repository.github_repository_id r.requested_at r.status_code none store,
      )
      | some data' ↦
          let (store', created) =
            create_full_snapshot data' r (upsert_repository data' r.requested_at store).0 in
          (observed, full_counted created run, store')
    ]
  ]
]

unfoldable pub after_get : Repository → Store → GetEnd × Run → VisitEnd × Run × Store
unfolding after_answer
after_get repository store (unanswered, run) = (cut_off, run, store)
after_get repository store (raises (http_error r), run) = (
  fails (http_error r),
  run,
  mark_poll_failure repository.github_repository_id r.requested_at r.status_code none store,
)
after_get repository store (raises (rate_limit_error r), run) = (
  fails (rate_limit_error r),
  run,
  mark_poll_failure repository.github_repository_id r.requested_at r.status_code
      r.rate_limit.reset_at store,
)
after_get repository store (raises e, run) = (fails e, run, store)
after_get repository store (answered r, run) = after_answer repository store r run

-- `_snapshot_repository`.
unfoldable pub snapshot_repository :
    Settings → ℕ → Repository → List Attempt → Run → Store → VisitEnd × Run × Store
unfolding after_get
snapshot_repository s limit repository attempts run store =
    let store' = with_poll_state repository.github_repository_id (λ p. p) store in
    after_get repository store' (get_repository s limit run attempts)

-- The clock before the work on a repository, and the attempts of its request.
pub record Visit : Type 0 where
  pub now : ℕ
  pub attempts : List Attempt

pub data LoopEnd : Type 0 where
  loop_ended loop_starved : LoopEnd
  loop_raised : GithubError → LoopEnd

-- The errors that `snapshot` handles, and those of them that end its loop.
abbrev pub is_handled : GithubError → Bool
is_handled collection_error = false
is_handled assertion_error = false
is_handled raw_error = false
is_handled _ = true

abbrev pub is_final : GithubError → Bool
is_final budget_exhausted = true
is_final request_limit_reached = true
is_final _ = false

abbrev pub error_counted : Run → Run
error_counted run = record run { acc = record run.acc { errors = run.acc.errors + 1 } }

abbrev pub item_failed : Run → Run
item_failed run = record run {
  acc = record run.acc { errors = run.acc.errors + 1; failed_items = run.acc.failed_items + 1 };
}

-- `_runtime_exceeded`.
abbrev pub is_runtime_exceeded : Settings → ℕ → ℕ → Bool
is_runtime_exceeded s started_at now = leb (started_at + s.max_runtime) now

-- One round of the loop: the next one follows, or the loop has ended.
pub data Pass : Type 0 where
  goes_on : Run → Store → Pass
  stops : LoopEnd → Run → Store → Pass

abbrev pub after_visit : VisitEnd × Run × Store → Pass
after_visit (observed, run, store) = goes_on run store
after_visit (cut_off, run, store) = stops loop_starved run store
after_visit (fails e, run, store) =
    if not (is_handled e)
    then stops (loop_raised e) run store
    else (if is_final e
        then stops loop_ended (item_failed run) store
        else goes_on (item_failed run) store)

unfoldable pub snapshot_pass : Settings → ℕ → ℕ → Repository → Visit → Run → Store → Pass
unfolding snapshot_repository
snapshot_pass s limit started_at repository v run store =
    if leb limit run.acc.requests_sent || is_runtime_exceeded s started_at v.now
    then stops loop_ended (error_counted run) store
    else after_visit (snapshot_repository s limit repository v.attempts run store)

unfoldable pub snapshot_loop :
    Settings → ℕ → ℕ → List Repository → List Visit → Run → Store → LoopEnd × Run × Store
unfolding snapshot_pass
snapshot_loop s limit started_at [] visits run store = (loop_ended, run, store)
snapshot_loop s limit started_at (repository ∷ rest) [] run store = (loop_starved, run, store)
snapshot_loop s limit started_at (repository ∷ rest) (v ∷ visits) run store =
    elim (snapshot_pass s limit started_at repository v run store) [
      | stops end run' store' ↦ (end, run', store')
      | goes_on run' store' ↦ snapshot_loop s limit started_at rest visits run' store'
    ]

-- `_terminal_status`.
abbrev pub terminal_status : RunAccumulator → IngestionStatus
terminal_status acc = if acc.errors == 0 then IngestionStatus.succeeded else IngestionStatus.partial

-- The figures of `_data_quality` on snapshots that are missing.
abbrev pub missing_snapshot_count : RunAccumulator → ℕ
missing_snapshot_count acc =
    (acc.repositories_due - acc.snapshots_created) - acc.unchanged_observations

abbrev pub new_run : RunAccumulator → (String → Option RateLimit) → Run
new_run acc budgets = record { acc = acc; budgets = budgets; sleeps = [] }

pub data CallEnd : Type 0 where
  refused : GithubError → CallEnd
  dry_run : RunAccumulator → CallEnd
  finished : IngestionStatus → RunAccumulator → CallEnd
  raised : GithubError → CallEnd
  starved : CallEnd

abbrev pub finish : LoopEnd × Run × Store → CallEnd × Store
finish (loop_ended, run, store) = (finished (terminal_status run.acc) run.acc, store)
finish (loop_starved, run, store) = (starved, store)
finish (loop_raised e, run, store) = (raised e, store)

-- The set-up of a run that is not dry, outside the handler of its loop; `out` is the rest of the call.
abbrev pub start_run : Option GithubError → Store → CallEnd × Store → CallEnd × Store
start_run none store out = out
start_run (some e) store out = (raised e, store)

-- The call's arguments; no topics or no ids mean all of them.
pub record SnapshotRequest : Type 0 where
  pub topics : List ℕ
  pub ids : List ℕ
  pub is_dry : Bool
  -- What `_client` or `_start_run` raises.
  pub setup_error : Option GithubError
  pub max_requests : Option ℕ

-- `budgets` are those that the client holds from earlier calls.
unfoldable pub snapshot :
    Settings
    → SnapshotRequest
    → ℕ
    → (String → Option RateLimit)
    → List Visit
    → Store
    → CallEnd × Store
unfolding tracked_repositories snapshot_loop
snapshot s q started_at budgets visits store =
    elim (tracked_repositories s started_at q.topics q.ids store) [
      | err e ↦ (refused e, store)
      | ok repositories ↦
          let acc = new_accumulator (length (distinct q.topics)) (length repositories) in
          if q.is_dry
          then (dry_run acc, store)
          else start_run q.setup_error store (
              finish (
                snapshot_loop s (or_number q.max_requests s.max_requests_per_run) started_at
                  repositories visits (new_run acc budgets) store))
    ]
