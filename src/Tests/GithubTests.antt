-- ===== src/Tests/GithubTests.antt =====
-- The GitHub collector at one repository, observed before, and one mapping.
use signal_observatory.Prelude.{
  ℕ, ap, All_at, Member, inl, find, ◌≡◌, refl, false, Option, none, some, List, [], ◌∷◌, String, ok,
  err, ◌*◌, ◌+◌,
}
use signal_observatory.Clock.{day, hour, minute}
use signal_observatory.Operations.{IngestionStatus}
use signal_observatory.Github.State.{
  tracked, Match, Settings, RepositoryData, Repository, Store, RateLimit, Response, Attempt,
  RunAccumulator, new_accumulator,
}
use signal_observatory.Github.Client.{get}
use signal_observatory.Github.Persistence.Matches.{
  Sighting, is_this, see_all, row_before, IsSeen, see_all-IsSeen,
}
use signal_observatory.Github.Persistence.{upsert_match, upsert_repository, repository_values}
use signal_observatory.Github.Due.{tracked_repositories}
use signal_observatory.Github.Snapshots.{
  Visit, SnapshotRequest, snapshot, CallEnd, finished, dry_run, refused, raised, starved,
}
use signal_observatory.Github.Snapshots.Steps.{IsGenuine}
use signal_observatory.Github.Snapshots.Visits.{IsCovered}
use signal_observatory.Github.Snapshots.Runs.{AllGenuine}
use signal_observatory.Github.Snapshots.Observed.{snapshot-IsCovered}
use signal_observatory.Github.Snapshots.Whole.{Keeps as SnapshotKeeps, snapshot-Keeps}
use signal_observatory.Github.Search.{Mapping}
use signal_observatory.Github.Discovery.{Exploration, DiscoveryRequest, discover, enabled_mappings}
use signal_observatory.Github.Discovery.Whole.{AllExplored}
use signal_observatory.Github.Discovery.Calls.{Keeps, discover-Keeps, discover-AllExplored}

abbrev settings : Settings
settings = record {
  discovery_due = 7 * day;
  snapshot_due = 20 * hour;
  max_requests_per_run = 100;
  max_results_per_mapping = 2;
  track_forks = false;
  max_runtime = 60 * minute;
  retry_attempts = 3;
  min_core_remaining = 5;
  min_search_remaining = 2;
  max_rate_limit_wait = minute;
}

abbrev data_of : ℕ → RepositoryData
data_of id = record {
  github_repository_id = id;
  node_id = "n";
  owner_login = "o";
  name = "r";
  full_name = "o/r";
  html_url = "h";
  api_url = "a";
  description = none;
  homepage = none;
  language = some "Python";
  default_branch = some "main";
  is_fork = false;
  fork_parent_github_id = none;
  archived = false;
  disabled = false;
  visibility = "public";
  created_at_github = 1;
  updated_at_github = 2;
  pushed_at_github = none;
  stargazers_count = 10;
  forks_count = 1;
  open_issues_count = 0;
  subscribers_count = 3;
  size_kb = 40;
  topics = [];
  license_spdx = none;
  metadata = "{}";
}

abbrev plain_rate : RateLimit
plain_rate = record {
  resource = some "core";
  limit = some 60;
  remaining = some 50;
  reset_at = none;
  retry_after = none;
}

abbrev answer : ℕ → ℕ → Option (List RepositoryData) → Option RepositoryData → Attempt
answer status now search repository = record {
  answer = some (record {
    status_code = status;
    etag = some "e2";
    last_modified = none;
    next = none;
    rate_limit = plain_rate;
    says_limited = false;
    requested_at = now;
    search = search;
    repository = repository;
  });
  now = now;
  jitter = 0;
  raw_fails = false;
}

abbrev lost : ℕ → Attempt
lost now = record { answer = none; now = now; jitter = 0; raw_fails = false }

abbrev no_budget : String → Option RateLimit
no_budget resource = none

abbrev empty_store : Store
empty_store = record { repositories = []; snapshots = []; matches = []; polls = []; discovery = [] }

abbrev mappings : List Mapping
mappings = record { id = 4; topic = 9; queries = some ("llm" ∷ "agents" ∷ []) } ∷ []

abbrev explorations : List Exploration
explorations =
    record {
      now = 0;
      started = 1;
      ended = 2;
      requests =
          (lost 0 ∷ answer 200 1 (some (data_of 7 ∷ [])) none ∷ [])
          ∷ (answer 200 2 (some (data_of 7 ∷ data_of 8 ∷ [])) none ∷ [])
          ∷ [];
    }
    ∷ []

abbrev discovery_request : DiscoveryRequest
discovery_request = record {
  topics = 9 ∷ [];
  is_dry = false;
  setup_error = none;
  max_results = none;
  max_requests = some 5;
}

-- The store after a discovery, with the repository 7 tracked.
abbrev discovered : CallEnd × Store
discovered = discover settings discovery_request 0 no_budget mappings explorations empty_store

abbrev status_of : CallEnd → Option IngestionStatus
status_of (finished status acc) = some status
status_of (refused e) = none
status_of (dry_run acc) = none
status_of (raised e) = none
status_of starved = none

abbrev acc_of : CallEnd → Option RunAccumulator
acc_of (finished status acc) = some acc
acc_of (dry_run acc) = some acc
acc_of (refused e) = none
acc_of (raised e) = none
acc_of starved = none

discovered_status : status_of discovered.0 ≡ some IngestionStatus.succeeded
unfolding discover get
discovered_status = refl

discover-Keeps_example : Keeps 2 5 empty_store discovered
discover-Keeps_example =
    discover-Keeps settings discovery_request 0 no_budget mappings explorations empty_store

abbrev attempts : List Attempt
attempts = lost day ∷ answer 200 (day + 1) none (some (data_of 7)) ∷ []

abbrev visits : List Visit
visits = record { now = day; attempts = attempts } ∷ []

abbrev request : SnapshotRequest
request = record {
  topics = [];
  ids = 7 ∷ [];
  is_dry = false;
  setup_error = none;
  max_requests = none;
}

abbrev observed_once : CallEnd × Store
observed_once = snapshot settings request day no_budget visits discovered.1

observed_status : status_of observed_once.0 ≡ some IngestionStatus.succeeded
unfolding snapshot discover get upsert_match upsert_repository
observed_status = refl

snapshot-Keeps_example : SnapshotKeeps 100 discovered.1 observed_once
snapshot-Keeps_example = snapshot-Keeps settings request day no_budget visits discovered.1

abbrev counts : CallEnd → RunAccumulator
counts end = elim (acc_of end) [ none ↦ new_accumulator 0 0 | some acc ↦ acc ]

discovered_end :
    discovered ≡ (finished IngestionStatus.succeeded (counts discovered.0), discovered.1)
unfolding discover get
discovered_end = refl

discover-AllExplored_example : AllExplored settings mappings discovered.1
unfolding enabled_mappings
discover-AllExplored_example =
    discover-AllExplored settings discovery_request 0 no_budget mappings explorations empty_store
      discovered.1 (counts discovered.0) mappings refl (tt, tt) discovered_end

abbrev rows : List Repository
rows = elim (tracked_repositories settings day [] (7 ∷ []) discovered.1) [
  | ok found ↦ found
  | err e ↦ []
]

rows_due : tracked_repositories settings day [] (7 ∷ []) discovered.1 ≡ ok rows
unfolding tracked_repositories discover get upsert_match upsert_repository
rows_due = refl

observed_end :
    observed_once ≡ (finished IngestionStatus.succeeded (counts observed_once.0), observed_once.1)
unfolding snapshot discover get upsert_match upsert_repository
observed_end = refl

-- An attempt answers about the repository, if at all.
abbrev Genuine : ℕ → Attempt → Type 0
Genuine id a = (r : Response) → a.answer ≡ some r → IsGenuine id r

abbrev answered_id : Option Response → Option ℕ
answered_id none = none
answered_id (some r) = elim r.repository [
  | none ↦ none
  | some data' ↦ some data'.github_repository_id
]

answer-Genuine : (id now : ℕ) → Genuine id (answer 200 now none (some (data_of id)))
answer-Genuine id now r e data' f =
    let same : some id ≡ answered_id (some r) = ap answered_id e in
    let ids : some id ≡ some data'.github_repository_id = rw (f, answered_id) at same in cc

genuine : AllGenuine rows visits
unfolding tracked_repositories discover get upsert_match upsert_repository
genuine = (
  λ r (a, m, e).
      All_at (Genuine 7) a attempts (λ r' e'. cc, (answer-Genuine 7 (day + 1), tt)) m r e,
  tt,
)

-- The row of the repository 7.
abbrev due_row : Repository
due_row = record {
  github_repository_id = 7;
  first_observed_at = 1;
  last_observed_at = 2;
  values = repository_values (data_of 7);
}

snapshot-IsCovered_example :
    (v : Visit) × Member v visits
    × IsCovered due_row.github_repository_id v.attempts observed_once.1
unfolding tracked_repositories discover get upsert_match upsert_repository
snapshot-IsCovered_example =
    snapshot-IsCovered settings request day no_budget visits discovered.1 observed_once.1
      (counts observed_once.0) rows due_row rows_due genuine observed_end (inl refl) refl

-- Every repository that was due has its three attempts.
abbrev full_attempts : List Attempt
full_attempts = lost day ∷ answer 500 (day + 1) none none ∷ answer 404 (day + 2) none none ∷ []

abbrev full_visits : List Visit
full_visits = record { now = day; attempts = full_attempts } ∷ []

abbrev first_sighting : Sighting
first_sighting = record { rank = 5; at_instant = 10; state = tracked }

abbrev later_sightings : List Sighting
later_sightings =
    record { rank = 2; at_instant = 30; state = tracked }
    ∷ record { rank = 9; at_instant = 20; state = tracked }
    ∷ []

see_all-IsSeen_example :
    (m : Match) × (find
        (is_this 9 7 4 "llm")
        (see_all 9 7 4 "llm" (first_sighting ∷ later_sightings) empty_store).matches
      ≡ some m)
    × IsSeen 9 7 4 "llm"
        (row_before 9 7 4 "llm" none first_sighting)
        m
        (first_sighting ∷ later_sightings)
see_all-IsSeen_example =
    see_all-IsSeen 9 7 4 "llm" first_sighting later_sightings empty_store none refl
