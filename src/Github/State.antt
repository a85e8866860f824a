-- ===== src/Github/State.antt =====
-- The rows of the collector (db/src/observatory_db/github_models.py), its accumulator, and what the
-- network answers. Surrogate ids, links to runs and Raw responses, and bookkeeping columns are left
-- out; a repository is referred to by its GitHub id. Instants and durations are microseconds.
use signal_observatory.Prelude.{
  ℕ, Bool, true, false, Option, List, [], ◌∷◌, String, exists, if◌then◌else◌, ◌==◌,
}

pub record Settings : Type 0 where
  pub discovery_due : ℕ
  pub snapshot_due : ℕ
  pub max_requests_per_run : ℕ
  pub max_results_per_mapping : ℕ
  pub track_forks : Bool
  pub max_runtime : ℕ
  pub retry_attempts : ℕ
  pub min_core_remaining : ℕ
  pub min_search_remaining : ℕ
  pub max_rate_limit_wait : ℕ

pub data TrackingState : Type 0 where
  candidate tracked ignored : TrackingState

pub data SnapshotMethod : Type 0 where
  full_200 conditional_304 : SnapshotMethod

-- `GithubRepositoryData`, as the parser returns it.
pub record RepositoryData : Type 0 where
  pub github_repository_id : ℕ
  pub node_id : String
  pub owner_login : String
  pub name : String
  pub full_name : String
  pub html_url : String
  pub api_url : String
  pub description : Option String
  pub homepage : Option String
  pub language : Option String
  pub default_branch : Option String
  pub is_fork : Bool
  pub fork_parent_github_id : Option ℕ
  pub archived : Bool
  pub disabled : Bool
  pub visibility : String
  pub created_at_github : ℕ
  pub updated_at_github : ℕ
  pub pushed_at_github : Option ℕ
  pub stargazers_count : ℕ
  pub forks_count : ℕ
  pub open_issues_count : ℕ
  pub subscribers_count : ℕ
  pub size_kb : ℕ
  pub topics : List String
  pub license_spdx : Option String
  pub metadata : String

-- `_repository_values`: the columns that every upsert assigns.
pub record RepositoryValues : Type 0 where
  pub node_id : String
  pub owner_login : String
  pub name : String
  pub full_name : String
  pub html_url : String
  pub api_url : String
  pub description : Option String
  pub homepage : Option String
  pub language : Option String
  pub default_branch : Option String
  pub is_fork : Bool
  pub fork_parent_github_id : Option ℕ
  pub archived : Bool
  pub disabled : Bool
  pub visibility : String
  pub created_at_github : ℕ
  pub updated_at_github : ℕ
  pub pushed_at_github : Option ℕ
  pub metadata : String

pub record Repository : Type 0 where
  pub github_repository_id : ℕ
  pub first_observed_at : ℕ
  pub last_observed_at : ℕ
  pub values : RepositoryValues

-- The columns of a snapshot that say what was observed.
pub record SnapshotContent : Type 0 where
  pub stargazers_count : ℕ
  pub forks_count : ℕ
  pub open_issues_count : ℕ
  pub subscribers_count : ℕ
  pub size_kb : ℕ
  pub language : Option String
  pub archived : Bool
  pub disabled : Bool
  pub default_branch : Option String
  pub pushed_at : Option ℕ
  pub updated_at_github : ℕ
  pub topics : List String
  pub license_spdx : Option String

-- Its `observation_date` is the day of `observed_at`.
pub record Snapshot : Type 0 where
  pub repository : ℕ
  pub observed_at : ℕ
  pub full_name : String
  pub content : SnapshotContent
  pub observation_method : SnapshotMethod
  pub etag : Option String

pub record Match : Type 0 where
  pub topic : ℕ
  pub repository : ℕ
  pub mapping : ℕ
  pub matched_query : String
  pub discovery_rank : ℕ
  pub first_discovered_at : ℕ
  pub last_discovered_at : ℕ
  pub tracking_state : TrackingState

-- Of an error only that there was one is kept.
pub record PollState : Type 0 where
  pub repository : ℕ
  pub last_checked_at : Option ℕ
  pub last_successful_at : Option ℕ
  pub last_snapshot_at : Option ℕ
  pub etag : Option String
  pub last_modified : Option String
  pub last_status : Option ℕ
  pub consecutive_failures : ℕ
  pub next_eligible_at : Option ℕ
  pub has_error : Bool

pub data OperationStatus : Type 0 where
  pending running succeeded partial failed : OperationStatus

pub record DiscoveryState : Type 0 where
  pub mapping : ℕ
  pub status : OperationStatus
  pub last_checked_at : Option ℕ
  pub last_successful_at : Option ℕ
  pub next_eligible_at : Option ℕ
  pub has_error : Bool

pub record Store : Type 0 where
  pub repositories : List Repository
  pub snapshots : List Snapshot
  pub matches : List Match
  pub polls : List PollState
  pub discovery : List DiscoveryState

-- `GithubRateLimit`.
pub record RateLimit : Type 0 where
  pub resource : Option String
  pub limit : Option ℕ
  pub remaining : Option ℕ
  pub reset_at : Option ℕ
  pub retry_after : Option ℕ

-- A response with what the parser makes of its payload; `says_limited` where the payload's message
-- speaks of a secondary rate limit or of abuse.
pub record Response : Type 0 where
  pub status_code : ℕ
  pub etag : Option String
  pub last_modified : Option String
  pub next : Option String
  pub rate_limit : RateLimit
  pub says_limited : Bool
  pub requested_at : ℕ
  pub search : Option (List RepositoryData)
  pub repository : Option RepositoryData

-- One attempt: no response or one, the clock at the wait after it, the jitter, and whether the Raw store
-- raises when it gets the response.
pub record Attempt : Type 0 where
  pub answer : Option Response
  pub now : ℕ
  pub jitter : ℕ
  pub raw_fails : Bool

pub data GithubError : Type 0 where
  budget_exhausted transport_error request_limit_reached parse_error value_error query_error
        raw_error collection_error assertion_error :
      GithubError
  http_error rate_limit_error : Response → GithubError

-- `RunAccumulator`, and with it the calls of the transport, which the code does not count; planned queries are left out, `repository_ids` is a list without repetitions.
pub record RunAccumulator : Type 0 where
  pub topics_considered : ℕ
  pub mappings_executed : ℕ
  pub requests_sent : ℕ
  pub raw_payloads : ℕ
  pub repositories_received : ℕ
  pub repository_ids : List ℕ
  pub new_repositories : ℕ
  pub existing_repositories : ℕ
  pub topic_matches_added : ℕ
  pub fork_count : ℕ
  pub archived_count : ℕ
  pub repositories_due : ℕ
  pub responses_200 : ℕ
  pub responses_304 : ℕ
  pub responses_404 : ℕ
  pub rate_limited_responses : ℕ
  pub snapshots_created : ℕ
  pub unchanged_observations : ℕ
  pub failed_items : ℕ
  pub rate_limit_pauses : ℕ
  pub errors : ℕ
  pub transport_calls : ℕ

abbrev pub new_accumulator : ℕ → ℕ → RunAccumulator
new_accumulator topics_considered repositories_due = record {
  topics_considered = topics_considered;
  mappings_executed = 0;
  requests_sent = 0;
  raw_payloads = 0;
  repositories_received = 0;
  repository_ids = [];
  new_repositories = 0;
  existing_repositories = 0;
  topic_matches_added = 0;
  fork_count = 0;
  archived_count = 0;
  repositories_due = repositories_due;
  responses_200 = 0;
  responses_304 = 0;
  responses_404 = 0;
  rate_limited_responses = 0;
  snapshots_created = 0;
  unchanged_observations = 0;
  failed_items = 0;
  rate_limit_pauses = 0;
  errors = 0;
  transport_calls = 0;
}

-- The accumulator with the client's budgets (`GithubRateLimitManager`) and the sleeps that it asked for.
pub record Run : Type 0 where
  pub acc : RunAccumulator
  pub budgets : String → Option RateLimit
  pub sleeps : List ℕ

-- `int(b)`.
abbrev pub to_int : Bool → ℕ
to_int true = 1
to_int false = 0

-- `set.add` and `set` of numbers.
abbrev pub add_id : ℕ → List ℕ → List ℕ
add_id id ids = if exists (λ other. other == id) ids then ids else id ∷ ids

abbrev pub distinct : List ℕ → List ℕ
distinct [] = []
distinct (id ∷ ids) = add_id id (distinct ids)
