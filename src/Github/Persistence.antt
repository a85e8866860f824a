-- ===== src/Github/Persistence.antt =====
-- `GithubPersistence` (collectors/github/src/github_collector/persistence.py): upserts of repositories
-- and matches, daily snapshots, and poll states. New rows stand in front of the snapshots.

pub mod Daily
pub mod Matches
use signal_observatory.Prelude.{
  ℕ, ◌+◌, ◌/◌, Bool, true, false, ◌&&◌, Option, none, some, is_some, List, [], ◌∷◌, String, str_eq,
  min, max, ltb, ◌==◌, if◌then◌else◌, find, upsert, exists, Result, ok, err,
}
use signal_observatory.Clock.{day}
use signal_observatory.Github.State.{
  TrackingState, candidate, tracked, ignored, full_200, conditional_304, RepositoryData,
  RepositoryValues, Repository, SnapshotContent, Snapshot, Match, PollState, Store, Response,
  GithubError, value_error,
}

-- `a or b` of two optional texts.
abbrev or_text : Option String → Option String → Option String
or_text none b = b
or_text (some a) b = if str_eq a "" then b else some a

-- `_repository_values`.
abbrev pub repository_values : RepositoryData → RepositoryValues
repository_values data' = record {
  node_id = data'.node_id;
  owner_login = data'.owner_login;
  name = data'.name;
  full_name = data'.full_name;
  html_url = data'.html_url;
  api_url = data'.api_url;
  description = data'.description;
  homepage = data'.homepage;
  language = data'.language;
  default_branch = data'.default_branch;
  is_fork = data'.is_fork;
  fork_parent_github_id = data'.fork_parent_github_id;
  archived = data'.archived;
  disabled = data'.disabled;
  visibility = data'.visibility;
  created_at_github = data'.created_at_github;
  updated_at_github = data'.updated_at_github;
  pushed_at_github = data'.pushed_at_github;
  metadata = data'.metadata;
}

abbrev pub is_repository : ℕ → Repository → Bool
is_repository id row = row.github_repository_id == id

unfoldable pub upsert_repository : RepositoryData → ℕ → Store → Store × Bool
upsert_repository data' observed_at store =
    let same = is_repository data'.github_repository_id in
    let values = repository_values data' in
    let new : Repository = record {
      github_repository_id = data'.github_repository_id;
      first_observed_at = observed_at;
      last_observed_at = observed_at;
      values = values;
    } in
    let change = λ (row : Repository). record row {
      values = values;
      last_observed_at = max row.last_observed_at observed_at;
    } in
    (
      record store { repositories = upsert same new change store.repositories },
      if exists same store.repositories then false else true,
    )

abbrev pub is_match : ℕ → ℕ → ℕ → String → Match → Bool
is_match topic repository mapping query row =
    row.topic == topic
    && row.repository == repository
    && row.mapping == mapping
    && str_eq row.matched_query query

-- The new state of a match that is seen again.
abbrev pub retracked : TrackingState → TrackingState → TrackingState
retracked ignored new = ignored
retracked old new = new

unfoldable pub upsert_match : ℕ → ℕ → ℕ → String → ℕ → ℕ → TrackingState → Store → Store × Bool
upsert_match topic repository mapping query rank observed_at tracking_state store =
    let same = is_match topic repository mapping query in
    let new : Match = record {
      topic = topic;
      repository = repository;
      mapping = mapping;
      matched_query = query;
      discovery_rank = rank;
      first_discovered_at = observed_at;
      last_discovered_at = observed_at;
      tracking_state = tracking_state;
    } in
    let change = λ (row : Match). record row {
      last_discovered_at = max row.last_discovered_at observed_at;
      discovery_rank = min row.discovery_rank rank;
      tracking_state = retracked row.tracking_state tracking_state;
    } in
    (
      record store { matches = upsert same new change store.matches },
      if exists same store.matches then false else true,
    )

abbrev new_poll_state : ℕ → PollState
new_poll_state repository = record {
  repository = repository;
  last_checked_at = none;
  last_successful_at = none;
  last_snapshot_at = none;
  etag = none;
  last_modified = none;
  last_status = none;
  consecutive_failures = 0;
  next_eligible_at = none;
  has_error = false;
}

-- `_poll_state`, with the assignments that follow it.
abbrev pub with_poll_state : ℕ → (PollState → PollState) → Store → Store
with_poll_state repository change store = record store {
  polls =
      upsert (λ p. p.repository == repository) (change (new_poll_state repository)) change
        store.polls;
}

abbrev pub mark_poll_success : ℕ → ℕ → Snapshot → Response → Store → Store
mark_poll_success repository observed_at snapshot r store =
    with_poll_state repository
      (λ p. record p {
        last_checked_at = some observed_at;
        last_successful_at = some observed_at;
        last_snapshot_at = some snapshot.observed_at;
        etag = or_text r.etag snapshot.etag;
        last_modified = r.last_modified;
        last_status = some r.status_code;
        consecutive_failures = 0;
        next_eligible_at = none;
        has_error = false;
      })
      store

abbrev pub mark_poll_failure : ℕ → ℕ → ℕ → Option ℕ → Store → Store
mark_poll_failure repository observed_at status next_eligible_at store =
    with_poll_state repository
      (λ p. record p {
        last_checked_at = some observed_at;
        last_status = some status;
        consecutive_failures = p.consecutive_failures + 1;
        next_eligible_at = next_eligible_at;
        has_error = true;
      })
      store

-- A snapshot of the repository on the day.
abbrev pub is_daily : ℕ → ℕ → Snapshot → Bool
is_daily repository date s = s.repository == repository && s.observed_at / day == date

-- `_daily_snapshot`.
abbrev pub daily_snapshot : ℕ → ℕ → List Snapshot → Option Snapshot
daily_snapshot repository date snapshots = find (is_daily repository date) snapshots

-- The snapshot of the repository with the greatest `observed_at`.
abbrev pub previous_snapshot : ℕ → List Snapshot → Option Snapshot
previous_snapshot repository [] = none
previous_snapshot repository (s ∷ ss) =
    let rest = previous_snapshot repository ss in
    if s.repository == repository
    then elim rest [
      | none ↦ some s
      | some t ↦ if ltb s.observed_at t.observed_at then some t else some s
    ]
    else rest

abbrev data_content : RepositoryData → SnapshotContent
data_content data' = record {
  stargazers_count = data'.stargazers_count;
  forks_count = data'.forks_count;
  open_issues_count = data'.open_issues_count;
  subscribers_count = data'.subscribers_count;
  size_kb = data'.size_kb;
  language = data'.language;
  archived = data'.archived;
  disabled = data'.disabled;
  default_branch = data'.default_branch;
  pushed_at = data'.pushed_at_github;
  updated_at_github = data'.updated_at_github;
  topics = data'.topics;
  license_spdx = data'.license_spdx;
}

abbrev pub full_snapshot : RepositoryData → Response → Snapshot
full_snapshot data' r = record {
  repository = data'.github_repository_id;
  observed_at = r.requested_at;
  full_name = data'.full_name;
  content = data_content data';
  observation_method = full_200;
  etag = r.etag;
}

abbrev pub unchanged_snapshot : Repository → Snapshot → Response → Snapshot
unchanged_snapshot repository previous r = record {
  repository = repository.github_repository_id;
  observed_at = r.requested_at;
  full_name = repository.values.full_name;
  content = previous.content;
  observation_method = conditional_304;
  etag = or_text r.etag previous.etag;
}

-- A new snapshot and the poll state of its repository.
abbrev pub with_snapshot : Snapshot → Response → Store → Store
with_snapshot s r store =
    mark_poll_success s.repository r.requested_at s r
      (record store { snapshots = s ∷ store.snapshots })

-- The snapshot of the repository `data'.github_repository_id`, and whether it is new.
unfoldable pub create_full_snapshot : RepositoryData → Response → Store → Store × Bool
create_full_snapshot data' r store =
    elim (daily_snapshot data'.github_repository_id (r.requested_at / day) store.snapshots) [
      | some existing ↦
          (mark_poll_success data'.github_repository_id r.requested_at existing r store, false)
      | none ↦ (with_snapshot (full_snapshot data' r) r store, true)
    ]

-- `err` for the `ValueError`, which leaves the store as it is.
unfoldable pub create_unchanged_snapshot :
    Repository → Response → Store → Result GithubError (Store × Bool)
create_unchanged_snapshot repository r store =
    elim (daily_snapshot repository.github_repository_id (r.requested_at / day) store.snapshots) [
      | some existing ↦
          ok (
            mark_poll_success repository.github_repository_id r.requested_at existing r store,
            false,
          )
      | none ↦ elim (previous_snapshot repository.github_repository_id store.snapshots) [
        | none ↦ err value_error
        | some previous ↦
            ok (with_snapshot (unchanged_snapshot repository previous r) r store, true)
      ]
    ]
