-- ===== src/Github/Search/Counts.antt =====
-- What the searches for one mapping keep: the limits of requests and results, and the counts of the
-- run, which are those of the tables.
use signal_observatory.Prelude.{
  ℕ, ◌+◌, ◌≤◌, ◌<◌, ◌≡◌, refl, ◌∙◌, Bool, true, false, not, List, ◌==◌, max, if◌then◌else◌, arith,
  Bool-cases, inl, inr, String, length, exists, All, All-mono,
}
use signal_observatory.Github.State.{
  Settings, Repository, RepositoryData, Store, Response, to_int, add_id,
}
use signal_observatory.Github.Persistence.{is_repository, upsert_repository, upsert_match}
use signal_observatory.Github.Search.{Mapping, Progress, collect_repository}
use signal_observatory.Github.Search.Tables.{length-upsert, exists-upsert, exists-upserted}

-- Each id that was received has a row.
abbrev pub IsKnown : List ℕ → List Repository → Type 0
IsKnown ids rows = All (λ id. exists (is_repository id) rows ≡ true) ids

-- From the start of a piece of the search to its end; `results` is the mapping's limit.
pub record IsSearch (results limit : ℕ) (at' next : Progress) : Type 0 where
  pub requests : next.run.acc.requests_sent ≤ max at'.run.acc.requests_sent limit
  pub calls :
      next.run.acc.transport_calls + at'.run.acc.requests_sent
      ≡ at'.run.acc.transport_calls + next.run.acc.requests_sent
  pub errors : next.run.acc.errors ≡ at'.run.acc.errors
  pub executed : next.run.acc.mappings_executed ≡ at'.run.acc.mappings_executed
  pub received : next.received ≤ max at'.received results
  pub total :
      next.run.acc.repositories_received + at'.received
      ≡ at'.run.acc.repositories_received + next.received
  pub new_or_existing :
      next.run.acc.new_repositories + next.run.acc.existing_repositories
        + at'.run.acc.repositories_received
      ≡ at'.run.acc.new_repositories + at'.run.acc.existing_repositories
        + next.run.acc.repositories_received
  pub rows :
      length next.store.repositories + at'.run.acc.new_repositories
      ≡ length at'.store.repositories + next.run.acc.new_repositories
  pub matches :
      length next.store.matches + at'.run.acc.topic_matches_added
      ≡ length at'.store.matches + next.run.acc.topic_matches_added
  pub known :
      IsKnown at'.run.acc.repository_ids at'.store.repositories
      → IsKnown next.run.acc.repository_ids next.store.repositories
  pub snapshots : next.store.snapshots ≡ at'.store.snapshots
  pub discovery : next.store.discovery ≡ at'.store.discovery

pub same-IsSearch : (results limit : ℕ) (at' : Progress) → IsSearch results limit at' at'
same-IsSearch results limit at' = record {
  requests = omega arith;
  calls = omega arith;
  errors = refl;
  executed = refl;
  received = omega arith;
  total = refl;
  new_or_existing = refl;
  rows = refl;
  matches = refl;
  known = λ k. k;
  snapshots = refl;
  discovery = refl;
}

pub IsSearch-trans :
    (results limit : ℕ) (a b c : Progress)
    → IsSearch results limit a b
    → IsSearch results limit b c
    → IsSearch results limit a c
IsSearch-trans results limit a b c h k = record {
  requests = omega (arith, h.requests, k.requests);
  calls = omega (arith, h.calls, k.calls);
  errors = k.errors ∙ h.errors;
  executed = k.executed ∙ h.executed;
  received = omega (arith, h.received, k.received);
  total = omega (arith, h.total, k.total);
  new_or_existing = omega (arith, h.new_or_existing, k.new_or_existing);
  rows = omega (arith, h.rows, k.rows);
  matches = omega (arith, h.matches, k.matches);
  known = λ o. k.known (h.known o);
  snapshots = k.snapshots ∙ h.snapshots;
  discovery = k.discovery ∙ h.discovery;
}

IsKnown-add :
    (id : ℕ) (ids : List ℕ) (rows : List Repository)
    → exists (is_repository id) rows ≡ true
    → IsKnown ids rows
    → IsKnown (add_id id ids) rows
IsKnown-add id ids rows h k = elim (Bool-cases (exists (λ other. other == id) ids)) [
  | inl e ↦ rw (e, add_id) k
  | inr e ↦ rw (e, add_id) (h, k)
]

-- A repository that is stored is found, and so are those that were.
stored :
    (data' : RepositoryData) (now : ℕ) (store : Store)
    → exists
        (is_repository data'.github_repository_id)
        (upsert_repository data' now store).0.repositories
      ≡ true
unfolding upsert_repository
stored data' now store =
    exists-upserted (is_repository data'.github_repository_id) _ _ store.repositories (ground arith)
      (λ x. refl)

still_stored :
    (id : ℕ) (data' : RepositoryData) (now : ℕ) (store : Store)
    → exists (is_repository id) store.repositories ≡ true
    → exists (is_repository id) (upsert_repository data' now store).0.repositories ≡ true
unfolding upsert_repository
still_stored id data' now store h =
    exists-upsert (is_repository data'.github_repository_id) _ _ (is_repository id)
      store.repositories (λ x. refl) h

pub collect_repository-IsSearch :
    (s : Settings) (results limit : ℕ) (mapping : Mapping) (query : String) (r : Response)
    (data' : RepositoryData) (at' : Progress)
    → at'.received < results
    → IsSearch results limit at' (collect_repository s mapping query r data' at')
unfolding collect_repository upsert_match upsert_repository
collect_repository-IsSearch s results limit mapping query r data' at' room =
    let id = data'.github_repository_id in
    let store' = (upsert_repository data' r.requested_at at'.store).0 in
    record {
      requests = omega arith;
      calls = omega arith;
      errors = refl;
      executed = refl;
      received = omega (arith, room);
      total = omega arith;
      new_or_existing =
          one_of (if exists (is_repository id) at'.store.repositories then false else true);
      rows = omega (arith, length-upsert (is_repository id) _ _ at'.store.repositories);
      matches = omega (arith, length-upsert _ _ _ at'.store.matches);
      known = λ k.
          IsKnown-add id at'.run.acc.repository_ids store'.repositories
            (stored data' r.requested_at at'.store)
            (All-mono _ _ at'.run.acc.repository_ids
              (λ other. still_stored other data' r.requested_at at'.store) k);
      snapshots = refl;
      discovery = refl;
    }
  where
    one_of :
        (created : Bool)
        → at'.run.acc.new_repositories
            + to_int created
            + (at'.run.acc.existing_repositories + to_int (not created))
            + at'.run.acc.repositories_received
          ≡ at'.run.acc.new_repositories
            + at'.run.acc.existing_repositories
            + (at'.run.acc.repositories_received + 1)
    one_of true = omega arith
    one_of false = omega arith
