-- ===== src/Github/Discovery/Rounds.antt =====
-- The work on one mapping: what it keeps of the run and of the other mappings' states, and the state
-- that it leaves.
use signal_observatory.Prelude.{ℕ, ◌+◌, ◌*◌, ◌≤◌, ◌≡◌, refl, ◌∙◌, max, arith, length}
use signal_observatory.Github.State.{Store, Run}
use signal_observatory.Github.Snapshots.{error_counted, item_failed}
use signal_observatory.Github.Search.{Progress}
use signal_observatory.Github.Search.Counts.{IsKnown, IsSearch, same-IsSearch}
use signal_observatory.Github.Discovery.{record_mapping_error, mapping_executed}

-- Of a run over mappings, of which each receives at most `results` repositories.
pub record IsRound (results limit : ℕ) (run : Run) (store : Store) (run' : Run) (store' : Store)
    : Type 0 where
  pub requests : run'.acc.requests_sent ≤ max run.acc.requests_sent limit
  pub calls :
      run'.acc.transport_calls + run.acc.requests_sent
      ≡ run.acc.transport_calls + run'.acc.requests_sent
  pub errors : run.acc.errors ≤ run'.acc.errors
  pub received :
      run'.acc.repositories_received + results * run.acc.mappings_executed
      ≤ run.acc.repositories_received + results * run'.acc.mappings_executed
  pub new_or_existing :
      run'.acc.new_repositories + run'.acc.existing_repositories + run.acc.repositories_received
      ≡ run.acc.new_repositories + run.acc.existing_repositories + run'.acc.repositories_received
  pub rows :
      length store'.repositories + run.acc.new_repositories
      ≡ length store.repositories + run'.acc.new_repositories
  pub matches :
      length store'.matches + run.acc.topic_matches_added
      ≡ length store.matches + run'.acc.topic_matches_added
  pub known :
      IsKnown run.acc.repository_ids store.repositories
      → IsKnown run'.acc.repository_ids store'.repositories
  pub snapshots : store'.snapshots ≡ store.snapshots

pub same-IsRound :
    (results limit : ℕ) (run : Run) (store : Store) → IsRound results limit run store run store
same-IsRound results limit run store = record {
  requests = omega arith;
  calls = omega arith;
  errors = omega arith;
  received = omega arith;
  new_or_existing = refl;
  rows = refl;
  matches = refl;
  known = λ k. k;
  snapshots = refl;
}

pub IsRound-trans :
    (results limit : ℕ) (a b c : Run) (p q r : Store)
    → IsRound results limit a p b q
    → IsRound results limit b q c r
    → IsRound results limit a p c r
IsRound-trans results limit a b c p q r h k = record {
  requests = omega (arith, h.requests, k.requests);
  calls = omega (arith, h.calls, k.calls);
  errors = omega (arith, h.errors, k.errors);
  received = omega (arith, h.received, k.received);
  new_or_existing = omega (arith, h.new_or_existing, k.new_or_existing);
  rows = omega (arith, h.rows, k.rows);
  matches = omega (arith, h.matches, k.matches);
  known = λ o. k.known (h.known o);
  snapshots = k.snapshots ∙ h.snapshots;
}

-- An error is counted, and other tables change.
pub error_counted-IsRound :
    (results limit : ℕ) (run : Run) (mapping now : ℕ) (store : Store)
    → IsRound results limit run store (error_counted run) (record_mapping_error mapping now store)
error_counted-IsRound results limit run mapping now store =
    let h = same-IsRound results limit run store in
    record {
      requests = h.requests;
      calls = h.calls;
      errors = omega arith;
      received = h.received;
      new_or_existing = refl;
      rows = refl;
      matches = refl;
      known = λ k. k;
      snapshots = refl;
    }

pub item_failed-IsRound :
    (results limit : ℕ) (run : Run) (mapping now : ℕ) (store : Store)
    → IsRound results limit run store (item_failed run) (record_mapping_error mapping now store)
item_failed-IsRound results limit run mapping now store =
    let h = same-IsRound results limit run store in
    record {
      requests = h.requests;
      calls = h.calls;
      errors = omega arith;
      received = h.received;
      new_or_existing = refl;
      rows = refl;
      matches = refl;
      known = λ k. k;
      snapshots = refl;
    }

-- The search for one mapping, of which the count starts at 0.
pub searched-IsRound :
    (results limit : ℕ) (run : Run) (store store' : Store) (next : Progress) (last : Store)
    → store'.repositories ≡ store.repositories
    → store'.matches ≡ store.matches
    → store'.snapshots ≡ store.snapshots
    → IsSearch results limit
        (record { received = 0; run = mapping_executed run; store = store' })
        next
    → last.repositories ≡ next.store.repositories
    → last.matches ≡ next.store.matches
    → last.snapshots ≡ next.store.snapshots
    → IsRound results limit run store next.run last
searched-IsRound results limit run store store' next last a b c h d e f = record {
  requests = h.requests;
  calls = h.calls;
  errors = omega (arith, h.errors);
  received = omega (arith, h.received, h.total, mul_executed);
  new_or_existing = h.new_or_existing;
  rows = rw (← a) (rw d h.rows);
  matches = rw (← b) (rw e h.matches);
  known = λ k. rw d (h.known (rw a k));
  snapshots = f ∙ h.snapshots ∙ c;
}
  where
    mul_executed :
        results * next.run.acc.mappings_executed ≡ results * run.acc.mappings_executed + results
    mul_executed = rw h.executed (omega arith)

-- A mapping without queries.
pub executed-IsRound :
    (results limit : ℕ) (run : Run) (store store' : Store)
    → store'.repositories ≡ store.repositories
    → store'.matches ≡ store.matches
    → store'.snapshots ≡ store.snapshots
    → IsRound results limit run store (mapping_executed run) store'
executed-IsRound results limit run store store' a b c =
    searched-IsRound results limit run store store'
      (record { received = 0; run = mapping_executed run; store = store' }) store' a b c
      (same-IsSearch results limit _) refl refl refl
