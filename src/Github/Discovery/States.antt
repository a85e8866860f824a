-- ===== src/Github/Discovery/States.antt =====
-- The discovery states: which one the work on a mapping changes, and what it says afterwards.
use signal_observatory.Prelude.{
  ℕ, ◌+◌, ◌≡◌, refl, ap, ◌∙◌, true, false, Option, none, some, List, ◌==◌, arith, Option-cases, inl,
  inr, String, find,
}
use signal_observatory.Github.State.{
  Settings, DiscoveryState, OperationStatus, Store, query_error, Run,
}
use signal_observatory.Github.Snapshots.{VisitEnd, observed, fails}
use signal_observatory.Github.Search.{
  Mapping, PageEnd, next_page, query_done, page_fails, page_cut_off, Progress, query_loop,
}
use signal_observatory.Github.Search.Counts.{IsSearch}
use signal_observatory.Github.Search.Pages.{query_loop-IsSearch}
use signal_observatory.Github.Search.Tables.{find-upserted, find-upsert}
use signal_observatory.Github.Discovery.{
  is_state, as_running, as_succeeded, new_discovery_state, with_discovery_state, mark_running,
  mark_succeeded, Exploration, after_queries, discover_mapping, mapping_executed,
}
use signal_observatory.Github.Discovery.Rounds.{IsRound, executed-IsRound, searched-IsRound}

-- The mapping's state says that it was searched, and when it is due again.
abbrev pub IsExplored : Settings → ℕ → Store → Type 0
IsExplored s id store =
    (d : DiscoveryState) × (t : ℕ) × (find (is_state id) store.discovery ≡ some d)
    × (d.status ≡ OperationStatus.succeeded)
    × (d.last_successful_at ≡ some t)
    × (d.next_eligible_at ≡ some (t + s.discovery_due))
    × (d.has_error ≡ false)

-- The states of other mappings stay.
abbrev pub OthersKept : ℕ → Store → Store → Type 0
OthersKept id store store' =
    (other : ℕ)
    → (other == id) ≡ false
    → find (is_state other) store'.discovery ≡ find (is_state other) store.discovery

pub IsExplored-kept :
    (s : Settings) (id other : ℕ) (store store' : Store)
    → OthersKept id store store'
    → (other == id) ≡ false
    → IsExplored s other store
    → IsExplored s other store'
IsExplored-kept s id other store store' k n (d, t, e, a, b, c, f) =
    (d, t, k other n ∙ e, a, b, c, f)

pub OthersKept-trans :
    (id : ℕ) (a b c : Store) → OthersKept id a b → OthersKept id b c → OthersKept id a c
OthersKept-trans id a b c h k = λ other n. k other n ∙ h other n

apart : (a b : ℕ) (d : ℕ) → (b == a) ≡ false → (d == a) ≡ true → (d == b) ≡ false
apart a b d n h = ground (arith, n, h)

pub with_discovery_state-OthersKept :
    (id : ℕ) (change : DiscoveryState → DiscoveryState) (store : Store)
    → ((d : DiscoveryState) → (change d).mapping ≡ d.mapping)
    → OthersKept id store (with_discovery_state id change store)
with_discovery_state-OthersKept id change store same = λ other n.
    find-upsert (is_state id) _ change (is_state other) store.discovery
      (rw (same _) (ground (arith, n))) (λ d h. apart id other d.mapping n h)
      (λ d. ap (λ m. m == other) (same d))

mark_succeeded-IsExplored :
    (s : Settings) (id now : ℕ) (store : Store) → IsExplored s id (mark_succeeded s id now store)
mark_succeeded-IsExplored s id now store =
    let found =
      find-upserted (is_state id) (as_succeeded s now (new_discovery_state id)) (as_succeeded s now)
        store.discovery (ground arith) (λ d. refl) in
    elim (Option-cases (find (is_state id) store.discovery)) [
      | inl e ↦ (_, now, rw e at found, refl, refl, refl, refl)
      | inr (d, e) ↦ (_, now, rw e at found, refl, refl, refl, refl)
    ]

-- How the work on a mapping ends, and what it has left if it ended well.
abbrev pub VisitOutcome : Settings → ℕ → ℕ → ℕ → Run → Store → VisitEnd × Run × Store → Type 0
VisitOutcome s results limit id run store (end, run', store') =
    IsRound results limit run store run' store'
    × OthersKept id store store'
    × (end ≡ observed → IsExplored s id store')

explored-Outcome :
    (s : Settings) (results limit id now : ℕ) (run : Run) (store store' : Store) (next : Progress)
    → store'.repositories ≡ store.repositories
    → store'.matches ≡ store.matches
    → store'.snapshots ≡ store.snapshots
    → OthersKept id store store'
    → IsSearch results limit
        (record { received = 0; run = mapping_executed run; store = store' })
        next
    → VisitOutcome s results limit id run store
        (observed, next.run, mark_succeeded s id now next.store)
explored-Outcome s results limit id now run store store' next a b c k h =
    let last = mark_succeeded s id now next.store in
    let kept = with_discovery_state-OthersKept id (as_succeeded s now) next.store (λ d. refl) in
    (
      searched-IsRound results limit run store store' next last a b c h refl refl refl,
      λ other n. kept other n ∙ ap (find (is_state other)) h.discovery ∙ k other n,
      λ _. mark_succeeded-IsExplored s id now next.store,
    )

after_queries-Outcome :
    (s : Settings) (results limit id now : ℕ) (run : Run) (store store' : Store)
    (out : PageEnd × Progress)
    → store'.repositories ≡ store.repositories
    → store'.matches ≡ store.matches
    → store'.snapshots ≡ store.snapshots
    → OthersKept id store store'
    → IsSearch results limit
        (record { received = 0; run = mapping_executed run; store = store' })
        out.1
    → VisitOutcome s results limit id run store (after_queries s id now out)
after_queries-Outcome s results limit id now run store store' (query_done, next) a b c k h =
    explored-Outcome s results limit id now run store store' next a b c k h
after_queries-Outcome s results limit id now run store store' (next_page, next) a b c k h =
    explored-Outcome s results limit id now run store store' next a b c k h
after_queries-Outcome s results limit id now run store store' (page_fails e, next) a b c k h = (
  searched-IsRound results limit run store store' next next.store a b c h refl refl refl,
  λ other n. ap (find (is_state other)) h.discovery ∙ k other n,
  λ e. cc,
)
after_queries-Outcome s results limit id now run store store' (page_cut_off, next) a b c k h = (
  searched-IsRound results limit run store store' next next.store a b c h refl refl refl,
  λ other n. ap (find (is_state other)) h.discovery ∙ k other n,
  λ e. cc,
)

pub discover_mapping-Outcome :
    (s : Settings) (results limit : ℕ) (mapping : Mapping) (x : Exploration) (run : Run)
    (store : Store)
    → VisitOutcome s results limit mapping.id run store
        (discover_mapping s results limit mapping x (mapping_executed run) store)
unfolding discover_mapping
discover_mapping-Outcome s results limit mapping x run store = searched mapping.queries
  where
    searched :
        (found : Option (List String))
        → VisitOutcome s results limit mapping.id run store
            (elim found as (λ _. VisitEnd × Run × Store) [
              | none ↦
                  (fails query_error, mapping_executed run, mark_running mapping.id x.started store)
              | some queries ↦ after_queries s mapping.id x.ended (
                  query_loop s results limit mapping queries x.requests (record {
                    received = 0;
                    run = mapping_executed run;
                    store = mark_running mapping.id x.started store;
                  }))
            ])
    searched none = (
      executed-IsRound results limit run store (mark_running mapping.id x.started store) refl refl
          refl,
      with_discovery_state-OthersKept mapping.id (as_running x.started) store (λ d. refl),
      λ e. cc,
    )
    searched (some queries) =
        let store' = mark_running mapping.id x.started store in
        let start : Progress = record {
          received = 0;
          run = mapping_executed run;
          store = store';
        } in
        after_queries-Outcome s results limit mapping.id x.ended run store store'
          (query_loop s results limit mapping queries x.requests start) refl refl refl
          (with_discovery_state-OthersKept mapping.id (as_running x.started) store (λ d. refl))
          (query_loop-IsSearch s results limit mapping queries x.requests start)
