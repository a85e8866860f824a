-- ===== src/Github/Discovery/Calls.antt =====
-- A whole discovery: its limits, its counts, and what its status says of the mappings.
use signal_observatory.Prelude.{
  map, Result, ok, err, ℕ, ◌+◌, ◌*◌, ◌≤◌, ◌≡◌, refl, ap, not, ◌||◌, Option, none, some, is_some,
  List, ◌==◌, arith, Bool-cases, inl, inr, String, length, exists,
}
use signal_observatory.Operations.{IngestionStatus}
use signal_observatory.Github.State.{
  RateLimit, new_accumulator, distinct, Settings, Store, GithubError, Run, RunAccumulator,
}
use signal_observatory.Github.Snapshots.{
  CallEnd, refused, dry_run, finished, raised, starved, finish, start_run, or_number, new_run,
  LoopEnd, loop_ended, loop_starved, loop_raised,
}
use signal_observatory.Github.Snapshots.Whole.{start_run-finished}
use signal_observatory.Github.Search.{Mapping}
use signal_observatory.Github.Search.Counts.{IsKnown}
use signal_observatory.Github.Discovery.{
  enabled_mappings, DiscoveryRequest, run_discovery, discover, discover_loop, Exploration,
}
use signal_observatory.Github.Discovery.Whole.{
  AllExplored, AreDistinct, LoopOutcome, discover_loop-Outcome,
}

-- What a call leaves of the tables, with its limits of results and of requests.
abbrev pub Keeps : ℕ → ℕ → Store → CallEnd × Store → Type 0
Keeps results limit store (refused e, store') = store' ≡ store
Keeps results limit store (dry_run acc, store') = store' ≡ store
Keeps results limit store (raised e, store') = store'.snapshots ≡ store.snapshots
Keeps results limit store (starved, store') = store'.snapshots ≡ store.snapshots
Keeps results limit store (finished status acc, store') =
    (acc.transport_calls ≡ acc.requests_sent)
    × (acc.requests_sent ≤ limit)
    × (acc.repositories_received ≤ results * acc.mappings_executed)
    × (acc.new_repositories + acc.existing_repositories ≡ acc.repositories_received)
    × (length store'.repositories ≡ length store.repositories + acc.new_repositories)
    × (length store'.matches ≡ length store.matches + acc.topic_matches_added)
    × IsKnown acc.repository_ids store'.repositories
    × (store'.snapshots ≡ store.snapshots)

finish-Keeps :
    (s : Settings) (results limit topics : ℕ) (mappings : List Mapping)
    (budgets : String → Option RateLimit) (store : Store) (out : LoopEnd × Run × Store)
    → LoopOutcome s results limit mappings (new_run (new_accumulator topics 0) budgets) store out
    → Keeps results limit store (finish out)
finish-Keeps s results limit topics mappings budgets store (loop_ended, run, store') (h, k, c) = (
  omega (arith, h.calls),
  omega (arith, h.requests),
  omega (arith, h.received),
  omega (arith, h.new_or_existing),
  omega (arith, h.rows),
  omega (arith, h.matches),
  h.known tt,
  h.snapshots,
)
finish-Keeps s results limit topics mappings budgets store (loop_starved, run, store') (h, k, c) =
    h.snapshots
finish-Keeps s results limit topics mappings budgets store (loop_raised e, run, store') (h, k, c) =
    h.snapshots

start_run-Keeps :
    (results limit : ℕ) (e : Option GithubError) (store : Store) (out : CallEnd × Store)
    → Keeps results limit store out
    → Keeps results limit store (start_run e store out)
start_run-Keeps results limit none store out h = h
start_run-Keeps results limit (some e) store out h = refl

run_discovery-Keeps :
    (s : Settings) (q : DiscoveryRequest) (started_at : ℕ) (budgets : String → Option RateLimit)
    (mappings : List Mapping) (xs : List Exploration) (store : Store)
    → Keeps
        (or_number q.max_results s.max_results_per_mapping)
        (or_number q.max_requests s.max_requests_per_run)
        store
        (run_discovery s q started_at budgets mappings xs store)
unfolding run_discovery
run_discovery-Keeps s q started_at budgets mappings xs store =
    let results = or_number q.max_results s.max_results_per_mapping in
    let limit = or_number q.max_requests s.max_requests_per_run in
    let topics = length (distinct (map (λ m. m.topic) mappings)) in
    let run = new_run (new_accumulator topics 0) budgets in
    elim (Bool-cases (results == 0 || limit == 0)) [
      | inl e ↦ rw (e, run_discovery) refl
      | inr e ↦
          rw (e, run_discovery)
            (elim (Bool-cases (exists (λ m. not (is_some m.queries)) mappings)) [
              | inl f ↦ rw (f, run_discovery) refl
              | inr f ↦
                  rw (f, run_discovery)
                    (elim (Bool-cases q.is_dry) [
                      | inl g ↦ rw (g, run_discovery) refl
                      | inr g ↦
                          rw (g, run_discovery)
                            (start_run-Keeps results limit q.setup_error store _ (
                              finish-Keeps s results limit topics mappings budgets store
                                (discover_loop s results limit started_at mappings xs run store)
                                (discover_loop-Outcome s results limit started_at mappings xs run
                                  store)))
                    ])
            ])
    ]

-- A discovery that finishes has called the transport as often as it counts, at most the allowed times,
-- and received at most `max_results`
-- repositories for each mapping that it executed. Each of them was new or existing, and has a row; the
-- tables of repositories and of matches have grown by the counts of the run. However a call ends, it
-- changes no snapshot; one that is refused and a dry run change nothing.
pub discover-Keeps :
    (s : Settings) (q : DiscoveryRequest) (started_at : ℕ) (budgets : String → Option RateLimit)
    (mappings : List Mapping) (xs : List Exploration) (store : Store)
    → Keeps
        (or_number q.max_results s.max_results_per_mapping)
        (or_number q.max_requests s.max_requests_per_run)
        store
        (discover s q started_at budgets mappings xs store)
unfolding discover
discover-Keeps s q started_at budgets mappings xs store =
    called (enabled_mappings q.topics mappings)
  where
    called :
        (r : Result GithubError (List Mapping))
        → Keeps
            (or_number q.max_results s.max_results_per_mapping)
            (or_number q.max_requests s.max_requests_per_run)
            store
            (elim r as (λ _. CallEnd × Store) [
              | err e ↦ (refused e, store)
              | ok rows ↦ run_discovery s q started_at budgets rows xs store
            ])
    called (err e) = refl
    called (ok rows) = run_discovery-Keeps s q started_at budgets rows xs store

finish-AllExplored :
    (s : Settings) (results limit : ℕ) (mappings : List Mapping) (run : Run) (store : Store)
    (out : LoopEnd × Run × Store) {acc : RunAccumulator} {store' : Store}
    → run.acc.errors ≡ 0
    → LoopOutcome s results limit mappings run store out
    → AreDistinct mappings
    → finish out ≡ (finished IngestionStatus.succeeded acc, store')
    → AllExplored s mappings store'
finish-AllExplored s results limit mappings run store (loop_ended, run', last) none' (h, k, c) g e =
    let same : last ≡ _ = ap (λ p. p.1) e in
    let fine : run'.acc.errors ≡ 0 = ground (arith, e) in
    rw (← same) (c refl (omega (arith, fine, none')) g)
finish-AllExplored s results limit mappings run store (loop_starved, run', last) none' h g e = cc
finish-AllExplored s results limit mappings run store (loop_raised x, run', last) none' h g e = cc

-- For mappings with distinct ids: if a discovery finishes as succeeded, the state of each mapping that it
-- was to search is succeeded, without an error, and names its success and the instant, `discovery_due`
-- after it, at which it is due again.
pub discover-AllExplored :
    (s : Settings) (q : DiscoveryRequest) (started_at : ℕ) (budgets : String → Option RateLimit)
    (mappings : List Mapping) (xs : List Exploration) (store store' : Store) (acc : RunAccumulator)
    (rows : List Mapping)
    → enabled_mappings q.topics mappings ≡ ok rows
    → AreDistinct rows
    → discover s q started_at budgets mappings xs store
      ≡ (finished IngestionStatus.succeeded acc, store')
    → AllExplored s rows store'
unfolding discover run_discovery
discover-AllExplored s q started_at budgets mappings xs store store' acc rows chosen g e =
    let results = or_number q.max_results s.max_results_per_mapping in
    let limit = or_number q.max_requests s.max_requests_per_run in
    let run = new_run (new_accumulator (length (distinct (map (λ m. m.topic) rows))) 0) budgets in
    let a = rw (chosen, discover, run_discovery) at e in
    elim (Bool-cases (results == 0 || limit == 0)) [
      | inl e1 ↦ not_refused (rw e1 at a)
      | inr e1 ↦
          let b = rw e1 at a in
          elim (Bool-cases (exists (λ m. not (is_some m.queries)) rows)) [
            | inl e2 ↦ not_refused (rw e2 at b)
            | inr e2 ↦
                let c = rw e2 at b in
                elim (Bool-cases q.is_dry) [
                  | inl e3 ↦ not_dry (rw e3 at c)
                  | inr e3 ↦
                      finish-AllExplored s results limit rows run store
                        (discover_loop s results limit started_at rows xs run store) refl
                        (discover_loop-Outcome s results limit started_at rows xs run store) g
                        (start_run-finished q.setup_error store _ (rw e3 at c))
                ]
          ]
    ]
  where
    not_refused :
        {x : GithubError}
        → ◌≡◌ {A = CallEnd × Store}
            (refused x, store)
            (finished IngestionStatus.succeeded acc, store')
        → AllExplored s rows store'
    not_refused h = cc

    not_dry :
        {a : RunAccumulator}
        → ◌≡◌ {A = CallEnd × Store}
            (dry_run a, store)
            (finished IngestionStatus.succeeded acc, store')
        → AllExplored s rows store'
    not_dry h = cc
