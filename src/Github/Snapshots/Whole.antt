-- ===== src/Github/Snapshots/Whole.antt =====
-- A whole snapshot run: its limit, the table that it leaves, and what its status says.
use signal_observatory.Prelude.{
  ap, ℕ, ◌≤◌, ◌≡◌, refl, Option, none, some, List, if◌then◌else◌, arith, Bool-cases, inl, inr,
  Result, ok, err, String, length,
}
use signal_observatory.Operations.{IngestionStatus}
use signal_observatory.Github.State.{
  Settings, Repository, Store, GithubError, Run, RunAccumulator, RateLimit, distinct,
  new_accumulator,
}
use signal_observatory.Github.Due.{tracked_repositories}
use signal_observatory.Github.Persistence.Daily.{IsGrown, same-IsGrown}
use signal_observatory.Github.Snapshots.{
  Visit, LoopEnd, loop_ended, loop_starved, loop_raised, snapshot_loop, snapshot, CallEnd,
  SnapshotRequest, refused, dry_run, finished, raised, starved, finish, start_run, or_number,
  new_run,
}
use signal_observatory.Github.Snapshots.Runs.{
  AllGenuine, AllCovered, LoopOutcome, snapshot_loop-Outcome,
}

-- What a call leaves of the snapshots, with its request limit.
abbrev pub Keeps : ℕ → Store → CallEnd × Store → Type 0
Keeps limit store (refused e, store') = store' ≡ store
Keeps limit store (dry_run acc, store') = store' ≡ store
Keeps limit store (finished status acc, store') =
    (acc.transport_calls ≡ acc.requests_sent)
    × (acc.requests_sent ≤ limit)
    × IsGrown store.snapshots store'.snapshots acc.snapshots_created
Keeps limit store (raised e, store') = (n : ℕ) × IsGrown store.snapshots store'.snapshots n
Keeps limit store (starved, store') = (n : ℕ) × IsGrown store.snapshots store'.snapshots n

finish-Keeps :
    (limit : ℕ) (rows : List Repository) (visits : List Visit) (acc : RunAccumulator)
    (budgets : String → Option RateLimit) (store : Store) (out : LoopEnd × Run × Store)
    → acc.transport_calls ≡ 0
    → acc.requests_sent ≡ 0
    → acc.snapshots_created ≡ 0
    → LoopOutcome limit rows visits (new_run acc budgets) store out
    → Keeps limit store (finish out)
finish-Keeps limit rows visits acc budgets store (loop_ended, run, store') t a b (h, c) =
    let e : h.count ≡ run.acc.snapshots_created = omega (arith, h.created, b) in
    (omega (arith, h.calls, t, a), omega (arith, h.requests, a), rw (← e) h.grown)
finish-Keeps limit rows visits acc budgets store (loop_starved, run, store') t a b (h, c) =
    (h.count, h.grown)
finish-Keeps limit rows visits acc budgets store (loop_raised e, run, store') t a b (h, c) =
    (h.count, h.grown)

start_run-Keeps :
    (limit : ℕ) (e : Option GithubError) (store : Store) (out : CallEnd × Store)
    → Keeps limit store out
    → Keeps limit store (start_run e store out)
start_run-Keeps limit none store out h = h
start_run-Keeps limit (some e) store out h = (0, same-IsGrown store.snapshots)

-- A call that finishes has been set up.
pub start_run-finished :
    (e : Option GithubError) (store : Store) (out : CallEnd × Store) {status : IngestionStatus}
    {acc : RunAccumulator} {store' : Store}
    → start_run e store out ≡ (finished status acc, store')
    → out ≡ (finished status acc, store')
start_run-finished none store out h = h
start_run-finished (some e) store out h = cc

-- However a snapshot call ends, no snapshot is changed or lost, and a repository keeps at most one for
-- each day. A run that finishes has called the transport as often as it counts, at most the allowed
-- times, and its count of created snapshots is the number of the new ones. A call that is refused and a
-- dry run change nothing.
pub snapshot-Keeps :
    (s : Settings) (q : SnapshotRequest) (started_at : ℕ) (budgets : String → Option RateLimit)
    (visits : List Visit) (store : Store)
    → Keeps
        (or_number q.max_requests s.max_requests_per_run)
        store
        (snapshot s q started_at budgets visits store)
unfolding snapshot
snapshot-Keeps s q started_at budgets visits store =
    called (tracked_repositories s started_at q.topics q.ids store)
  where
    called :
        (r : Result GithubError (List Repository))
        → Keeps (or_number q.max_requests s.max_requests_per_run) store (elim r [
          | err e ↦ (refused e, store)
          | ok repositories ↦
              let acc = new_accumulator (length (distinct q.topics)) (length repositories) in
              if q.is_dry
              then (dry_run acc, store)
              else start_run q.setup_error store (
                  finish (
                    snapshot_loop s
                      (or_number q.max_requests s.max_requests_per_run)
                      started_at
                      repositories
                      visits
                      (new_run acc budgets)
                      store))
        ])
    called (err e) = refl
    called (ok repositories) =
        let acc = new_accumulator (length (distinct q.topics)) (length repositories) in
        let limit = or_number q.max_requests s.max_requests_per_run in
        elim (Bool-cases q.is_dry) [
          | inl dry ↦ rw dry refl
          | inr real ↦ rw real (
              start_run-Keeps limit q.setup_error store _ (
                finish-Keeps limit repositories visits acc budgets store
                  (snapshot_loop s limit started_at repositories visits (new_run acc budgets) store)
                  refl refl refl
                  (snapshot_loop-Outcome s limit started_at repositories visits
                    (new_run acc budgets) store)))
        ]

finish-Covered :
    (limit : ℕ) (rows : List Repository) (visits : List Visit) (run : Run) (store : Store)
    (out : LoopEnd × Run × Store) {acc : RunAccumulator} {store' : Store}
    → run.acc.errors ≡ 0
    → LoopOutcome limit rows visits run store out
    → AllGenuine rows visits
    → finish out ≡ (finished IngestionStatus.succeeded acc, store')
    → AllCovered rows visits store'
finish-Covered limit rows visits run store (loop_ended, run', last) none' (h, c) g e =
    let same : last ≡ _ = ap (λ p. p.1) e in
    let fine : run'.acc.errors ≡ 0 = ground (arith, e) in
    rw (← same) (c refl (omega (arith, fine, none')) g)
finish-Covered limit rows visits run store (loop_starved, run', last) none' h g e = cc
finish-Covered limit rows visits run store (loop_raised x, run', last) none' h g e = cc

-- If no answer is about another repository than the one asked for: after a run that finishes as
-- succeeded, each repository that was due has a snapshot of the day of one of its answers.
pub snapshot-AllCovered :
    (s : Settings) (q : SnapshotRequest) (started_at : ℕ) (budgets : String → Option RateLimit)
    (visits : List Visit) (store store' : Store) (acc : RunAccumulator) (rows : List Repository)
    → tracked_repositories s started_at q.topics q.ids store ≡ ok rows
    → AllGenuine rows visits
    → snapshot s q started_at budgets visits store
      ≡ (finished IngestionStatus.succeeded acc, store')
    → AllCovered rows visits store'
unfolding snapshot
snapshot-AllCovered s q started_at budgets visits store store' acc rows due g e =
    let limit = or_number q.max_requests s.max_requests_per_run in
    let run = new_run (new_accumulator (length (distinct q.topics)) (length rows)) budgets in
    let e' = rw (due, snapshot) at e in
    elim (Bool-cases q.is_dry) [
      | inl dry ↦ absurd_dry (rw dry at e')
      | inr real ↦
          finish-Covered limit rows visits run store
            (snapshot_loop s limit started_at rows visits run store) refl
            (snapshot_loop-Outcome s limit started_at rows visits run store) g
            (start_run-finished q.setup_error store _ (rw real at e'))
    ]
  where
    absurd_dry :
        {a : RunAccumulator}
        → ◌≡◌ {A = CallEnd × Store}
            (dry_run a, store)
            (finished IngestionStatus.succeeded acc, store')
        → AllCovered rows visits store'
    absurd_dry h = cc
