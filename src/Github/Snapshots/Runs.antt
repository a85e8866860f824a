-- ===== src/Github/Snapshots/Runs.antt =====
-- The loop of a snapshot run over the repositories that are due.
use signal_observatory.Prelude.{ℕ, ◌<◌, ◌≡◌, ◌||◌, List, [], ◌∷◌, leb, arith, Bool-cases, inl, inr}
use signal_observatory.Github.State.{Settings, Repository, Store, Attempt, Run}
use signal_observatory.Github.Persistence.Daily.{IsGrown-IsObserved, same-IsGrown}
use signal_observatory.Github.Snapshots.{
  VisitEnd, observed, fails, cut_off, snapshot_repository, Visit, LoopEnd, loop_ended, Pass,
  goes_on, stops, after_visit, snapshot_pass, snapshot_loop, error_counted, item_failed, is_handled,
  is_final, is_runtime_exceeded,
}
use signal_observatory.Github.Snapshots.Steps.{IsStep, same-IsStep, IsStep-trans}
use signal_observatory.Github.Snapshots.Visits.{
  IsGenuineVisit, IsCovered, IsVisit, snapshot_repository-IsVisit,
}

error_counted-IsStep :
    (limit : ℕ) (run : Run) (store : Store) → IsStep limit run store (error_counted run) store
error_counted-IsStep limit run store = record {
  requests = omega arith;
  calls = omega arith;
  errors = omega arith;
  count = 0;
  created = omega arith;
  grown = same-IsGrown store.snapshots;
}

item_failed-IsStep :
    (limit : ℕ) (run : Run) (store : Store) → IsStep limit run store (item_failed run) store
item_failed-IsStep limit run store = record {
  requests = omega arith;
  calls = omega arith;
  errors = omega arith;
  count = 0;
  created = omega arith;
  grown = same-IsGrown store.snapshots;
}

-- A round that goes on has covered its repository or counted an error; one that ends the loop has
-- counted an error.
abbrev PassOutcome : ℕ → ℕ → List Attempt → Run → Store → Pass → Type 0
PassOutcome limit id attempts run store (goes_on run' store') =
    IsStep limit run store run' store'
    × (run'.acc.errors ≡ run.acc.errors → IsGenuineVisit id attempts → IsCovered id attempts store')
PassOutcome limit id attempts run store (stops end run' store') =
    IsStep limit run store run' store' × (end ≡ loop_ended → run.acc.errors < run'.acc.errors)

after_visit-Outcome :
    (limit id : ℕ) (attempts : List Attempt) (run : Run) (store : Store)
    (to : VisitEnd × Run × Store)
    → IsVisit limit id attempts run store to
    → PassOutcome limit id attempts run store (after_visit to)
after_visit-Outcome limit id attempts run store (observed, run', store') (h, c) = (h, λ _ g. c g)
after_visit-Outcome limit id attempts run store (cut_off, run', store') (h, c) = (h, λ e. cc)
after_visit-Outcome limit id attempts run store (fails e, run', store') (h, c) =
    let k =
      IsStep-trans limit run run' (item_failed run') store store' store' h
        (item_failed-IsStep limit run' store') in
    elim (Bool-cases (is_handled e)) [
      | inr out ↦ rw (out, after_visit) (h, λ e. cc)
      | inl caught ↦
          rw (caught, after_visit)
            (elim (Bool-cases (is_final e)) [
              | inl last ↦ rw (last, after_visit) (k, λ _. omega (arith, h.errors))
              | inr more ↦
                  rw (more, after_visit)
                    (k, λ q. let bad : ⊥ = omega (arith, h.errors, q) in elim bad [ ])
            ])
    ]

snapshot_pass-Outcome :
    (s : Settings) (limit started_at : ℕ) (repository : Repository) (v : Visit) (run : Run)
    (store : Store)
    → PassOutcome limit repository.github_repository_id v.attempts run store
        (snapshot_pass s limit started_at repository v run store)
unfolding snapshot_pass
snapshot_pass-Outcome s limit started_at repository v run store =
    elim (Bool-cases (leb limit run.acc.requests_sent || is_runtime_exceeded s started_at v.now)) [
      | inl e ↦ rw (e, snapshot_pass) (error_counted-IsStep limit run store, λ _. omega arith)
      | inr e ↦
          rw (e, snapshot_pass)
            (after_visit-Outcome limit repository.github_repository_id v.attempts run store
              (snapshot_repository s limit repository v.attempts run store)
              (snapshot_repository-IsVisit s limit repository v.attempts run store))
    ]

-- Each repository with its visit.
abbrev pub AllGenuine : List Repository → List Visit → Type 0
AllGenuine [] visits = Unit
AllGenuine (repository ∷ rest) [] = Unit
AllGenuine (repository ∷ rest) (v ∷ visits) =
    IsGenuineVisit repository.github_repository_id v.attempts × AllGenuine rest visits

abbrev pub AllCovered : List Repository → List Visit → Store → Type 0
AllCovered [] visits store = Unit
AllCovered (repository ∷ rest) [] store = ⊥
AllCovered (repository ∷ rest) (v ∷ visits) store =
    IsCovered repository.github_repository_id v.attempts store × AllCovered rest visits store

abbrev pub LoopOutcome :
    ℕ → List Repository → List Visit → Run → Store → LoopEnd × Run × Store → Type 0
LoopOutcome limit rows visits run store (end, run', store') =
    IsStep limit run store run' store'
    × (end ≡ loop_ended
        → run'.acc.errors ≡ run.acc.errors
        → AllGenuine rows visits
        → AllCovered rows visits store')

IsCovered-grown :
    (limit id : ℕ) (attempts : List Attempt) (run run' : Run) (store store' : Store)
    → IsStep limit run store run' store'
    → IsCovered id attempts store
    → IsCovered id attempts store'
IsCovered-grown limit id attempts run run' store store' h (r, a, o) =
    (r, a, IsGrown-IsObserved store.snapshots store'.snapshots h.count id _ h.grown o)

next-Outcome :
    (limit : ℕ) (repository : Repository) (v : Visit) (rest : List Repository) (visits : List Visit)
    (run mid : Run) (store store' : Store) (out : LoopEnd × Run × Store)
    → PassOutcome limit repository.github_repository_id v.attempts run store (goes_on mid store')
    → LoopOutcome limit rest visits mid store' out
    → LoopOutcome limit (repository ∷ rest) (v ∷ visits) run store out
next-Outcome limit repository v rest visits run mid store store' (end, run', last) (h, c) (k, d) = (
  IsStep-trans limit run mid run' store store' last h k,
  λ ends same (g, gs). (
    IsCovered-grown limit repository.github_repository_id v.attempts mid run' store' last k
        (c (omega (arith, same, h.errors, k.errors)) g),
    d ends (omega (arith, same, h.errors, k.errors)) gs,
  ),
)

pub snapshot_loop-Outcome :
    (s : Settings) (limit started_at : ℕ) (rows : List Repository) (visits : List Visit) (run : Run)
    (store : Store)
    → LoopOutcome limit rows visits run store
        (snapshot_loop s limit started_at rows visits run store)
unfolding snapshot_loop
snapshot_loop-Outcome s limit started_at [] visits run store =
    (same-IsStep limit run store, λ _ _ _. tt)
snapshot_loop-Outcome s limit started_at (repository ∷ rest) [] run store =
    (same-IsStep limit run store, λ e. cc)
snapshot_loop-Outcome s limit started_at (repository ∷ rest) (v ∷ visits) run store =
    passed (snapshot_pass s limit started_at repository v run store)
      (snapshot_pass-Outcome s limit started_at repository v run store)
      (λ run' store'. snapshot_loop-Outcome s limit started_at rest visits run' store')
  where
    passed :
        (p : Pass)
        → PassOutcome limit repository.github_repository_id v.attempts run store p
        → ((run' : Run) (store' : Store)
            → LoopOutcome limit rest visits run' store'
                (snapshot_loop s limit started_at rest visits run' store'))
        → LoopOutcome limit (repository ∷ rest) (v ∷ visits) run store (elim p [
          | stops end run' store' ↦ (end, run', store')
          | goes_on run' store' ↦ snapshot_loop s limit started_at rest visits run' store'
        ])
    passed (stops end run' store') (h, c) ih = (
      h,
      λ ends same. let less = c ends in let bad : ⊥ = omega (arith, less, same) in elim bad [ ],
    )
    passed (goes_on run' store') h ih =
        next-Outcome limit repository v rest visits run run' store store'
          (snapshot_loop s limit started_at rest visits run' store') h (ih run' store')
