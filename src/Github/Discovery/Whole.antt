-- ===== src/Github/Discovery/Whole.antt =====
-- The loop of a discovery over its mappings.
use signal_observatory.Prelude.{
  All, ℕ, ◌<◌, ◌≡◌, refl, false, List, [], ◌∷◌, ◌==◌, arith, Bool-cases, inl, inr,
}
use signal_observatory.Github.State.{Settings, Store, Run}
use signal_observatory.Github.Snapshots.{
  VisitEnd, observed, fails, cut_off, Pass, goes_on, stops, LoopEnd, loop_ended, item_failed,
  is_final, is_runtime_exceeded,
}
use signal_observatory.Github.Search.{Mapping}
use signal_observatory.Github.Discovery.{
  discover_loop, as_failed, record_mapping_error, Exploration, discover_mapping, is_caught,
  after_mapping, mapping_executed, discover_pass,
}
use signal_observatory.Github.Discovery.Rounds.{
  IsRound, same-IsRound, IsRound-trans, error_counted-IsRound, item_failed-IsRound,
}
use signal_observatory.Github.Discovery.States.{
  IsExplored, OthersKept, IsExplored-kept, OthersKept-trans, with_discovery_state-OthersKept,
  VisitOutcome, discover_mapping-Outcome,
}

-- A round that goes on has explored its mapping or counted an error; one that ends the loop has counted
-- an error.
abbrev PassOutcome : Settings → ℕ → ℕ → ℕ → Run → Store → Pass → Type 0
PassOutcome s results limit id run store (goes_on run' store') =
    IsRound results limit run store run' store'
    × OthersKept id store store'
    × (run'.acc.errors ≡ run.acc.errors → IsExplored s id store')
PassOutcome s results limit id run store (stops end run' store') =
    IsRound results limit run store run' store'
    × OthersKept id store store'
    × (end ≡ loop_ended → run.acc.errors < run'.acc.errors)

after_mapping-Outcome :
    (s : Settings) (results limit id now : ℕ) (run : Run) (store : Store)
    (out : VisitEnd × Run × Store)
    → VisitOutcome s results limit id run store out
    → PassOutcome s results limit id run store (after_mapping id now out)
after_mapping-Outcome s results limit id now run store (observed, run', store') (h, k, c) =
    (h, k, λ _. c refl)
after_mapping-Outcome s results limit id now run store (cut_off, run', store') (h, k, c) =
    (h, k, λ e. cc)
after_mapping-Outcome s results limit id now run store (fails e, run', store') (h, k, c) =
    let last = record_mapping_error id now store' in
    let g =
      IsRound-trans results limit run run' (item_failed run') store store' last h
        (item_failed-IsRound results limit run' id now store') in
    let kept =
      OthersKept-trans id store store' last k
        (with_discovery_state-OthersKept id (as_failed now) store' (λ d. refl)) in
    elim (Bool-cases (is_caught e)) [
      | inr out ↦ rw (out, after_mapping) (h, k, λ e. cc)
      | inl caught ↦
          rw (caught, after_mapping)
            (elim (Bool-cases (is_final e)) [
              | inl end ↦ rw (end, after_mapping) (g, kept, λ _. omega (arith, h.errors))
              | inr more ↦
                  rw (more, after_mapping)
                    (g, kept, λ q. let bad : ⊥ = omega (arith, h.errors, q) in elim bad [ ])
            ])
    ]

discover_pass-Outcome :
    (s : Settings) (results limit started_at : ℕ) (mapping : Mapping) (x : Exploration) (run : Run)
    (store : Store)
    → PassOutcome s results limit mapping.id run store
        (discover_pass s results limit started_at mapping x run store)
unfolding discover_pass
discover_pass-Outcome s results limit started_at mapping x run store =
    elim (Bool-cases (is_runtime_exceeded s started_at x.now)) [
      | inl e ↦
          rw (e, discover_pass)
            (
              error_counted-IsRound results limit run mapping.id x.ended store,
              with_discovery_state-OthersKept mapping.id (as_failed x.ended) store (λ d. refl),
              λ _. omega arith,
            )
      | inr e ↦
          rw (e, discover_pass)
            (after_mapping-Outcome s results limit mapping.id x.ended run store
              (discover_mapping s results limit mapping x (mapping_executed run) store)
              (discover_mapping-Outcome s results limit mapping x run store))
    ]

abbrev pub AllExplored : Settings → List Mapping → Store → Type 0
AllExplored s mappings store = All (λ m. IsExplored s m.id store) mappings

-- Mappings have distinct ids.
abbrev pub AreDistinct : List Mapping → Type 0
AreDistinct [] = Unit
AreDistinct (m ∷ rest) = All (λ other. (m.id == other.id) ≡ false) rest × AreDistinct rest

abbrev pub LoopOutcome :
    Settings → ℕ → ℕ → List Mapping → Run → Store → LoopEnd × Run × Store → Type 0
LoopOutcome s results limit mappings run store (end, run', store') =
    IsRound results limit run store run' store'
    × ((id : ℕ)
        → All (λ m. (id == m.id) ≡ false) mappings
        → IsExplored s id store
        → IsExplored s id store')
    × (end ≡ loop_ended
        → run'.acc.errors ≡ run.acc.errors
        → AreDistinct mappings
        → AllExplored s mappings store')

next-Outcome :
    (s : Settings) (results limit : ℕ) (mapping : Mapping) (rest : List Mapping) (run mid : Run)
    (store store' : Store) (out : LoopEnd × Run × Store)
    → PassOutcome s results limit mapping.id run store (goes_on mid store')
    → LoopOutcome s results limit rest mid store' out
    → LoopOutcome s results limit (mapping ∷ rest) run store out
next-Outcome s results limit mapping rest run mid store store' (end, run', last) (h, k, c)
      (g, l, d) =
    (
      IsRound-trans results limit run mid run' store store' last h g,
      λ id apart e. l id apart.1 (IsExplored-kept s mapping.id id store store' k apart.0 e),
      λ ends same (a, as'). (
        l mapping.id a (c (omega (arith, same, h.errors, g.errors))),
        d ends (omega (arith, same, h.errors, g.errors)) as',
      ),
    )

pub discover_loop-Outcome :
    (s : Settings) (results limit started_at : ℕ) (mappings : List Mapping) (xs : List Exploration)
    (run : Run) (store : Store)
    → LoopOutcome s results limit mappings run store
        (discover_loop s results limit started_at mappings xs run store)
unfolding discover_loop
discover_loop-Outcome s results limit started_at [] xs run store =
    (same-IsRound results limit run store, λ id a e. e, λ _ _ _. tt)
discover_loop-Outcome s results limit started_at (mapping ∷ rest) [] run store =
    (same-IsRound results limit run store, λ id a e. e, λ e. cc)
discover_loop-Outcome s results limit started_at (mapping ∷ rest) (x ∷ xs) run store =
    passed (discover_pass s results limit started_at mapping x run store)
      (discover_pass-Outcome s results limit started_at mapping x run store)
      (λ run' store'. discover_loop-Outcome s results limit started_at rest xs run' store')
  where
    passed :
        (p : Pass)
        → PassOutcome s results limit mapping.id run store p
        → ((run' : Run) (store' : Store)
            → LoopOutcome s results limit rest run' store'
                (discover_loop s results limit started_at rest xs run' store'))
        → LoopOutcome s results limit (mapping ∷ rest) run store (elim p [
          | stops end run' store' ↦ (end, run', store')
          | goes_on run' store' ↦ discover_loop s results limit started_at rest xs run' store'
        ])
    passed (stops end run' store') (h, k, c) ih = (
      h,
      λ id a e. IsExplored-kept s mapping.id id store store' k a.0 e,
      λ ends same. let less = c ends in let bad : ⊥ = omega (arith, less, same) in elim bad [ ],
    )
    passed (goes_on run' store') h ih =
        next-Outcome s results limit mapping rest run run' store store'
          (discover_loop s results limit started_at rest xs run' store') h (ih run' store')
