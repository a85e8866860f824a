-- ===== src/Operations/Health.antt =====
-- What the health states say of the facts behind them.
use signal_observatory.Prelude.{
  ℕ, ◌≤◌, ◌<◌, ◌≡◌, ◌↔◌, ◌⊎◌, Bool, true, false, not, Option, none, some, List, [], ◌∷◌, exists,
  is_empty, All, arith, refl,
}
use signal_observatory.Operations.{
  FreshnessState, fresh, stale, very_stale, unknown, CollectorState, OverallState, IngestionStatus,
  freshness_state, collector_state, overall_state, is_failed, is_healthy, Anomalies,
}

-- From fresh to very stale.
abbrev pub rank : FreshnessState → ℕ
rank fresh = 0
rank stale = 1
rank very_stale = 2
rank unknown = 3

-- If the first threshold is below the second, the freshness of the same observation is no better at
-- a later time.
freshness_state_mono :
    (observed : Option ℕ) (now later fresh_hours very_stale_hours : ℕ)
    → now ≤ later
    → fresh_hours < very_stale_hours
    → rank (freshness_state observed now fresh_hours very_stale_hours)
      ≤ rank (freshness_state observed later fresh_hours very_stale_hours)
unfolding freshness_state
freshness_state_mono none now later f v h k = omega arith
freshness_state_mono (some t) now later f v h k = ground arith

-- A collector is healthy exactly if its source is present and active, it is configured and has
-- mappings, and its latest run exists, did not fail, was not partial, and its data is not stale.
collector_healthy_iff :
    (source : Option Bool) (mappings : ℕ) (latest : Option IngestionStatus)
    (freshness : FreshnessState) (configured : Bool)
    → (collector_state source mappings latest freshness configured ≡ CollectorState.healthy) ↔ (
        (source ≡ some true)
        × (configured ≡ true)
        × (0 < mappings)
        × ((latest ≡ some IngestionStatus.running) ⊎ (latest ≡ some IngestionStatus.succeeded))
        × ((freshness ≡ fresh) ⊎ (freshness ≡ unknown)))
unfolding collector_state
collector_healthy_iff source mappings latest freshness configured =
    (λ h. ground arith, λ h. ground arith)

abbrev pub NoAnomaly : Anomalies → Type 0
NoAnomaly a =
    (a.partial_coverage ≡ 0)
    × (a.unknown_coverage ≡ 0)
    × (a.missing_snapshot_dates ≡ 0)
    × (a.registry_warnings ≡ 0)
    × (a.scheduler_anomalies ≡ 0)

All-healthy :
    (active : List CollectorState)
    → exists (λ s. not (is_healthy s)) active ≡ false
    → All (λ s. s ≡ CollectorState.healthy) active
All-healthy [] h = tt
All-healthy (s ∷ active) h = (ground arith, All-healthy active (ground arith))

none_unhealthy :
    (active : List CollectorState)
    → All (λ s. s ≡ CollectorState.healthy) active
    → (exists (λ s. not (is_healthy s)) active ≡ false) × (exists is_failed active ≡ false)
none_unhealthy [] h = (refl, refl)
none_unhealthy (s ∷ active) h = rw h.0 (none_unhealthy active h.1)

overall_parts :
    (active : List CollectorState) (a : Anomalies)
    → overall_state active a ≡ OverallState.healthy
    → (is_empty active ≡ false) × (exists (λ s. not (is_healthy s)) active ≡ false) × NoAnomaly a
unfolding overall_state
overall_parts active a h = (ground arith, ground arith, ground arith)

overall_from_parts :
    (active : List CollectorState) (a : Anomalies)
    → is_empty active ≡ false
    → exists (λ s. not (is_healthy s)) active ≡ false
    → exists is_failed active ≡ false
    → NoAnomaly a
    → overall_state active a ≡ OverallState.healthy
unfolding overall_state
overall_from_parts active a e h f n = ground arith

-- The observatory is healthy exactly if it has an active collector, every active collector is
-- healthy, and none of the five anomaly counts is positive.
overall_healthy_iff :
    (active : List CollectorState) (a : Anomalies)
    → (overall_state active a ≡ OverallState.healthy)
      ↔ ((is_empty active ≡ false) × All (λ s. s ≡ CollectorState.healthy) active × NoAnomaly a)
overall_healthy_iff active a = (
  λ h. let (e, u, n) = overall_parts active a h in (e, All-healthy active u, n),
  λ (e, h, n). let (u, f) = none_unhealthy active h in overall_from_parts active a e u f n,
)
