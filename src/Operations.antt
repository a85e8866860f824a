-- ===== src/Operations.antt =====
-- Collector health: `freshness_state` (packages/operations/src/observatory_operations/models.py),
-- `_collector_state` and `_overall_state` (packages/operations/src/observatory_operations/health.py).
pub mod Health
use signal_observatory.Prelude.{
  ℕ, ◌+◌, ◌-◌, ◌*◌, Bool, true, false, not, ◌&&◌, ◌||◌, Option, none, some, List, [], ◌∷◌, map, ltb,
  leb, ◌==◌, if◌then◌else◌, exists, is_empty,
}
use signal_observatory.Clock.{hour}

pub data FreshnessState : Type 0 where
  fresh stale very_stale unknown : FreshnessState

pub data CollectorState : Type 0 where
  not_configured not_initialized healthy degraded failed paused : CollectorState

pub data OverallState : Type 0 where
  healthy degraded failed not_started : OverallState

pub data IngestionStatus : Type 0 where
  running succeeded partial failed : IngestionStatus

-- Ages are compared in microseconds instead of fractional hours; a time in the future has age 0.
freshness_at : ℕ → ℕ → ℕ → ℕ → FreshnessState
freshness_at observed now fresh_hours very_stale_hours =
    let age = now - observed in
    if leb age (fresh_hours * hour)
    then fresh
    else (if leb age (very_stale_hours * hour) then stale else very_stale)

unfoldable pub freshness_state : Option ℕ → ℕ → ℕ → ℕ → FreshnessState
unfolding freshness_at
freshness_state none now fresh_hours very_stale_hours = unknown
freshness_state (some observed) now fresh_hours very_stale_hours =
    freshness_at observed now fresh_hours very_stale_hours

abbrev is_stale : FreshnessState → Bool
is_stale stale = true
is_stale very_stale = true
is_stale _ = false

-- The state by the latest run's status.
run_state : Option IngestionStatus → FreshnessState → CollectorState
run_state none freshness = CollectorState.not_initialized
run_state (some IngestionStatus.failed) freshness = CollectorState.failed
run_state (some IngestionStatus.partial) freshness = CollectorState.degraded
run_state (some _) freshness =
    if is_stale freshness then CollectorState.degraded else CollectorState.healthy

-- `_collector_state`; the source is given by its `is_active`.
source_state : Option Bool → ℕ → Option IngestionStatus → FreshnessState → Bool → CollectorState
unfolding run_state
source_state none mappings latest freshness configured = CollectorState.not_configured
source_state (some active) mappings latest freshness configured =
    if not configured || mappings == 0
    then CollectorState.not_configured
    else (if not active then CollectorState.paused else run_state latest freshness)

unfoldable pub collector_state :
    Option Bool → ℕ → Option IngestionStatus → FreshnessState → Bool → CollectorState
unfolding source_state
collector_state source mappings latest freshness configured =
    source_state source mappings latest freshness configured

abbrev pub is_failed : CollectorState → Bool
is_failed CollectorState.failed = true
is_failed _ = false

abbrev pub is_healthy : CollectorState → Bool
is_healthy CollectorState.healthy = true
is_healthy _ = false

-- The counts that `_overall_state` is given.
pub record Anomalies : Type 0 where
  pub partial_coverage : ℕ
  pub unknown_coverage : ℕ
  pub missing_snapshot_dates : ℕ
  pub registry_warnings : ℕ
  pub scheduler_anomalies : ℕ

unfoldable pub overall_state : List CollectorState → Anomalies → OverallState
overall_state active a =
    if is_empty active
    then OverallState.not_started
    else (if exists is_failed active
        then OverallState.failed
        else (if exists (λ s. not (is_healthy s)) active
              || ltb 0 a.partial_coverage
              || ltb 0 a.unknown_coverage
              || ltb 0 a.missing_snapshot_dates
              || ltb 0 a.registry_warnings
              || ltb 0 a.scheduler_anomalies
            then OverallState.degraded
            else OverallState.healthy))
