-- ===== src/Coverage/Derive.antt =====
-- `CoverageDeriver._derive_arxiv` and `_derive_github` (coverage.py). What the queries return is the
-- input; a UUID is a number, and a reason's text is given by what it is built from.
pub mod Complete
pub mod Equality
use signal_observatory.Prelude.{
  ℕ, suc, ◌+◌, ◌-◌, ◌/◌, Bool, true, false, not, ◌&&◌, ◌||◌, Option, none, some, List, [], ◌∷◌,
  ◌++◌, map, String, if◌then◌else◌, is_empty, is_some, exists, find, select, length, ltb, ◌==◌, min,
  max,
}
use signal_observatory.Clock.{day}
use signal_observatory.Arxiv.State.{CursorStatus}
use signal_observatory.Coverage.{Window, last_day, between, cursor_gaps}

pub data CoverageStatus : Type 0 where
  complete partial forward_only empty unknown : CoverageStatus

pub data CoverageStrategy : Type 0 where
  historical_backfill forward_snapshot event_stream forward_only bounded_historical :
      CoverageStrategy
  historical_plus_forward unknown : CoverageStrategy

-- The columns of `ArxivCollectionCursor` that are read.
pub record Cursor : Type 0 where
  pub mapping_id : ℕ
  pub is_backfill : Bool
  pub status : CursorStatus
  pub window_from : Option ℕ
  pub window_until : Option ℕ
  pub last_successful_run_at : Option ℕ

pub data OperationStatus : Type 0 where
  pending running succeeded partial failed : OperationStatus

-- The columns of `GithubDiscoveryState` that are read.
pub record Discovery : Type 0 where
  pub mapping_id : ℕ
  pub status : OperationStatus
  pub last_successful_at : Option ℕ

pub record ArxivFacts : Type 0 where
  pub cursors : List Cursor
  pub observation_count : ℕ
  pub first_matched : Option ℕ
  pub last_matched : Option ℕ

-- The dates are distinct and in order.
pub record GithubFacts : Type 0 where
  pub tracked : List ℕ
  pub observation_dates : List ℕ
  pub first_observed : Option ℕ
  pub last_observed : Option ℕ
  pub last_successful : Option ℕ
  pub discovery_states : List Discovery

pub data PartialReason : Type 0 where
  no_backfill_window : PartialReason
  unresolved_windows : ℕ → List CursorStatus → PartialReason
  gaps_exist : ℕ → PartialReason
  no_snapshot no_observation : PartialReason

pub record MappingDetail : Type 0 where
  pub mapping_id : ℕ
  pub window_count : ℕ
  pub unresolved_window_count : ℕ
  pub is_partial : Bool

pub data Metadata : Type 0 where
  arxiv_metadata : ℕ → ℕ → ℕ → List MappingDetail → List Window → Metadata
  github_metadata : ℕ → List ℕ → List (ℕ × Option OperationStatus) → Metadata

pub record CoverageProjection : Type 0 where
  pub topic_id : ℕ
  pub source_id : ℕ
  pub coverage_status : CoverageStatus
  pub coverage_strategy : CoverageStrategy
  pub coverage_start : Option ℕ
  pub coverage_end : Option ℕ
  pub target_start : Option ℕ
  pub target_end : Option ℕ
  pub first_observed_at : Option ℕ
  pub last_observed_at : Option ℕ
  pub last_successful_run_at : Option ℕ
  pub observation_count : ℕ
  pub expected_observation_count : Option ℕ
  pub missing_observation_count : ℕ
  pub partial_reason : List PartialReason
  pub metadata : Metadata

-- `min` and `max` of the values that are not None.
abbrev pub least : List (Option ℕ) → Option ℕ
least [] = none
least (none ∷ xs) = least xs
least (some x ∷ xs) = elim (least xs) [ none ↦ some x | some y ↦ some (min x y) ]

abbrev pub greatest : List (Option ℕ) → Option ℕ
greatest [] = none
greatest (none ∷ xs) = greatest xs
greatest (some x ∷ xs) = elim (greatest xs) [ none ↦ some x | some y ↦ some (max x y) ]

abbrev pub date_of : Option ℕ → Option ℕ
date_of none = none
date_of (some t) = some (t / day)

abbrev pub min_date : List (Option ℕ) → Option ℕ
min_date values = least (map date_of values)

abbrev pub max_date : List (Option ℕ) → Option ℕ
max_date values = greatest (map date_of values)

abbrev pub is_succeeded : Cursor → Bool
is_succeeded c = elim c.status [ CursorStatus.succeeded ↦ true | _ ↦ false ]

abbrev pub has_window : Cursor → Bool
has_window c = is_some c.window_from && is_some c.window_until

-- The cursors that have both ends.
abbrev pub windows_of : List Cursor → List Window
windows_of [] = []
windows_of (c ∷ cs) = elim c.window_from [
  | none ↦ windows_of cs
  | some a ↦ elim c.window_until [
    | none ↦ windows_of cs
    | some b ↦ record { from = a; until = b } ∷ windows_of cs
  ]
]

abbrev has_status : CursorStatus → Cursor → Bool
has_status CursorStatus.pending c = elim c.status [ CursorStatus.pending ↦ true | _ ↦ false ]
has_status CursorStatus.running c = elim c.status [ CursorStatus.running ↦ true | _ ↦ false ]
has_status CursorStatus.succeeded c = is_succeeded c
has_status CursorStatus.partial c = elim c.status [ CursorStatus.partial ↦ true | _ ↦ false ]
has_status CursorStatus.failed c = elim c.status [ CursorStatus.failed ↦ true | _ ↦ false ]

-- `sorted({cursor.status.value for cursor in cursors})`: the values in the order of their texts.
abbrev pub statuses_of : List Cursor → List CursorStatus
statuses_of cs =
    select (λ s. exists (has_status s) cs)
      (CursorStatus.failed ∷ CursorStatus.partial ∷ CursorStatus.pending ∷ CursorStatus.running
        ∷ CursorStatus.succeeded ∷ [])

unfoldable pub arxiv_status : List Cursor → List Cursor → List Window → ℕ → CoverageStatus
arxiv_status backfill unresolved gaps observation_count =
    if is_empty backfill
    then CoverageStatus.unknown
    else (if not (is_empty unresolved) || not (is_empty gaps)
        then CoverageStatus.partial
        else (if observation_count == 0 then CoverageStatus.empty else CoverageStatus.complete))

abbrev arxiv_reasons : List Cursor → List Cursor → List Window → List PartialReason
arxiv_reasons backfill unresolved gaps =
    if is_empty backfill
    then no_backfill_window ∷ []
    else ((if is_empty unresolved
          then []
          else unresolved_windows (length unresolved) (statuses_of unresolved) ∷ [])
        ++ (if is_empty gaps then [] else gaps_exist (length gaps) ∷ []))

abbrev mapping_detail : List Cursor → ℕ → MappingDetail
mapping_detail backfill mapping =
    let own = select (λ c. c.mapping_id == mapping) backfill in
    let unresolved = select (λ c. not (is_succeeded c)) own in
    record {
      mapping_id = mapping;
      window_count = length own;
      unresolved_window_count = length unresolved;
      is_partial = not (is_empty unresolved);
    }

-- `_derive_arxiv`, for the ids of the topic, the source and the mappings.
unfoldable pub derive_arxiv : ℕ → ℕ → List ℕ → ArxivFacts → CoverageProjection
unfolding arxiv_status
derive_arxiv topic_id source_id mappings facts =
    let backfill = select (λ c. c.is_backfill) facts.cursors in
    let successful = select (λ c. is_succeeded c && has_window c) backfill in
    let unresolved = select (λ c. not (is_succeeded c)) backfill in
    let gaps = cursor_gaps (windows_of backfill) in
    let details = map (mapping_detail backfill) mappings in
    record {
      topic_id = topic_id;
      source_id = source_id;
      coverage_status = arxiv_status backfill unresolved gaps facts.observation_count;
      coverage_strategy = historical_backfill;
      coverage_start = min_date (map (λ c. c.window_from) successful);
      coverage_end = max_date (map (λ c. c.window_until) successful);
      target_start = min_date (map (λ c. c.window_from) backfill);
      target_end = max_date (map (λ c. c.window_until) backfill);
      first_observed_at = facts.first_matched;
      last_observed_at = facts.last_matched;
      last_successful_run_at = greatest (map (λ c. c.last_successful_run_at) facts.cursors);
      observation_count = facts.observation_count;
      expected_observation_count = none;
      missing_observation_count = length unresolved + length gaps;
      partial_reason = arxiv_reasons backfill unresolved gaps;
      metadata =
          arxiv_metadata (length backfill) (length successful)
            (length (select (λ d. d.is_partial) details)) details gaps;
    }

abbrev discovery_succeeded : Discovery → Bool
discovery_succeeded d = elim d.status [ OperationStatus.succeeded ↦ true | _ ↦ false ]

abbrev discovery_status : List Discovery → ℕ → ℕ × Option OperationStatus
discovery_status states mapping = elim (find (λ d. d.mapping_id == mapping) states) [
  | none ↦ (mapping, none)
  | some d ↦ (mapping, some d.status)
]

unfoldable pub github_status : List ℕ → List Discovery → List ℕ → CoverageStatus
github_status dates states tracked =
    if not (is_empty dates)
    then CoverageStatus.forward_only
    else (if not (is_empty states)
          && not (exists (λ d. not (discovery_succeeded d)) states)
          && is_empty tracked
        then CoverageStatus.empty
        else CoverageStatus.unknown)

abbrev github_reasons : CoverageStatus → List ℕ → List PartialReason
github_reasons CoverageStatus.unknown tracked =
    (if is_empty tracked then no_observation else no_snapshot) ∷ []
github_reasons _ tracked = []

abbrev first_date : List ℕ → Option ℕ
first_date [] = none
first_date (d ∷ ds) = some d

abbrev last_date : List ℕ → Option ℕ
last_date [] = none
last_date (d ∷ ds) = some (last_day d ds)

abbrev pub expected_days : List ℕ → Option ℕ
expected_days [] = none
expected_days (d ∷ ds) = some (last_day d ds - d + 1)

-- `_derive_github`. Snapshots are looked up only for repositories that are tracked.
unfoldable pub derive_github : ℕ → ℕ → List ℕ → GithubFacts → CoverageProjection
unfolding github_status
derive_github topic_id source_id mappings facts =
    let tracks = not (is_empty facts.tracked) in
    let dates = if tracks then facts.observation_dates else [] in
    let successful = if tracks then facts.last_successful else none in
    let status = github_status dates facts.discovery_states facts.tracked in
    record {
      topic_id = topic_id;
      source_id = source_id;
      coverage_status = status;
      coverage_strategy = forward_snapshot;
      coverage_start = first_date dates;
      coverage_end = last_date dates;
      target_start = none;
      target_end = none;
      first_observed_at = if tracks then facts.first_observed else none;
      last_observed_at = if tracks then facts.last_observed else none;
      last_successful_run_at =
          if is_some successful
          then successful
          else greatest (map (λ d. d.last_successful_at) facts.discovery_states);
      observation_count = length dates;
      expected_observation_count = expected_days dates;
      missing_observation_count = length (between dates);
      partial_reason = github_reasons status facts.tracked;
      metadata =
          github_metadata (length facts.tracked) (between dates)
            (map (discovery_status facts.discovery_states) mappings);
    }
