-- ===== src/Arxiv/Run.antt =====
-- The loop over mappings of `ArxivCollectionService.collect`, with `_terminal_status` and
-- `_fail_incremental_parent` (collectors/arxiv/src/arxiv_collector/service.py). A mapping comes with
-- its cursors and the trace of what it meets; its query is taken to be well formed.
pub mod Status
use signal_observatory.Prelude.{
  ℕ, ◌+◌, Bool, true, false, not, ◌&&◌, ◌||◌, Option, none, some, List, [], ◌∷◌, ◌++◌, leb, ◌==◌,
  if◌then◌else◌,
}
use signal_observatory.Errors.{
  Error, forbidden, client_error, collection_error, parse_error, query_error,
}
use signal_observatory.Arxiv.Window.{QueryWindow}
use signal_observatory.Arxiv.State.{
  Settings, Cursor, CursorStatus, Reason, raised, Accumulator, Round, request_limit_reached,
}
use signal_observatory.Arxiv.Collect.{
  WindowEnd, ended, split, raises_error, starved, Job, is_succeeded,
}
use signal_observatory.Arxiv.Incremental.{Parts, MappingEnd, incremental_window, collect_mapping}

pub record Mapping : Type 0 where
  pub topic : ℕ
  pub cursor : Cursor
  pub parts : Parts
  pub over_time : Bool
  pub traces : List (List Round)

pub data RunStatus : Type 0 where
  succeeded partial failed : RunStatus

-- `_terminal_status`.
unfoldable pub terminal_status : Accumulator → RunStatus
terminal_status acc =
    if not (acc.errors == 0) && acc.successful_windows == 0
    then failed
    else (if not (acc.errors == 0) || acc.stopped_by_safety_limit then partial else succeeded)

-- `_fail_incremental_parent`.
abbrev pub fail_parent : Cursor → Error → Cursor
fail_parent cursor e = record cursor { status = CursorStatus.failed; last_error = some (raised e) }

abbrev pub count_error : Accumulator → Accumulator
count_error acc = record acc { errors = acc.errors + 1 }

abbrev pub count_success : Accumulator → Accumulator
count_success acc = record acc { successful_windows = acc.successful_windows + 1 }

abbrev pub stop : Accumulator → Accumulator
stop acc = record acc { stopped_by_safety_limit = true }

abbrev pub is_forbidden : Error → Bool
is_forbidden forbidden = true
is_forbidden _ = false

-- What follows one mapping: its cursor, the counts, and whether the loop goes on.
pub record Step : Type 0 where
  pub cursor : Cursor
  pub acc : Accumulator
  pub continues : Bool

abbrev limit_step : Settings → Cursor → Accumulator → Step
limit_step s cursor acc =
    if request_limit_reached s acc
    then record { cursor = cursor; acc = stop acc; continues = false }
    else record { cursor = cursor; acc = acc; continues = true }

unfoldable pub after_mapping : Settings → MappingEnd → Step
after_mapping s (raises_error e, cursor, parts, acc) = record {
  cursor = fail_parent cursor e;
  acc = count_error acc;
  continues = not (is_forbidden e);
}
after_mapping s (ended status, cursor, parts, acc) =
    limit_step s cursor (if is_succeeded status then count_success acc else acc)
after_mapping s (split a b, cursor, parts, acc) = limit_step s cursor acc
after_mapping s (starved, cursor, parts, acc) = record {
  cursor = cursor;
  acc = acc;
  continues = false;
}

abbrev pub mapping_job : Settings → ℕ → Option ℕ → ℕ → ℕ → QueryWindow → Job
mapping_job s page_size page_limit now topic w = record {
  settings = s;
  topic = topic;
  page_limit = page_limit;
  page_size = page_size;
  window = w;
  now = now;
}

unfoldable pub run_mapping : Settings → ℕ → Option ℕ → ℕ → Mapping → Accumulator → Step
unfolding after_mapping
run_mapping s page_size page_limit observed m acc =
    let (w, cursor) = incremental_window s m.cursor observed in
    after_mapping s (
      collect_mapping (mapping_job s page_size page_limit observed m.topic w) cursor m.parts acc
        m.traces)

-- `for mapping in mappings`: the cursors of the mappings that were reached, and the counts.
unfoldable pub run_mappings :
    Settings → ℕ → Option ℕ → ℕ → List Mapping → Accumulator → List Cursor × Accumulator
run_mappings s page_size page_limit observed [] acc = ([], acc)
run_mappings s page_size page_limit observed (m ∷ ms) acc = elim m.over_time [
  | true ↦ ([], stop acc)
  | false ↦
      let step = run_mapping s page_size page_limit observed m acc in
      let rest = run_mappings s page_size page_limit observed ms step.acc in
      if step.continues then (step.cursor ∷ rest.0, rest.1) else (step.cursor ∷ [], step.acc)
]

abbrev pub new_accumulator : Accumulator
new_accumulator = record {
  api_requests = 0;
  records_requested = 0;
  entries_received = 0;
  raw_payloads = 0;
  errors = 0;
  successful_windows = 0;
  stopped_by_safety_limit = false;
  results_by_topic = λ t. 0;
  transport_calls = 0;
}

-- `collect` from the loop to the terminal status.
unfoldable pub collect :
    Settings → ℕ → Option ℕ → ℕ → List Mapping → List Cursor × Accumulator × RunStatus
unfolding run_mappings
collect s page_size page_limit observed mappings =
    let (cursors, acc) = run_mappings s page_size page_limit observed mappings new_accumulator in
    (cursors, acc, terminal_status acc)
