-- ===== src/Arxiv/State.antt =====
-- The state of a collection run: settings, cursors (`ArxivCollectionCursor` of
-- db/src/observatory_db/arxiv_models.py), the accumulator, and what the environment answers.
-- Left out: log lines, planned queries, the list of checkpoint copies, paper counts, texts of errors.
use signal_observatory.Prelude.{ℕ, Bool, Option, none, List, leb, ◌==◌, if◌then◌else◌}
use signal_observatory.Errors.{Error}
use signal_observatory.Arxiv.Window.{QueryWindow}

pub record Settings : Type 0 where
  pub max_requests_per_run : ℕ
  pub max_results_per_topic : ℕ
  pub large_query_threshold : ℕ
  pub min_partition_minutes : ℕ
  pub retry_attempts : ℕ
  pub incremental_overlap : ℕ

pub data CursorStatus : Type 0 where
  pending running succeeded partial failed : CursorStatus

pub data Reason : Type 0 where
  max_requests_per_run max_runtime_minutes max_pages max_results_per_topic : Reason
  large_query_minimum_partition large_query_partition empty_page_before_total : Reason
  incremental_partition_incomplete : Reason
  raised : Error → Reason

-- The checkpoint's `partition` entry.
pub record Partition : Type 0 where
  pub root_from : ℕ
  pub root_until : ℕ
  pub pending : List QueryWindow
  pub completed : List QueryWindow

pub record Cursor : Type 0 where
  pub status : CursorStatus
  pub window_from : Option ℕ
  pub window_until : Option ℕ
  pub next_start : ℕ
  pub last_error : Option Reason
  pub last_successful_run_at : Option ℕ
  pub last_query_from : Option ℕ
  pub last_query_until : Option ℕ
  pub last_observed_updated_at : Option ℕ
  pub partition : Option Partition

-- A cursor as the three `_cursor` methods create it.
abbrev pub new_cursor : Option ℕ → Option ℕ → Cursor
new_cursor from until = record {
  status = pending;
  window_from = from;
  window_until = until;
  next_start = 0;
  last_error = none;
  last_successful_run_at = none;
  last_query_from = none;
  last_query_until = none;
  last_observed_updated_at = none;
  partition = none;
}

-- `RunAccumulator`, and with it the calls of the transport, which the code does not count: limits of
-- requests are stated of them. `results_by_topic` is a function that is 0 where the dictionary has no entry.
pub record Accumulator : Type 0 where
  pub api_requests : ℕ
  pub records_requested : ℕ
  pub entries_received : ℕ
  pub raw_payloads : ℕ
  pub errors : ℕ
  pub successful_windows : ℕ
  pub stopped_by_safety_limit : Bool
  pub results_by_topic : ℕ → ℕ
  pub transport_calls : ℕ

-- A page as the parser returns it: the counts, and each article's `updated_at`.
pub record Feed : Type 0 where
  pub total_results : ℕ
  pub start_index : ℕ
  pub items_per_page : ℕ
  pub articles : List ℕ

pub data Body : Type 0 where
  unparsable : Body
  page : Feed → Body

-- What one HTTP attempt meets: the run's time limit at its start, then no response or one.
pub data Answer : Type 0 where
  no_response : Answer
  response : ℕ → Body → Answer

pub record Attempt : Type 0 where
  pub over_time : Bool
  pub answer : Answer

-- One round of the page loop: the time limit at its head, and the attempts of its request.
pub record Round : Type 0 where
  pub over_time : Bool
  pub attempts : List Attempt

-- `_request_limit_reached`.
abbrev pub request_limit_reached : Settings → Accumulator → Bool
request_limit_reached s acc = leb s.max_requests_per_run acc.api_requests

-- `results_by_topic[topic] = n`.
abbrev pub update : (ℕ → ℕ) → ℕ → ℕ → ℕ → ℕ
update f topic n t = if t == topic then n else f t
