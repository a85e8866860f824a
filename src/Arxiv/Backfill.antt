-- ===== src/Arxiv/Backfill.antt =====
-- `ArxivCollectionService.backfill` (collectors/arxiv/src/arxiv_collector/service.py). Each mapping
-- comes with the cursors of its windows and with the traces of the windows in the order in which they
-- are collected; `observed` is the clock at a success. What the calls before the loop raise
-- (`_enabled_mappings` and the queries; `_arxiv_source` and `_start_run`) is an input. The set of failed
-- mappings is left out, as are the rows of errors.
pub mod Limits
pub mod Coverage
use signal_observatory.Prelude.{
  ℕ, Bool, true, false, not, ◌||◌, Option, none, some, List, [], ◌∷◌, leb, if◌then◌else◌, Result,
  ok, err, ◌>>=◌, ◌>>◌, raise_if,
}
use signal_observatory.Errors.{Error, forbidden, window_order}
use signal_observatory.Clock.{Datetime, utc}
use signal_observatory.Arxiv.Window.{QueryWindow, window, partition_windows}
use signal_observatory.Arxiv.State.{
  Settings, Reason, CursorStatus, Cursor, new_cursor, Accumulator, Round, request_limit_reached,
}
use signal_observatory.Arxiv.Collect.{
  Mode, WindowEnd, ended, split, raises_error, starved, End, Job, collect_window, is_succeeded,
}
use signal_observatory.Arxiv.Incremental.{Parts, part_cursor, save_part}
use signal_observatory.Arxiv.Run.{
  RunStatus, terminal_status, count_error, count_success, stop, is_forbidden, mapping_job,
  new_accumulator,
}

pub record BackfillMapping : Type 0 where
  pub topic : ℕ
  pub cursors : Parts
  pub over_time : Bool
  pub traces : List (List Round)

-- What follows one window: the loop goes on with the pending windows, or it is left.
pub data WindowStep : Type 0 where
  go_on : List QueryWindow → Parts → Accumulator → WindowStep
  leave_forbidden : Parts → Accumulator → WindowStep
  out_of_trace : Parts → Accumulator → WindowStep

-- The handlers and the three cases after them.
unfoldable pub after_window : List QueryWindow → Parts → End → WindowStep
after_window pending cursors (ended status, c, acc) =
    go_on pending cursors (if is_succeeded status then count_success acc else acc)
after_window pending cursors (split a b, c, acc) = go_on (a ∷ b ∷ pending) cursors acc
after_window pending cursors (raises_error e, c, acc) =
    if is_forbidden e
    then leave_forbidden cursors (count_error acc)
    else go_on pending cursors (count_error acc)
after_window pending cursors (starved, c, acc) = out_of_trace cursors acc

-- The window's cursor: `_record_error` marks the one that was updated last, which is this.
abbrev pub recorded : End → Cursor
recorded (raises_error e, c, acc) = record c {
  status = CursorStatus.failed;
  last_error = some (Reason.raised e);
}
recorded (ended status, c, acc) = c
recorded (split a b, c, acc) = c
recorded (starved, c, acc) = c

-- One pass of `while pending`.
unfoldable pub collect_pending_window :
    Job → QueryWindow → List QueryWindow → Parts → Accumulator → List Round → WindowStep
unfolding after_window
collect_pending_window job w pending cursors acc rounds =
    let end =
      collect_window Mode.backfill (record job { window = w }) (part_cursor cursors w) acc rounds in
    after_window pending (save_part cursors w (recorded end)) end

-- How the loop over the windows of one mapping ends.
pub data PendingEnd : Type 0 where
  all_windows met_forbidden no_trace : PendingEnd

unfoldable pub collect_pending :
    Job
    → List QueryWindow
    → Parts
    → Accumulator
    → List (List Round)
    → PendingEnd × Parts × Accumulator
collect_pending job [] cursors acc traces = (all_windows, cursors, acc)
collect_pending job (w ∷ pending) cursors acc [] = (no_trace, cursors, acc)
collect_pending job (w ∷ pending) cursors acc (rounds ∷ traces) =
    elim (collect_pending_window job w pending cursors acc rounds) [
      | go_on pending' cursors' acc' ↦ collect_pending job pending' cursors' acc' traces
      | leave_forbidden cursors' acc' ↦ (met_forbidden, cursors', acc')
      | out_of_trace cursors' acc' ↦ (no_trace, cursors', acc')
    ]

-- The guard after a mapping: whether the loop over mappings goes on.
unfoldable pub after_pending : Settings → PendingEnd × Parts × Accumulator → Bool × Accumulator
after_pending s (met_forbidden, cursors, acc) =
    (false, record acc { stopped_by_safety_limit = false })
after_pending s (all_windows, cursors, acc) =
    if request_limit_reached s acc then (false, stop acc) else (true, acc)
after_pending s (no_trace, cursors, acc) = (false, acc)

unfoldable pub backfill_mapping :
    Settings
    → ℕ
    → Option ℕ
    → ℕ
    → QueryWindow
    → List QueryWindow
    → BackfillMapping
    → Accumulator
    → PendingEnd × Parts × Accumulator
unfolding collect_pending
backfill_mapping s page_size page_limit observed whole windows m acc =
    collect_pending (mapping_job s page_size page_limit observed m.topic whole) windows m.cursors
      acc m.traces

abbrev is_traced : PendingEnd → Bool
is_traced all_windows = true
is_traced met_forbidden = true
is_traced no_trace = false

-- `for mapping in mappings`, and whether the traces were long enough for it.
unfoldable pub backfill_mappings :
    Settings
    → ℕ
    → Option ℕ
    → ℕ
    → QueryWindow
    → List QueryWindow
    → List BackfillMapping
    → Accumulator
    → Bool × List Parts × Accumulator
unfolding after_pending
backfill_mappings s page_size page_limit observed whole windows [] acc = (true, [], acc)
backfill_mappings s page_size page_limit observed whole windows (m ∷ ms) acc = elim m.over_time [
  | true ↦ (true, [], stop acc)
  | false ↦
      let (end, cursors, acc') =
        backfill_mapping s page_size page_limit observed whole windows m acc in
      let (continues, acc'') = after_pending s (end, cursors, acc') in
      let (traced, rest, last) =
        backfill_mappings s page_size page_limit observed whole windows ms acc'' in
      if continues then (traced, cursors ∷ rest, last) else (is_traced end, cursors ∷ [], acc'')
]

-- `unfinished` where the traces are too short: the run has not come to its end.
pub data BackfillEnd : Type 0 where
  dry_run : List QueryWindow → BackfillEnd
  ran : List Parts → Accumulator → RunStatus → BackfillEnd
  unfinished : List Parts → Accumulator → BackfillEnd

abbrev pub run_end : Bool × List Parts × Accumulator → BackfillEnd
run_end (true, cursors, acc) = ran cursors acc (terminal_status acc)
run_end (false, cursors, acc) = unfinished cursors acc

abbrev pub raise_from : Option Error → Result Error (Unit {0})
raise_from none = ok tt
raise_from (some e) = err e

-- What the calls before the loop raise: those before the windows are planned, and those that start the
-- run.
pub record Setup : Type 0 where
  pub prepared : Option Error
  pub started : Option Error

-- With the windows of the range.
unfoldable pub backfill_windows :
    Settings
    → ℕ
    → Option ℕ
    → ℕ
    → Setup
    → QueryWindow
    → List BackfillMapping
    → Bool
    → Result Error (List QueryWindow)
    → Result Error BackfillEnd
unfolding backfill_mappings
backfill_windows s page_size page_limit observed setup whole ms dry (err e) = err e
backfill_windows s page_size page_limit observed setup whole ms true (ok windows) =
    ok (dry_run windows)
backfill_windows s page_size page_limit observed setup whole ms false (ok windows) = do
  raise_from setup.started
  ok (run_end (backfill_mappings s page_size page_limit observed whole windows ms new_accumulator))

-- The range as a window, if it is one, and the calls before it is partitioned.
unfoldable pub range : Setup → Datetime → Datetime → Result Error QueryWindow
range setup from until = do
  start ← utc from
  end ← utc until
  raise_if (leb end start) window_order
  raise_from setup.prepared
  ok (window start end)

-- `none` would mean that the fuel of `partition_windows` ran out.
unfoldable pub backfill :
    Settings
    → ℕ
    → ℕ
    → Option ℕ
    → ℕ
    → Setup
    → Datetime
    → Datetime
    → Bool
    → List BackfillMapping
    → Option (Result Error BackfillEnd)
unfolding backfill_windows range
backfill s days page_size page_limit observed setup from until dry ms =
    elim (range setup from until) [
      | err e ↦ some (err e)
      | ok whole ↦ elim (partition_windows whole.window_from whole.window_until days) [
        | none ↦ none
        | some windows ↦
            some (backfill_windows s page_size page_limit observed setup whole ms dry windows)
      ]
    ]
