-- ===== src/Arxiv/Incremental.antt =====
-- `_collect_incremental_mapping` with its checkpoint, and `_incremental_window`
-- (collectors/arxiv/src/arxiv_collector/service.py). Each pass of the `while pending` loop has the
-- trace of one window; the cursors of the parts are kept by their window, the root being fixed.
pub mod Partitions
use signal_observatory.Prelude.{
  ℕ, ◌+◌, ◌-◌, Bool, true, false, ◌&&◌, Option, none, some, List, [], ◌∷◌, ◌++◌, leb, ◌==◌,
  if◌then◌else◌,
}
use signal_observatory.Errors.{Error, collection_error}
use signal_observatory.Arxiv.Window.{QueryWindow, window}
use signal_observatory.Arxiv.State.{
  Settings, Cursor, CursorStatus, running, succeeded, partial, failed, pending, Reason,
  large_query_partition, incremental_partition_incomplete, raised, Partition, Accumulator, Round,
  new_cursor,
}
use signal_observatory.Arxiv.Collect.{
  Mode, incremental, incremental_part, WindowEnd, ended, split, raises_error, starved, End, Job,
  collect_window, is_succeeded,
}

abbrev pub is_resumable : CursorStatus → Bool
is_resumable running = true
is_resumable partial = true
is_resumable failed = true
is_resumable _ = false

abbrev fresh_from : Option ℕ → ℕ → ℕ → ℕ
fresh_from none observed overlap = observed - overlap
fresh_from (some until) observed overlap = until - overlap

abbrev fresh_window : Cursor → ℕ → ℕ → QueryWindow × Cursor
fresh_window cursor observed overlap =
    let from = fresh_from cursor.last_query_until observed overlap in
    (
      window from observed,
      record cursor {
        next_start = 0;
        window_from = some from;
        window_until = some observed;
        partition = none;
      },
    )

resumed_window : Bool → Option ℕ → Option ℕ → Cursor → ℕ → ℕ → QueryWindow × Cursor
resumed_window true (some from) (some until) cursor observed overlap = (window from until, cursor)
resumed_window _ _ _ cursor observed overlap = fresh_window cursor observed overlap

-- `_incremental_window`, with the cursor that it may reset.
unfoldable pub incremental_window : Settings → Cursor → ℕ → QueryWindow × Cursor
unfolding resumed_window
incremental_window s cursor observed =
    resumed_window (is_resumable cursor.status) cursor.window_from cursor.window_until cursor
      observed s.incremental_overlap

abbrev pub same_root : Partition → QueryWindow → Bool
same_root p w = p.root_from == w.window_from && p.root_until == w.window_until

-- `_partition_checkpoint`.
abbrev pub partition_checkpoint : Option Partition → QueryWindow → Option Partition
partition_checkpoint none w = none
partition_checkpoint (some p) w = if same_root p w then some p else none

-- `_save_partition_parent`.
abbrev pub save_parent : Cursor → Partition → Reason → Cursor
save_parent parent p reason = record parent {
  status = partial;
  last_error = some reason;
  partition = some p;
}

abbrev pub Parts : Type 0
Parts = List (QueryWindow × Cursor)

abbrev same_window : QueryWindow → QueryWindow → Bool
same_window a b = a.window_from == b.window_from && a.window_until == b.window_until

-- `_incremental_partition_cursor`: the part's cursor, made on first use.
abbrev pub part_cursor : Parts → QueryWindow → Cursor
part_cursor [] w = new_cursor (some w.window_from) (some w.window_until)
part_cursor ((v, c) ∷ parts) w = if same_window v w then c else part_cursor parts w

abbrev pub save_part : Parts → QueryWindow → Cursor → Parts
save_part [] w c = (w, c) ∷ []
save_part ((v, d) ∷ parts) w c =
    if same_window v w then (v, c) ∷ parts else (v, d) ∷ save_part parts w c

abbrev pub MappingEnd : Type 0
MappingEnd = WindowEnd × Cursor × Parts × Accumulator

-- The parent when every part is done.
abbrev pub complete : QueryWindow → ℕ → Cursor → Cursor
complete root now parent = record parent {
  status = succeeded;
  next_start = 0;
  last_successful_run_at = some now;
  last_query_from = some root.window_from;
  last_query_until = some root.window_until;
  last_error = none;
}

abbrev or_incomplete : Option Reason → Reason
or_incomplete none = incremental_partition_incomplete
or_incomplete (some r) = r

-- What a pass of the loop leads to: the loop goes on with a new partition, or it returns.
pub data PartPass : Type 0 where
  next_part : Partition → Parts → Accumulator → PartPass
  done : MappingEnd → PartPass

unfoldable pub after_part :
    QueryWindow → List QueryWindow → Cursor → Partition → Parts → End → PartPass
after_part child rest parent p parts (ended succeeded, c, acc) =
    next_part (record p { pending = rest; completed = p.completed ++ (child ∷ []) })
      (save_part parts child c) acc
after_part child rest parent p parts (ended status, c, acc) =
    done (
      ended status,
      save_parent parent p (or_incomplete c.last_error),
      save_part parts child c,
      acc,
    )
after_part child rest parent p parts (split a b, c, acc) =
    next_part (record p { pending = a ∷ b ∷ rest }) (save_part parts child c) acc
after_part child rest parent p parts (raises_error e, c, acc) = done (
  raises_error e,
  parent,
  save_part parts child (record c { status = failed; last_error = some (raised e) }),
  acc,
)
after_part child rest parent p parts (starved, c, acc) =
    done (starved, parent, save_part parts child c, acc)

-- One pass, for the first pending window.
unfoldable pub collect_part :
    Job
    → QueryWindow
    → List QueryWindow
    → Cursor
    → Partition
    → Parts
    → Accumulator
    → List Round
    → PartPass
unfolding after_part
collect_part job child rest parent p parts acc rounds =
    if leb child.window_until child.window_from
    then done (raises_error collection_error, parent, parts, acc)
    else after_part child rest parent p parts (
        collect_window incremental_part (record job { window = child }) (part_cursor parts child)
          acc rounds)

-- `while pending`.
unfoldable pub collect_parts :
    Job
    → Cursor
    → List QueryWindow
    → Partition
    → Parts
    → Accumulator
    → List (List Round)
    → MappingEnd
collect_parts job parent [] p parts acc traces = (
  ended succeeded,
  complete job.window job.now (save_parent parent p large_query_partition),
  parts,
  acc,
)
collect_parts job parent (child ∷ rest) p parts acc [] = (starved, parent, parts, acc)
collect_parts job parent (child ∷ rest) p parts acc (trace ∷ traces) =
    elim (collect_part job child rest parent p parts acc trace) [
      | done end ↦ end
      | next_part p' parts' acc' ↦
          collect_parts job (save_parent parent p' large_query_partition) p'.pending p' parts' acc'
            traces
    ]

abbrev pub root_partition : QueryWindow → QueryWindow → QueryWindow → Partition
root_partition w a b = record {
  root_from = w.window_from;
  root_until = w.window_until;
  pending = a ∷ b ∷ [];
  completed = [];
}

-- The first query of a window without a checkpoint.
unfoldable pub after_root : Job → Parts → End → List (List Round) → MappingEnd
after_root job parts (split a b, parent, acc) traces =
    let p = root_partition job.window a b in
    collect_parts job (save_parent parent p large_query_partition) (a ∷ b ∷ []) p parts acc traces
after_root job parts (end, parent, acc) traces = (end, parent, parts, acc)

unfoldable pub collect_root : Job → Cursor → Parts → Accumulator → List (List Round) → MappingEnd
collect_root job parent parts acc [] = (starved, parent, parts, acc)
collect_root job parent parts acc (trace ∷ traces) =
    after_root job parts (collect_window incremental job parent acc trace) traces

unfoldable pub collect_mapping : Job → Cursor → Parts → Accumulator → List (List Round) → MappingEnd
collect_mapping job parent parts acc traces =
    elim (partition_checkpoint parent.partition job.window) [
      | none ↦ collect_root job parent parts acc traces
      | some p ↦ collect_parts job parent p.pending p parts acc traces
    ]
