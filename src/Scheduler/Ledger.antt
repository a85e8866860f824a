-- ===== src/Scheduler/Ledger.antt =====
-- The operations of `SchedulerLedger`, each one database transaction on the table.
use signal_observatory.Prelude.{
  ℕ, Bool, true, false, not, ◌&&◌, Option, none, some, List, [], ◌∷◌, ◌++◌, map, String, str_eq,
  ltb, leb, ◌==◌, if◌then◌else◌, is_empty, select, exists, find, Result, ok, err, ◌>>=◌, ◌>>◌,
  raise_if,
}
use signal_observatory.Errors.{
  Error, integrity_error, different_source, not_running, bad_finish_status,
}
use signal_observatory.Clock.{Datetime, utc}
use signal_observatory.Scheduler.Row.{
  Row, Table, Status, scheduled, running, missed, interrupted, Metadata, iso, is_scheduled,
  is_running, is_outcome, same_window, put, merge,
}

-- `ORDER BY scheduled_at`.
unfoldable pub insert_row : Row → List Row → List Row
insert_row r [] = r ∷ []
insert_row r (s ∷ rows) =
    if leb r.scheduled_at s.scheduled_at then r ∷ s ∷ rows else s ∷ insert_row r rows

unfoldable pub order_rows : List Row → List Row
unfolding insert_row
order_rows [] = []
order_rows (r ∷ rows) = insert_row r (order_rows rows)

abbrev pub of_job : String → Row → Bool
of_job job row = str_eq row.job_name job

-- `Result.unique()`: later copies go.
abbrev pub unique : List ℕ → List ℕ
unique [] = []
unique (t ∷ ts) = t ∷ select (λ u. not (u == t)) (unique ts)

unfoldable pub materialized_windows : Table → String → List ℕ
unfolding order_rows
materialized_windows table job =
    unique (map (λ row. row.scheduled_at) (order_rows (select (of_job job) table)))

pub record ReconciledExecution : Type 0 where
  pub job_name : String
  pub source_name : String
  pub scheduled_at : ℕ
  pub status : Status

-- The columns that a reconciled row gets in both branches.
abbrev pub close_row : ℕ → Row → Status → String → Row
close_row observed row status reason = record row {
  status = status;
  error_type = some reason;
  finished_at = some observed;
  metadata = put "reconciled_at" (iso observed) row.metadata;
}

-- One round of the loop of `reconcile`: `none` is its `continue`, and a status that the query
-- leaves out.
reconcile_status : Status → ℕ → Row → Option Row
reconcile_status scheduled observed row =
    if ltb observed row.scheduled_at
    then none
    else some (close_row observed row missed "worker_unavailable_at_due_time")
reconcile_status running observed row =
    some (close_row observed row interrupted "worker_restarted_during_execution")
reconcile_status _ observed row = none

unfoldable pub reconcile_row : String → ℕ → Row → Option Row
unfolding reconcile_status
reconcile_row job observed row =
    if of_job job row then reconcile_status row.status observed row else none

unfoldable pub updated : String → ℕ → Row → Row
unfolding reconcile_row
updated job observed row = elim (reconcile_row job observed row) [ none ↦ row | some row' ↦ row' ]

abbrev pub report : Row → ReconciledExecution
report row = record {
  job_name = row.job_name;
  source_name = row.source_name;
  scheduled_at = row.scheduled_at;
  status = row.status;
}

unfoldable pub reported : String → ℕ → List Row → List ReconciledExecution
unfolding reconcile_row
reported job observed [] = []
reported job observed (row ∷ rows) = elim (reconcile_row job observed row) [
  | none ↦ reported job observed rows
  | some row' ↦ report row' ∷ reported job observed rows
]

unfoldable pub reconcile :
    Table → String → Datetime → Result Error (Table × List ReconciledExecution)
unfolding updated reported order_rows
reconcile table job now = do
  observed ← utc now
  ok (map (updated job observed) table, reported job observed (order_rows table))

abbrev pub planned_row : String → String → ℕ → Metadata → Row
planned_row job source window metadata = record {
  job_name = job;
  source_name = source;
  scheduled_at = window;
  started_at = none;
  finished_at = none;
  status = scheduled;
  error_type = none;
  metadata = metadata;
}

-- The row of one window gets the planner's metadata while it is still only scheduled.
unfoldable pub merged : String → ℕ → Metadata → Row → Row
merged job window metadata row =
    if same_window job window row && is_scheduled row.status && not (is_empty metadata)
    then record row { metadata = merge row.metadata metadata }
    else row

-- The branch after the unique constraint has refused the insertion; `none` would re-raise.
unfoldable pub plan_existing :
    Table → String → String → ℕ → Metadata → Option Row → Result Error (Table × Bool)
unfolding merged
plan_existing table job source window metadata none = err integrity_error
plan_existing table job source window metadata (some existing) = do
  raise_if (not (str_eq existing.source_name source)) different_source
  ok (map (merged job window metadata) table, false)

unfoldable pub plan : Table → String → String → Datetime → Metadata → Result Error (Table × Bool)
unfolding plan_existing
plan table job source scheduled_at metadata = do
  window ← utc scheduled_at
  if exists (same_window job window) table
      then plan_existing table job source window metadata (find (same_window job window) table)
      else ok (table ++ (planned_row job source window metadata ∷ []), true)

unfoldable pub started : String → ℕ → ℕ → Row → Row
started job window now row =
    if same_window job window row && is_scheduled row.status
    then record row { status = running; started_at = some now; error_type = none }
    else row

-- `UPDATE … WHERE status = scheduled RETURNING id`.
unfoldable pub start : Table → String → Datetime → Datetime → Result Error (Table × Bool)
unfolding started
start table job scheduled_at now = do
  window ← utc scheduled_at
  started_at ← utc now
  ok (
    map (started job window started_at) table,
    exists (λ row. same_window job window row && is_scheduled row.status) table,
  )

unfoldable pub finished : String → ℕ → ℕ → Status → Option String → Row → Row
finished job window now outcome reason row =
    if same_window job window row && is_running row.status
    then record row { status = outcome; finished_at = some now; error_type = reason }
    else row

-- `finish` after its check of the status.
unfoldable pub finish_times :
    Table → String → Datetime → Datetime → Status → Option String → Result Error Table
unfolding finished
finish_times table job scheduled_at now outcome reason = do
  window ← utc scheduled_at
  finished_at ← utc now
  raise_if (not (exists (λ row. same_window job window row && is_running row.status) table))
      not_running
  ok (map (finished job window finished_at outcome reason) table)

unfoldable pub finish :
    Table → String → Datetime → Datetime → Status → Option String → Result Error Table
unfolding finish_times
finish table job scheduled_at now outcome reason = do
  raise_if (not (is_outcome outcome)) bad_finish_status
  finish_times table job scheduled_at now outcome reason
