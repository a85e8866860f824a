-- ===== src/Scheduler/Row.antt =====
-- The rows of `scheduler_executions` (`SchedulerExecution`, `SchedulerExecutionStatus`). Times are
-- UTC instants, since the column type refuses naive values. The surrogate `id` and the bookkeeping
-- columns `created_at` and `updated_at` are left out.
use signal_observatory.Prelude.{
  ℕ, Bool, true, false, ◌&&◌, Option, none, some, List, [], ◌∷◌, String, str_eq, ◌==◌,
  if◌then◌else◌, is_some,
}

pub data Status : Type 0 where
  scheduled running succeeded partial failed missed interrupted : Status

-- JSON values that the code stores under `metadata`: a text, or an instant in ISO format.
pub data MetaValue : Type 0 where
  text : String → MetaValue
  iso : ℕ → MetaValue

abbrev pub Metadata : Type 0
Metadata = List (String × MetaValue)

pub record Row : Type 0 where
  pub job_name : String
  pub source_name : String
  pub scheduled_at : ℕ
  pub started_at : Option ℕ
  pub finished_at : Option ℕ
  pub status : Status
  pub error_type : Option String
  pub metadata : Metadata

abbrev pub Table : Type 0
Table = List Row

abbrev pub is_scheduled : Status → Bool
is_scheduled scheduled = true
is_scheduled _ = false

abbrev pub is_running : Status → Bool
is_running running = true
is_running _ = false

-- The `terminal` set of the punctuality verifier.
abbrev pub is_terminal : Status → Bool
is_terminal scheduled = false
is_terminal running = false
is_terminal _ = true

-- The statuses that `finish` takes.
abbrev pub is_outcome : Status → Bool
is_outcome succeeded = true
is_outcome partial = true
is_outcome failed = true
is_outcome _ = false

-- `job_name == job AND scheduled_at == window`.
abbrev pub same_window : String → ℕ → Row → Bool
same_window job window row = str_eq row.job_name job && row.scheduled_at == window

-- `{**metadata, key: value}`.
abbrev pub put : String → MetaValue → Metadata → Metadata
put k v [] = (k, v) ∷ []
put k v ((j, w) ∷ m) = if str_eq j k then (j, v) ∷ m else (j, w) ∷ put k v m

abbrev pub get : String → Metadata → Option MetaValue
get k [] = none
get k ((j, w) ∷ m) = if str_eq j k then some w else get k m

-- `merged.setdefault(key, value)`.
abbrev pub set_default : String → MetaValue → Metadata → Metadata
set_default k v m = if is_some (get k m) then m else put k v m

-- The loop that merges the planner's metadata into the row's.
abbrev pub merge : Metadata → Metadata → Metadata
merge merged [] = merged
merge merged ((k, v) ∷ rest) = merge (set_default k v merged) rest
