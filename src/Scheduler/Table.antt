-- ===== src/Scheduler/Table.antt =====
-- The invariant of the scheduler's table, and what one row may become.
use signal_observatory.Prelude.{
  ℕ, ◌≡◌, refl, Bool, true, false, Option, [], ◌∷◌, ◌++◌, map, String, eq_iff, is_some, All,
  All-append, exists, arith, ◌∙◌,
}
use signal_observatory.Scheduler.Row.{
  Row, Table, Status, scheduled, running, succeeded, partial, failed, missed, interrupted, Metadata,
  is_terminal, is_outcome, same_window,
}
use signal_observatory.Scheduler.Ledger.{updated, merged, started, finished}

-- Which times a row of each status has: it was started, it has ended.
abbrev pub HasTimes : Status → Bool → Bool → Type 0
HasTimes scheduled begun ended = (begun ≡ false) × (ended ≡ false)
HasTimes running begun ended = (begun ≡ true) × (ended ≡ false)
HasTimes missed begun ended = (begun ≡ false) × (ended ≡ true)
HasTimes _ begun ended = (begun ≡ true) × (ended ≡ true)

abbrev pub RowIsValid : Row → Type 0
RowIsValid r = HasTimes r.status (is_some r.started_at) (is_some r.finished_at)

-- The unique constraint on `(job_name, scheduled_at)`.
abbrev pub WindowsUnique : Table → Type 0
WindowsUnique [] = Unit
WindowsUnique (r ∷ t) = (exists (same_window r.job_name r.scheduled_at) t ≡ false) × WindowsUnique t

pub record TableIsValid (t : Table) : Type 0 where
  pub rows : All RowIsValid t
  pub windows : WindowsUnique t

-- The state machine of one execution.
abbrev pub advances : Status → Status → Bool
advances scheduled scheduled = true
advances scheduled running = true
advances scheduled missed = true
advances running running = true
advances running succeeded = true
advances running partial = true
advances running failed = true
advances running interrupted = true
advances succeeded succeeded = true
advances partial partial = true
advances failed failed = true
advances missed missed = true
advances interrupted interrupted = true
advances _ _ = false

-- What one transaction may make of a row: its identity stays, its status follows the machine, and
-- a terminal row does not change at all.
pub record Evolves (r r' : Row) : Type 0 where
  pub job : r'.job_name ≡ r.job_name
  pub source : r'.source_name ≡ r.source_name
  pub window : r'.scheduled_at ≡ r.scheduled_at
  pub status : advances r.status r'.status ≡ true
  pub frozen : is_terminal r.status ≡ true → r' ≡ r

module _ (job : String) (window now : ℕ) (r : Row) where
  pub started-Evolves : Evolves r (started job window now r)
  unfolding started
  started-Evolves = ground arith

  pub started-RowIsValid : RowIsValid r → RowIsValid (started job window now r)
  unfolding started
  started-RowIsValid v = ground arith

  pub updated-Evolves : Evolves r (updated job now r)
  unfolding updated
  updated-Evolves = ground arith

  pub updated-RowIsValid : RowIsValid r → RowIsValid (updated job now r)
  unfolding updated
  updated-RowIsValid v = ground arith

  module _ (metadata : Metadata) where
    pub merged-Evolves : Evolves r (merged job window metadata r)
    unfolding merged
    merged-Evolves = ground arith

    pub merged-RowIsValid : RowIsValid r → RowIsValid (merged job window metadata r)
    unfolding merged
    merged-RowIsValid v = ground arith

  module _ (outcome : Status) (reason : Option String) (h : is_outcome outcome ≡ true) where
    pub finished-Evolves : Evolves r (finished job window now outcome reason r)
    unfolding finished
    finished-Evolves = ground arith

    pub finished-RowIsValid : RowIsValid r → RowIsValid (finished job window now outcome reason r)
    unfolding finished
    finished-RowIsValid v = ground arith

-- The table after: every row has evolved, and what was appended is only scheduled.
abbrev pub Extends : Table → Table → Type 0
Extends [] [] = Unit
Extends [] (r ∷ t) = (r.status ≡ scheduled) × Extends [] t
Extends (r ∷ t) [] = ⊥
Extends (r ∷ t) (r' ∷ t') = Evolves r r' × Extends t t'

pub Extends-map : (f : Row → Row) (t : Table) → ((r : Row) → Evolves r (f r)) → Extends t (map f t)
Extends-map f [] h = tt
Extends-map f (r ∷ t) h = (h r, Extends-map f t h)

pub Extends-refl : (t : Table) → Extends t t
Extends-refl [] = tt
Extends-refl (r ∷ t) = (ground arith, Extends-refl t)

pub Extends-append : (t : Table) (r : Row) → r.status ≡ scheduled → Extends t (t ++ (r ∷ []))
Extends-append [] r h = (h, tt)
Extends-append (s ∷ t) r h = (ground arith, Extends-append t r h)

module _ (f : Row → Row) (keep : (r : Row) → Evolves r (f r)) where
  -- An update in place neither makes nor removes a window.
  pub exists-map :
      (job : String) (window : ℕ) (t : Table)
      → exists (same_window job window) (map f t) ≡ exists (same_window job window) t
  exists-map job window [] = refl
  exists-map job window (r ∷ t) =
      rw ((keep r).job, (keep r).window) (rw (exists-map job window t) refl)

  WindowsUnique-map : (t : Table) → WindowsUnique t → WindowsUnique (map f t)
  WindowsUnique-map [] u = tt
  WindowsUnique-map (r ∷ t) u = (
    rw ((keep r).job, (keep r).window) (exists-map r.job_name r.scheduled_at t ∙ u.0),
    WindowsUnique-map t u.1,
  )

  module _ (valid : (r : Row) → RowIsValid r → RowIsValid (f r)) where
    All-map : (t : Table) → All RowIsValid t → All RowIsValid (map f t)
    All-map [] h = tt
    All-map (r ∷ t) h = (valid r h.0, All-map t h.1)

    pub TableIsValid-map : (t : Table) → TableIsValid t → TableIsValid (map f t)
    TableIsValid-map t v = record {
      rows = All-map t v.rows;
      windows = WindowsUnique-map t v.windows;
    }

same_window_sym :
    (r s : Row)
    → same_window s.job_name s.scheduled_at r ≡ false
    → same_window r.job_name r.scheduled_at s ≡ false
same_window_sym r s h = ground (arith, eq_iff r.job_name s.job_name, eq_iff s.job_name r.job_name)

exists-append_last :
    (p : Row → Bool) (t : Table) (s : Row)
    → exists p t ≡ false
    → p s ≡ false
    → exists p (t ++ (s ∷ [])) ≡ false
exists-append_last p [] s h k = rw k
exists-append_last p (r ∷ t) s h k = ground (arith, exists-append_last p t s)

WindowsUnique-append :
    (t : Table) (s : Row)
    → exists (same_window s.job_name s.scheduled_at) t ≡ false
    → WindowsUnique t
    → WindowsUnique (t ++ (s ∷ []))
WindowsUnique-append [] s h u = (refl, tt)
WindowsUnique-append (r ∷ t) s h u = (
  exists-append_last (same_window r.job_name r.scheduled_at) t s u.0
      (same_window_sym r s (ground arith)),
  WindowsUnique-append t s (ground arith) u.1,
)

-- A new row for a window that the table lacks.
pub TableIsValid-append :
    (t : Table) (s : Row)
    → RowIsValid s
    → exists (same_window s.job_name s.scheduled_at) t ≡ false
    → TableIsValid t
    → TableIsValid (t ++ (s ∷ []))
TableIsValid-append t s h fresh v = record {
  rows = All-append RowIsValid t (s ∷ []) v.rows (h, tt);
  windows = WindowsUnique-append t s fresh v.windows;
}
