-- ===== src/Scheduler/Claims.antt =====
-- What each operation of `SchedulerLedger` does to the window that it is called for.
use signal_observatory.Prelude.{
  Result, ℕ, ◌<◌, ◌≡◌, ◌≢◌, refl, ap, ◌∙◌, inl, inr, Bool, true, false, ◌&&◌, Option, none, some,
  List, [], ◌∷◌, ◌++◌, map, String, eq_iff, exists, find, arith, ok, err, Bool-cases, All, length,
}
use Prim.Native.Nat.{suc}
use text.Mathlib.TextPositions.{eq_refl}
use signal_observatory.Errors.{Error, not_running}
use signal_observatory.Clock.{aware}
use signal_observatory.Scheduler.Row.{
  Row, Table, Status, scheduled, running, Metadata, is_outcome, is_running, is_scheduled,
  same_window,
}
use signal_observatory.Scheduler.Ledger.{
  plan, start, finish, reconcile, plan_existing, updated, merged, started, finished, planned_row,
  of_job, ReconciledExecution, reported, order_rows,
}
use signal_observatory.Scheduler.Table.{merged-Evolves, exists-map}

-- A row of the window with a status that passes the test.
abbrev pub has : (Status → Bool) → String → ℕ → Table → Bool
has p job w = exists (λ r. same_window job w r && p r.status)

module _ (job : String) (w : ℕ) where
  started_none_left : (n : ℕ) (t : Table) → has is_scheduled job w (map (started job w n) t) ≡ false
  unfolding started
  started_none_left n [] = refl
  started_none_left n (r ∷ t) = ground (arith, started_none_left n t)

  started_idle :
      (m : ℕ) (t : Table) → has is_scheduled job w t ≡ false → map (started job w m) t ≡ t
  unfolding started
  started_idle m [] h = refl
  started_idle m (r ∷ t) h = ground (arith, started_idle m t)

  started_running :
      (n : ℕ) (t : Table)
      → has is_scheduled job w t ≡ true
      → has is_running job w (map (started job w n) t) ≡ true
  unfolding started
  started_running n [] h = cc
  started_running n (r ∷ t) h = ground (arith, started_running n t)

  finished_none_left :
      (n : ℕ) (o : Status) (reason : Option String) (t : Table)
      → is_outcome o ≡ true
      → has is_running job w (map (finished job w n o reason) t) ≡ false
  unfolding finished
  finished_none_left n o reason [] h = refl
  finished_none_left n o reason (r ∷ t) h = ground (arith, finished_none_left n o reason t h)

  finished_outcome :
      (n : ℕ) (o : Status) (reason : Option String) (t : Table)
      → is_outcome o ≡ true
      → has is_running job w t ≡ true
      → has is_outcome job w (map (finished job w n o reason) t) ≡ true
  unfolding finished
  finished_outcome n o reason [] h k = cc
  finished_outcome n o reason (r ∷ t) h k = ground (arith, finished_outcome n o reason t h)

  module _ (t : Table) {t' : Table} (n m : ℕ) where
    -- A window is claimed at most once: after any `start`, a second `start` of the same window
    -- returns false and changes nothing.
    pub start_once :
        {b : Bool}
        → start t job (aware w) (aware n) ≡ ok (t', b)
        → start t' job (aware w) (aware m) ≡ ok (t', false)
    unfolding start
    start_once h = ground (arith, started_none_left n t, started_idle m (map (started job w n) t))

    -- A claimed window can be finished with each of the three outcomes: the call succeeds, the
    -- window has the outcome, and finishing it once more raises.
    pub finish-start :
        (o : Status) (reason : Option String) (k : ℕ)
        → start t job (aware w) (aware n) ≡ ok (t', true)
        → is_outcome o ≡ true
        → (t'' : Table) × (finish t' job (aware w) (aware m) o reason ≡ ok t'')
          × (has is_outcome job w t'' ≡ true)
          × (finish t'' job (aware w) (aware k) o reason ≡ err not_running)
    unfolding start finish
    finish-start o reason k h good = (
      map (finished job w m o reason) t',
      ground (arith, started_running n t),
      ground (arith, started_running n t, finished_outcome m o reason t' good),
      ground (arith, finished_none_left m o reason t' good),
    )

-- After reconciliation at `now` the job has no running row, and none that is scheduled for a time
-- that has passed.
abbrev pub Settled : String → ℕ → Row → Type 0
Settled job now r =
    of_job job r ≡ true → (r.status ≢ running) × (r.status ≡ scheduled → now < r.scheduled_at)

updated-Settled : (job : String) (now : ℕ) (r : Row) → Settled job now (updated job now r)
unfolding updated
updated-Settled job now r = ground arith

pub updated-All :
    (job : String) (now : ℕ) (t : Table) → All (Settled job now) (map (updated job now) t)
updated-All job now [] = tt
updated-All job now (r ∷ t) = (updated-Settled job now r, updated-All job now t)

-- Reconciliation at an aware time returns; afterwards the job has no running row, and no row
-- that is still scheduled for that time or earlier.
pub reconcile-Settled :
    (job : String) (now : ℕ) (t : Table)
    → (t' : Table) × (rep : List ReconciledExecution) × (reconcile t job (aware now) ≡ ok (t', rep))
      × All (Settled job now) t'
unfolding reconcile
reconcile-Settled job now t =
    (map (updated job now) t, reported job now (order_rows t), refl, updated-All job now t)

-- The source of the row that a query found.
abbrev found_source : Option Row → Option String
found_source none = none
found_source (some r) = some r.source_name

ok-eq :
    {t t' : Table} {a b : Bool}
    → ◌≡◌ {A = Result Error (Table × Bool)} (ok (t, a)) (ok (t', b))
    → t ≡ t'
ok-eq h = cc

module _ (job source : String) (w : ℕ) where
  merged-source :
      (metadata : Metadata) (t : Table)
      → found_source (find (same_window job w) (map (merged job w metadata) t))
        ≡ found_source (find (same_window job w) t)
  unfolding merged
  merged-source metadata [] = refl
  merged-source metadata (r ∷ t) = ground (arith, merged-source metadata t)

  planned-window :
      (metadata : Metadata) → same_window job w (planned_row job source w metadata) ≡ true
  planned-window metadata = rw (eq_refl job) (ground arith)

  appended_window :
      (metadata : Metadata) (t : Table)
      → exists (same_window job w) t ≡ false
      → (exists (same_window job w) (t ++ (planned_row job source w metadata ∷ [])) ≡ true)
        × (found_source (find (same_window job w) (t ++ (planned_row job source w metadata ∷ [])))
            ≡ some source)
  appended_window metadata [] h = (rw (planned-window metadata), rw (planned-window metadata))
  appended_window metadata (r ∷ t) h = ground (arith, appended_window metadata t)

  again :
      (metadata : Metadata) (t : Table) (o : Option Row)
      → found_source o ≡ some source
      → plan_existing t job source w metadata o ≡ ok (map (merged job w metadata) t, false)
  unfolding plan_existing
  again metadata t none h = cc
  again metadata t (some r) h = ground (arith, eq_iff r.source_name source)

  existing_source :
      (metadata : Metadata) (t : Table) (o : Option Row) {t' : Table} {b : Bool}
      → plan_existing t job source w metadata o ≡ ok (t', b)
      → (found_source o ≡ some source) × (t' ≡ map (merged job w metadata) t)
  unfolding plan_existing
  existing_source metadata t none h = cc
  existing_source metadata t (some r) h = ground (arith, eq_iff r.source_name source)

  length-map : (f : Row → Row) (t : Table) → length (map f t) ≡ length t
  length-map f [] = refl
  length-map f (r ∷ t) = ap suc (length-map f t)

  replan :
      (metadata : Metadata) (t : Table)
      → exists (same_window job w) t ≡ true
      → found_source (find (same_window job w) t) ≡ some source
      → (t'' : Table) × (plan t job source (aware w) metadata ≡ ok (t'', false))
        × (length t'' ≡ length t)
  unfolding plan
  replan metadata t h k = (
    map (merged job w metadata) t,
    rw h (again metadata t (find (same_window job w) t) k),
    length-map (merged job w metadata) t,
  )

  -- Planning is idempotent: once a call of `plan` has succeeded, planning the same window for the
  -- same source again succeeds, reports that the plan exists, and adds no row.
  pub plan_again :
      (metadata metadata' : Metadata) (t : Table) {t' : Table} {b : Bool}
      → plan t job source (aware w) metadata ≡ ok (t', b)
      → (t'' : Table) × (plan t' job source (aware w) metadata' ≡ ok (t'', false))
        × (length t'' ≡ length t')
  unfolding plan
  plan_again metadata metadata' t {t'} h = elim (Bool-cases (exists (same_window job w) t)) [
    | inl old ↦
        after_merge (existing_source metadata t (find (same_window job w) t) (rw old at h)) old
    | inr new ↦
        rw (← ok-eq (rw new at h))
          (let (a, b) = appended_window metadata t new in replan metadata' _ a b)
  ]
    where
      after_merge :
          (found_source (find (same_window job w) t) ≡ some source)
            × (t' ≡ map (merged job w metadata) t)
          → exists (same_window job w) t ≡ true
          → (t'' : Table) × (plan t' job source (aware w) metadata' ≡ ok (t'', false))
            × (length t'' ≡ length t')
      after_merge (k, e) old =
          replan metadata' t'
            (rw e (
              exists-map (merged job w metadata) (λ r. merged-Evolves job w 0 r metadata) job w t
              ∙ old))
            (rw e (merged-source metadata t ∙ k))
