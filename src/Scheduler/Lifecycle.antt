-- ===== src/Scheduler/Lifecycle.antt =====
-- Histories of the ledger: sequences of transactions from any callers, in the order in which the
-- database commits them. A call that raises has rolled back.
use signal_observatory.Prelude.{
  ℕ, ◌≡◌, refl, sym, ◌∙◌, inl, inr, Bool, true, false, ◌&&◌, Option, none, some, List, [], ◌∷◌,
  ◌++◌, String, str_eq, exists, find, Result, ok, err, Bool-cases, if◌then◌else◌, Member,
}
use signal_observatory.Errors.{Error}
use signal_observatory.Clock.{Datetime, aware, naive}
use signal_observatory.Scheduler.Row.{
  Row, Table, Status, Metadata, is_terminal, is_outcome, is_running, same_window,
}
use signal_observatory.Scheduler.Ledger.{
  plan, start, finish, finish_times, reconcile, plan_existing, updated, merged, started, finished,
  planned_row,
}
use signal_observatory.Scheduler.Table.{
  TableIsValid, Extends, Extends-map, Extends-refl, Extends-append, TableIsValid-map,
  TableIsValid-append, started-Evolves, started-RowIsValid, updated-Evolves, updated-RowIsValid,
  merged-Evolves, merged-RowIsValid, finished-Evolves, finished-RowIsValid,
}

pub data Request : Type 0 where
  plan_window : String → String → Datetime → Metadata → Request
  start_window : String → Datetime → Datetime → Request
  finish_window : String → Datetime → Datetime → Status → Option String → Request
  reconcile_job : String → Datetime → Request

-- The table after a call: the committed one, or the old one where the call raised.
abbrev pub settle {κ} : {B : Type κ} → Table → Result Error (Table × B) → Table
settle t (ok (t', _)) = t'
settle t (err _) = t

abbrev pub settle_table : Table → Result Error Table → Table
settle_table t (ok t') = t'
settle_table t (err _) = t

unfoldable pub apply : Request → Table → Table
apply (plan_window job source at metadata) t = settle t (plan t job source at metadata)
apply (start_window job at now) t = settle t (start t job at now)
apply (finish_window job at now outcome reason) t =
    settle_table t (finish t job at now outcome reason)
apply (reconcile_job job now) t = settle t (reconcile t job now)

unfoldable pub run : List Request → Table → Table
run [] t = t
run (q ∷ qs) t = run qs (apply q t)

-- What a transaction guarantees.
pub record IsSafe (t t' : Table) : Type 0 where
  pub valid : TableIsValid t'
  pub extends : Extends t t'

IsSafe-refl : (t : Table) → TableIsValid t → IsSafe t t
IsSafe-refl t v = record { valid = v; extends = Extends-refl t }

module _ (t : Table) (v : TableIsValid t) where
  pub start-IsSafe : (job : String) (at now : Datetime) → IsSafe t (settle t (start t job at now))
  unfolding start
  start-IsSafe job (naive w) now = IsSafe-refl t v
  start-IsSafe job (aware w) (naive n) = IsSafe-refl t v
  start-IsSafe job (aware w) (aware n) = record {
    valid =
        TableIsValid-map (started job w n) (started-Evolves job w n) (started-RowIsValid job w n) t
          v;
    extends = Extends-map (started job w n) t (started-Evolves job w n);
  }

  pub reconcile-IsSafe : (job : String) (now : Datetime) → IsSafe t (settle t (reconcile t job now))
  unfolding reconcile
  reconcile-IsSafe job (naive n) = IsSafe-refl t v
  reconcile-IsSafe job (aware n) = record {
    valid =
        TableIsValid-map (updated job n) (updated-Evolves job n n) (updated-RowIsValid job n n) t v;
    extends = Extends-map (updated job n) t (updated-Evolves job n n);
  }

  pub finish-IsSafe :
      (job : String) (at now : Datetime) (outcome : Status) (reason : Option String)
      → IsSafe t (settle_table t (finish t job at now outcome reason))
  unfolding finish finish_times
  finish-IsSafe job at now outcome reason = elim (Bool-cases (is_outcome outcome)) [
    | inr bad ↦ rw bad (IsSafe-refl t v)
    | inl good ↦ rw good (written at now good)
  ]
    where
      written :
          (at now : Datetime)
          → is_outcome outcome ≡ true
          → IsSafe t (settle_table t (finish_times t job at now outcome reason))
      written (naive w) now good = IsSafe-refl t v
      written (aware w) (naive n) good = IsSafe-refl t v
      written (aware w) (aware n) good =
          elim (Bool-cases (exists (λ r. same_window job w r && is_running r.status) t)) [
            | inr idle ↦ rw idle (IsSafe-refl t v)
            | inl busy ↦ rw busy (record {
              valid =
                  TableIsValid-map (finished job w n outcome reason)
                    (λ r. finished-Evolves job w n r outcome reason good)
                    (λ r. finished-RowIsValid job w n r outcome reason good) t v;
              extends =
                  Extends-map (finished job w n outcome reason) t
                    (λ r. finished-Evolves job w n r outcome reason good);
            })
          ]

  existing :
      (job source : String) (w : ℕ) (metadata : Metadata) (o : Option Row)
      → IsSafe t (settle t (plan_existing t job source w metadata o))
  unfolding plan_existing
  existing job source w metadata none = IsSafe-refl t v
  existing job source w metadata (some row) = elim (Bool-cases (str_eq row.source_name source)) [
    | inr other ↦ rw other (IsSafe-refl t v)
    | inl same ↦ rw same (record {
      valid =
          TableIsValid-map (merged job w metadata) (λ r. merged-Evolves job w 0 r metadata)
            (λ r. merged-RowIsValid job w 0 r metadata) t v;
      extends = Extends-map (merged job w metadata) t (λ r. merged-Evolves job w 0 r metadata);
    })
  ]

  planned :
      (job source : String) (w : ℕ) (metadata : Metadata) (b : Bool)
      → exists (same_window job w) t ≡ b
      → IsSafe t (
          settle t (
            if b
            then plan_existing t job source w metadata (find (same_window job w) t)
            else ok (t ++ (planned_row job source w metadata ∷ []), true)))
  planned job source w metadata false fresh = record {
    valid = TableIsValid-append t (planned_row job source w metadata) (refl, refl) fresh v;
    extends = Extends-append t (planned_row job source w metadata) refl;
  }
  planned job source w metadata true taken =
      existing job source w metadata (find (same_window job w) t)

  pub plan-IsSafe :
      (job source : String) (at : Datetime) (metadata : Metadata)
      → IsSafe t (settle t (plan t job source at metadata))
  unfolding plan
  plan-IsSafe job source (naive w) metadata = IsSafe-refl t v
  plan-IsSafe job source (aware w) metadata =
      planned job source w metadata (exists (same_window job w) t) refl

  -- Every transaction keeps the table valid and lets rows evolve only along the state machine.
  pub apply-IsSafe : (q : Request) → IsSafe t (apply q t)
  unfolding apply
  apply-IsSafe (plan_window job source at metadata) = plan-IsSafe job source at metadata
  apply-IsSafe (start_window job at now) = start-IsSafe job at now
  apply-IsSafe (finish_window job at now outcome reason) = finish-IsSafe job at now outcome reason
  apply-IsSafe (reconcile_job job now) = reconcile-IsSafe job now

-- From a valid table, after any history of calls, each window still has at most one row and every
-- row has the times of its status.
pub run-TableIsValid : (qs : List Request) (t : Table) → TableIsValid t → TableIsValid (run qs t)
unfolding run
run-TableIsValid [] t v = v
run-TableIsValid (q ∷ qs) t v = run-TableIsValid qs (apply q t) (apply-IsSafe t v q).valid

Member-Extends :
    (r : Row) (t t' : Table) → Extends t t' → is_terminal r.status ≡ true → Member r t → Member r t'
Member-Extends r (s ∷ t) [] x h m = absurd x
Member-Extends r (s ∷ t) (s' ∷ t') x h (inl e) = inl (e ∙ sym (x.0.frozen (rw (← e) h)))
Member-Extends r (s ∷ t) (s' ∷ t') x h (inr m) = inr (Member-Extends r t t' x.1 h m)
Member-Extends r [] t' x h m = elim m [ ]

-- A row of a valid table that has ended (succeeded, partial, failed, missed or interrupted) is in
-- the table unchanged after any history of calls.
pub run-terminal_kept :
    (qs : List Request) (t : Table) (r : Row)
    → TableIsValid t
    → is_terminal r.status ≡ true
    → Member r t
    → Member r (run qs t)
unfolding run
run-terminal_kept [] t r v h m = m
run-terminal_kept (q ∷ qs) t r v h m =
    let safe = apply-IsSafe t v q in
    run-terminal_kept qs (apply q t) r safe.valid h
      (Member-Extends r t (apply q t) safe.extends h m)
