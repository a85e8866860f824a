-- ===== src/Scheduler/Worker/Rounds.antt =====
-- One round of the worker's loop keeps the table valid and brings a claimed window to its outcome.
use signal_observatory.Prelude.{
  ℕ, ◌≡◌, refl, Bool, true, false, String, Option, none, some, Result, ok, err, if◌then◌else◌,
  Bool-cases, inl, inr,
}
use signal_observatory.Errors.{Error, unsupported_status, nonterminal_status}
use signal_observatory.Clock.{aware}
use signal_observatory.Scheduler.Row.{Table, Status, is_outcome}
use signal_observatory.Scheduler.Ledger.{start}
use signal_observatory.Scheduler.Claims.{has, finish-start}
use signal_observatory.Scheduler.Worker.{
  CollectorEnd, summary, raises_error, collector_job, scheduler_status_for_collector, JobEnd,
  returned, raised, end_status, end_error, Trace, RoundEnd, waiting, stopped, not_claimed, finished,
  dispatch,
}

-- A status that is returned is an outcome.
abbrev EndsWell : JobEnd → Type 0
EndsWell (returned s) = is_outcome s ≡ true
EndsWell (raised name) = Unit

end_status-outcome : (e : JobEnd) → EndsWell e → is_outcome (end_status e) ≡ true
end_status-outcome (returned s) h = h
end_status-outcome (raised name) h = refl

-- What the status mapping lets through is an outcome.
passed-outcome :
    (found : Option Status)
    → EndsWell
        (elim (elim found as (λ _. Result Error Status) [
          | none ↦ err unsupported_status
          | some s ↦ if is_outcome s then ok s else err nonterminal_status
        ]) [ ok s ↦ returned s | err e ↦ raised "ValueError" ])
passed-outcome none = tt
passed-outcome (some s) = elim (Bool-cases (is_outcome s)) [ inl e ↦ rw e e | inr e ↦ rw e tt ]

collector_job-EndsWell : (c : CollectorEnd) → EndsWell (collector_job c)
unfolding collector_job scheduler_status_for_collector
collector_job-EndsWell (raises_error name) = tt
collector_job-EndsWell (summary status) = passed-outcome _

-- How a dispatch of a window may end.
abbrev pub Dispatched : String → ℕ → Result Error (Table × RoundEnd) → Type 0
Dispatched name w (err e) = ⊥
Dispatched name w (ok (t, finished)) = has is_outcome name w t ≡ true
Dispatched name w (ok (t, not_claimed)) = Unit
Dispatched name w (ok (t, stopped)) = Unit
Dispatched name w (ok (t, waiting)) = ⊥

start_returns :
    (t : Table) (name : String) (w n : ℕ)
    → (t' : Table) × (b : Bool) × (start t name (aware w) (aware n) ≡ ok (t', b))
unfolding start
start_returns t name w n = (_, _, refl)

claimed :
    (t t' : Table) (name : String) (w : ℕ) (trace : Trace) (b : Bool)
    → EndsWell trace.job_end
    → trace.stop_after_lock ≡ false
    → start t name (aware w) (aware trace.started_at) ≡ ok (t', b)
    → Dispatched name w (dispatch t name w trace)
unfolding dispatch
claimed t t' name w trace false h go e = rw (go, dispatch) (rw e tt)
claimed t t' name w trace true h go e =
    let (t'', f, outcome, _) =
      finish-start name w t trace.started_at trace.finished_at (end_status trace.job_end)
        (end_error trace.job_end) 0 e (end_status-outcome trace.job_end h) in
    rw (go, dispatch) (rw e (rw f outcome))

-- A due window whose job is one of the collectors' is dispatched without an error: whether the
-- collector returns a summary, with whatever status text, or raises. If the window is claimed, it has an
-- outcome in the table afterwards.
pub dispatch-Dispatched :
    (t : Table) (name : String) (w : ℕ) (trace : Trace) (c : CollectorEnd)
    → Dispatched name w (dispatch t name w (record trace { job_end = collector_job c }))
unfolding dispatch
dispatch-Dispatched t name w trace c =
    let trace' : Trace = record trace { job_end = collector_job c } in
    elim (Bool-cases trace.stop_after_lock) [
      | inl e ↦ rw (e, dispatch) tt
      | inr e ↦
          (let (t', b, s) = start_returns t name w trace.started_at in
            claimed t t' name w trace' b (collector_job-EndsWell c) e s)
    ]
