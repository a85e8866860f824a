-- ===== src/Scheduler/Worker/Waiting.antt =====
-- The polling wait, and the mapping of a collector's status text.
use signal_observatory.Prelude.{
  ℕ, ◌+◌, ◌≤◌, ◌≡◌, ◌↔◌, refl, Bool, true, Option, none, some, List, [], ◌∷◌, String, eq_iff, leb,
  ok, arith, exists, Option-cases, inl, inr, not, ◌&&◌,
}
use signal_observatory.Scheduler.Row.{
  Status, scheduled, running, succeeded, partial, failed, missed, interrupted, is_outcome,
}
use signal_observatory.Scheduler.Worker.{
  Poll, wait_until_due, value, statuses, scheduler_status_for_collector, first_with,
}

-- A reading at which the wait ends with true.
abbrev pub is_due : ℕ → Poll → Bool
is_due due p = not p.stop_set && leb due p.clock

-- The wait that follows each clock reading: no longer than the poll interval, and over by the due
-- time.
abbrev pub Bounded : ℕ → ℕ → List Poll → List ℕ → Type 0
Bounded due poll ps [] = Unit
Bounded due poll [] (w ∷ ws) = ⊥
Bounded due poll (p ∷ ps) (w ∷ ws) = (p.clock + w ≤ due) × (w ≤ poll) × Bounded due poll ps ws

-- What a wait that ended guarantees.
pub record IsWait (ps : List Poll) (due poll : ℕ) (answer : Bool) (waits : List ℕ) : Type 0 where
  pub due_reached : answer ≡ true → exists (is_due due) ps ≡ true
  pub bounded : Bounded due poll ps waits

-- The job is released only after a clock reading at or past the due time with the stop event
-- unset; and every single wait is at most the poll interval and asks for no time past the due time.
pub wait_until_due-IsWait :
    (ps : List Poll) (due poll : ℕ) {answer : Bool} {waits : List ℕ}
    → wait_until_due ps due poll ≡ some (answer, waits)
    → IsWait ps due poll answer waits
unfolding wait_until_due
wait_until_due-IsWait [] due poll h = cc
wait_until_due-IsWait (p ∷ ps) due poll h = elim (Option-cases (wait_until_due ps due poll)) [
  | inl e ↦ record { due_reached = ground arith; bounded = ground arith }
  | inr (r, e) ↦
      (let ih = wait_until_due-IsWait ps due poll {answer = r.0} {waits = r.1} e in
        record {
          due_reached = ground (arith, ih.due_reached);
          bounded = ground (arith, ih.bounded);
        })
]

collector-value :
    (s : Status) → is_outcome s ≡ true → scheduler_status_for_collector (value s) ≡ ok s
unfolding scheduler_status_for_collector
collector-value succeeded h = refl
collector-value partial h = refl
collector-value failed h = refl
collector-value scheduled h = cc
collector-value running h = cc
collector-value missed h = cc
collector-value interrupted h = cc

first_with-value :
    (text : String) (ss : List Status) {s : Status} → first_with text ss ≡ some s → text ≡ value s
unfolding first_with
first_with-value text [] h = cc
first_with-value text (r ∷ ss) {s = s} h =
    ground (arith, eq_iff text (value r), first_with-value text ss {s = s})

-- A collector's status text is accepted as `s` exactly if `s` is succeeded, partial or failed and
-- the text is its value; every other text is refused.
scheduler_status_for_collector_iff :
    (text : String) (s : Status)
    → (scheduler_status_for_collector text ≡ ok s) ↔ ((is_outcome s ≡ true) × (text ≡ value s))
unfolding scheduler_status_for_collector
scheduler_status_for_collector_iff text s =
    (λ h. from_text h (first_with text statuses) refl, λ h. rw h.1 (collector-value s h.0))
  where
    from_text :
        scheduler_status_for_collector text ≡ ok s
        → (o : Option Status) → first_with text statuses ≡ o
        → (is_outcome s ≡ true) × (text ≡ value s)
    from_text h none e = ground arith
    from_text h (some r) e =
        let v : text ≡ value r = first_with-value text statuses e in ground arith
