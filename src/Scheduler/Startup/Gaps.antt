-- ===== src/Scheduler/Startup/Gaps.antt =====
-- After a start of the worker no due window is missing from the ledger, and none is unfinished.
use signal_observatory.Prelude.{
  ℕ, ◌≤◌, ◌<◌, ◌≡◌, refl, sym, ap, ◌∙◌, inl, inr, Bool, true, false, ◌||◌, some, List, [], ◌∷◌,
  ◌++◌, map, String, exists, arith, Bool-cases, ◌==◌, All, Member, ok,
}
use mathlib.Core.Bool.{false≢true}
use text.Mathlib.TextPositions.{eq_refl}
use signal_observatory.Text.{Text}
use signal_observatory.Cron.{Cron, parse_cron}
use signal_observatory.Cron.Next.{Matches}
use signal_observatory.Cron.Elapsed.{elapsed_cron_runs-AreWindows}
use signal_observatory.Scheduler.Ledger.{
  plan, reconcile, reported, order_rows, updated, planned_row, materialized_windows,
  ReconciledExecution,
}
use signal_observatory.Scheduler.Table.{exists-map, updated-Evolves}
use signal_observatory.Scheduler.Claims.{Settled, updated-All}
use signal_observatory.Scheduler.Startup.{is_known, plan_missing, plan_elapsed, startup}
use signal_observatory.Scheduler.Startup.Order.{
  NonDecreasing, known-materialized_windows, materialized_windows-NonDecreasing, first_le,
}
use signal_observatory.Cron.Elapsed.{Ascending}
use signal_observatory.Clock.{aware}
use signal_observatory.Scheduler.Row.{Table, same_window}

lt_of_le_lt : {a b c : ℕ} → a ≤ b → b < c → a < c
lt_of_le_lt p q = omega arith

module _ (job source : String) where
  abbrev at : ℕ → Table → Bool
  at w t = exists (same_window job w) t

  at-append :
      (u w : ℕ) (t : Table) → at u (t ++ (planned_row job source w [] ∷ [])) ≡ (at u t || w == u)
  at-append u w [] = rw (eq_refl job) (ground arith)
  at-append u w (r ∷ t) = ground (arith, at-append u w t)

  plan_new :
      (w : ℕ) (t : Table)
      → at w t ≡ false
      → plan t job source (aware w) [] ≡ ok (t ++ (planned_row job source w [] ∷ []), true)
  unfolding plan
  plan_new w t h = rw h

  -- The loop over the missing windows: what it returns, and which windows are there afterwards.
  record Fills (known ws : List ℕ) (t : Table) : Type 0 where
    table : Table
    returned : plan_missing t job source known ws ≡ ok table
    kept : (u : ℕ) → at u t ≡ true → at u table ≡ true
    filled : (u : ℕ) → Member u ws → at u table ≡ true

  module _ (known : List ℕ) where
    record AreKnown (lo : ℕ) (t : Table) : Type 0 where
      later : (u : ℕ) → lo < u → at u t ≡ true → is_known u known ≡ true
      there : (u : ℕ) → is_known u known ≡ true → at u t ≡ true

    AreKnown-later : (lo w : ℕ) (t : Table) → lo < w → AreKnown lo t → AreKnown w t
    AreKnown-later lo w t h k = record {
      later = λ u p q. k.later u (omega arith) q;
      there = k.there;
    }

    AreKnown-append :
        (lo w : ℕ) (t : Table)
        → lo < w
        → AreKnown lo t
        → AreKnown w (t ++ (planned_row job source w [] ∷ []))
    AreKnown-append lo w t h k = record {
      later = λ u p q. ground (arith, k.later u, at-append u w t);
      there = λ u q. ground (arith, k.there u q, at-append u w t);
    }

    not_there :
        (lo w : ℕ) (t : Table) → lo < w → AreKnown lo t → is_known w known ≡ false → at w t ≡ false
    not_there lo w t h k e = elim (Bool-cases (at w t)) [ inl p ↦ cc (k.later w h p) | inr p ↦ p ]

    plan_missing-Fills :
        (ws : List ℕ) (lo : ℕ) (t : Table) → Ascending lo ws → AreKnown lo t → Fills known ws t
    unfolding plan_missing
    plan_missing-Fills [] lo t a k = record {
      table = t;
      returned = refl;
      kept = λ u h. h;
      filled = λ u m. elim m [ ];
    }
    plan_missing-Fills (w ∷ ws) lo t a k = elim (Bool-cases (is_known w known)) [
      | inl e ↦
          (let rest = plan_missing-Fills ws w t a.1 (AreKnown-later lo w t a.0 k) in
            let here : at w rest.table ≡ true = rest.kept w (k.there w e) in
            record {
              table = rest.table;
              returned = rw (e, plan_missing) rest.returned;
              kept = rest.kept;
              filled = λ u m. elim m [ inl q ↦ rw q here | inr n ↦ rest.filled u n ];
            })
      | inr e ↦
          (let rest =
              plan_missing-Fills ws w (t ++ (planned_row job source w [] ∷ [])) a.1
                (AreKnown-append lo w t a.0 k) in
            let here : at w rest.table ≡ true = rest.kept w (ground (arith, at-append w w t)) in
            record {
              table = rest.table;
              returned =
                  rw (e, plan_missing) (rw (plan_new w t (not_there lo w t a.0 k e)) rest.returned);
              kept = λ u h. rest.kept u (ground (arith, at-append u w t));
              filled = λ u m. elim m [ inl q ↦ rw q here | inr n ↦ rest.filled u n ];
            })
    ]

  module _ (schedule : Text) (c : Cron) (now : ℕ) (parsed : parse_cron schedule ≡ ok c) where
    -- The planning step against the list of known windows.
    record Plans (known : List ℕ) (t : Table) : Type 0 where
      table : Table
      returned : plan_elapsed t job source schedule (aware now) known ≡ some (ok table)
      kept : (u : ℕ) → at u t ≡ true → at u table ≡ true
      filled : (u w : ℕ) → at u t ≡ true → u < w → w ≤ now → Matches c w → at w table ≡ true

    plan_elapsed-Plans :
        (known : List ℕ) (t : Table)
        → NonDecreasing 0 known
        → ((w : ℕ) → is_known w known ≡ at w t)
        → Plans known t
    unfolding plan_elapsed
    plan_elapsed-Plans [] t order same = record {
      table = t;
      returned = refl;
      kept = λ u h. h;
      filled = λ u w h. absurd (false≢true (same u ∙ h));
    }
    plan_elapsed-Plans (first ∷ rest) t order same =
        let (ws, e, windows) = elapsed_cron_runs-AreWindows schedule c first now parsed in
        let all_known : AreKnown (first ∷ rest) first t = record {
          later = λ u p q. same u ∙ q;
          there = λ u q. sym (same u) ∙ q;
        } in
        let fills = plan_missing-Fills (first ∷ rest) ws first t windows.ascending all_known in
        record {
          table = fills.table;
          returned = rw (e, plan_elapsed) (ap some fills.returned);
          kept = fills.kept;
          filled = λ u w h lt le m.
              fills.filled w (
                windows.complete w (lt_of_le_lt (first_le u first rest order (same u ∙ h)) lt) le
                  m);
        }

    -- A start of the worker with a valid schedule succeeds. Afterwards every row's window is still
    -- there, every window of the schedule after a known one and up to now has a row, and of the job's
    -- rows none is running and none is still scheduled for a time that has passed.
    pub startup-NoGaps :
        (t : Table)
        → (t' : Table) × (rep : List ReconciledExecution) × (startup t job source schedule
              (aware now)
            ≡ some (ok (t', rep)))
          × ((u : ℕ) → at u t ≡ true → at u t' ≡ true)
          × ((u w : ℕ) → at u t ≡ true → u < w → w ≤ now → Matches c w → at w t' ≡ true)
          × All (Settled job now) t'
    unfolding startup reconcile
    startup-NoGaps t =
        let p =
          plan_elapsed-Plans (materialized_windows t job) t
            (materialized_windows-NonDecreasing job t) (λ w. known-materialized_windows w job t) in
        let stays : (u : ℕ) → at u (map (updated job now) p.table) ≡ at u p.table =
          λ u. exists-map (updated job now) (updated-Evolves job now now) job u p.table in
        (
          map (updated job now) p.table,
          reported job now (order_rows p.table),
          rw (p.returned, startup),
          λ u h. stays u ∙ p.kept u h,
          λ u w h lt le m. stays w ∙ p.filled u w h lt le m,
          updated-All job now p.table,
        )
