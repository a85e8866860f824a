-- ===== src/Arxiv/Backfill/Limits.antt =====
-- A backfill keeps the run's request limit.
use signal_observatory.Prelude.{
  Result, err, none, Option-cases, Bool-cases, inl, inr, Bool, true, if◌then◌else◌, ℕ, ◌≤◌, ◌<◌,
  ◌≡◌, refl, false, Option, some, List, [], ◌∷◌, arith, ok, leb,
}
use signal_observatory.Errors.{Error}
use signal_observatory.Clock.{Datetime, aware, naive}
use signal_observatory.Arxiv.Window.{QueryWindow, window, partition_windows}
use signal_observatory.Arxiv.Window.Tiling.{partition_windows-Tiles}
use signal_observatory.Arxiv.State.{Settings, CursorStatus, Accumulator, Round}
use signal_observatory.Arxiv.Collect.{
  Mode, ended, split, raises_error, starved, End, Job, collect_window,
}
use signal_observatory.Arxiv.Collect.Budget.{collect_window-Keeps}
use signal_observatory.Arxiv.Incremental.{Parts, part_cursor, save_part}
use signal_observatory.Arxiv.Run.{new_accumulator, mapping_job}
use signal_observatory.Arxiv.Run.Status.{Within, Keeps-Within}
use signal_observatory.Arxiv.Backfill.{
  Setup, recorded, range, run_end, BackfillEnd, dry_run, unfinished, backfill_windows,
  BackfillMapping, WindowStep, go_on, leave_forbidden, out_of_trace, after_window,
  collect_pending_window, PendingEnd, all_windows, met_forbidden, no_trace, collect_pending,
  after_pending, backfill_mapping, backfill_mappings, ran, backfill,
}

abbrev StepWithin : Settings → WindowStep → Type 0
StepWithin s (go_on ws ps acc) = Within s acc
StepWithin s (leave_forbidden ps acc) = Within s acc
StepWithin s (out_of_trace ps acc) = Within s acc

module _ (s : Settings) where
  after_window-Within :
      (pending : List QueryWindow) (cursors : Parts) (end : End)
      → Within s end.2
      → StepWithin s (after_window pending cursors end)
  unfolding after_window
  after_window-Within pending cursors (ended CursorStatus.succeeded, c, acc) h = h
  after_window-Within pending cursors (ended _, c, acc) h = h
  after_window-Within pending cursors (split a b, c, acc) h = h
  after_window-Within pending cursors (raises_error Error.forbidden, c, acc) h = h
  after_window-Within pending cursors (raises_error _, c, acc) h = h
  after_window-Within pending cursors (starved, c, acc) h = h

  after_pending-Within :
      (end : PendingEnd × Parts × Accumulator) → Within s end.2 → Within s (after_pending s end).1
  unfolding after_pending
  after_pending-Within (met_forbidden, ps, acc) h = h
  after_pending-Within (all_windows, ps, acc) h = ground arith
  after_pending-Within (no_trace, ps, acc) h = h

collect_pending-Within :
    (traces : List (List Round)) (job : Job) (ws : List QueryWindow) (cursors : Parts)
    (acc : Accumulator)
    → Within job.settings acc
    → Within job.settings (collect_pending job ws cursors acc traces).2
unfolding collect_pending collect_pending_window
collect_pending-Within traces job [] cursors acc h = h
collect_pending-Within [] job (w ∷ ws) cursors acc h = h
collect_pending-Within (trace ∷ traces) job (w ∷ ws) cursors acc h =
    next (collect_pending_window job w ws cursors acc trace) one
      (λ ws' ps acc'. collect_pending-Within traces job ws' ps acc')
  where
    job' : Job
    job' = record job { window = w }

    one : StepWithin job.settings (collect_pending_window job w ws cursors acc trace)
    one =
        let end = collect_window Mode.backfill job' (part_cursor cursors w) acc trace in
        after_window-Within job.settings ws (save_part cursors w (recorded end)) end (
          Keeps-Within job' acc end h
            (collect_window-Keeps Mode.backfill job' (part_cursor cursors w) acc trace))

    next :
        (r : WindowStep)
        → StepWithin job.settings r
        → ((ws' : List QueryWindow) (ps : Parts) (acc' : Accumulator)
            → Within job.settings acc'
            → Within job.settings (collect_pending job ws' ps acc' traces).2)
        → Within job.settings (
            let end : PendingEnd × Parts × Accumulator = elim r [
              | go_on ws' ps acc' ↦ collect_pending job ws' ps acc' traces
              | leave_forbidden ps acc' ↦ (met_forbidden, ps, acc')
              | out_of_trace ps acc' ↦ (no_trace, ps, acc')
            ] in
            end.2)
    next (go_on ws' ps acc') k ih = ih ws' ps acc' k
    next (leave_forbidden ps acc') k ih = k
    next (out_of_trace ps acc') k ih = k

module _ (s : Settings) (page_size : ℕ) (page_limit : Option ℕ) (observed : ℕ) (whole : QueryWindow)
    (windows : List QueryWindow) where
  abbrev RunWithin : Bool × List Parts × Accumulator → Type 0
  RunWithin (traced, cursors, acc) = Within s acc

  chosen_Within :
      (continues a b : Bool) (x y : List Parts) (acc acc' : Accumulator)
      → Within s acc
      → Within s acc'
      → RunWithin (if continues then (a, x, acc) else (b, y, acc'))
  chosen_Within true a b x y acc acc' h k = h
  chosen_Within false a b x y acc acc' h k = k

  backfill_mappings-Within :
      (ms : List BackfillMapping) (acc : Accumulator)
      → Within s acc
      → RunWithin (backfill_mappings s page_size page_limit observed whole windows ms acc)
  unfolding backfill_mappings backfill_mapping
  backfill_mappings-Within [] acc h = h
  backfill_mappings-Within (m ∷ ms) acc h =
      let job = mapping_job s page_size page_limit observed m.topic whole in
      let end = collect_pending job windows m.cursors acc m.traces in
      let one =
        after_pending-Within s end (collect_pending-Within m.traces job windows m.cursors acc h) in
      let rest = backfill_mappings-Within ms (after_pending s end).1 one in
      elim (Bool-cases m.over_time) [
        | inl e ↦ rw (e, backfill_mappings) h
        | inr e ↦
            rw (e, backfill_mappings)
              (chosen_Within (after_pending s end).0 _ _ _ _ _ (after_pending s end).1 rest one)
      ]

-- How a call may end; it is never the fuel that ends it.
abbrev pub EndsWithin : Settings → Option (Result Error BackfillEnd) → Type 0
EndsWithin s none = ⊥
EndsWithin s (some (err e)) = Unit
EndsWithin s (some (ok (dry_run windows))) = Unit
EndsWithin s (some (ok (ran cursors acc status))) = Within s acc
EndsWithin s (some (ok (unfinished cursors acc))) = Within s acc

run_end-EndsWithin :
    (s : Settings) (r : Bool × List Parts × Accumulator)
    → RunWithin s 0 none 0 (window 0 0) [] r
    → EndsWithin s (some (ok (run_end r)))
run_end-EndsWithin s (true, cursors, acc) h = h
run_end-EndsWithin s (false, cursors, acc) h = h

windows-EndsWithin :
    (s : Settings) (page_size : ℕ) (page_limit : Option ℕ) (observed : ℕ) (setup : Setup)
    (whole : QueryWindow) (ms : List BackfillMapping) (dry : Bool)
    (windows : Result Error (List QueryWindow))
    → EndsWithin s
        (some (backfill_windows s page_size page_limit observed setup whole ms dry windows))
unfolding backfill_windows
windows-EndsWithin s page_size page_limit observed setup whole ms dry (err e) = tt
windows-EndsWithin s page_size page_limit observed setup whole ms true (ok ws) = tt
windows-EndsWithin s page_size page_limit observed setup whole ms false (ok ws) =
    elim (Option-cases setup.started) [
      | inr (x, e) ↦ rw (e, backfill_windows) tt
      | inl e ↦
          rw (e, backfill_windows)
            (run_end-EndsWithin s
              (backfill_mappings s page_size page_limit observed whole ws ms new_accumulator)
              (backfill_mappings-Within s page_size page_limit observed whole ws ms new_accumulator
                (refl, omega arith)))
    ]

ok_window : (a b : QueryWindow) → ◌≡◌ {A = Result Error QueryWindow} (ok a) (ok b) → a ≡ b
ok_window a b h = cc

proper_range :
    (setup : Setup) (from until : Datetime) (whole : QueryWindow)
    → range setup from until ≡ ok whole
    → whole.window_from < whole.window_until
unfolding range
proper_range setup (naive a) until whole e = cc
proper_range setup (aware a) (naive b) whole e = cc
proper_range setup (aware a) (aware b) whole e = elim (Bool-cases (leb b a)) [
  | inl q ↦ let bad = rw (q, range) at e in cc
  | inr q ↦
      let e' = rw (q, range) at e in
      elim (Option-cases setup.prepared) [
        | inr (x, f) ↦ let bad = rw (f, range) at e' in cc
        | inl f ↦
            let same = ok_window (window a b) whole (rw (f, range) at e') in
            rw (← same) (ground (arith, q))
      ]
]

-- With at least one day per window, whatever a backfill call is given and however the API answers: the
-- partition of its range comes to an end, and the run that it makes, finished or not, has called the
-- transport at most as often as the settings allow requests, and has counted each call.
pub backfill-EndsWithin :
    (s : Settings) (days page_size : ℕ) (page_limit : Option ℕ) (observed : ℕ) (setup : Setup)
    (from until : Datetime) (dry : Bool) (ms : List BackfillMapping)
    → 1 ≤ days
    → EndsWithin s (backfill s days page_size page_limit observed setup from until dry ms)
unfolding backfill
backfill-EndsWithin s days page_size page_limit observed setup from until dry ms h =
    ranged (range setup from until) (proper_range setup from until)
  where
    ranged :
        (r : Result Error QueryWindow)
        → ((whole : QueryWindow) → r ≡ ok whole → whole.window_from < whole.window_until)
        → EndsWithin s (elim r [
          | err e ↦ some (err e)
          | ok whole ↦ elim (partition_windows whole.window_from whole.window_until days) [
            | none ↦ none
            | some windows ↦
                some (backfill_windows s page_size page_limit observed setup whole ms dry windows)
          ]
        ])
    ranged (err e) proper = tt
    ranged (ok whole) proper =
        let lt = proper whole refl in
        let (ws, r, t, a) =
          partition_windows-Tiles whole.window_from whole.window_until days (omega (arith, lt)) h in
        rw r (windows-EndsWithin s page_size page_limit observed setup whole ms dry (ok ws))
