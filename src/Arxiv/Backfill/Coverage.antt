-- ===== src/Arxiv/Backfill/Coverage.antt =====
-- A backfill leaves no part of its range out.
use signal_observatory.Prelude.{
  ℕ, ◌≤◌, ◌≡◌, refl, Bool, true, false, List, [], ◌∷◌, ◌++◌, arith, All, All-append, All-mono,
}
use mathlib.Core.List.{append_assoc, append-nil}
use signal_observatory.Errors.{Error}
use signal_observatory.Arxiv.Window.{QueryWindow}
use signal_observatory.Arxiv.Window.Tiling.{Tiles, split_window-Tiles}
use signal_observatory.Arxiv.State.{CursorStatus, Cursor, Accumulator, Round}
use signal_observatory.Arxiv.Collect.{
  Mode, ended, split, raises_error, starved, End, Job, collect_window,
}
use signal_observatory.Arxiv.Collect.Budget.{Keeps, collect_window-Keeps}
use signal_observatory.Arxiv.Incremental.{Parts, part_cursor, save_part}
use signal_observatory.Arxiv.Incremental.Partitions.{replace_child}
use signal_observatory.Arxiv.Backfill.{
  recorded, WindowStep, go_on, leave_forbidden, out_of_trace, after_window, collect_pending_window,
  PendingEnd, all_windows, met_forbidden, no_trace, collect_pending,
}

abbrev pub is_pending : CursorStatus → Bool
is_pending CursorStatus.pending = true
is_pending _ = false

-- The window has a cursor, and its status says what became of it.
abbrev pub Resolved : Parts → QueryWindow → Type 0
Resolved cursors w = is_pending (part_cursor cursors w).status ≡ false

save_part-Resolved :
    (cursors : Parts) (w v : QueryWindow) (c : Cursor)
    → is_pending c.status ≡ false
    → Resolved cursors v
    → Resolved (save_part cursors w c) v
save_part-Resolved [] w v c h r = ground arith
save_part-Resolved ((u, d) ∷ cursors) w v c h r = ground (arith, save_part-Resolved cursors w v c h)

saved-Resolved :
    (cursors : Parts) (w : QueryWindow) (c : Cursor)
    → is_pending c.status ≡ false
    → Resolved (save_part cursors w c) w
saved-Resolved [] w c h = ground arith
saved-Resolved ((u, d) ∷ cursors) w c h = ground (arith, saved-Resolved cursors w c h)

-- `done` and the pending windows tile the range, and each window in `done` is resolved.
record IsProgress (lo hi : ℕ) (done pending : List QueryWindow) (cursors : Parts) : Type 0 where
  tiles : Tiles lo hi (done ++ pending)
  resolved : All (Resolved cursors) done

abbrev StepCovers : ℕ → ℕ → WindowStep → Type 0
StepCovers lo hi (go_on pending cursors acc) =
    (done : List QueryWindow) × IsProgress lo hi done pending cursors
StepCovers lo hi _ = Unit

-- The range is tiled by windows that are all resolved.
abbrev pub Covered : ℕ → ℕ → Parts → Type 0
Covered lo hi cursors = (ws : List QueryWindow) × Tiles lo hi ws × All (Resolved cursors) ws

abbrev pub Covers : ℕ → ℕ → PendingEnd × Parts × Accumulator → Type 0
Covers lo hi (all_windows, cursors, acc) = Covered lo hi cursors
Covers lo hi (_, cursors, acc) = Unit

module _ (lo hi : ℕ) (w : QueryWindow) (done rest : List QueryWindow) (cursors : Parts)
    (p : IsProgress lo hi done (w ∷ rest) cursors) where
  finished_window :
      (c : Cursor)
      → is_pending c.status ≡ false
      → IsProgress lo hi (done ++ (w ∷ [])) rest (save_part cursors w c)
  finished_window c h = record {
    tiles = rw (append_assoc done (w ∷ []) rest) p.tiles;
    resolved =
        All-append (Resolved (save_part cursors w c)) done (w ∷ [])
          (All-mono (Resolved cursors) (Resolved (save_part cursors w c)) done
            (λ v r. save_part-Resolved cursors w v c h r) p.resolved)
          (saved-Resolved cursors w c h, tt);
  }

  after_window-Covers :
      (job : Job) (acc : Accumulator) (end : End)
      → 1 ≤ job.settings.min_partition_minutes
      → job.window ≡ w
      → Keeps job acc end
      → StepCovers lo hi (after_window rest (save_part cursors w (recorded end)) end)
  unfolding after_window
  after_window-Covers job acc (ended s, c, acc') min e k =
      (done ++ (w ∷ []), finished_window c (ground (arith, k.agrees)))
  after_window-Covers job acc (split a b, c, acc') min e k =
      let s =
        (split_window-Tiles job.settings.min_partition_minutes job.window {a = a} {b = b} min
          k.agrees.1).0 in
      (
        done,
        record {
          tiles = replace_child lo hi done rest w a b p.tiles (rw (← e) s);
          resolved =
              All-mono (Resolved cursors) (Resolved (save_part cursors w c)) done
                (λ v r. save_part-Resolved cursors w v c (ground (arith, k.agrees)) r) p.resolved;
        },
      )
  after_window-Covers job acc (raises_error Error.forbidden, c, acc') min e k = tt
  after_window-Covers job acc (raises_error x, c, acc') min e k =
      (done ++ (w ∷ []), finished_window (recorded (raises_error x, c, acc')) refl)
  after_window-Covers job acc (starved, c, acc') min e k = tt

module _ (lo hi : ℕ) where
  collect_pending_from :
      (traces : List (List Round)) (job : Job) (done pending : List QueryWindow) (cursors : Parts)
      (acc : Accumulator)
      → 1 ≤ job.settings.min_partition_minutes
      → IsProgress lo hi done pending cursors
      → Covers lo hi (collect_pending job pending cursors acc traces)
  unfolding collect_pending collect_pending_window
  collect_pending_from traces job done [] cursors acc min p =
      (done, rw (append-nil done) at p.tiles, p.resolved)
  collect_pending_from [] job done (w ∷ rest) cursors acc min p = tt
  collect_pending_from (trace ∷ traces) job done (w ∷ rest) cursors acc min p =
      next (collect_pending_window job w rest cursors acc trace) one
        (λ pending' cursors' acc' done'.
          collect_pending_from traces job done' pending' cursors' acc' min)
    where
      one : StepCovers lo hi (collect_pending_window job w rest cursors acc trace)
      one =
          let job' : Job = record job { window = w } in
          after_window-Covers lo hi w done rest cursors p job' acc
            (collect_window Mode.backfill job' (part_cursor cursors w) acc trace) min refl
            (collect_window-Keeps Mode.backfill job' (part_cursor cursors w) acc trace)

      next :
          (r : WindowStep)
          → StepCovers lo hi r
          → ((pending' : List QueryWindow) (cursors' : Parts) (acc' : Accumulator)
                (done' : List QueryWindow)
              → IsProgress lo hi done' pending' cursors'
              → Covers lo hi (collect_pending job pending' cursors' acc' traces))
          → Covers lo hi (elim r [
            | go_on pending' cursors' acc' ↦ collect_pending job pending' cursors' acc' traces
            | leave_forbidden cursors' acc' ↦ (met_forbidden, cursors', acc')
            | out_of_trace cursors' acc' ↦ (no_trace, cursors', acc')
          ])
      next (go_on pending' cursors' acc') k ih = ih pending' cursors' acc' k.0 k.1
      next (leave_forbidden cursors' acc') k ih = tt
      next (out_of_trace cursors' acc') k ih = tt

  -- The loop over the windows of one mapping leaves no gap: if the windows tile the range at the
  -- start and the loop ends without a 403, then the range is tiled by windows, the split ones
  -- replaced by their halves, each of which has a cursor that is no longer pending.
  pub collect_pending-Covers :
      (traces : List (List Round)) (job : Job) (windows : List QueryWindow) (cursors : Parts)
      (acc : Accumulator)
      → 1 ≤ job.settings.min_partition_minutes
      → Tiles lo hi windows
      → Covers lo hi (collect_pending job windows cursors acc traces)
  collect_pending-Covers traces job windows cursors acc min t =
      collect_pending_from traces job [] windows cursors acc min
        (record { tiles = t; resolved = tt })
