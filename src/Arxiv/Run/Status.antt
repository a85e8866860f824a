-- ===== src/Arxiv/Run/Status.antt =====
-- The request limit over a whole run, and what the terminal status says.
use signal_observatory.Prelude.{
  refl, ℕ, ◌≤◌, ◌<◌, ◌≡◌, ◌↔◌, false, Option, List, [], ◌∷◌, arith, inl, inr, Option-cases,
  Bool-cases, leb,
}
use signal_observatory.Arxiv.Window.{QueryWindow}
use signal_observatory.Arxiv.State.{
  Settings, Cursor, CursorStatus, Partition, Accumulator, Round, large_query_partition,
}
use signal_observatory.Arxiv.Collect.{
  incremental, incremental_part, ended, split, raises_error, starved, End, Job, collect_window,
}
use signal_observatory.Arxiv.Collect.Budget.{Keeps, collect_window-Keeps}
use signal_observatory.Arxiv.Incremental.{
  partition_checkpoint, Parts, MappingEnd, PartPass, next_part, done, after_part, collect_part,
  collect_parts, save_parent, part_cursor, collect_root, after_root, collect_mapping,
  root_partition, incremental_window,
}
use signal_observatory.Arxiv.Run.{
  Mapping, succeeded, failed, terminal_status, after_mapping, run_mapping, run_mappings, collect,
  mapping_job, new_accumulator,
}

-- A run succeeds exactly if no mapping raised and nothing stopped it early; it fails exactly if
-- mappings raised and none succeeded.
pub terminal_status_iff :
    (acc : Accumulator)
    → ((terminal_status acc ≡ succeeded)
        ↔ ((acc.errors ≡ 0) × (acc.stopped_by_safety_limit ≡ false)))
      × ((terminal_status acc ≡ failed) ↔ ((0 < acc.errors) × (acc.successful_windows ≡ 0)))
unfolding terminal_status
terminal_status_iff acc =
    ((λ h. ground arith, λ h. ground arith), (λ h. ground arith, λ h. ground arith))

-- The calls of the transport are those that were counted, and not more than a run may make.
abbrev pub Within : Settings → Accumulator → Type 0
Within s acc =
    (acc.transport_calls ≡ acc.api_requests) × (acc.transport_calls ≤ s.max_requests_per_run)

pub Keeps-Within :
    (job : Job) (acc : Accumulator) (end : End)
    → Within job.settings acc
    → Keeps job acc end
    → Within job.settings end.2
Keeps-Within job acc end h k =
    (omega (arith, h.0, k.calls), omega (arith, h.0, h.1, k.calls, k.within))

module _ (job : Job) where
  abbrev In : Accumulator → Type 0
  In acc = Within job.settings acc

  abbrev InPass : PartPass → Type 0
  InPass (next_part p parts acc) = In acc
  InPass (done end) = In end.3

  after_part-In :
      (child : QueryWindow) (rest : List QueryWindow) (parent : Cursor) (p : Partition)
      (parts : Parts) (end : End)
      → In end.2
      → InPass (after_part child rest parent p parts end)
  unfolding after_part
  after_part-In child rest parent p parts (ended CursorStatus.succeeded, c, acc) h = h
  after_part-In child rest parent p parts (ended _, c, acc) h = h
  after_part-In child rest parent p parts (split a b, c, acc) h = h
  after_part-In child rest parent p parts (raises_error e, c, acc) h = h
  after_part-In child rest parent p parts (starved, c, acc) h = h

  collect_part-In :
      (child : QueryWindow) (rest : List QueryWindow) (parent : Cursor) (p : Partition)
      (parts : Parts) (acc : Accumulator) (rounds : List Round)
      → In acc
      → InPass (collect_part job child rest parent p parts acc rounds)
  unfolding collect_part
  collect_part-In child rest parent p parts acc rounds h =
      elim (Bool-cases (leb child.window_until child.window_from)) [
        | inl bad ↦ rw bad h
        | inr good ↦
            let job' : Job = record job { window = child } in
            rw good (
              after_part-In child rest parent p parts
                (collect_window incremental_part job' (part_cursor parts child) acc rounds)
                (Keeps-Within job' acc
                  (collect_window incremental_part job' (part_cursor parts child) acc rounds) h
                  (collect_window-Keeps incremental_part job' (part_cursor parts child) acc
                    rounds)))
      ]

  collect_parts-In :
      (traces : List (List Round)) (parent : Cursor) (pend : List QueryWindow) (p : Partition)
      (parts : Parts) (acc : Accumulator)
      → In acc
      → In (collect_parts job parent pend p parts acc traces).3
  unfolding collect_parts
  collect_parts-In traces parent [] p parts acc h = h
  collect_parts-In [] parent (child ∷ rest) p parts acc h = h
  collect_parts-In (trace ∷ traces) parent (child ∷ rest) p parts acc h =
      next (collect_part job child rest parent p parts acc trace)
        (collect_part-In child rest parent p parts acc trace h)
        (λ p' parts' acc'.
          collect_parts-In traces (save_parent parent p' large_query_partition) p'.pending p' parts'
            acc')
    where
      next :
          (r : PartPass)
          → InPass r
          → ((p' : Partition) (parts' : Parts) (acc' : Accumulator)
              → In acc'
              → In
                  (collect_parts job
                    (save_parent parent p' large_query_partition)
                    p'.pending
                    p'
                    parts'
                    acc'
                    traces).3)
          → In (
              let end : MappingEnd = elim r [
                | done end ↦ end
                | next_part p' parts' acc' ↦
                    collect_parts job
                      (save_parent parent p' large_query_partition)
                      p'.pending
                      p'
                      parts'
                      acc'
                      traces
              ] in
              end.3)
      next (next_part p' parts' acc') k ih = ih p' parts' acc' k
      next (done end) k ih = k

  after_root-In :
      (parts : Parts) (end : End) (traces : List (List Round))
      → In end.2
      → In (after_root job parts end traces).3
  unfolding after_root
  after_root-In parts (split a b, parent, acc) traces h =
      let p = root_partition job.window a b in
      collect_parts-In traces (save_parent parent p large_query_partition) (a ∷ b ∷ []) p parts acc
        h
  after_root-In parts (ended st, parent, acc) traces h = h
  after_root-In parts (raises_error e, parent, acc) traces h = h
  after_root-In parts (starved, parent, acc) traces h = h

  collect_root-In :
      (parent : Cursor) (parts : Parts) (acc : Accumulator) (traces : List (List Round))
      → In acc
      → In (collect_root job parent parts acc traces).3
  unfolding collect_root
  collect_root-In parent parts acc [] h = h
  collect_root-In parent parts acc (trace ∷ traces) h =
      after_root-In parts (collect_window incremental job parent acc trace) traces (
        Keeps-Within job acc (collect_window incremental job parent acc trace) h
          (collect_window-Keeps incremental job parent acc trace))

  collect_mapping-In :
      (parent : Cursor) (parts : Parts) (acc : Accumulator) (traces : List (List Round))
      → In acc
      → In (collect_mapping job parent parts acc traces).3
  unfolding collect_mapping
  collect_mapping-In parent parts acc traces h =
      elim (Option-cases (partition_checkpoint parent.partition job.window)) [
        | inl e ↦ rw (e, collect_mapping) (collect_root-In parent parts acc traces h)
        | inr (p, e) ↦
            rw (e, collect_mapping) (collect_parts-In traces parent p.pending p parts acc h)
      ]

module _ (s : Settings) (page_size : ℕ) (page_limit : Option ℕ) (observed : ℕ) where
  after_mapping-Within : (end : MappingEnd) → Within s end.3 → Within s (after_mapping s end).acc
  unfolding after_mapping
  after_mapping-Within (ended CursorStatus.succeeded, c, ps, acc) h = ground arith
  after_mapping-Within (ended _, c, ps, acc) h = ground arith
  after_mapping-Within (split a b, c, ps, acc) h = ground arith
  after_mapping-Within (raises_error e, c, ps, acc) h = h
  after_mapping-Within (starved, c, ps, acc) h = h

  run_mapping-Within :
      (m : Mapping) (acc : Accumulator)
      → Within s acc
      → Within s (run_mapping s page_size page_limit observed m acc).acc
  unfolding run_mapping
  run_mapping-Within m acc h =
      let (w, cursor) = incremental_window s m.cursor observed in
      let job = mapping_job s page_size page_limit observed m.topic w in
      after_mapping-Within (collect_mapping job cursor m.parts acc m.traces)
        (collect_mapping-In job cursor m.parts acc m.traces h)

  run_mappings-Within :
      (ms : List Mapping) (acc : Accumulator)
      → Within s acc
      → Within s (run_mappings s page_size page_limit observed ms acc).1
  unfolding run_mappings
  run_mappings-Within [] acc h = h
  run_mappings-Within (m ∷ ms) acc h =
      let one = run_mapping-Within m acc h in
      let rest =
        run_mappings-Within ms (run_mapping s page_size page_limit observed m acc).acc one in
      ground arith

  -- A whole run, over all mappings, parts, pages and retries, calls the transport at most as often as
  -- the settings allow requests, and counts each call, however the API answers.
  pub collect-Within : (ms : List Mapping) → Within s (collect s page_size page_limit observed ms).1
  unfolding collect
  collect-Within ms = run_mappings-Within ms new_accumulator (refl, omega arith)
