-- ===== src/Arxiv/Incremental/Partitions.antt =====
-- The partition in the parent's checkpoint always tiles the root window, and the parent succeeds
-- only when every part has.
use signal_observatory.Prelude.{
  ℕ, ◌≤◌, ◌≡◌, refl, ◌∙◌, Option, none, some, List, [], ◌∷◌, ◌++◌, arith, inl, inr, Bool-cases, leb,
}
use mathlib.Core.List.{append_assoc, append-nil}
use signal_observatory.Arxiv.Window.{QueryWindow}
use signal_observatory.Arxiv.Window.Tiling.{Tiles, Tiles-append, Tiles-parts, split_window-Tiles}
use signal_observatory.Arxiv.State.{
  Cursor, succeeded, partial, Partition, Accumulator, Round, large_query_partition,
}
use signal_observatory.Arxiv.Collect.{
  incremental, incremental_part, ended, split, raises_error, starved, End, Job, collect_window,
}
use signal_observatory.Arxiv.Collect.Budget.{Keeps, collect_window-Keeps}
use signal_observatory.Arxiv.Incremental.{
  partition_checkpoint, Parts, MappingEnd, PartPass, next_part, done, after_part, collect_part,
  collect_parts, save_parent, part_cursor, collect_root, after_root, collect_mapping,
  root_partition,
}

-- The finished windows and then the pending ones tile the root.
pub record IsPartition (w : QueryWindow) (p : Partition) : Type 0 where
  pub root : (p.root_from ≡ w.window_from) × (p.root_until ≡ w.window_until)
  pub tiles : Tiles w.window_from w.window_until (p.completed ++ p.pending)

-- A checkpoint is there, and it tiles the root.
abbrev pub HasPartition : QueryWindow → Option Partition → Type 0
HasPartition w none = ⊥
HasPartition w (some p) = IsPartition w p

-- A success of the parent: nothing is pending, and the finished windows tile the root.
pub record IsComplete (w : QueryWindow) (parent : Cursor) (p : Partition) : Type 0 where
  pub stored : parent.partition ≡ some p
  pub nothing_pending : p.pending ≡ []
  pub tiled : Tiles w.window_from w.window_until p.completed
  pub status : parent.status ≡ succeeded
  pub query_until : parent.last_query_until ≡ some w.window_until

abbrev pub Sound : QueryWindow → MappingEnd → Type 0
Sound w (ended succeeded, parent, parts, acc) = (p : Partition) × IsComplete w parent p
Sound w (_, parent, parts, acc) = HasPartition w parent.partition

-- A window within a tiling may be replaced by two that tile it.
pub replace_child :
    (lo hi : ℕ) (xs ys : List QueryWindow) (c a b : QueryWindow)
    → Tiles lo hi (xs ++ (c ∷ ys))
    → Tiles c.window_from c.window_until (a ∷ b ∷ [])
    → Tiles lo hi (xs ++ (a ∷ b ∷ ys))
replace_child lo hi xs ys c a b t s =
    let (mid, before, at_child) = Tiles-parts lo hi xs (c ∷ ys) t in
    Tiles-append lo hi xs (a ∷ b ∷ ys) mid before
      (s.0 ∙ at_child.0, s.1, (s.2.0, s.2.1, rw s.2.2 at_child.2))

-- What a pass keeps.
abbrev SoundPass : QueryWindow → PartPass → Type 0
SoundPass w (next_part p parts acc) = IsPartition w p
SoundPass w (done (ended succeeded, parent, parts, acc)) = ⊥
SoundPass w (done (_, parent, parts, acc)) = HasPartition w parent.partition

module _ (w : QueryWindow) (child : QueryWindow) (rest : List QueryWindow) (parent : Cursor) where
  after_part-Sound :
      (job : Job) (acc : Accumulator) (p : Partition) (parts : Parts) (end : End)
      → 1 ≤ job.settings.min_partition_minutes
      → job.window ≡ child
      → p.pending ≡ child ∷ rest
      → IsPartition w p
      → HasPartition w parent.partition
      → Keeps job acc end
      → SoundPass w (after_part child rest parent p parts end)
  unfolding after_part
  after_part-Sound job acc p parts (ended succeeded, c, acc') min e q valid old k = record {
    root = valid.root;
    tiles = rw (append_assoc p.completed (child ∷ []) rest) (rw (← q) valid.tiles);
  }
  after_part-Sound job acc p parts (ended partial, c, acc') min e q valid old k = valid
  after_part-Sound job acc p parts (ended _, c, acc') min e q valid old k = valid
  after_part-Sound job acc p parts (split a b, c, acc') min e q valid old k =
      let s =
        (split_window-Tiles job.settings.min_partition_minutes job.window {a = a} {b = b} min
          k.agrees.1).0 in
      record {
        root = valid.root;
        tiles =
            replace_child w.window_from w.window_until p.completed rest child a b
              (rw (← q) valid.tiles) (rw (← e) s);
      }
  after_part-Sound job acc p parts (raises_error x, c, acc') min e q valid old k = old
  after_part-Sound job acc p parts (starved, c, acc') min e q valid old k = old

collect_part-Sound :
    (job : Job) (child : QueryWindow) (rest : List QueryWindow) (parent : Cursor) (p : Partition)
    (parts : Parts) (acc : Accumulator) (rounds : List Round)
    → 1 ≤ job.settings.min_partition_minutes
    → p.pending ≡ child ∷ rest
    → IsPartition job.window p
    → HasPartition job.window parent.partition
    → SoundPass job.window (collect_part job child rest parent p parts acc rounds)
unfolding collect_part
collect_part-Sound job child rest parent p parts acc rounds min q valid old =
    elim (Bool-cases (leb child.window_until child.window_from)) [
      | inl bad ↦ rw bad old
      | inr good ↦
          let job' : Job = record job { window = child } in
          rw good (
            after_part-Sound job.window child rest parent job' acc p parts
              (collect_window incremental_part job' (part_cursor parts child) acc rounds) min refl q
              valid old
              (collect_window-Keeps incremental_part job' (part_cursor parts child) acc rounds))
    ]

append-nil-pending :
    (p : Partition) (w : QueryWindow)
    → p.pending ≡ []
    → IsPartition w p
    → Tiles w.window_from w.window_until p.completed
append-nil-pending p w e v = rw (← append-nil p.completed) (rw (← e) v.tiles)

collect_parts-Sound :
    (traces : List (List Round)) (job : Job) (parent : Cursor) (pend : List QueryWindow)
    (p : Partition) (parts : Parts) (acc : Accumulator)
    → 1 ≤ job.settings.min_partition_minutes
    → p.pending ≡ pend
    → IsPartition job.window p
    → HasPartition job.window parent.partition
    → Sound job.window (collect_parts job parent pend p parts acc traces)
unfolding collect_parts
collect_parts-Sound traces job parent [] p parts acc min q valid old = (
  p,
  record {
    stored = refl;
    nothing_pending = q;
    tiled = append-nil-pending p job.window q valid;
    status = refl;
    query_until = refl;
  },
)
collect_parts-Sound [] job parent (child ∷ rest) p parts acc min q valid old = old
collect_parts-Sound (trace ∷ traces) job parent (child ∷ rest) p parts acc min q valid old =
    next (collect_part job child rest parent p parts acc trace)
      (collect_part-Sound job child rest parent p parts acc trace min q valid old)
      (λ p' parts' acc' valid'.
        collect_parts-Sound traces job (save_parent parent p' large_query_partition) p'.pending p'
          parts' acc' min refl valid' valid')
  where
    next :
        (r : PartPass)
        → SoundPass job.window r
        → ((p' : Partition) (parts' : Parts) (acc' : Accumulator)
            → IsPartition job.window p'
            → Sound job.window (
                collect_parts job
                  (save_parent parent p' large_query_partition)
                  p'.pending
                  p'
                  parts'
                  acc'
                  traces))
        → Sound job.window (elim r [
          | done end ↦ end
          | next_part p' parts' acc' ↦
              collect_parts job
                (save_parent parent p' large_query_partition)
                p'.pending
                p'
                parts'
                acc'
                traces
        ])
    next (next_part p' parts' acc') k ih = ih p' parts' acc' k
    next (done (ended succeeded, c, ps, a)) k ih = absurd k
    next (done (ended _, c, ps, a)) k ih = k
    next (done (_, c, ps, a)) k ih = k

checkpoint_some :
    (o : Option Partition) (w : QueryWindow) {p : Partition}
    → partition_checkpoint o w ≡ some p
    → o ≡ some p
checkpoint_some none w h = cc
checkpoint_some (some q) w h = ground arith

-- A mapping resumed from a checkpoint whose windows tile the root: however the run ends, the parent has
-- a checkpoint, and it tiles the root; and if it succeeds, no window is pending and the finished windows
-- tile the root, whose end is recorded as the queried boundary.
pub collect_mapping-Sound :
    (traces : List (List Round)) (job : Job) (parent : Cursor) (p : Partition) (parts : Parts)
    (acc : Accumulator)
    → 1 ≤ job.settings.min_partition_minutes
    → partition_checkpoint parent.partition job.window ≡ some p
    → IsPartition job.window p
    → Sound job.window (collect_mapping job parent parts acc traces)
unfolding collect_mapping
collect_mapping-Sound traces job parent p parts acc min e valid =
    rw (e, collect_mapping)
      (collect_parts-Sound traces job parent p.pending p parts acc min refl valid
        (rw (checkpoint_some parent.partition job.window {p = p} e) valid))

after_root-Sound :
    (traces : List (List Round)) (job : Job) (parent : Cursor) (acc0 acc : Accumulator)
    (a b : QueryWindow) (parts : Parts)
    → 1 ≤ job.settings.min_partition_minutes
    → Keeps job acc0 (split a b, parent, acc)
    → Sound job.window (after_root job parts (split a b, parent, acc) traces)
unfolding after_root
after_root-Sound traces job parent acc0 acc a b parts min k =
    let p = root_partition job.window a b in
    let valid : IsPartition job.window p = record {
      root = (refl, refl);
      tiles =
          (split_window-Tiles job.settings.min_partition_minutes job.window {a = a} {b = b} min
            k.agrees.1).0;
    } in
    collect_parts-Sound traces job (save_parent parent p large_query_partition) (a ∷ b ∷ []) p parts
      acc min refl valid valid

-- A mapping without a checkpoint whose first query is split: however the run ends, the parent has a
-- checkpoint, and it tiles the root window; and if it succeeds, no window is pending and the finished windows
-- tile the root, whose end is recorded as the queried boundary.
pub collect_mapping-split :
    (traces : List (List Round)) (job : Job) (parent parent' : Cursor) (a b : QueryWindow)
    (parts : Parts) (acc acc' : Accumulator) (trace : List Round)
    → 1 ≤ job.settings.min_partition_minutes
    → partition_checkpoint parent.partition job.window ≡ none
    → collect_window incremental job parent acc trace ≡ (split a b, parent', acc')
    → Sound job.window (collect_mapping job parent parts acc (trace ∷ traces))
unfolding collect_mapping collect_root
collect_mapping-split traces job parent parent' a b parts acc acc' trace min e s =
    rw (e, collect_mapping)
      (rw s (
        after_root-Sound traces job parent' acc acc' a b parts min
          (rw s at (collect_window-Keeps incremental job parent acc trace))))
