-- ===== src/Coverage/Rebuild/Again.antt =====
-- A second rebuild from the same facts.
use signal_observatory.Prelude.{
  ℕ, Bool, true, false, not, ◌||◌, Option, none, some, List, [], ◌∷◌, map, if◌then◌else◌, exists,
  find, select, length, ◌≡◌, refl, sym, ap, ◌∙◌, arith, Bool-cases, inl, inr, All, All-mono,
  All-append,
}
use signal_observatory.Coverage.Derive.{CoverageProjection}
use signal_observatory.Coverage.Derive.Equality.{projections_equal_self}
use signal_observatory.Coverage.Rebuild.{
  CoverageRow, has_key, row_has, projection_changed, new_row, refresh, write_projection,
  write_projections, is_handled, is_expected, table_for, report_for,
}
use signal_observatory.Coverage.Rebuild.Refines.{
  projected, AllHandled, same_rows, table_for_lem, found_key, UniqueProjections, SameRows,
  same_later, refresh_has, found,
}

-- A row that a projection leaves as it is.
abbrev Current : CoverageProjection → CoverageRow → Type 0
Current p r = projection_changed r p ≡ false

abbrev Fresh : List CoverageRow → CoverageProjection → Type 0
Fresh rows p = All (λ r. row_has p.topic_id p.source_id r ≡ true → Current p r) rows

Current-new_row : (now : ℕ) (p : CoverageProjection) → Current p (new_row now p)
unfolding projection_changed
Current-new_row now p = rw (projections_equal_self p) refl

Current-refresh : (now : ℕ) (p : CoverageProjection) (r : CoverageRow) → Current p (refresh now p r)
unfolding refresh
Current-refresh now p r = elim (Bool-cases (projection_changed r p)) [
  | inl c ↦ rw c (Current-new_row now p)
  | inr c ↦ rw c c
]

Fresh-rewritten :
    (now : ℕ) (p : CoverageProjection) (rows : List CoverageRow)
    → Fresh (map (λ r. if row_has p.topic_id p.source_id r then refresh now p r else r) rows) p
Fresh-rewritten now p [] = tt
Fresh-rewritten now p (r ∷ rows) = elim (Bool-cases (row_has p.topic_id p.source_id r)) [
  | inl m ↦ rw m (λ k. Current-refresh now p r, Fresh-rewritten now p rows)
  | inr m ↦ rw m (λ k. cc (m, k), Fresh-rewritten now p rows)
]

Fresh-none :
    (p : CoverageProjection) (rows : List CoverageRow)
    → exists (row_has p.topic_id p.source_id) rows ≡ false
    → Fresh rows p
Fresh-none p [] h = tt
Fresh-none p (r ∷ rows) h = (
  λ k. let z : row_has p.topic_id p.source_id r ≡ false = ground arith in cc (z, k),
  Fresh-none p rows (ground arith),
)

Fresh-own :
    (now : ℕ) (existing : List CoverageRow) (p : CoverageProjection) (rows : List CoverageRow)
    → SameRows existing rows p
    → Fresh (write_projection now existing p rows) p
unfolding write_projection
Fresh-own now existing p rows s =
    elim (Bool-cases (exists (row_has p.topic_id p.source_id) existing)) [
      | inl q ↦ rw q (Fresh-rewritten now p rows)
      | inr q ↦ rw q (
          All-append _ rows (new_row now p ∷ []) (Fresh-none p rows (s ∙ q))
            (λ k. Current-new_row now p, tt))
    ]

Fresh-other :
    (now : ℕ) (existing : List CoverageRow) (p q : CoverageProjection) (rows : List CoverageRow)
    → has_key p.topic_id p.source_id q ≡ false
    → Fresh rows p
    → Fresh (write_projection now existing q rows) p
unfolding write_projection
Fresh-other now existing p q rows n f =
    elim (Bool-cases (exists (row_has q.topic_id q.source_id) existing)) [
      | inl e ↦ rw e (rewritten_keeps rows f)
      | inr e ↦ rw e (All-append _ rows (new_row now q ∷ []) f (λ k. cc (n, k), tt))
    ]
  where
    rewritten_keeps :
        (rows : List CoverageRow)
        → Fresh rows p
        → Fresh (map (λ r. if row_has q.topic_id q.source_id r then refresh now q r else r) rows) p
    rewritten_keeps [] f = tt
    rewritten_keeps (r ∷ rows) f = elim (Bool-cases (row_has q.topic_id q.source_id r)) [
      | inl m ↦
          rw m
            (λ k. cc (refresh_has now q p.topic_id p.source_id r, n, k), rewritten_keeps rows f.1)
      | inr m ↦ rw m (f.0, rewritten_keeps rows f.1)
    ]

Fresh-later :
    (now : ℕ) (existing : List CoverageRow) (p : CoverageProjection) (ps : List CoverageProjection)
    (rows : List CoverageRow)
    → exists (has_key p.topic_id p.source_id) ps ≡ false
    → Fresh rows p
    → Fresh (write_projections now existing ps rows) p
unfolding write_projections
Fresh-later now existing p [] rows h f = f
Fresh-later now existing p (q ∷ ps) rows h f =
    let n : has_key p.topic_id p.source_id q ≡ false = ground arith in
    Fresh-later now existing p ps (write_projection now existing q rows) (ground arith)
      (Fresh-other now existing p q rows n f)

Fresh-write_projections :
    (now : ℕ) (existing : List CoverageRow) (ps : List CoverageProjection) (rows : List CoverageRow)
    → UniqueProjections ps
    → All (SameRows existing rows) ps
    → All (Fresh (write_projections now existing ps rows)) ps
unfolding write_projections
Fresh-write_projections now existing [] rows u a = tt
Fresh-write_projections now existing (p ∷ ps) rows u a =
    let rows' = write_projection now existing p rows in
    (
      Fresh-later now existing p ps rows' u.0 (Fresh-own now existing p rows a.0),
      Fresh-write_projections now existing ps rows' u.1 (same_later now p existing rows ps u.0 a.1),
    )

-- A table in which nothing is left to do for the projections.
abbrev Settled : List CoverageRow → List CoverageRow → CoverageProjection → Type 0
Settled existing rows p = Fresh rows p × (exists (row_has p.topic_id p.source_id) existing ≡ true)

rewritten_same :
    (now : ℕ) (p : CoverageProjection) (rows : List CoverageRow)
    → Fresh rows p
    → map (λ r. if row_has p.topic_id p.source_id r then refresh now p r else r) rows ≡ rows
unfolding refresh
rewritten_same now p [] f = refl
rewritten_same now p (r ∷ rows) f = elim (Bool-cases (row_has p.topic_id p.source_id r)) [
  | inl m ↦ rw m (rw (f.0 m) (ap (λ xs. r ∷ xs) (rewritten_same now p rows f.1)))
  | inr m ↦ rw m (ap (λ xs. r ∷ xs) (rewritten_same now p rows f.1))
]

write_same :
    (now : ℕ) (existing : List CoverageRow) (ps : List CoverageProjection) (rows : List CoverageRow)
    → All (Settled existing rows) ps
    → write_projections now existing ps rows ≡ rows
unfolding write_projections write_projection
write_same now existing [] rows a = refl
write_same now existing (p ∷ ps) rows a =
    rw a.0.1 (rw (rewritten_same now p rows a.0.0) (write_same now existing ps rows a.1))

All-select :
    {A : Type 0} (P : A → Type 0) (q : A → Bool) (xs : List A) → All P xs → All P (select q xs)
All-select P q [] a = tt
All-select P q (x ∷ xs) a = elim (Bool-cases (q x)) [
  | inl m ↦ rw m (a.0, All-select P q xs a.1)
  | inr m ↦ rw m (All-select P q xs a.1)
]

selected : {A : Type 0} (q : A → Bool) (xs : List A) → All (λ x. q x ≡ true) (select q xs)
selected q [] = tt
selected q (x ∷ xs) = elim (Bool-cases (q x)) [
  | inl m ↦ rw m (m, selected q xs)
  | inr m ↦ rw m (selected q xs)
]

select_same :
    {A : Type 0} (q : A → Bool) (xs : List A) → All (λ x. q x ≡ true) xs → select q xs ≡ xs
select_same q [] a = refl
select_same q (x ∷ xs) a = rw a.0 (ap (λ ys. x ∷ ys) (select_same q xs a.1))

select_none :
    {A : Type 0} (q : A → Bool) (xs : List A) → All (λ x. q x ≡ false) xs → select q xs ≡ []
select_none q [] a = refl
select_none q (x ∷ xs) a = rw a.0 (select_none q xs a.1)

each_there :
    (ps : List CoverageProjection) → All (λ p. exists (has_key p.topic_id p.source_id) ps ≡ true) ps
each_there [] = tt
each_there (q ∷ ps) = (
  ground arith,
  All-mono (λ p. exists (has_key p.topic_id p.source_id) ps ≡ true)
      (λ p. exists (has_key p.topic_id p.source_id) (q ∷ ps) ≡ true) ps (λ p h. ground arith)
      (each_there ps),
)

in_both :
    (o : Option CoverageRow) (t : Option CoverageProjection)
    → projected o ≡ t
    → elim t [ none ↦ false | some _ ↦ true ] ≡ elim o [ none ↦ false | some _ ↦ true ]
in_both none none h = refl
in_both none (some p) h = cc
in_both (some r) none h = cc
in_both (some r) (some p) h = refl

not_updated :
    (p : CoverageProjection) (rows : List CoverageRow)
    → Fresh rows p
    → elim (find (row_has p.topic_id p.source_id) rows) [
      | none ↦ false
      | some r ↦ projection_changed r p
    ]
      ≡ false
not_updated p [] f = refl
not_updated p (r ∷ rows) f = elim (Bool-cases (row_has p.topic_id p.source_id r)) [
  | inl m ↦ rw m (f.0 m)
  | inr m ↦ rw m (not_updated p rows f.1)
]

module _ (now : ℕ) (handled : List ℕ) (ps : List CoverageProjection) (rows : List CoverageRow)
    (u : UniqueProjections ps) (a : AllHandled handled ps) where
  abbrev table : List CoverageRow
  table = table_for now handled ps rows

  abbrev keeps : CoverageRow → Bool
  keeps r = not (is_handled handled r) || is_expected ps r

  abbrev written : List CoverageRow
  written = write_projections now (select (is_handled handled) rows) ps rows

  table_lem : All (Fresh table) ps
  table_lem =
      All-mono (Fresh written) (Fresh table) ps (λ p f. All-select _ keeps written f)
        (Fresh-write_projections now (select (is_handled handled) rows) ps rows u
          (same_rows handled rows ps a))

  there_lem :
      (qs : List CoverageProjection)
      → AllHandled handled qs
      → All (λ p. exists (has_key p.topic_id p.source_id) ps ≡ true) qs
      → All (λ p. exists (row_has p.topic_id p.source_id) table ≡ true) qs
  there_lem [] h t = tt
  there_lem (p ∷ qs) h t =
      let e = table_for_lem now handled ps rows p.topic_id p.source_id u a in
      let k = rw h.0 at e in
      (
        found p.topic_id p.source_id table
            ∙ sym (in_both _ _ k)
            ∙ sym (found_key p.topic_id p.source_id ps)
            ∙ t.0,
        there_lem qs h.1 t.1,
      )

  settled_lem :
      (qs : List CoverageProjection)
      → All (Fresh table) qs
      → All (SameRows (select (is_handled handled) table) table) qs
      → All (λ p. exists (row_has p.topic_id p.source_id) table ≡ true) qs
      → All (Settled (select (is_handled handled) table) table) qs
  settled_lem [] f s t = tt
  settled_lem (p ∷ qs) f s t = ((f.0, sym s.0 ∙ t.0), settled_lem qs f.1 s.1 t.1)

  nothing_left : All (Settled (select (is_handled handled) table) table) ps
  nothing_left =
      settled_lem ps table_lem (same_rows handled table ps a) (there_lem ps a (each_there ps))

  pub table_again : (later : ℕ) → table_for later handled ps table ≡ table
  table_again later =
      rw (write_same later (select (is_handled handled) table) ps table nothing_left)
        (select_same keeps table (selected keeps written))

  none_deleted :
      (rs : List CoverageRow)
      → All (λ r. keeps r ≡ true) rs
      → All (λ r. is_handled handled r ≡ true) rs
      → All (λ r. not (is_expected ps r) ≡ false) rs
  none_deleted [] k h = tt
  none_deleted (r ∷ rs) k h = (ground arith, none_deleted rs k.1 h.1)

  pub report_again :
      ((report_for handled ps table).created ≡ 0)
      × ((report_for handled ps table).updated ≡ 0)
      × ((report_for handled ps table).deleted ≡ 0)
  report_again =
      let existing = select (is_handled handled) table in
      (
        ap length (
            select_none _ ps (
              All-mono _ (λ p. not (exists (row_has p.topic_id p.source_id) existing) ≡ false) ps
                (λ p s. rw s.1 refl) nothing_left)),
        ap length (
            select_none _ ps (
              All-mono _ _ ps
                (λ p f. not_updated p existing (All-select _ (is_handled handled) table f))
                table_lem)),
        ap length (
            select_none _ existing (
              none_deleted existing
                (All-select _ (is_handled handled) table (selected keeps written))
                (selected (is_handled handled) table))),
      )
