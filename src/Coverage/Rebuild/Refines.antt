-- ===== src/Coverage/Rebuild/Refines.antt =====
-- What a rebuild leaves in the table.
use signal_observatory.Prelude.{
  ℕ, Bool, true, false, not, ◌||◌, Option, none, some, List, [], ◌∷◌, ◌++◌, map, if◌then◌else◌,
  exists, find, select, ◌==◌, ◌≡◌, refl, sym, ap, ◌∙◌, arith, Bool-cases, inl, inr, All,
}
use signal_observatory.Coverage.Derive.{CoverageProjection}
use signal_observatory.Coverage.Derive.Equality.{projections_equal_lem}
use signal_observatory.Coverage.Rebuild.{
  CoverageRow, has_key, row_has, projection_changed, new_row, refresh, write_projection,
  write_projections, is_handled, is_expected, table_for,
}

abbrev pub projected : Option CoverageRow → Option CoverageProjection
projected none = none
projected (some r) = some r.projection

refresh_lem :
    (now : ℕ) (p : CoverageProjection) (r : CoverageRow) → (refresh now p r).projection ≡ p
unfolding refresh projection_changed
refresh_lem now p r = elim (Bool-cases (projection_changed r p)) [
  | inl c ↦ rw c refl
  | inr c ↦ rw c (projections_equal_lem r.projection p (ground arith))
]

key_unique :
    (topic source : ℕ) (p : CoverageProjection) (q : CoverageProjection)
    → has_key p.topic_id p.source_id q ≡ true
    → has_key topic source q ≡ has_key topic source p
key_unique topic source p q h = ground arith

has_self : (p : CoverageProjection) → has_key p.topic_id p.source_id p ≡ true
has_self p = ground arith

module _ (now : ℕ) (p : CoverageProjection) where
  pub refresh_has :
      (topic source : ℕ) (r : CoverageRow)
      → row_has topic source (refresh now p r) ≡ has_key topic source p
  refresh_has topic source r = ap (has_key topic source) (refresh_lem now p r)

  abbrev rewritten : List CoverageRow → List CoverageRow
  rewritten rows = map (λ r. if row_has p.topic_id p.source_id r then refresh now p r else r) rows

  rewritten_own :
      (rows : List CoverageRow)
      → exists (row_has p.topic_id p.source_id) rows ≡ true
      → projected (find (row_has p.topic_id p.source_id) (rewritten rows)) ≡ some p
  rewritten_own [] h = cc
  rewritten_own (r ∷ rows) h = elim (Bool-cases (row_has p.topic_id p.source_id r)) [
    | inl m ↦
        rw m
          (rw (refresh_has p.topic_id p.source_id r ∙ has_self p) (ap some (refresh_lem now p r)))
    | inr m ↦ rw m (rw m (rewritten_own rows (rw m at h)))
  ]

  rewritten_other :
      (topic source : ℕ) (rows : List CoverageRow)
      → has_key topic source p ≡ false
      → find (row_has topic source) (rewritten rows) ≡ find (row_has topic source) rows
  rewritten_other topic source [] h = refl
  rewritten_other topic source (r ∷ rows) h = elim (Bool-cases (row_has p.topic_id p.source_id r)) [
    | inl m ↦ rw m (
        rw (refresh_has topic source r ∙ h)
          (rw (key_unique topic source p r.projection m ∙ h) (rewritten_other topic source rows h)))
    | inr m ↦ rw m (rw (rewritten_other topic source rows h))
  ]

  append_own :
      (rows : List CoverageRow)
      → exists (row_has p.topic_id p.source_id) rows ≡ false
      → projected (find (row_has p.topic_id p.source_id) (rows ++ (new_row now p ∷ []))) ≡ some p
  append_own [] h = rw (has_self p) refl
  append_own (r ∷ rows) h = ground (arith, append_own rows)

  append_other :
      (topic source : ℕ) (rows : List CoverageRow)
      → has_key topic source p ≡ false
      → find (row_has topic source) (rows ++ (new_row now p ∷ []))
        ≡ find (row_has topic source) rows
  append_other topic source [] h = rw h refl
  append_other topic source (r ∷ rows) h = ground (arith, append_other topic source rows h)

  module _ (existing rows : List CoverageRow) where
    write-own :
        exists (row_has p.topic_id p.source_id) rows
          ≡ exists (row_has p.topic_id p.source_id) existing
        → projected (find (row_has p.topic_id p.source_id) (write_projection now existing p rows))
          ≡ some p
    unfolding write_projection
    write-own e = elim (Bool-cases (exists (row_has p.topic_id p.source_id) existing)) [
      | inl q ↦ rw q (rewritten_own rows (e ∙ q))
      | inr q ↦ rw q (append_own rows (e ∙ q))
    ]

    write-other :
        (topic source : ℕ)
        → has_key topic source p ≡ false
        → find (row_has topic source) (write_projection now existing p rows)
          ≡ find (row_has topic source) rows
    unfolding write_projection
    write-other topic source h =
        elim (Bool-cases (exists (row_has p.topic_id p.source_id) existing)) [
          | inl q ↦ rw q (rewritten_other topic source rows h)
          | inr q ↦ rw q (append_other topic source rows h)
        ]

-- No two projections have the same key.
abbrev pub UniqueProjections : List CoverageProjection → Type 0
UniqueProjections [] = Unit
UniqueProjections (p ∷ ps) =
    (exists (has_key p.topic_id p.source_id) ps ≡ false) × UniqueProjections ps

pub found :
    (topic source : ℕ) (rows : List CoverageRow)
    → exists (row_has topic source) rows
      ≡ elim (find (row_has topic source) rows) [ none ↦ false | some _ ↦ true ]
found topic source [] = refl
found topic source (r ∷ rows) = ground (arith, found topic source rows)

abbrev pub SameRows : List CoverageRow → List CoverageRow → CoverageProjection → Type 0
SameRows existing rows p =
    exists (row_has p.topic_id p.source_id) rows ≡ exists (row_has p.topic_id p.source_id) existing

pub key_apart :
    (p q : CoverageProjection)
    → has_key p.topic_id p.source_id q ≡ false
    → has_key q.topic_id q.source_id p ≡ false
key_apart p q h = ground arith

pub same_later :
    (now : ℕ) (p : CoverageProjection) (existing rows : List CoverageRow)
    (ps : List CoverageProjection)
    → exists (has_key p.topic_id p.source_id) ps ≡ false
    → All (SameRows existing rows) ps
    → All (SameRows existing (write_projection now existing p rows)) ps
same_later now p existing rows [] h a = tt
same_later now p existing rows (q ∷ ps) h a =
    let n : has_key p.topic_id p.source_id q ≡ false = ground arith in
    let w = write-other now p existing rows q.topic_id q.source_id (key_apart p q n) in
    (
      found q.topic_id q.source_id (write_projection now existing p rows)
          ∙ rw w (sym (found q.topic_id q.source_id rows) ∙ a.0),
      same_later now p existing rows ps (ground arith) a.1,
    )

abbrev pub or_else :
    Option CoverageProjection → Option CoverageProjection → Option CoverageProjection
or_else none old = old
or_else (some p) old = some p

find-none :
    (topic source : ℕ) (ps : List CoverageProjection)
    → exists (has_key topic source) ps ≡ false
    → find (has_key topic source) ps ≡ none
find-none topic source [] h = refl
find-none topic source (p ∷ ps) h = ground (arith, find-none topic source ps)

pub projected-write_projections :
    (now : ℕ) (existing : List CoverageRow) (topic source : ℕ) (ps : List CoverageProjection)
    (rows : List CoverageRow)
    → UniqueProjections ps
    → All (SameRows existing rows) ps
    → projected (find (row_has topic source) (write_projections now existing ps rows))
      ≡ or_else (find (has_key topic source) ps) (projected (find (row_has topic source) rows))
unfolding write_projections
projected-write_projections now existing topic source [] rows u a = refl
projected-write_projections now existing topic source (p ∷ ps) rows u a =
    let rows' = write_projection now existing p rows in
    let later =
      projected-write_projections now existing topic source ps rows' u.1
        (same_later now p existing rows ps u.0 a.1) in
    elim (Bool-cases (has_key topic source p)) [
      | inl m ↦
          let t : topic ≡ p.topic_id = ground arith in
          let s : source ≡ p.source_id = ground arith in
          let n : find (has_key topic source) ps ≡ none =
            find-none topic source ps (rw t (rw s u.0)) in
          let w : projected (find (row_has topic source) rows') ≡ some p =
            rw t (rw s (write-own now p existing rows a.0)) in
          rw m (later ∙ rw n w)
      | inr m ↦ rw m (later ∙ rw (write-other now p existing rows topic source m) refl)
    ]

find-select :
    (topic source : ℕ) (q : CoverageRow → Bool) (b : Bool) (rows : List CoverageRow)
    → ((r : CoverageRow) → row_has topic source r ≡ true → q r ≡ b)
    → find (row_has topic source) (select q rows)
      ≡ (if b then find (row_has topic source) rows else none)
find-select topic source q true [] h = refl
find-select topic source q false [] h = refl
find-select topic source q b (r ∷ rows) h =
    let ih = find-select topic source q b rows h in
    elim (Bool-cases (row_has topic source r)) [
      | inl m ↦
          let k = h r m in
          elim (Bool-cases (q r)) [ inl z ↦ rw z (ground arith) | inr z ↦ rw z (ground (arith)) ]
      | inr m ↦ elim (Bool-cases (q r)) [ inl z ↦ rw z (rw m ih) | inr z ↦ rw z (rw m ih) ]
    ]

exists-select :
    (topic source : ℕ) (q : CoverageRow → Bool) (rows : List CoverageRow)
    → ((r : CoverageRow) → row_has topic source r ≡ true → q r ≡ true)
    → exists (row_has topic source) (select q rows) ≡ exists (row_has topic source) rows
exists-select topic source q rows h =
    found topic source (select q rows)
    ∙ rw (find-select topic source q true rows h) (sym (found topic source rows))

-- Each projection's source is handled.
abbrev pub AllHandled : List ℕ → List CoverageProjection → Type 0
AllHandled handled ps = All (λ p. exists (λ s. s == p.source_id) handled ≡ true) ps

pub same_rows :
    (handled : List ℕ) (rows : List CoverageRow) (ps : List CoverageProjection)
    → AllHandled handled ps
    → All (SameRows (select (is_handled handled) rows) rows) ps
same_rows handled rows [] a = tt
same_rows handled rows (p ∷ ps) a = (
  sym (
      exists-select p.topic_id p.source_id (is_handled handled) rows
        (λ r m. let s : r.projection.source_id ≡ p.source_id = ground arith in rw s a.0)),
  same_rows handled rows ps a.1,
)

unhandled_none :
    (handled : List ℕ) (topic source : ℕ) (ps : List CoverageProjection)
    → AllHandled handled ps
    → exists (λ s. s == source) handled ≡ false
    → find (has_key topic source) ps ≡ none
unhandled_none handled topic source [] a h = refl
unhandled_none handled topic source (p ∷ ps) a h = elim (Bool-cases (has_key topic source p)) [
  | inl m ↦
      let s : p.source_id ≡ source = ground arith in
      let b : exists (λ t. t == source) handled ≡ true = rw (← s) a.0 in cc
  | inr m ↦ rw m (unhandled_none handled topic source ps a.1 h)
]

pub found_key :
    (topic source : ℕ) (ps : List CoverageProjection)
    → exists (has_key topic source) ps
      ≡ elim (find (has_key topic source) ps) [ none ↦ false | some _ ↦ true ]
found_key topic source [] = refl
found_key topic source (p ∷ ps) = ground (arith, found_key topic source ps)

pub table_for_lem :
    (now : ℕ) (handled : List ℕ) (ps : List CoverageProjection) (rows : List CoverageRow)
    (topic source : ℕ)
    → UniqueProjections ps
    → AllHandled handled ps
    → projected (find (row_has topic source) (table_for now handled ps rows)) ≡ (
        if exists (λ s. s == source) handled
        then find (has_key topic source) ps
        else projected (find (row_has topic source) rows))
table_for_lem now handled ps rows topic source u a =
    let existing = select (is_handled handled) rows in
    let written =
      projected-write_projections now existing topic source ps rows u
        (same_rows handled rows ps a) in
    ap projected (
      find-select topic source (λ r. not (is_handled handled r) || is_expected ps r)
        (not (exists (λ s. s == source) handled) || exists (has_key topic source) ps)
        (write_projections now existing ps rows)
        (λ r m.
          let t : r.projection.topic_id ≡ topic = ground arith in
          let s : r.projection.source_id ≡ source = ground arith in rw t (rw s refl)))
    ∙ elim (Bool-cases (exists (λ s. s == source) handled)) [
      | inl h ↦
          rw h (rw (found_key topic source ps) (kept _ _ (find (has_key topic source) ps) written))
      | inr h ↦ rw h (written ∙ rw (unhandled_none handled topic source ps a h) refl)
    ]
  where
    kept :
        (r : Option CoverageRow) (old o : Option CoverageProjection)
        → projected r ≡ or_else o old
        → projected (if elim o [ none ↦ false | some _ ↦ true ] then r else none) ≡ o
    kept r old none w = refl
    kept r old (some p) w = w
