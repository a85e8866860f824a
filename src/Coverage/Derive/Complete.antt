-- ===== src/Coverage/Derive/Complete.antt =====
-- What a complete or empty arXiv coverage says of the stored cursors.
use signal_observatory.Prelude.{
  ℕ, Bool, true, false, not, ◌&&◌, ◌||◌, Option, none, some, List, [], ◌∷◌, is_empty, exists,
  select, leb, ltb, ◌≡◌, refl, sym, ◌∙◌, arith, Bool-cases, inl, inr, All,
}
use signal_observatory.Coverage.{Window, cursor_gaps}
use signal_observatory.Coverage.Gaps.{covers, started, starts_later, IsOrdered, covers-cursor_gaps}
use signal_observatory.Coverage.Derive.{
  CoverageStatus, Cursor, ArxivFacts, is_succeeded, windows_of, arxiv_status, derive_arxiv,
}

-- The statuses that claim that nothing is missing.
abbrev pub claims_all : CoverageStatus → Bool
claims_all CoverageStatus.complete = true
claims_all CoverageStatus.empty = true
claims_all _ = false

abbrev pub cursor_covers : ℕ → Cursor → Bool
cursor_covers t c = elim c.window_from [
  | none ↦ false
  | some a ↦ elim c.window_until [ none ↦ false | some b ↦ leb a t && ltb t b ]
]

abbrev pub backfill_of : ArxivFacts → List Cursor
backfill_of facts = select (λ c. c.is_backfill) facts.cursors

exists-windows_of :
    (t : ℕ) (cs : List Cursor) → exists (covers t) (windows_of cs) ≡ exists (cursor_covers t) cs
exists-windows_of t [] = refl
exists-windows_of t (c ∷ cs) = by_ends c.window_from c.window_until (exists-windows_of t cs)
  where
    by_ends :
        (a b : Option ℕ)
        → exists (covers t) (windows_of cs) ≡ exists (cursor_covers t) cs
        → exists (covers t) (elim a [
          | none ↦ windows_of cs
          | some f ↦ elim b [
            | none ↦ windows_of cs
            | some u ↦ record { from = f; until = u } ∷ windows_of cs
          ]
        ])
          ≡ (elim a [
            | none ↦ false
            | some f ↦ elim b [ none ↦ false | some u ↦ leb f t && ltb t u ]
          ]
              || exists (cursor_covers t) cs)
    by_ends none b h = h
    by_ends (some f) none h = h
    by_ends (some f) (some u) h = ground arith

exists_both :
    {A : Type 0} (p q : A → Bool) (xs : List A)
    → is_empty (select (λ x. not (q x)) xs) ≡ true
    → exists p xs ≡ true
    → exists (λ x. q x && p x) xs ≡ true
exists_both p q [] h e = cc
exists_both p q (x ∷ xs) h e = elim (Bool-cases (q x)) [
  | inl k ↦ elim (Bool-cases (p x)) [
    | inl l ↦ rw k (rw l refl)
    | inr l ↦ rw k (rw l (exists_both p q xs (rw k at h) (rw l at e)))
  ]
  | inr k ↦ let h2 = rw k at h in cc h2
]

arxiv_status_claims :
    (backfill unresolved : List Cursor) (gaps : List Window) (count : ℕ)
    → claims_all (arxiv_status backfill unresolved gaps count) ≡ true
    → (is_empty unresolved ≡ true) × (is_empty gaps ≡ true)
unfolding arxiv_status
arxiv_status_claims [] unresolved gaps count h = cc
arxiv_status_claims (c ∷ cs) [] [] count h = (refl, refl)
arxiv_status_claims (c ∷ cs) (u ∷ us) gaps count h = cc
arxiv_status_claims (c ∷ cs) [] (g ∷ gs) count h = cc

no_gap :
    (t : ℕ) (ws : List Window)
    → is_empty (cursor_gaps ws) ≡ true
    → exists (covers t) (cursor_gaps ws) ≡ false
no_gap t ws h = none_in (cursor_gaps ws) h
  where
    none_in : (gs : List Window) → is_empty gs ≡ true → exists (covers t) gs ≡ false
    none_in [] h = refl
    none_in (g ∷ gs) h = cc

-- For backfill windows that do not end before they start: if the status is complete or empty, each
-- instant between the starts of two backfill windows is covered by a backfill cursor that succeeded.
pub derive_arxiv-covered :
    (topic_id source_id : ℕ) (mappings : List ℕ) (facts : ArxivFacts) (t : ℕ)
    → All IsOrdered (windows_of (backfill_of facts))
    → claims_all (derive_arxiv topic_id source_id mappings facts).coverage_status ≡ true
    → exists (started t) (windows_of (backfill_of facts)) ≡ true
    → exists (starts_later t) (windows_of (backfill_of facts)) ≡ true
    → exists (λ c. is_succeeded c && cursor_covers t c) (backfill_of facts) ≡ true
unfolding derive_arxiv
derive_arxiv-covered topic_id source_id mappings facts t o h a b =
    let backfill = backfill_of facts in
    let (u, g) =
      arxiv_status_claims backfill (select (λ c. not (is_succeeded c)) backfill)
        (cursor_gaps (windows_of backfill)) facts.observation_count h in
    let q = covers-cursor_gaps t (windows_of backfill) o in
    let n = no_gap t (windows_of backfill) g in
    let e : exists (cursor_covers t) backfill ≡ true =
      sym (exists-windows_of t backfill) ∙ ground arith in
    exists_both (cursor_covers t) is_succeeded backfill u e
