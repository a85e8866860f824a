-- ===== src/Registry/Entries/Laws.antt =====
-- What a synchronisation leaves in the table, and that a second comparison finds nothing to change.
use signal_observatory.Prelude.{
  true, false, Option, none, some, List, [], ◌∷◌, ◌++◌, map, String, str_eq, eq_iff, if◌then◌else◌,
  exists, ◌≡◌, refl, ◌∙◌, arith, Bool-cases, inl, inr,
}
use signal_observatory.Registry.Entries.{
  Entity, matches, row_of, is_wanted, base, sync_entry, sync_entries,
}

module _ {D R C : Type 0} (e : Entity D R C) where
  -- No two definitions have the same key.
  abbrev pub UniqueKeys : List D → Type 0
  UniqueKeys [] = Unit
  UniqueKeys (d ∷ ds) = (is_wanted e ds (e.key d) ≡ false) × UniqueKeys ds

  -- What becomes of the row with the key of `d`.
  abbrev pub written : D → Option R → Option R
  written d none = none
  written d (some r) = some (e.write d r)

  abbrev rewritten : D → List R → List R
  rewritten d rows = map (λ r. if matches e (e.key d) r then e.write d r else r) rows

  matches-write : (k : String) (d : D) (r : R) → matches e k (e.write d r) ≡ matches e k r
  matches-write k d r = rw (e.write_managed d r) (rw (e.write_key d r))

  matches-fresh : (d : D) → matches e (e.key d) (e.write d (e.fresh d)) ≡ true
  matches-fresh d = ground (
    arith,
    matches-write (e.key d) d (e.fresh d),
    e.fresh_managed d,
    e.fresh_key d,
    eq_iff (e.key d) (e.key d),
  )

  row_of-rewritten :
      (d : D) (rows : List R)
      → row_of e (e.key d) (rewritten d rows) ≡ written d (row_of e (e.key d) rows)
  row_of-rewritten d [] = refl
  row_of-rewritten d (r ∷ rows) = elim (Bool-cases (matches e (e.key d) r)) [
    | inl h ↦ rw h (rw (matches-write (e.key d) d r ∙ h))
    | inr h ↦ rw h (rw h (row_of-rewritten d rows))
  ]

  -- A row matches one key at most.
  other_key :
      (k : String) (d : D) (r : R)
      → str_eq (e.key d) k ≡ false
      → matches e (e.key d) r ≡ true
      → matches e k r ≡ false
  other_key k d r h m =
      ground (arith, eq_iff (e.row_key r) k, eq_iff (e.row_key r) (e.key d), eq_iff (e.key d) k)

  row_of-rewritten_other :
      (k : String) (d : D) (rows : List R)
      → str_eq (e.key d) k ≡ false
      → row_of e k (rewritten d rows) ≡ row_of e k rows
  row_of-rewritten_other k d [] h = refl
  row_of-rewritten_other k d (r ∷ rows) h = elim (Bool-cases (matches e (e.key d) r)) [
    | inl m ↦ rw m (
        rw (matches-write k d r ∙ other_key k d r h m)
          (rw (other_key k d r h m) (row_of-rewritten_other k d rows h)))
    | inr m ↦ rw m (ground (arith, row_of-rewritten_other k d rows h))
  ]

  row_of-append :
      (k : String) (rows : List R) (r : R)
      → exists (matches e k) rows ≡ false
      → (row_of e k rows ≡ none)
        × (row_of e k (rows ++ (r ∷ [])) ≡ (if matches e k r then some r else none))
  row_of-append k [] r h = (refl, refl)
  row_of-append k (s ∷ rows) r h = ground (arith, row_of-append k rows r)

  row_of-append_other :
      (k : String) (rows : List R) (r : R)
      → matches e k r ≡ false
      → row_of e k (rows ++ (r ∷ [])) ≡ row_of e k rows
  row_of-append_other k [] r h = rw h
  row_of-append_other k (s ∷ rows) r h = ground (arith, row_of-append_other k rows r h)

  row_of-some :
      (k : String) (rows : List R)
      → exists (matches e k) rows ≡ true
      → (r : R) × (row_of e k rows ≡ some r)
  row_of-some k [] h = cc
  row_of-some k (s ∷ rows) h = elim (Bool-cases (matches e k s)) [
    | inl m ↦ (s, rw m)
    | inr m ↦ let (r, q) = row_of-some k rows (ground arith) in (r, rw m q)
  ]

  pub row_of-sync_entry :
      (d : D) (rows : List R)
      → row_of e (e.key d) (sync_entry e d rows)
        ≡ some (e.write d (base e d (row_of e (e.key d) rows)))
  unfolding sync_entry
  row_of-sync_entry d rows = elim (Bool-cases (exists (matches e (e.key d)) rows)) [
    | inl old ↦
        let (r, q) = row_of-some (e.key d) rows old in rw old (row_of-rewritten d rows ∙ rw q refl)
    | inr new ↦
        let (a, b) = row_of-append (e.key d) rows (e.write d (e.fresh d)) new in
        rw new (b ∙ rw a (rw (matches-fresh d)))
  ]

  pub row_of-sync_entry_other :
      (k : String) (d : D) (rows : List R)
      → str_eq (e.key d) k ≡ false
      → row_of e k (sync_entry e d rows) ≡ row_of e k rows
  unfolding sync_entry
  row_of-sync_entry_other k d rows h = elim (Bool-cases (exists (matches e (e.key d)) rows)) [
    | inl old ↦ rw old (row_of-rewritten_other k d rows h)
    | inr new ↦ rw new (
        row_of-append_other k rows (e.write d (e.fresh d))
          (other_key k d (e.write d (e.fresh d)) h (matches-fresh d)))
  ]

  pub row_of-sync_entries_other :
      (ds : List D) (k : String) (rows : List R)
      → is_wanted e ds k ≡ false
      → row_of e k (sync_entries e ds rows) ≡ row_of e k rows
  unfolding sync_entries
  row_of-sync_entries_other [] k rows h = refl
  row_of-sync_entries_other (d ∷ ds) k rows h =
      row_of-sync_entries_other ds k (sync_entry e d rows) (ground arith)
      ∙ row_of-sync_entry_other k d rows (ground arith)
