-- ===== src/Registry/Entries/Synced.antt =====
-- After a synchronisation: each definition's row, the rows that are not wanted, and no change left.
use signal_observatory.Prelude.{
  true, false, ◌||◌, Option, none, some, List, [], ◌∷◌, ◌++◌, map, String, str_eq, eq_iff,
  if◌then◌else◌, exists, ◌≡◌, refl, sym, ◌∙◌, ap, arith, Bool-cases, inl, inr, All, All-mono,
}
use mathlib.Core.List.{append-nil, append_assoc}
use signal_observatory.Registry.Entries.Texts.{sort_texts}
use signal_observatory.Registry.Entries.{
  Entity, matches, row_of, differs, changes, is_wanted, unwanted, orphans, base, sync_entry,
  sync_entries, sync_entry_old, sync_entries_old, put, dict_from, dict_of,
}
use signal_observatory.Registry.Entries.Laws.{
  UniqueKeys, row_of-sync_entry, row_of-sync_entry_other, row_of-sync_entries_other,
}

module _ {D R C : Type 0} (e : Entity D R C) where
  -- The row that `rows` held for the definition, or a new one, with the definition written to it.
  abbrev pub Synced : List R → List R → D → Type 0
  Synced rows rows' d =
      row_of e (e.key d) rows' ≡ some (e.write d (base e d (row_of e (e.key d) rows)))

  earlier_rows :
      (ds : List D) (d : D) (rows rows' : List R)
      → is_wanted e ds (e.key d) ≡ false
      → All (Synced (sync_entry e d rows) rows') ds
      → All (Synced rows rows') ds
  earlier_rows [] d rows rows' h a = tt
  earlier_rows (c ∷ ds) d rows rows' h a = (
    rw
        (row_of-sync_entry_other e (e.key c) d rows
          (ground (arith, eq_iff (e.key d) (e.key c), eq_iff (e.key c) (e.key d))))
        at a.0,
    earlier_rows ds d rows rows' (ground arith) a.1,
  )

  pub sync_entries-Synced :
      (ds : List D) (rows : List R)
      → UniqueKeys e ds
      → All (Synced rows (sync_entries e ds rows)) ds
  unfolding sync_entries
  sync_entries-Synced [] rows u = tt
  sync_entries-Synced (d ∷ ds) rows u = (
    row_of-sync_entries_other e ds (e.key d) (sync_entry e d rows) u.0 ∙ row_of-sync_entry e d rows,
    earlier_rows ds d rows (sync_entries e ds (sync_entry e d rows)) u.0
        (sync_entries-Synced ds (sync_entry e d rows) u.1),
  )

  pub find_matches :
      (k : String) (rows : List R) {r : R} → row_of e k rows ≡ some r → matches e k r ≡ true
  find_matches k [] h = cc
  find_matches k (s ∷ rows) {r} h = elim (Bool-cases (matches e k s)) [
    | inl m ↦ let q : s ≡ r = ground arith in rw (← q) m
    | inr m ↦ find_matches k rows (ground arith)
  ]

  base-matches :
      (d : D) (rows : List R) (o : Option R)
      → row_of e (e.key d) rows ≡ o
      → matches e (e.key d) (base e d o) ≡ true
  base-matches d rows none h =
      ground (arith, e.fresh_managed d, e.fresh_key d, eq_iff (e.key d) (e.key d))
  base-matches d rows (some r) h = find_matches (e.key d) rows h

  pub view-base :
      (d : D) (rows : List R) → e.view (e.write d (base e d (row_of e (e.key d) rows))) ≡ e.wanted d
  view-base d rows =
      let r = base e d (row_of e (e.key d) rows) in
      let m = base-matches d rows (row_of e (e.key d) rows) refl in
      e.view-write d r (ground (arith, eq_iff (e.row_key r) (e.key d))) (ground arith)

  pub differs_self : (c : C) → differs e c c ≡ false
  unfolding differs
  differs_self c = ground arith

  pub changes_none :
      (ds : List D) (rows rows' : List R) → All (Synced rows rows') ds → changes e ds rows' ≡ []
  unfolding changes
  changes_none [] rows rows' a = refl
  changes_none (d ∷ ds) rows rows' a =
      rw a.0
        (rw (view-base d rows) (rw (differs_self (e.wanted d)) (changes_none ds rows rows' a.1)))

  -- A second comparison finds nothing to change.
  pub changes-sync_entries :
      (ds : List D) (rows : List R) → UniqueKeys e ds → changes e ds (sync_entries e ds rows) ≡ []
  changes-sync_entries ds rows u =
      changes_none ds rows (sync_entries e ds rows) (sync_entries-Synced ds rows u)

  unwanted-rewritten :
      (all : List D) (d : D) (rows : List R)
      → unwanted e all (map (λ r. if matches e (e.key d) r then e.write d r else r) rows)
        ≡ unwanted e all rows
  unfolding unwanted
  unwanted-rewritten all d [] = refl
  unwanted-rewritten all d (r ∷ rows) = elim (Bool-cases (matches e (e.key d) r)) [
    | inr m ↦ rw m (ground (arith, unwanted-rewritten all d rows))
    | inl m ↦ rw m (
        rw (e.write_managed d r)
          (rw (e.write_key d r) (ground (arith, unwanted-rewritten all d rows, e.write_key d r))))
  ]

  unwanted-append :
      (all : List D) (rows : List R) (r : R)
      → is_wanted e all (e.row_key r) ≡ true
      → unwanted e all (rows ++ (r ∷ [])) ≡ unwanted e all rows
  unfolding unwanted
  unwanted-append all [] r h = ground arith
  unwanted-append all (s ∷ rows) r h = ground (arith, unwanted-append all rows r)

  unwanted-sync_entry :
      (all : List D) (d : D) (rows : List R)
      → is_wanted e all (e.key d) ≡ true
      → unwanted e all (sync_entry e d rows) ≡ unwanted e all rows
  unfolding sync_entry
  unwanted-sync_entry all d rows h = elim (Bool-cases (exists (matches e (e.key d)) rows)) [
    | inl old ↦ rw old (unwanted-rewritten all d rows)
    | inr new ↦ rw new (
        unwanted-append all rows (e.write d (e.fresh d))
          (rw (e.write_key d (e.fresh d)) (rw (e.fresh_key d) h)))
  ]

  unwanted_from :
      (all ds : List D) (rows : List R)
      → All (λ d. is_wanted e all (e.key d) ≡ true) ds
      → unwanted e all (sync_entries e ds rows) ≡ unwanted e all rows
  unfolding sync_entries
  unwanted_from all [] rows h = refl
  unwanted_from all (d ∷ ds) rows h =
      unwanted_from all ds (sync_entry e d rows) h.1 ∙ unwanted-sync_entry all d rows h.0

  each_known : (ds : List D) → All (λ d. is_wanted e ds (e.key d) ≡ true) ds
  each_known [] = tt
  each_known (c ∷ ds) = (
    ground (arith, eq_iff (e.key c) (e.key c)),
    All-mono (λ d. is_wanted e ds (e.key d) ≡ true) (λ d. is_wanted e (c ∷ ds) (e.key d) ≡ true) ds
        (λ d h. ground arith) (each_known ds),
  )

  -- Rows that are not wanted stay, and no other appears.
  pub orphans-sync_entries :
      (ds : List D) (rows : List R) → orphans e ds (sync_entries e ds rows) ≡ orphans e ds rows
  unfolding orphans
  orphans-sync_entries ds rows = ap sort_texts (unwanted_from ds ds rows (each_known ds))

  -- With distinct keys it does not matter whether the dictionary has the rows added so far.
  exists-append :
      (k : String) (rows : List R) (r : R)
      → exists (matches e k) (rows ++ (r ∷ [])) ≡ (exists (matches e k) rows || matches e k r)
  exists-append k [] r = ground arith
  exists-append k (s ∷ rows) r = ground (arith, exists-append k rows r)

  pub row_exists :
      (k : String) (rows : List R)
      → exists (matches e k) rows ≡ elim (row_of e k rows) [ none ↦ false | some _ ↦ true ]
  row_exists k [] = refl
  row_exists k (s ∷ rows) = ground (arith, row_exists k rows)

  exists-sync_entry_other :
      (k : String) (d : D) (rows : List R)
      → str_eq (e.key d) k ≡ false
      → exists (matches e k) (sync_entry e d rows) ≡ exists (matches e k) rows
  exists-sync_entry_other k d rows h =
      row_exists k (sync_entry e d rows)
      ∙ rw (row_of-sync_entry_other e k d rows h) (sym (row_exists k rows))

  abbrev SameKeys : List R → List R → D → Type 0
  SameKeys old rows d = exists (matches e (e.key d)) rows ≡ exists (matches e (e.key d)) old

  same_later :
      (ds : List D) (d : D) (old rows : List R)
      → is_wanted e ds (e.key d) ≡ false
      → All (SameKeys old rows) ds
      → All (SameKeys old (sync_entry e d rows)) ds
  same_later [] d old rows h a = tt
  same_later (c ∷ ds) d old rows h a = (
    exists-sync_entry_other (e.key c) d rows
          (ground (arith, eq_iff (e.key d) (e.key c), eq_iff (e.key c) (e.key d)))
        ∙ a.0,
    same_later ds d old rows (ground arith) a.1,
  )

  old_entry :
      (d : D) (old rows : List R)
      → SameKeys old rows d
      → sync_entry_old e old d rows ≡ sync_entry e d rows
  unfolding sync_entry sync_entry_old
  old_entry d old rows h = rw h

  old_from :
      (ds : List D) (old rows : List R)
      → UniqueKeys e ds
      → All (SameKeys old rows) ds
      → sync_entries_old e old ds rows ≡ sync_entries e ds rows
  unfolding sync_entries sync_entries_old
  old_from [] old rows u a = refl
  old_from (d ∷ ds) old rows u a =
      rw (old_entry d old rows a.0)
        (old_from ds old (sync_entry e d rows) u.1 (same_later ds d old rows u.0 a.1))

  same_keys : (ds : List D) (rows : List R) → All (SameKeys rows rows) ds
  same_keys [] rows = tt
  same_keys (d ∷ ds) rows = (refl, same_keys ds rows)

  pub sync_entries_old-eq :
      (ds : List D) (rows : List R)
      → UniqueKeys e ds
      → sync_entries_old e rows ds rows ≡ sync_entries e ds rows
  sync_entries_old-eq ds rows u = old_from ds rows rows u (same_keys ds rows)

  put_new : (d : D) (cs : List D) → is_wanted e cs (e.key d) ≡ false → put e d cs ≡ cs ++ (d ∷ [])
  unfolding put
  put_new d [] h = refl
  put_new d (c ∷ cs) h = ground (arith, put_new d cs)

  is_wanted-append :
      (cs : List D) (d : D) (k : String)
      → is_wanted e (cs ++ (d ∷ [])) k ≡ (is_wanted e cs k || str_eq (e.key d) k)
  is_wanted-append [] d k = ground arith
  is_wanted-append (c ∷ cs) d k = ground (arith, is_wanted-append cs d k)

  apart_later :
      (ds cs : List D) (d : D)
      → is_wanted e ds (e.key d) ≡ false
      → All (λ c. is_wanted e cs (e.key c) ≡ false) ds
      → All (λ c. is_wanted e (cs ++ (d ∷ [])) (e.key c) ≡ false) ds
  apart_later [] cs d h a = tt
  apart_later (c ∷ ds) cs d h a = (
    ground (
      arith,
      is_wanted-append cs d (e.key c),
      eq_iff (e.key d) (e.key c),
      eq_iff (e.key c) (e.key d),
    ),
    apart_later ds cs d (ground arith) a.1,
  )

  dict_from_unique :
      (ds cs : List D)
      → UniqueKeys e ds
      → All (λ d. is_wanted e cs (e.key d) ≡ false) ds
      → dict_from e cs ds ≡ cs ++ ds
  unfolding dict_from
  dict_from_unique [] cs u a = sym (append-nil cs)
  dict_from_unique (d ∷ ds) cs u a = rw (put_new d cs a.0) (
      dict_from_unique ds (cs ++ (d ∷ [])) u.1 (apart_later ds cs d u.0 a.1)
      ∙ append_assoc cs (d ∷ []) ds)

  none_wanted : (ds : List D) → All (λ d. is_wanted e [] (e.key d) ≡ false) ds
  none_wanted [] = tt
  none_wanted (d ∷ ds) = (refl, none_wanted ds)

  pub dict_of_unique : (ds : List D) → UniqueKeys e ds → dict_of e ds ≡ ds
  unfolding dict_of
  dict_of_unique ds u = dict_from_unique ds [] u (none_wanted ds)
