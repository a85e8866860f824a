-- ===== src/Registry/Sync/Categories.antt =====
-- Categories after a synchronisation: nothing is left to change, and no orphan is lost.
use signal_observatory.Prelude.{
  true, false, Option, none, some, List, [], ◌∷◌, String, str_eq, eq_iff, exists, ◌≡◌, refl, ◌∙◌,
  arith, All, Bool-cases, inl, inr,
}
use signal_observatory.Registry.Values.{CategoryDefinition}
use signal_observatory.Registry.Entries.{
  changes, row_of, orphans, is_wanted, matches, sync_entries, sync_entries_old, unwanted,
}
use signal_observatory.Registry.Entries.Laws.{UniqueKeys, row_of-sync_entries_other}
use signal_observatory.Registry.Entries.Synced.{
  Synced, sync_entries-Synced, changes_none, orphans-sync_entries, sync_entries_old-eq, row_exists,
}
use signal_observatory.Registry.Entities.{category_columns, category_parent, category, parent_of}

-- A category's parent is a category of the registry.
abbrev pub ParentKnown : List CategoryDefinition → Option String → Type 0
ParentKnown ds none = Unit
ParentKnown ds (some p) = is_wanted category ds p ≡ true

module _ (ds : List CategoryDefinition) (rows : List CategoryDefinition)
    (unique : UniqueKeys category ds) where
  abbrev first : List CategoryDefinition
  first = sync_entries category_columns ds rows

  abbrev final : List CategoryDefinition
  final = sync_entries_old (category_parent first) first ds first

  final_lem : final ≡ sync_entries (category_parent first) ds first
  final_lem = sync_entries_old-eq (category_parent first) ds first unique

  wanted_exists :
      (cs : List CategoryDefinition) (p : String)
      → All (Synced category_columns rows first) cs
      → is_wanted category cs p ≡ true
      → exists (matches category p) first ≡ true
  wanted_exists [] p a h = cc
  wanted_exists (c ∷ cs) p a h = elim (Bool-cases (str_eq c.slug p)) [
    | inl e ↦ rw (← (eq_iff c.slug p).0 e) (row_exists category_columns c.slug first ∙ rw a.0 refl)
    | inr e ↦ wanted_exists cs p a.1 (ground arith)
  ]

  parent_lem : (o : Option String) → ParentKnown ds o → parent_of first o ≡ o
  parent_lem none h = refl
  parent_lem (some p) h =
      rw (wanted_exists ds p (sync_entries-Synced category_columns ds rows unique) h)

  both_passes :
      (d : CategoryDefinition)
      → Synced category_columns rows first d
      → Synced (category_parent first) first final d
      → ParentKnown ds d.parent
      → Synced category rows final d
  both_passes d a b k = b ∙ rw a (rw (parent_lem d.parent k) refl)

  each_passes :
      (cs : List CategoryDefinition)
      → All (Synced category_columns rows first) cs
      → All (Synced (category_parent first) first final) cs
      → All (λ d. ParentKnown ds d.parent) cs
      → All (Synced category rows final) cs
  each_passes [] a b k = tt
  each_passes (c ∷ cs) a b k = (both_passes c a.0 b.0 k.0, each_passes cs a.1 b.1 k.1)

  pub final-Synced : All (λ d. ParentKnown ds d.parent) ds → All (Synced category rows final) ds
  final-Synced k =
      each_passes ds (sync_entries-Synced category_columns ds rows unique)
        (rw final_lem (sync_entries-Synced (category_parent first) ds first unique)) k

  pub changes-final : All (λ d. ParentKnown ds d.parent) ds → changes category ds final ≡ []
  changes-final k = changes_none category ds rows final (final-Synced k)

  pub row_of-final :
      (k : String)
      → is_wanted category ds k ≡ false
      → row_of category k final ≡ row_of category k rows
  row_of-final k h = rw final_lem (
      row_of-sync_entries_other (category_parent first) ds k first h
      ∙ row_of-sync_entries_other category_columns ds k rows h)

  pub orphans-final : orphans category ds final ≡ orphans category ds rows
  unfolding orphans unwanted
  orphans-final = rw final_lem (
      orphans-sync_entries (category_parent first) ds first
      ∙ orphans-sync_entries category_columns ds rows)
