-- ===== src/Registry/Entries/Contents.antt =====
-- The abstract view of a table and of the registry: what stands under a key. A synchronisation lays
-- the registry over the table.
use signal_observatory.Prelude.{
  false, Option, none, some, List, [], ◌∷◌, String, str_eq, eq_iff, if◌then◌else◌, ◌≡◌, refl,
  Bool-cases, inl, inr, All,
}
use signal_observatory.Registry.Entries.{Entity, row_of, is_wanted, base, sync_entries}
use signal_observatory.Registry.Entries.Laws.{UniqueKeys, row_of-sync_entries_other}
use signal_observatory.Registry.Entries.Synced.{Synced, sync_entries-Synced, view-base}

-- What the registry says, and otherwise what was there.
abbrev pub overlay {ℓ} : {X : Type ℓ} → Option X → Option X → Option X
overlay none old = old
overlay (some new) old = some new

abbrev pub seen {ℓ} : {R : Type 0} {X : Type ℓ} → (R → Option X) → Option R → Option X
seen f none = none
seen f (some r) = f r

module _ {D R C : Type 0} (e : Entity D R C) where
  -- The first definition with the key.
  abbrev pub defined {ℓ} : {X : Type ℓ} → (D → Option X) → String → List D → Option X
  defined g k [] = none
  defined g k (d ∷ ds) = if str_eq (e.key d) k then g d else defined g k ds

  abbrev pub stored {ℓ} : {X : Type ℓ} → (R → Option X) → String → List R → Option X
  stored f k rows = seen f (row_of e k rows)

  -- A field of a row that is written is laid over the one before.
  abbrev pub Overlaid {ℓ} : {X : Type ℓ} → (D → Option X) → (R → Option X) → List R → D → Type ℓ
  Overlaid g f rows d =
      f (e.write d (base e d (row_of e (e.key d) rows))) ≡ overlay (g d) (stored f (e.key d) rows)

  pub stored-Synced {ℓ} :
      {X : Type ℓ} (g : D → Option X) (f : R → Option X) (k : String) (ds : List D)
      (rows rows' : List R)
      → All (Synced e rows rows') ds
      → All (Overlaid g f rows) ds
      → (is_wanted e ds k ≡ false → row_of e k rows' ≡ row_of e k rows)
      → stored f k rows' ≡ overlay (defined g k ds) (stored f k rows)
  stored-Synced g f k [] rows rows' s o other = rw (other refl)
  stored-Synced g f k (d ∷ ds) rows rows' s o other = elim (Bool-cases (str_eq (e.key d) k)) [
    | inl m ↦ rw m (rw (← (eq_iff (e.key d) k).0 m) (rw s.0 o.0))
    | inr m ↦ rw m (stored-Synced g f k ds rows rows' s.1 o.1 (λ q. other (rw m (rw q refl))))
  ]

  contents-Overlaid :
      (ds : List D) (rows : List R)
      → All (Overlaid (λ d. some (e.wanted d)) (λ r. some (e.view r)) rows) ds
  contents-Overlaid [] rows = tt
  contents-Overlaid (d ∷ ds) rows = (rw (view-base e d rows) refl, contents-Overlaid ds rows)

  abbrev pub in_table : String → List R → Option C
  in_table k rows = stored (λ r. some (e.view r)) k rows

  abbrev pub in_registry : String → List D → Option C
  in_registry k ds = defined (λ d. some (e.wanted d)) k ds

  pub in_table-Synced :
      (k : String) (ds : List D) (rows rows' : List R)
      → All (Synced e rows rows') ds
      → (is_wanted e ds k ≡ false → row_of e k rows' ≡ row_of e k rows)
      → in_table k rows' ≡ overlay (in_registry k ds) (in_table k rows)
  in_table-Synced k ds rows rows' s other =
      stored-Synced _ _ k ds rows rows' s (contents-Overlaid ds rows) other

  pub in_table-sync_entries :
      (k : String) (ds : List D) (rows : List R)
      → UniqueKeys e ds
      → in_table k (sync_entries e ds rows) ≡ overlay (in_registry k ds) (in_table k rows)
  in_table-sync_entries k ds rows u =
      in_table-Synced k ds rows (sync_entries e ds rows) (sync_entries-Synced e ds rows u)
        (row_of-sync_entries_other e ds k rows)
