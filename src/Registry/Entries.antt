-- ===== src/Registry/Entries.antt =====
-- What the comparisons and synchronisations of categories, topics, aliases and mappings have in
-- common: entries of the registry, found in a table by a key. `Entity` is what each of the four
-- supplies, with the laws that its implementation meets.
pub mod Texts
pub mod Laws
pub mod Synced
pub mod Contents
pub mod Unchanged
use signal_observatory.Prelude.{
  ℕ, Bool, true, false, not, ◌&&◌, Option, none, some, List, [], ◌∷◌, ◌++◌, map, String, str_eq,
  if◌then◌else◌, exists, find, select, ◌≡◌, ◌↔◌,
}
use signal_observatory.Registry.Entries.Texts.{sort_texts}

pub record Entity (D R C : Type 0) : Type 0 where
  -- the definition's key and content, and the row's
  pub key : D → String
  pub wanted : D → C
  pub row_key : R → String
  pub view : R → C
  -- rows of the table that the registry does not manage are left out
  pub managed : R → Bool
  -- a new row, and the assignments to a row
  pub fresh : D → R
  pub write : D → R → R
  pub discrete : Discrete C
  pub fresh_managed : (d : D) → managed (fresh d) ≡ true
  pub fresh_key : (d : D) → row_key (fresh d) ≡ key d
  pub write_managed : (d : D) (r : R) → managed (write d r) ≡ managed r
  pub write_key : (d : D) (r : R) → row_key (write d r) ≡ row_key r
  pub view-write :
      (d : D) (r : R) → row_key r ≡ key d → managed r ≡ true → view (write d r) ≡ wanted d

pub data Change (C : Type 0) : Type 0 where
  create : String → C → Change C
  update : String → C → C → Change C

module _ {D R C : Type 0} (e : Entity D R C) where
  abbrev pub matches : String → R → Bool
  matches k r = e.managed r && str_eq (e.row_key r) k

  -- The dictionary's `get`.
  abbrev pub row_of : String → List R → Option R
  row_of k rows = find (matches k) rows

  -- `before != after`.
  unfoldable pub differs : C → C → Bool
  differs a b = elim (e.discrete a b) [ yes _ ↦ false | no _ ↦ true ]

  unfoldable pub change_of : D → Option R → List (Change C)
  unfolding differs
  change_of d none = create (e.key d) (e.wanted d) ∷ []
  change_of d (some r) =
      if differs (e.view r) (e.wanted d) then update (e.key d) (e.view r) (e.wanted d) ∷ [] else []

  -- The changes of the definitions in turn.
  unfoldable pub changes : List D → List R → List (Change C)
  unfolding change_of
  changes [] rows = []
  changes (d ∷ ds) rows = change_of d (row_of (e.key d) rows) ++ changes ds rows

  abbrev pub is_wanted : List D → String → Bool
  is_wanted ds k = exists (λ d. str_eq (e.key d) k) ds

  -- A dictionary comprehension over definitions: a later one takes the place of an earlier one.
  put : D → List D → List D
  put d [] = d ∷ []
  put d (c ∷ cs) = if str_eq (e.key c) (e.key d) then d ∷ cs else c ∷ put d cs

  dict_from : List D → List D → List D
  unfolding put
  dict_from dict [] = dict
  dict_from dict (d ∷ ds) = dict_from (put d dict) ds

  unfoldable pub dict_of : List D → List D
  unfolding dict_from
  dict_of ds = dict_from [] ds

  -- The managed keys that the registry does not have, in the order of the table.
  unfoldable pub unwanted : List D → List R → List String
  unwanted ds rows =
      map e.row_key (select (λ r. e.managed r && not (is_wanted ds (e.row_key r))) rows)

  unfoldable pub orphans : List D → List R → List String
  unfolding unwanted
  orphans ds rows = sort_texts (unwanted ds rows)

  -- The row that a definition is written to.
  abbrev pub base : D → Option R → R
  base d none = e.fresh d
  base d (some r) = r

  -- The row with the key is written; a missing one is added first.
  unfoldable pub sync_entry : D → List R → List R
  sync_entry d rows =
      if exists (matches (e.key d)) rows
      then map (λ r. if matches (e.key d) r then e.write d r else r) rows
      else rows ++ (e.write d (e.fresh d) ∷ [])

  -- The loop over the definitions, whose dictionary has the rows added so far.
  unfoldable pub sync_entries : List D → List R → List R
  unfolding sync_entry
  sync_entries [] rows = rows
  sync_entries (d ∷ ds) rows = sync_entries ds (sync_entry d rows)

  -- The same where the dictionary is that of the rows `old` before the loop.
  unfoldable pub sync_entry_old : List R → D → List R → List R
  sync_entry_old old d rows =
      if exists (matches (e.key d)) old
      then map (λ r. if matches (e.key d) r then e.write d r else r) rows
      else rows ++ (e.write d (e.fresh d) ∷ [])

  unfoldable pub sync_entries_old : List R → List D → List R → List R
  unfolding sync_entry_old
  sync_entries_old old [] rows = rows
  sync_entries_old old (d ∷ ds) rows = sync_entries_old old ds (sync_entry_old old d rows)
