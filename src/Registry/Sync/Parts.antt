-- ===== src/Registry/Sync/Parts.antt =====
-- The parts of topics, aliases and mappings alike: a synchronisation lays those of the registry over
-- those of the table.
use signal_observatory.Prelude.{ℕ, Option, none, some, List, [], ◌∷◌, String, ◌≡◌, refl, ◌∙◌, All}
use signal_observatory.Registry.Values.{TopicDefinition, TopicRow}
use signal_observatory.Registry.Entries.{
  Entity, changes, row_of, base, sync_entries, sync_entries_old, dict_of,
}
use signal_observatory.Registry.Entries.Laws.{UniqueKeys, row_of-sync_entries_other}
use signal_observatory.Registry.Entries.Synced.{
  sync_entries-Synced, sync_entries_old-eq, dict_of_unique,
}
use signal_observatory.Registry.Entries.Contents.{
  overlay, seen, stored, defined, in_table, in_registry, Overlaid, stored-Synced,
  in_table-sync_entries,
}
use signal_observatory.Registry.Entries.Unchanged.{Laid, stored-Laid, in_table_unchanged}
use signal_observatory.Registry.Topics.{topic, new_topic, write_topic}

-- The parts of topics, which aliases and mappings are: their key and content, and their place in a
-- definition and in a row.
module _ {P Q X : Type 0} (part : Entity P Q X) (wanted_parts : TopicDefinition → List P)
    (parts : TopicRow → List Q) (normalize : String → String) where
  abbrev UniqueIn : TopicDefinition → Type 0
  UniqueIn d = UniqueKeys part (wanted_parts d)

  abbrev of_definition : String → TopicDefinition → Option X
  of_definition key d = in_registry part key (wanted_parts d)

  abbrev of_row : String → TopicRow → Option X
  of_row key r = in_table part key (parts r)

  module _ (version now : ℕ)
      (writes : (d : TopicDefinition) (r : TopicRow)
        → parts (write_topic normalize version now d r)
          ≡ sync_entries_old part (parts r) (wanted_parts d) (parts r))
      (empty : (d : TopicDefinition) → parts (new_topic normalize d) ≡ []) where
    parts-write :
        (key : String) (d : TopicDefinition) (r : TopicRow)
        → UniqueIn d
        → of_row key (write_topic normalize version now d r)
          ≡ overlay (of_definition key d) (of_row key r)
    parts-write key d r u = rw (writes d r) (
        rw (sync_entries_old-eq part (wanted_parts d) (parts r) u)
          (in_table-sync_entries part key (wanted_parts d) (parts r) u))

    parts-write_base :
        (key : String) (d : TopicDefinition) (o : Option TopicRow)
        → UniqueIn d
        → of_row key (write_topic normalize version now d (base (topic normalize version now) d o))
          ≡ overlay (of_definition key d) (seen (of_row key) o)
    parts-write_base key d none u = parts-write key d (new_topic normalize d) u ∙ rw (empty d) refl
    parts-write_base key d (some r) u = parts-write key d r u

    parts-Overlaid :
        (key : String) (ds : List TopicDefinition) (rows : List TopicRow)
        → All UniqueIn ds
        → All (Overlaid (topic normalize version now) (of_definition key) (of_row key) rows) ds
    parts-Overlaid key [] rows u = tt
    parts-Overlaid key (d ∷ ds) rows u = (
      parts-write_base key d (row_of (topic normalize version now) d.slug rows) u.0,
      parts-Overlaid key ds rows u.1,
    )

    pub parts-new_topics :
        (key slug : String) (ds : List TopicDefinition) (rows : List TopicRow)
        → UniqueKeys (topic normalize version now) ds
        → All UniqueIn ds
        → stored
            (topic normalize version now)
            (of_row key)
            slug
            (sync_entries (topic normalize version now) ds rows)
          ≡ overlay
              (defined (topic normalize version now) (of_definition key) slug ds)
              (stored (topic normalize version now) (of_row key) slug rows)
    parts-new_topics key slug ds rows w u =
        let e = topic normalize version now in
        stored-Synced e _ _ slug ds rows (sync_entries e ds rows) (sync_entries-Synced e ds rows w)
          (parts-Overlaid key ds rows u) (row_of-sync_entries_other e ds slug rows)

  -- A comparison that finds no change in the parts of topics.
  abbrev pub NoPartChange : List TopicRow → TopicDefinition → Type 0
  NoPartChange rows d =
      (r : TopicRow) × (row_of (topic normalize 0 0) d.slug rows ≡ some r)
      × (changes part (dict_of part (wanted_parts d)) (parts r) ≡ [])

  pub parts_unchanged :
      (key slug : String) (ds : List TopicDefinition) (rows : List TopicRow)
      → All (NoPartChange rows) ds
      → All UniqueIn ds
      → stored (topic normalize 0 0) (of_row key) slug rows
        ≡ overlay
            (defined (topic normalize 0 0) (of_definition key) slug ds)
            (stored (topic normalize 0 0) (of_row key) slug rows)
  parts_unchanged key slug ds rows a u =
      stored-Laid (topic normalize 0 0) _ _ slug ds rows (laid ds a u)
    where
      laid :
          (ds : List TopicDefinition)
          → All (NoPartChange rows) ds
          → All UniqueIn ds
          → All (Laid (topic normalize 0 0) (of_definition key) (of_row key) rows) ds
      laid [] a u = tt
      laid (d ∷ ds) ((r, q, c), a) u = (
        rw q (
            in_table_unchanged part key (wanted_parts d) (parts r)
              (rw (dict_of_unique part (wanted_parts d) u.0) at c)),
        laid ds a u.1,
      )
