-- ===== src/Registry/Sync/Topics.antt =====
-- Topics after a synchronisation, with their aliases and mappings.
use signal_observatory.Prelude.{
  ℕ, not, Option, none, some, List, [], ◌∷◌, map, String, str_eq, exists, ◌≡◌, refl, All, Result,
  ok, ◌>>◌, raise_if, raise_if_passed, bind_passed,
}
use signal_observatory.Registry.Values.{CategoryDefinition, TopicDefinition, TopicRow}
use signal_observatory.Registry.Entries.{row_of, orphans, sync_entry, sync_entries, base, change_of}
use signal_observatory.Errors.{Error, integrity_error, missing_category}
use signal_observatory.Registry.Entries.Texts.{sort_texts}
use signal_observatory.Registry.Entries.Laws.{UniqueKeys}
use signal_observatory.Registry.Entries.Synced.{
  Synced, sync_entries-Synced, changes-sync_entries, orphans-sync_entries, sync_entries_old-eq,
  dict_of_unique, view-base, differs_self,
}
use signal_observatory.Registry.Entities.{alias, mapping}
use signal_observatory.Registry.Topics.{topic, write_topic, new_topic, topic_definition}
use signal_observatory.Registry.Compare.{
  compare_topic, topic_orphans, compare_topics, topics_orphans,
}
use signal_observatory.Registry.Sync.{sync_topic, sync_topics, has_duplicate, row_clashes}

-- The aliases and the sources of a topic have distinct keys.
abbrev pub UniqueParts : TopicDefinition → Type 0
UniqueParts d = UniqueKeys alias d.aliases × UniqueKeys mapping d.sources

module _ (normalize : String → String) (version now : ℕ) where
  sync_topic-eq :
      (categories : List CategoryDefinition) (d : TopicDefinition) (rows : List TopicRow)
      {rows' : List TopicRow}
      → sync_topic normalize version now categories d rows ≡ ok rows'
      → sync_entry (topic normalize version now) d rows ≡ rows'
  unfolding sync_topic
  sync_topic-eq categories d rows h =
      let e = topic normalize version now in
      let rows1 = sync_entry e d rows in
      let last : Result Error (List TopicRow) =
        raise_if (row_clashes (row_of e d.slug rows1)) integrity_error >> ok rows1 in
      let mid : Result Error (List TopicRow) =
        raise_if (has_duplicate (map (λ r. r.normalized_name) rows1)) integrity_error >> last in
      let a =
        raise_if_passed (not (exists (λ c. str_eq c.slug d.category) categories)) missing_category
          mid h in
      let b =
        raise_if_passed (has_duplicate (map (λ r. r.normalized_name) rows1)) integrity_error last
          a in
      let c = raise_if_passed (row_clashes (row_of e d.slug rows1)) integrity_error (ok rows1) b in
      cc c

  pub sync_topics-eq :
      (categories : List CategoryDefinition) (ds : List TopicDefinition) (rows : List TopicRow)
      {rows' : List TopicRow}
      → sync_topics normalize version now categories ds rows ≡ ok rows'
      → sync_entries (topic normalize version now) ds rows ≡ rows'
  unfolding sync_topics sync_entries
  sync_topics-eq categories [] rows h = cc
  sync_topics-eq categories (d ∷ ds) rows h =
      let (r, k, q) =
        bind_passed (sync_topic normalize version now categories d rows)
          (sync_topics normalize version now categories ds) h in
      rw (sync_topic-eq categories d rows q) (sync_topics-eq categories ds r k)

  compare_written :
      (d : TopicDefinition) (rows : List TopicRow)
      → UniqueParts d
      → compare_topic normalize d (
          some (
            write_topic normalize version now d (
              base
                (topic normalize version now)
                d
                (row_of (topic normalize version now) d.slug rows))))
        ≡ []
  unfolding compare_topic change_of
  compare_written d rows u =
      let r =
        base (topic normalize version now) d (row_of (topic normalize version now) d.slug rows) in
      rw (view-base (topic normalize version now) d rows) (
        rw (differs_self (topic normalize 0 0) (topic_definition normalize d)) (
          rw (dict_of_unique alias d.aliases u.0) (
            rw (sync_entries_old-eq alias d.aliases r.aliases u.0) (
              rw (changes-sync_entries alias d.aliases r.aliases u.0) (
                rw (dict_of_unique mapping d.sources u.1) (
                  rw (sync_entries_old-eq mapping d.sources r.mappings u.1)
                    (rw (changes-sync_entries mapping d.sources r.mappings u.1))))))))

  written_orphans :
      (d : TopicDefinition) (r : TopicRow)
      → UniqueParts d
      → topic_orphans normalize d (some (write_topic normalize version now d r))
        ≡ topic_orphans normalize d (some r)
  unfolding topic_orphans
  written_orphans d r u = rw (sync_entries_old-eq alias d.aliases r.aliases u.0) (
      rw (sync_entries_old-eq mapping d.sources r.mappings u.1) (
        rw (dict_of_unique alias d.aliases u.0) (
          rw (dict_of_unique mapping d.sources u.1) (
            rw (orphans-sync_entries alias d.aliases r.aliases)
              (rw (orphans-sync_entries mapping d.sources r.mappings))))))

  new_orphans :
      (d : TopicDefinition) → topic_orphans normalize d (some (new_topic normalize d)) ≡ []
  unfolding topic_orphans orphans sort_texts
  new_orphans d = refl

  base_orphans :
      (d : TopicDefinition) (o : Option TopicRow)
      → topic_orphans normalize d (some (base (topic normalize version now) d o))
        ≡ topic_orphans normalize d o
  unfolding topic_orphans
  base_orphans d none = new_orphans d
  base_orphans d (some r) = refl

  abbrev Written : List TopicRow → List TopicRow → TopicDefinition → Type 0
  Written rows rows' d = Synced (topic normalize version now) rows rows' d

  compare_each :
      (ds : List TopicDefinition) (rows rows' : List TopicRow)
      → All (Written rows rows') ds
      → All UniqueParts ds
      → compare_topics normalize ds rows' ≡ []
  unfolding compare_topics
  compare_each [] rows rows' a u = refl
  compare_each (d ∷ ds) rows rows' a u =
      rw a.0 (rw (compare_written d rows u.0) (compare_each ds rows rows' a.1 u.1))

  orphans_each :
      (ds : List TopicDefinition) (rows rows' : List TopicRow)
      → All (Written rows rows') ds
      → All UniqueParts ds
      → topics_orphans normalize ds rows' ≡ topics_orphans normalize ds rows
  unfolding topics_orphans
  orphans_each [] rows rows' a u = refl
  orphans_each (d ∷ ds) rows rows' a u =
      let o = row_of (topic normalize version now) d.slug rows in
      rw a.0 (
        rw (written_orphans d (base (topic normalize version now) d o) u.0)
          (rw (base_orphans d o) (rw (orphans_each ds rows rows' a.1 u.1))))

  module _ (ds : List TopicDefinition) (rows : List TopicRow)
      (unique : UniqueKeys (topic normalize version now) ds) (parts : All UniqueParts ds) where
    abbrev synced : List TopicRow
    synced = sync_entries (topic normalize version now) ds rows

    pub compare_topics-synced : compare_topics normalize ds synced ≡ []
    compare_topics-synced =
        compare_each ds rows synced
          (sync_entries-Synced (topic normalize version now) ds rows unique) parts

    pub topics_orphans-synced :
        topics_orphans normalize ds synced ≡ topics_orphans normalize ds rows
    topics_orphans-synced =
        orphans_each ds rows synced
          (sync_entries-Synced (topic normalize version now) ds rows unique) parts
