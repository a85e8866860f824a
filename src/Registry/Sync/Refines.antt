-- ===== src/Registry/Sync/Refines.antt =====
-- The abstract specification: a catalogue says what stands under each key, whatever the order of
-- the rows, the versions and the rows that the registry does not manage. A synchronisation lays the registry over it.
use signal_observatory.Prelude.{
  ℕ, false, Option, none, some, List, [], ◌∷◌, map, String, if◌then◌else◌, is_empty, ◌≡◌, refl, All,
  All-mono, ok,
}
use signal_observatory.Errors.{Error}
use signal_observatory.Registry.Values.{
  CategoryDefinition, TopicContent, AliasContent, MappingContent, TopicDefinition, TopicRow,
}
use signal_observatory.Registry.Entries.{changes, row_of, change_of}
use signal_observatory.Registry.Entries.Laws.{UniqueKeys}
use signal_observatory.Registry.Entries.Contents.{
  overlay, stored, defined, in_table, in_registry, in_table-Synced, in_table-sync_entries,
}
use signal_observatory.Registry.Entries.Unchanged.{
  append_none, map_none, Laid, stored-Laid, change_of-some, in_table_unchanged,
}
use signal_observatory.Registry.Entities.{category, alias, mapping}
use signal_observatory.Registry.Topics.{topic, topic_record, topic_definition}
use signal_observatory.Registry.Sync.Outcomes.{Outcome, kept, applied, sync-Outcome, is_empty_lem}
use signal_observatory.Registry.Sync.Parts.{parts-new_topics, NoPartChange, parts_unchanged}
use signal_observatory.Registry.Compare.{
  compare, RegistryChange, Registry, RegistryDiff, compare_topic, compare_topics, entry_changes,
  category_change,
}
use signal_observatory.Registry.Sync.{Database, SyncReport, sync, next_version}
use signal_observatory.Registry.Sync.Categories.{final-Synced, row_of-final}
use signal_observatory.Registry.Sync.Topics.{UniqueParts}
use signal_observatory.Registry.Sync.Converges.{IsWellFormed, IsApplied, Settled}

-- What stands under a slug, and under a slug with an alias' text or a source's name.
pub record Catalogue : Type 0 where
  pub categories : String → Option CategoryDefinition
  pub topics : String → Option TopicContent
  pub aliases : String → String → Option AliasContent
  pub mappings : String → String → Option MappingContent

module _ (normalize : String → String) where
  abbrev pub catalogue : Database → Catalogue
  catalogue db = record {
    categories = λ slug. in_table category slug db.categories;
    topics = λ slug. in_table (topic normalize 0 0) slug db.topics;
    aliases = λ slug text.
        stored (topic normalize 0 0) (λ r. in_table alias text r.aliases) slug db.topics;
    mappings = λ slug source.
        stored (topic normalize 0 0) (λ r. in_table mapping source r.mappings) slug db.topics;
  }

  abbrev pub wanted_catalogue : Registry → Catalogue
  wanted_catalogue reg = record {
    categories = λ slug. in_registry category slug reg.categories;
    topics = λ slug. in_registry (topic normalize 0 0) slug reg.topics;
    aliases = λ slug text.
        defined (topic normalize 0 0) (λ d. in_registry alias text d.aliases) slug reg.topics;
    mappings = λ slug source.
        defined (topic normalize 0 0) (λ d. in_registry mapping source d.sources) slug reg.topics;
  }

abbrev pub lay : Catalogue → Catalogue → Catalogue
lay new old = record {
  categories = λ slug. overlay (new.categories slug) (old.categories slug);
  topics = λ slug. overlay (new.topics slug) (old.topics slug);
  aliases = λ slug text. overlay (new.aliases slug text) (old.aliases slug text);
  mappings = λ slug source. overlay (new.mappings slug source) (old.mappings slug source);
}

abbrev Agrees : Catalogue → Catalogue → Type 0
Agrees a b =
    ((slug : String) → a.categories slug ≡ b.categories slug)
    × ((slug : String) → a.topics slug ≡ b.topics slug)
    × ((slug text : String) → a.aliases slug text ≡ b.aliases slug text)
    × ((slug source : String) → a.mappings slug source ≡ b.mappings slug source)

agrees_lem : (a b : Catalogue) → Agrees a b → a ≡ b
agrees_lem a b (c, t, l, m) = λ i. record {
  categories = λ slug. c slug i;
  topics = λ slug. t slug i;
  aliases = λ slug text. l slug text i;
  mappings = λ slug source. m slug source i;
}

-- After a synchronisation that is applied.
module _ (normalize : String → String) (reg : Registry) (diff : RegistryDiff) (applied_by : String)
    (now : ℕ) (db db' : Database) (w : IsWellFormed normalize reg) where
  applied_lem :
      IsApplied normalize reg diff applied_by now db db'
      → catalogue normalize db' ≡ lay (wanted_catalogue normalize reg) (catalogue normalize db)
  applied_lem a =
      let version = next_version diff.latest_version in
      agrees_lem _ _ (
        λ slug. rw (← a.categories) (
            in_table-Synced category slug reg.categories db.categories _
              (final-Synced reg.categories db.categories w.categories w.parents)
              (row_of-final reg.categories db.categories w.categories slug)),
        λ slug. rw (← a.topics) (
            in_table-sync_entries (topic normalize version now) slug reg.topics db.topics w.topics),
        λ slug text. rw (← a.topics) (
            parts-new_topics alias (λ d. d.aliases) (λ r. r.aliases) normalize version now
              (λ d r. refl) (λ d. refl) text slug reg.topics db.topics w.topics
              (All-mono UniqueParts (λ d. UniqueKeys alias d.aliases) reg.topics (λ d u. u.0)
                w.parts)),
        λ slug source. rw (← a.topics) (
            parts-new_topics mapping (λ d. d.sources) (λ r. r.mappings) normalize version now
              (λ d r. refl) (λ d. refl) source slug reg.topics db.topics w.topics
              (All-mono UniqueParts (λ d. UniqueKeys mapping d.sources) reg.topics (λ d u. u.1)
                w.parts)),
      )

-- Where the comparison finds no change.
module _ (normalize : String → String) where
  abbrev NoChange : List TopicRow → TopicDefinition → Type 0
  NoChange rows d =
      Laid (topic normalize 0 0) (λ d. some (topic_definition normalize d))
        (λ r. some (topic_record r)) rows d
      × NoPartChange alias (λ d. d.aliases) (λ r. r.aliases) normalize rows d
      × NoPartChange mapping (λ d. d.sources) (λ r. r.mappings) normalize rows d

  NoChange-in :
      (d : TopicDefinition) (rows : List TopicRow) (o : Option TopicRow)
      → row_of (topic normalize 0 0) d.slug rows ≡ o
      → compare_topic normalize d o ≡ []
      → NoChange rows d
  unfolding compare_topic change_of
  NoChange-in d rows none q h = cc
  NoChange-in d rows (some r) q h =
      let (t, rest) = append_none _ h in
      let (a, m) = append_none _ rest in
      (
        rw q (rw (change_of-some (topic normalize 0 0) d r (map_none _ _ t)) refl),
        (r, q, map_none _ _ a),
        (r, q, map_none _ _ m),
      )

  no_change :
      (ds : List TopicDefinition) (rows : List TopicRow)
      → compare_topics normalize ds rows ≡ []
      → All (NoChange rows) ds
  unfolding compare_topics
  no_change [] rows h = tt
  no_change (d ∷ ds) rows h =
      let (a, b) = append_none _ h in
      (NoChange-in d rows (row_of (topic normalize 0 0) d.slug rows) refl a, no_change ds rows b)

  settled_lem :
      (reg : Registry) (db : Database)
      → IsWellFormed normalize reg
      → entry_changes normalize reg db.categories db.topics ≡ []
      → catalogue normalize db ≡ lay (wanted_catalogue normalize reg) (catalogue normalize db)
  unfolding entry_changes
  settled_lem reg db w h =
      let (c, t) =
        append_none (map category_change (changes category reg.categories db.categories)) h in
      let n = no_change reg.topics db.topics t in
      let topics =
        All-mono (NoChange db.topics)
          (Laid (topic normalize 0 0) (λ d. some (topic_definition normalize d))
            (λ r. some (topic_record r)) db.topics)
          reg.topics (λ d (l, a, m). l) n in
      let aliases =
        All-mono (NoChange db.topics)
          (NoPartChange alias (λ d. d.aliases) (λ r. r.aliases) normalize db.topics) reg.topics
          (λ d (l, a, m). a) n in
      let mappings =
        All-mono (NoChange db.topics)
          (NoPartChange mapping (λ d. d.sources) (λ r. r.mappings) normalize db.topics) reg.topics
          (λ d (l, a, m). m) n in
      agrees_lem _ _ (
        λ slug. in_table_unchanged category slug reg.categories db.categories (map_none _ _ c),
        λ slug. stored-Laid (topic normalize 0 0) _ _ slug reg.topics db.topics topics,
        λ slug text.
            parts_unchanged alias (λ d. d.aliases) (λ r. r.aliases) normalize text slug reg.topics
              db.topics aliases
              (All-mono UniqueParts (λ d. UniqueKeys alias d.aliases) reg.topics (λ d u. u.0)
                w.parts),
        λ slug source.
            parts_unchanged mapping (λ d. d.sources) (λ r. r.mappings) normalize source slug
              reg.topics db.topics mappings
              (All-mono UniqueParts (λ d. UniqueKeys mapping d.sources) reg.topics (λ d u. u.1)
                w.parts),
      )

entries_none :
    (entries others : List RegistryChange)
    → (if is_empty entries then others else entries) ≡ []
    → entries ≡ []
entries_none [] others h = refl
entries_none (x ∷ xs) others h = cc

module _ (normalize : String → String) (reg : Registry) (applied_by : String) (now : ℕ)
    (hook : Option Error) (db : Database) where
  Settled-lay :
      (db' : Database)
      → IsWellFormed normalize reg
      → Settled normalize reg db'
      → catalogue normalize db' ≡ lay (wanted_catalogue normalize reg) (catalogue normalize db')
  unfolding compare
  Settled-lay db' w h =
      settled_lem normalize reg db' w
        (entries_none (entry_changes normalize reg db'.categories db'.topics) _ h)

  outcome_lem :
      {db' : Database} {report : SyncReport}
      → IsWellFormed normalize reg
      → Outcome normalize reg applied_by now hook db false db' (ok report)
      → catalogue normalize db' ≡ lay (wanted_catalogue normalize reg) (catalogue normalize db)
  outcome_lem {db'} w (kept q e) = rw e (Settled-lay db w (is_empty_lem q))
  outcome_lem {db'} w (applied q a l) = applied_lem normalize reg _ applied_by now db db' w a

  -- For a registry whose keys are distinct and whose parents are its categories: after a call that
  -- returns and is no dry run, the catalogue of the database is the registry laid over the catalogue
  -- before. Each category, topic, alias and mapping of the registry has its content, and everything
  -- that the registry does not have is retained.
  pub catalogue-sync :
      {db' : Database} {report : SyncReport}
      → IsWellFormed normalize reg
      → sync normalize db reg false applied_by now hook ≡ (db', ok report)
      → catalogue normalize db' ≡ lay (wanted_catalogue normalize reg) (catalogue normalize db)
  catalogue-sync w h =
      outcome_lem w (rw h at (sync-Outcome normalize reg applied_by now hook db false))
