-- ===== src/Registry/Compare.antt =====
-- `TopicRegistryDiffService.compare` and `warning_payloads` (diff.py). Metadata are compared as canonical
-- JSON texts: values that JSON changes (nested keys that are no strings) or that differ from themselves
-- (NaN) are outside the model.
pub mod Warnings
use signal_observatory.Prelude.{
  ℕ, zero, Bool, true, false, not, ◌&&◌, ◌||◌, Option, none, some, List, [], ◌∷◌, ◌++◌, map, String,
  str_eq, if◌then◌else◌, is_empty, select, length, leb,
}
use Prim.Native.String.{◌++◌ as append}
use signal_observatory.Registry.Values.{
  CategoryDefinition, AliasContent, MappingContent, TopicDefinition, TopicRow, TopicContent,
}
use signal_observatory.Registry.Entries.{
  Change, create, update, changes, change_of, row_of, orphans, dict_of,
}
use signal_observatory.Registry.Entities.{category, alias, mapping, mapping_definition}
use signal_observatory.Registry.Topics.{topic}
use signal_observatory.Registry.Compare.Warnings.{Warning, warning, warning_payloads, same_warnings}

pub record Registry : Type 0 where
  pub categories : List CategoryDefinition
  pub topics : List TopicDefinition
  pub checksum : String
  pub source_file_count : ℕ
  pub warnings : List Warning

-- `TopicRegistryVersion`; its metadata hold the warnings.
pub record Version : Type 0 where
  pub version : ℕ
  pub checksum : String
  pub source_file_count : ℕ
  pub topic_count : ℕ
  pub alias_count : ℕ
  pub mapping_count : ℕ
  pub applied_by : String
  pub warning_count : ℕ
  pub warnings : List Warning

-- `RegistryChange`: an entry's change with its entity type, and the topic for a part of one.
pub data RegistryChange : Type 0 where
  category_change : Change CategoryDefinition → RegistryChange
  topic_change : Change TopicContent → RegistryChange
  alias_change : String → Change AliasContent → RegistryChange
  mapping_change : String → Change MappingContent → RegistryChange
  registry_update : String → List Warning → String → List Warning → RegistryChange

pub record RegistryDiff : Type 0 where
  pub checksum : String
  pub changes : List RegistryChange
  pub warnings : List Warning
  pub latest_version : Option ℕ
  pub latest_checksum : Option String

-- `ORDER BY version DESC LIMIT 1`.
unfoldable pub latest : List Version → Option Version
latest [] = none
latest (v ∷ vs) = elim (latest vs) [
  | none ↦ some v
  | some u ↦ some (if leb v.version u.version then u else v)
]

abbrev pub orphaned_category : String → Warning
orphaned_category slug =
    warning "ORPHANED_DATABASE_CATEGORY"
      (append "database category " (append slug " is absent from registry YAML and was retained"))
      slug

abbrev pub orphaned_topic : String → Warning
orphaned_topic slug =
    warning "ORPHANED_DATABASE_TOPIC"
      (append "database topic " (append slug " is absent from registry YAML and was retained")) slug

-- `f"{slug}:{part}"`.
abbrev pub part_key : String → String → String
part_key slug part = append slug (append ":" part)

abbrev pub orphaned_alias : String → String → Warning
orphaned_alias slug part =
    warning "ORPHANED_DATABASE_ALIAS"
      (append "database alias "
        (append (part_key slug part) " is absent from YAML and was retained"))
      (part_key slug part)

abbrev pub orphaned_mapping : String → String → Warning
orphaned_mapping slug part =
    warning "ORPHANED_DATABASE_MAPPING"
      (append "mapping " (append (part_key slug part) " is absent from YAML and was retained"))
      (part_key slug part)

abbrev pub additions : TopicDefinition → List RegistryChange
additions d =
    map (λ a. alias_change d.slug (create a.normalized a)) d.aliases
    ++ map (λ s. mapping_change d.slug (create s.source_name (mapping_definition s))) d.sources

module _ (normalize : String → String) where
  -- The comparison looks at no version and no clock.
  abbrev pub topic_change_of : TopicDefinition → Option TopicRow → List RegistryChange
  topic_change_of d o = map topic_change (change_of (topic normalize 0 0) d o)

  -- The body of the loop over the registry's topics: what it appends to the changes, …
  unfoldable pub compare_topic : TopicDefinition → Option TopicRow → List RegistryChange
  compare_topic d none = topic_change_of d none ++ additions d
  compare_topic d (some r) =
      topic_change_of d (some r)
      ++ (map (alias_change d.slug) (changes alias (dict_of alias d.aliases) r.aliases)
          ++ map (mapping_change d.slug) (changes mapping (dict_of mapping d.sources) r.mappings))

  -- … and to the warnings.
  unfoldable pub topic_orphans : TopicDefinition → Option TopicRow → List Warning
  topic_orphans d none = []
  topic_orphans d (some r) =
      map (orphaned_alias d.slug) (orphans alias (dict_of alias d.aliases) r.aliases)
      ++ map (orphaned_mapping d.slug) (orphans mapping (dict_of mapping d.sources) r.mappings)

  unfoldable pub compare_topics : List TopicDefinition → List TopicRow → List RegistryChange
  unfolding compare_topic
  compare_topics [] rows = []
  compare_topics (d ∷ ds) rows =
      compare_topic d (row_of (topic normalize 0 0) d.slug rows) ++ compare_topics ds rows

  unfoldable pub topics_orphans : List TopicDefinition → List TopicRow → List Warning
  unfolding topic_orphans
  topics_orphans [] rows = []
  topics_orphans (d ∷ ds) rows =
      topic_orphans d (row_of (topic normalize 0 0) d.slug rows) ++ topics_orphans ds rows

  -- The changes of the entries, and all warnings.
  unfoldable pub entry_changes :
      Registry → List CategoryDefinition → List TopicRow → List RegistryChange
  unfolding compare_topics
  entry_changes reg categories topics =
      map category_change (changes category reg.categories categories)
      ++ compare_topics reg.topics topics

  unfoldable pub all_warnings : Registry → List CategoryDefinition → List TopicRow → List Warning
  unfolding topics_orphans
  all_warnings reg categories topics =
      reg.warnings
      ++ (map orphaned_category (orphans category reg.categories categories)
          ++ (topics_orphans reg.topics topics
              ++ map orphaned_topic (orphans (topic normalize 0 0) reg.topics topics)))

  -- The registry's own change, where nothing else has changed.
  unfoldable pub registry_change : Registry → List Warning → Option Version → List RegistryChange
  registry_change reg warnings none = []
  registry_change reg warnings (some v) =
      if not (str_eq v.checksum reg.checksum)
        || not (same_warnings v.warnings (warning_payloads warnings))
      then registry_update v.checksum v.warnings reg.checksum (warning_payloads warnings) ∷ []
      else []

  unfoldable pub compare :
      List CategoryDefinition → List TopicRow → List Version → Registry → RegistryDiff
  unfolding entry_changes all_warnings registry_change
  compare categories topics versions reg =
      let entries = entry_changes reg categories topics in
      let warnings = all_warnings reg categories topics in
      record {
        checksum = reg.checksum;
        changes =
            if is_empty entries then registry_change reg warnings (latest versions) else entries;
        warnings = warnings;
        latest_version = elim (latest versions) [ none ↦ none | some v ↦ some v.version ];
        latest_checksum = elim (latest versions) [ none ↦ none | some v ↦ some v.checksum ];
      }
