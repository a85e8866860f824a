-- ===== src/Registry/Sync.antt =====
-- `TopicRegistrySyncService` (sync.py). The database is the tables that the registry keeps; a call is
-- one transaction, and a flush checks the unique constraints of db/src/observatory_db/models.py.
pub mod Categories
pub mod Topics
pub mod Converges
pub mod Outcomes
pub mod Sources
pub mod Audit
pub mod Parts
pub mod Refines
use signal_observatory.Prelude.{
  ℕ, ◌+◌, Bool, true, false, not, ◌&&◌, ◌||◌, Option, none, some, List, [], ◌∷◌, ◌++◌, map, String,
  str_eq, if◌then◌else◌, is_empty, exists, find, select, length, ◌==◌, Result, ok, err, ◌>>=◌, ◌>>◌,
  raise_if,
}
use signal_observatory.Errors.{Error, integrity_error, missing_category, missing_source}
use signal_observatory.Registry.Values.{
  TopicStatus, CategoryDefinition, AliasRow, SourceConfig, TopicDefinition, TopicRow,
}
use signal_observatory.Registry.Entries.{sync_entry, sync_entries, sync_entries_old, row_of}
use signal_observatory.Registry.Entries.Texts.{sort_texts}
use signal_observatory.Registry.Entities.{category_columns, category_parent}
use signal_observatory.Registry.Topics.{topic}
use signal_observatory.Registry.Compare.Warnings.{Warning, warning_payloads}
use signal_observatory.Registry.Compare.{Registry, Version, RegistryChange, RegistryDiff, compare}

pub record SourceRow : Type 0 where
  pub name : String
  pub kind : String
  pub base_url : String

-- `SOURCE_CATALOG` (source_catalog.py).
abbrev pub source_catalog : List SourceRow
source_catalog =
    record { name = "arxiv"; kind = "api"; base_url = "https://export.arxiv.org/api" }
    ∷ record { name = "github"; kind = "api"; base_url = "https://api.github.com" }
    ∷ record { name = "hacker_news"; kind = "api"; base_url = "https://hacker-news.firebaseio.com" }
    ∷ record { name = "wikipedia"; kind = "api"; base_url = "https://en.wikipedia.org/w/api.php" }
    ∷ []

-- `TopicRegistryAuditLog`: a version with a change, or with a collision that was reviewed.
pub data AuditRow : Type 0 where
  applied : ℕ → RegistryChange → AuditRow
  review : ℕ → Warning → AuditRow

pub record QualityCheck : Type 0 where
  pub name : String
  pub is_warning : Bool
  pub count : ℕ
  pub version : ℕ

pub record Database : Type 0 where
  pub sources : List SourceRow
  pub categories : List CategoryDefinition
  pub topics : List TopicRow
  pub versions : List Version
  pub audit : List AuditRow
  pub checks : List QualityCheck

pub record SyncReport : Type 0 where
  pub dry_run : Bool
  pub changed : Bool
  pub version : Option ℕ
  pub checksum : String
  pub diff : RegistryDiff
  pub topic_count : ℕ
  pub alias_count : ℕ
  pub category_count : ℕ
  pub mapping_count : ℕ

-- A text that stands twice in a column.
has_duplicate : List String → Bool
has_duplicate [] = false
has_duplicate (s ∷ ss) = exists (λ t. str_eq t s) ss || has_duplicate ss

-- `_ensure_sources`: the missing names in order, each once.
abbrev pub source_names : List TopicDefinition → List String
source_names [] = []
source_names (d ∷ ds) = map (λ s. s.source_name) d.sources ++ source_names ds

abbrev pub has_source : String → List SourceRow → Bool
has_source name rows = exists (λ r. str_eq r.name name) rows

unfoldable pub add_sources : List String → List SourceRow → Result Error (List SourceRow)
add_sources [] rows = ok rows
add_sources (n ∷ ns) rows = elim (has_source n rows) [
  | true ↦ add_sources ns rows
  | false ↦ elim (find (λ r. str_eq r.name n) source_catalog) [
    | none ↦ err missing_source
    | some spec ↦ add_sources ns (rows ++ (spec ∷ []))
  ]
]

unfoldable pub ensure_sources : Registry → List SourceRow → Result Error (List SourceRow)
unfolding add_sources
ensure_sources reg rows = add_sources (sort_texts (source_names reg.topics)) rows

-- `_sync_categories`: columns, a flush, then the parents. The flush checks the names of the rows that it
-- leaves; a clash of two of its statements, as in a swap of two names, is outside the model.
unfoldable pub sync_categories :
    Registry → List CategoryDefinition → Result Error (List CategoryDefinition)
unfolding has_duplicate
sync_categories reg rows = do
  let first = sync_entries category_columns reg.categories rows
  raise_if (has_duplicate (map (λ r. r.name) first)) integrity_error
  ok (sync_entries_old (category_parent first) first reg.categories first)

-- The unique constraint of a topic's aliases, whatever their source.
abbrev aliases_clash : TopicRow → Bool
aliases_clash r = has_duplicate (map (λ a. a.content.normalized) r.aliases)

abbrev row_clashes : Option TopicRow → Bool
row_clashes none = false
row_clashes (some r) = aliases_clash r

abbrev pub is_collision : Warning → Bool
is_collision w = str_eq w.code "ALLOWED_ALIAS_COLLISION"

-- `_write_audit`.
abbrev pub audit_rows : ℕ → List RegistryChange → List Warning → List AuditRow
audit_rows version changes warnings =
    map (applied version) changes ++ map (review version) (select is_collision warnings)

abbrev count_of {ℓ} : {A : Type ℓ} → (A → Bool) → List A → ℕ
count_of p xs = length (select p xs)

abbrev check : ℕ → String → Bool → ℕ → QualityCheck
check version name warns count = record {
  name = name;
  is_warning = warns && not (count == 0);
  count = count;
  version = version;
}

abbrev is_active : TopicStatus → Bool
is_active TopicStatus.active = true
is_active _ = false

abbrev pub alias_count : List TopicDefinition → ℕ
alias_count [] = 0
alias_count (d ∷ ds) = length d.aliases + alias_count ds

abbrev pub mapping_count : List TopicDefinition → ℕ
mapping_count [] = 0
mapping_count (d ∷ ds) = length d.sources + mapping_count ds

-- `_write_quality_checks`.
abbrev pub quality_checks : Registry → List Warning → ℕ → List QualityCheck
quality_checks reg warnings version =
    let unmapped = count_of (λ d. is_empty d.sources) reg.topics in
    check version "topic_count" false (length reg.topics)
    ∷ check version "active_topic_count" false (count_of (λ d. is_active d.status) reg.topics)
    ∷ check version "alias_count" false (alias_count reg.topics)
    ∷ check version "unmapped_topics" true unmapped
    ∷ check version "duplicate_aliases" true (count_of is_collision reg.warnings)
    ∷ check version "orphaned_database_topics" true
        (count_of (λ w. str_eq w.code "ORPHANED_DATABASE_TOPIC") warnings)
    ∷ check version "topics_without_aliases" true (count_of (λ d. is_empty d.aliases) reg.topics)
    ∷ check version "topics_without_any_source_mapping" true unmapped
    ∷ []

abbrev pub next_version : Option ℕ → ℕ
next_version none = 1
next_version (some v) = v + 1

abbrev pub version_row : Registry → RegistryDiff → String → Version
version_row reg diff applied_by = record {
  version = next_version diff.latest_version;
  checksum = reg.checksum;
  source_file_count = reg.source_file_count;
  topic_count = length reg.topics;
  alias_count = alias_count reg.topics;
  mapping_count = mapping_count reg.topics;
  applied_by = applied_by;
  warning_count = length diff.warnings;
  warnings = warning_payloads diff.warnings;
}

-- `_report`.
abbrev pub report_of : Registry → RegistryDiff → Bool → Option ℕ → SyncReport
report_of reg diff dry_run version = record {
  dry_run = dry_run;
  changed = not (is_empty diff.changes);
  version = version;
  checksum = reg.checksum;
  diff = diff;
  topic_count = length reg.topics;
  alias_count = alias_count reg.topics;
  category_count = length reg.categories;
  mapping_count = mapping_count reg.topics;
}

module _ (normalize : String → String) where
  -- One pass of the loop of `_sync_topics`, with its flushes.
  unfoldable pub sync_topic :
      ℕ
      → ℕ
      → List CategoryDefinition
      → TopicDefinition
      → List TopicRow
      → Result Error (List TopicRow)
  unfolding has_duplicate
  sync_topic version now categories d rows = do
    raise_if (not (exists (λ c. str_eq c.slug d.category) categories)) missing_category
    let rows' = sync_entry (topic normalize version now) d rows
    raise_if (has_duplicate (map (λ r. r.normalized_name) rows')) integrity_error
    raise_if (row_clashes (row_of (topic normalize version now) d.slug rows')) integrity_error
    ok rows'

  unfoldable pub sync_topics :
      ℕ
      → ℕ
      → List CategoryDefinition
      → List TopicDefinition
      → List TopicRow
      → Result Error (List TopicRow)
  unfolding sync_topic
  sync_topics version now categories [] rows = ok rows
  sync_topics version now categories (d ∷ ds) rows = do
    rows' ← sync_topic version now categories d rows
    sync_topics version now categories ds rows'

  -- The `try` block: the database to commit. `hook` is what `before_commit` raises, if it does.
  unfoldable pub apply_registry :
      Registry → RegistryDiff → String → ℕ → Option Error → Database → Result Error Database
  unfolding sync_topics
  apply_registry reg diff applied_by now hook db = do
    let version = next_version diff.latest_version
    sources ← ensure_sources reg db.sources
    categories ← sync_categories reg db.categories
    topics ← sync_topics version now categories reg.topics db.topics
    elim hook [
      | some e ↦ err e
      | none ↦ ok (record {
        sources = sources;
        categories = categories;
        topics = topics;
        versions = db.versions ++ (version_row reg diff applied_by ∷ []);
        audit = db.audit ++ audit_rows version diff.changes reg.warnings;
        checks = db.checks ++ quality_checks reg diff.warnings version;
      })
    ]

  abbrev pub compare_database : Database → Registry → RegistryDiff
  compare_database db reg = compare normalize db.categories db.topics db.versions reg

  -- The `except` clause rolls back and raises again.
  abbrev pub commit :
      Database
      → Registry
      → RegistryDiff
      → Result Error Database
      → Database × Result Error SyncReport
  commit db reg diff (err e) = (db, err e)
  commit db reg diff (ok db') =
      (db', ok (report_of reg diff false (some (next_version diff.latest_version))))

  unfoldable pub sync :
      Database → Registry → Bool → String → ℕ → Option Error → Database × Result Error SyncReport
  unfolding apply_registry
  sync db reg dry_run applied_by now hook =
      let diff = compare_database db reg in
      if dry_run || is_empty diff.changes
      then (db, ok (report_of reg diff dry_run none))
      else commit db reg diff (apply_registry reg diff applied_by now hook db)
