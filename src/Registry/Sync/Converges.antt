-- ===== src/Registry/Sync/Converges.antt =====
-- A synchronisation that is applied leaves no change to make.
use signal_observatory.Prelude.{
  ℕ, Bool, true, false, ◌||◌, Option, none, some, List, [], ◌∷◌, ◌++◌, map, String, eq_iff,
  if◌then◌else◌, is_empty, ◌≡◌, refl, ◌∙◌, ap, arith, All, inl, inr, Option-cases, ok, err,
  raise_if_passed, bind_passed, leb,
}
use signal_observatory.Errors.{Error, integrity_error}
use signal_observatory.Registry.Values.{CategoryDefinition, TopicRow}
use signal_observatory.Registry.Entries.{orphans, unwanted, sync_entries, sync_entries_old}
use signal_observatory.Registry.Entries.Laws.{UniqueKeys}
use signal_observatory.Registry.Entries.Synced.{orphans-sync_entries}
use signal_observatory.Registry.Entities.{category, category_columns, category_parent}
use signal_observatory.Registry.Topics.{topic}
use signal_observatory.Registry.Compare.Warnings.{Warning, warning_payloads, same_warnings_self}
use signal_observatory.Registry.Compare.{
  Registry, Version, RegistryDiff, RegistryChange, latest, compare, entry_changes, all_warnings,
  registry_change,
}
use signal_observatory.Registry.Sync.{
  Database, SourceRow, has_duplicate, ensure_sources, sync_categories, sync_topics, version_row,
  next_version, apply_registry, compare_database, commit, sync, report_of, audit_rows,
  quality_checks,
}
use signal_observatory.Registry.Sync.Categories.{ParentKnown, changes-final, orphans-final}
use signal_observatory.Registry.Sync.Topics.{
  UniqueParts, sync_topics-eq, compare_topics-synced, topics_orphans-synced,
}

-- Keys are distinct, and each parent is a category of the registry. The loader checks this, but for
-- two aliases of a topic with one text of which one is case-sensitive.
pub record IsWellFormed (normalize : String → String) (reg : Registry) : Type 0 where
  pub categories : UniqueKeys category reg.categories
  pub parents : All (λ d. ParentKnown reg.categories d.parent) reg.categories
  pub topics : UniqueKeys (topic normalize 0 0) reg.topics
  pub parts : All UniqueParts reg.topics

abbrev pub version_of : Option Version → Option ℕ
version_of none = none
version_of (some v) = some v.version

abbrev newest : Option Version → Version → Version
newest none v = v
newest (some u) v = if leb u.version v.version then v else u

latest-append :
    (vs : List Version) (v : Version) → latest (vs ++ (v ∷ [])) ≡ some (newest (latest vs) v)
unfolding latest
latest-append [] v = refl
latest-append (u ∷ vs) v = elim (Option-cases (latest vs)) [
  | inl e ↦ rw (latest-append vs v) (rw (e, latest) (ground arith))
  | inr (w, e) ↦ rw (latest-append vs v) (rw (e, latest) (ground arith))
]

latest-next :
    (vs : List Version) (v : Version)
    → v.version ≡ next_version (version_of (latest vs))
    → latest (vs ++ (v ∷ [])) ≡ some v
latest-next vs v h = latest-append vs v ∙ pick (latest vs) h
  where
    pick :
        (o : Option Version) → v.version ≡ next_version (version_of o) → some (newest o v) ≡ some v
    pick none h = refl
    pick (some u) h = ground arith

abbrev pub new_categories : Registry → List CategoryDefinition → List CategoryDefinition
new_categories reg rows =
    let first = sync_entries category_columns reg.categories rows in
    sync_entries_old (category_parent first) first reg.categories first

abbrev pub new_topics : (String → String) → Registry → ℕ → ℕ → List TopicRow → List TopicRow
new_topics normalize reg version now topics =
    sync_entries (topic normalize version now) reg.topics topics

module _ (normalize : String → String) (reg : Registry) (version now : ℕ)
    (rows : List CategoryDefinition) (topics : List TopicRow) (w : IsWellFormed normalize reg) where
  entry_changes-new :
      entry_changes normalize reg
        (new_categories reg rows)
        (new_topics normalize reg version now topics)
      ≡ []
  unfolding entry_changes
  entry_changes-new =
      rw (changes-final reg.categories rows w.categories w.parents)
        (compare_topics-synced normalize version now reg.topics topics w.topics w.parts)

  topic_orphans-new :
      orphans (topic normalize 0 0) reg.topics (new_topics normalize reg version now topics)
      ≡ orphans (topic normalize 0 0) reg.topics topics
  unfolding orphans unwanted
  topic_orphans-new = orphans-sync_entries (topic normalize version now) reg.topics topics

  all_warnings-new :
      all_warnings normalize reg
        (new_categories reg rows)
        (new_topics normalize reg version now topics)
      ≡ all_warnings normalize reg rows topics
  unfolding all_warnings
  all_warnings-new = rw (orphans-final reg.categories rows w.categories) (
      rw (topics_orphans-synced normalize version now reg.topics topics w.topics w.parts)
        (rw topic_orphans-new))

-- What `apply_registry` has committed when it returns.
pub record IsApplied (normalize : String → String) (reg : Registry) (diff : RegistryDiff)
    (applied_by : String) (now : ℕ) (db db' : Database) : Type 0 where
  pub sources : ensure_sources reg db.sources ≡ ok db'.sources
  pub categories : new_categories reg db.categories ≡ db'.categories
  pub topics :
      new_topics normalize reg (next_version diff.latest_version) now db.topics ≡ db'.topics
  pub versions : db'.versions ≡ db.versions ++ (version_row reg diff applied_by ∷ [])
  pub audit :
      db'.audit
      ≡ db.audit ++ audit_rows (next_version diff.latest_version) diff.changes reg.warnings
  pub checks :
      db'.checks ≡ db.checks ++ quality_checks reg diff.warnings (next_version diff.latest_version)

sync_categories-eq :
    (reg : Registry) (rows : List CategoryDefinition) {rows' : List CategoryDefinition}
    → sync_categories reg rows ≡ ok rows'
    → new_categories reg rows ≡ rows'
unfolding sync_categories
sync_categories-eq reg rows h =
    let first = sync_entries category_columns reg.categories rows in
    cc (
      raise_if_passed (has_duplicate (map (λ r. r.name) first)) integrity_error
        (ok (new_categories reg rows)) h)

module _ (normalize : String → String) (reg : Registry) (applied_by : String) (now : ℕ)
    (hook : Option Error) (db : Database) where
  pub apply_registry-IsApplied :
      (diff : RegistryDiff) {db' : Database}
      → apply_registry normalize reg diff applied_by now hook db ≡ ok db'
      → IsApplied normalize reg diff applied_by now db db'
  unfolding apply_registry
  apply_registry-IsApplied diff {db'} h =
      let version = next_version diff.latest_version in
      let (sources, k1, q1) = bind_passed (ensure_sources reg db.sources) _ h in
      let (categories, k2, q2) = bind_passed (sync_categories reg db.categories) _ k1 in
      let (topics, k3, q3) =
        bind_passed (sync_topics normalize version now categories reg.topics db.topics) _ k2 in
      let c = sync_categories-eq reg db.categories q2 in
      let t = sync_topics-eq normalize version now categories reg.topics db.topics q3 in
      committed hook sources categories topics q1 c t k3
    where
      committed :
          (o : Option Error) (sources : List SourceRow) (categories : List CategoryDefinition)
          (topics : List TopicRow)
          → ensure_sources reg db.sources ≡ ok sources
          → new_categories reg db.categories ≡ categories
          → new_topics normalize reg (next_version diff.latest_version) now db.topics ≡ topics
          → elim o [
            | some e ↦ err e
            | none ↦ ok (record {
              sources = sources;
              categories = categories;
              topics = topics;
              versions = db.versions ++ (version_row reg diff applied_by ∷ []);
              audit =
                  db.audit
                  ++ audit_rows (next_version diff.latest_version) diff.changes reg.warnings;
              checks =
                  db.checks ++ quality_checks reg diff.warnings (next_version diff.latest_version);
            })
          ]
            ≡ ok db'
          → IsApplied normalize reg diff applied_by now db db'
      committed none sources categories topics s c t k = ground arith
      committed (some e) sources categories topics s c t k = cc

-- No change is left to make.
abbrev pub Settled : (String → String) → Registry → Database → Type 0
Settled normalize reg db = (compare_database normalize db reg).changes ≡ []

or_true : {A : Type 0} (b : Bool) (x y : A) → (if b || true then x else y) ≡ x
or_true true x y = refl
or_true false x y = refl

registry_change_none :
    (normalize : String → String) (reg : Registry) (warnings : List Warning) (v : Version)
    → v.checksum ≡ reg.checksum
    → v.warnings ≡ warning_payloads warnings
    → registry_change normalize reg warnings (some v) ≡ []
unfolding registry_change
registry_change_none normalize reg warnings v c w = rw c (
    rw w (
      rw ((eq_iff reg.checksum reg.checksum).1 refl)
        (rw (same_warnings_self (warning_payloads warnings)))))

version_of_lem :
    (o : Option Version) → elim o [ none ↦ none | some v ↦ some v.version ] ≡ version_of o
version_of_lem none = refl
version_of_lem (some v) = refl

module _ (normalize : String → String) (reg : Registry) where
  -- A settled database stays as it is.
  pub again_lem :
      (dry_run : Bool) (applied_by : String) (now : ℕ) (hook : Option Error) (db : Database)
      → Settled normalize reg db
      → sync normalize db reg dry_run applied_by now hook
        ≡ (db, ok (report_of reg (compare_database normalize db reg) dry_run none))
  unfolding sync
  again_lem dry_run applied_by now hook db h =
      ap
        (λ c.
          if dry_run || is_empty c
          then (db, ok (report_of reg (compare_database normalize db reg) dry_run none))
          else commit normalize db reg (compare_database normalize db reg) (
              apply_registry normalize reg (compare_database normalize db reg) applied_by now hook
                db))
        h
      ∙ or_true dry_run _ _

  pub diff_version :
      (db : Database)
      → (compare_database normalize db reg).latest_version ≡ version_of (latest db.versions)
  unfolding compare
  diff_version db = version_of_lem (latest db.versions)

  module _ (applied_by : String) (now : ℕ) (db db' : Database) where
    abbrev diff : RegistryDiff
    diff = compare_database normalize db reg

    pub latest_applied :
        IsApplied normalize reg diff applied_by now db db'
        → latest db'.versions ≡ some (version_row reg diff applied_by)
    latest_applied a =
        rw a.versions
          (latest-next db.versions (version_row reg diff applied_by) (rw (diff_version db) refl))

    settled_lem :
        (entries : List RegistryChange) (warnings : List Warning) (o : Option Version) (v : Version)
        → entries ≡ []
        → o ≡ some v
        → v.checksum ≡ reg.checksum
        → v.warnings ≡ warning_payloads warnings
        → (if is_empty entries then registry_change normalize reg warnings o else entries) ≡ []
    settled_lem entries warnings o v e l c w =
        rw e (rw l (registry_change_none normalize reg warnings v c w))

    pub Settled-applied :
        IsWellFormed normalize reg
        → IsApplied normalize reg diff applied_by now db db'
        → Settled normalize reg db'
    unfolding compare
    Settled-applied w a =
        settled_lem (entry_changes normalize reg db'.categories db'.topics)
          (all_warnings normalize reg db'.categories db'.topics) (latest db'.versions)
          (version_row reg diff applied_by)
          (rw (← a.categories) (
            rw (← a.topics) (
              entry_changes-new normalize reg (next_version diff.latest_version) now db.categories
                db.topics w)))
          (latest_applied a) refl
          (rw (← a.categories) (
            rw (← a.topics) (
              rw
                (all_warnings-new normalize reg (next_version diff.latest_version) now db.categories
                  db.topics w)
                refl)))
