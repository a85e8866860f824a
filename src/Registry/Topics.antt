-- ===== src/Registry/Topics.antt =====
-- Topics as entries: `_topic_definition`, `_topic_record` (diff.py) and the body of the loop of
-- `_sync_topics` up to its flushes (sync.py). The version and the clock are those of the call.
use signal_observatory.Prelude.{
  ℕ, Bool, true, false, Option, none, some, [], String, if◌then◌else◌, ◌≡◌, refl, arith,
}
use signal_observatory.Registry.Values.{
  TopicStatus, TopicDefinition, TopicRow, TopicContent, TopicContent-discrete,
}
use signal_observatory.Registry.Entries.{Entity, sync_entries_old}
use signal_observatory.Registry.Entities.{alias, mapping}

abbrev pub is_deprecated : TopicStatus → Bool
is_deprecated TopicStatus.deprecated = true
is_deprecated _ = false

abbrev pub or_now : Option ℕ → ℕ → Option ℕ
or_now none now = some now
or_now (some t) now = some t

abbrev pub deprecated_at : TopicStatus → TopicStatus → Option ℕ → ℕ → Option ℕ
deprecated_at wanted previous at now =
    if is_deprecated wanted then or_now at now else (if is_deprecated previous then none else at)

abbrev pub topic_record : TopicRow → TopicContent
topic_record r = record {
  canonical_name = r.canonical_name;
  normalized_name = r.normalized_name;
  slug = r.slug;
  description = r.description;
  category = r.category;
  status = r.status;
  monitoring_priority = r.monitoring_priority;
  metadata = r.metadata;
}

module _ (normalize : String → String) where
  abbrev pub topic_definition : TopicDefinition → TopicContent
  topic_definition d = record {
    canonical_name = d.canonical_name;
    normalized_name = normalize d.canonical_name;
    slug = d.slug;
    description = some d.description;
    category = some d.category;
    status = d.status;
    monitoring_priority = d.monitoring_priority;
    metadata = d.metadata;
  }

  -- A row as its constructor call leaves it; every other column is assigned before the flush.
  abbrev pub new_topic : TopicDefinition → TopicRow
  new_topic d = record {
    canonical_name = d.canonical_name;
    normalized_name = "";
    slug = d.slug;
    description = none;
    category = none;
    status = TopicStatus.active;
    monitoring_priority = 50;
    deprecated_at = none;
    registry_version = none;
    metadata = "";
    aliases = [];
    mappings = [];
  }

  abbrev pub write_topic : ℕ → ℕ → TopicDefinition → TopicRow → TopicRow
  write_topic version now d r = record r {
    canonical_name = d.canonical_name;
    normalized_name = normalize d.canonical_name;
    description = some d.description;
    category = some d.category;
    status = d.status;
    monitoring_priority = d.monitoring_priority;
    deprecated_at = deprecated_at d.status r.status r.deprecated_at now;
    registry_version = some version;
    metadata = d.metadata;
    aliases = sync_entries_old alias r.aliases d.aliases r.aliases;
    mappings = sync_entries_old mapping r.mappings d.sources r.mappings;
  }

  pub write_topic_lem :
      (version now : ℕ) (d : TopicDefinition) (r : TopicRow)
      → r.slug ≡ d.slug
      → topic_record (write_topic version now d r) ≡ topic_definition d
  write_topic_lem version now d r h = ground arith

  abbrev pub topic : ℕ → ℕ → Entity TopicDefinition TopicRow TopicContent
  topic version now = record {
    key = λ d. d.slug;
    wanted = topic_definition;
    row_key = λ r. r.slug;
    view = topic_record;
    managed = λ r. true;
    fresh = new_topic;
    write = write_topic version now;
    discrete = TopicContent-discrete;
    fresh_managed = λ d. refl;
    fresh_key = λ d. refl;
    write_managed = λ d r. refl;
    write_key = λ d r. refl;
    view-write = λ d r h m. write_topic_lem version now d r h;
  }
