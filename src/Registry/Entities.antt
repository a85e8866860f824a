-- ===== src/Registry/Entities.antt =====
-- The four kinds of entries: what `_category_definition`, `_topic_record` and their like (diff.py)
-- compare, and what `_sync_categories`, `_sync_topics`, `_sync_aliases` and `_sync_mappings` (sync.py)
-- assign. How `normalize_canonical_name` folds Unicode is a parameter.
use signal_observatory.Prelude.{
  Bool, true, false, Option, none, some, List, [], ◌∷◌, String, str_eq, eq_iff, if◌then◌else◌, ◌≡◌,
  refl, arith, exists,
}
use signal_observatory.Registry.Values.{
  CategoryDefinition, AliasContent, AliasRow, SourceConfig, MappingContent, MappingRow,
  AliasContent-discrete, MappingContent-discrete, CategoryDefinition-discrete, string_discrete,
}
use signal_observatory.Registry.Entries.{Entity}

-- Categories. The first pass leaves the parent alone.
abbrev pub write_category : CategoryDefinition → CategoryDefinition → CategoryDefinition
write_category d r = record r {
  name = d.name;
  description = d.description;
  sort_order = d.sort_order;
}

abbrev pub new_category : CategoryDefinition → CategoryDefinition
new_category d = record {
  name = d.name;
  slug = d.slug;
  description = none;
  parent = none;
  sort_order = 0;
}

abbrev without_parent : CategoryDefinition → CategoryDefinition
without_parent d = record d { parent = none }

pub without_parent_lem :
    (d r : CategoryDefinition)
    → r.slug ≡ d.slug
    → without_parent (write_category d r) ≡ without_parent d
without_parent_lem d r h = ground arith

abbrev pub category_columns : Entity CategoryDefinition CategoryDefinition CategoryDefinition
category_columns = record {
  key = λ d. d.slug;
  wanted = without_parent;
  row_key = λ r. r.slug;
  view = without_parent;
  managed = λ r. true;
  fresh = new_category;
  write = write_category;
  discrete = CategoryDefinition-discrete;
  fresh_managed = λ d. refl;
  fresh_key = λ d. refl;
  write_managed = λ d r. refl;
  write_key = λ d r. refl;
  view-write = λ d r h m. without_parent_lem d r h;
}

-- The second pass: `existing.get(desired.parent) if desired.parent else None`.
abbrev pub parent_of : List CategoryDefinition → Option String → Option String
parent_of known none = none
parent_of known (some p) = if exists (λ r. str_eq r.slug p) known then some p else none

abbrev pub write_parent :
    List CategoryDefinition → CategoryDefinition → CategoryDefinition → CategoryDefinition
write_parent known d r = record r { parent = parent_of known d.parent }

-- Nothing is compared here but the key.
abbrev pub category_parent :
    List CategoryDefinition → Entity CategoryDefinition CategoryDefinition String
category_parent known = record {
  key = λ d. d.slug;
  wanted = λ d. d.slug;
  row_key = λ r. r.slug;
  view = λ r. r.slug;
  managed = λ r. true;
  fresh = new_category;
  write = write_parent known;
  discrete = string_discrete;
  fresh_managed = λ d. refl;
  fresh_key = λ d. refl;
  write_managed = λ d r. refl;
  write_key = λ d r. refl;
  view-write = λ d r h m. h;
}

abbrev full_category : CategoryDefinition → CategoryDefinition → CategoryDefinition
full_category d r = record (write_category d r) { parent = d.parent }

pub full_category_lem : (d r : CategoryDefinition) → r.slug ≡ d.slug → full_category d r ≡ d
full_category_lem d r h = ground arith

-- Both passes, for a parent that is known; this is what the comparison looks at.
abbrev pub category : Entity CategoryDefinition CategoryDefinition CategoryDefinition
category = record {
  key = λ d. d.slug;
  wanted = λ d. d;
  row_key = λ r. r.slug;
  view = λ r. r;
  managed = λ r. true;
  fresh = new_category;
  write = full_category;
  discrete = CategoryDefinition-discrete;
  fresh_managed = λ d. refl;
  fresh_key = λ d. refl;
  write_managed = λ d r. refl;
  write_key = λ d r. refl;
  view-write = λ d r h m. full_category_lem d r h;
}

-- Aliases: those of a source are not managed.
abbrev pub is_registry_alias : AliasRow → Bool
is_registry_alias r = elim r.source [ none ↦ true | some _ ↦ false ]

abbrev pub write_alias : AliasContent → AliasRow → AliasRow
write_alias d r = record r { content = record d { normalized = r.content.normalized } }

abbrev pub new_alias : AliasContent → AliasRow
new_alias d = record { source = none; content = d }

pub write_alias_lem :
    (d : AliasContent) (r : AliasRow)
    → r.content.normalized ≡ d.normalized
    → (write_alias d r).content ≡ d
write_alias_lem d r h = ground arith

abbrev pub alias : Entity AliasContent AliasRow AliasContent
alias = record {
  key = λ d. d.normalized;
  wanted = λ d. d;
  row_key = λ r. r.content.normalized;
  view = λ r. r.content;
  managed = is_registry_alias;
  fresh = new_alias;
  write = write_alias;
  discrete = AliasContent-discrete;
  fresh_managed = λ d. refl;
  fresh_key = λ d. refl;
  write_managed = λ d r. refl;
  write_key = λ d r. refl;
  view-write = λ d r h m. write_alias_lem d r h;
}

-- Mappings: `values[0] if len(values) == 1`.
abbrev pub single : List String → Option String
single (v ∷ []) = some v
single _ = none

abbrev pub is_wikipedia : String → Bool
is_wikipedia source = str_eq source "wikipedia"

abbrev pub mapping_definition : SourceConfig → MappingContent
mapping_definition d = record {
  source_name = d.source_name;
  enabled = d.enabled;
  external_identifier = if is_wikipedia d.source_name then single d.values else none;
  query = if is_wikipedia d.source_name then none else single d.values;
  field = d.field;
  values = d.values;
}

abbrev pub write_mapping : SourceConfig → MappingRow → MappingRow
write_mapping d r = record r {
  content = record (mapping_definition d) { source_name = r.content.source_name };
}

abbrev pub new_mapping : SourceConfig → MappingRow
new_mapping d = record { mapping_type = "registry"; content = mapping_definition d }

pub write_mapping_lem :
    (d : SourceConfig) (r : MappingRow)
    → r.content.source_name ≡ d.source_name
    → (write_mapping d r).content ≡ mapping_definition d
write_mapping_lem d r h = ground arith

pub new_mapping_lem : (d : SourceConfig) → str_eq (new_mapping d).mapping_type "registry" ≡ true
new_mapping_lem d = (eq_iff "registry" "registry").1 refl

abbrev pub mapping : Entity SourceConfig MappingRow MappingContent
mapping = record {
  key = λ d. d.source_name;
  wanted = mapping_definition;
  row_key = λ r. r.content.source_name;
  view = λ r. r.content;
  managed = λ r. str_eq r.mapping_type "registry";
  fresh = new_mapping;
  write = write_mapping;
  discrete = MappingContent-discrete;
  fresh_managed = new_mapping_lem;
  fresh_key = λ d. refl;
  write_managed = λ d r. refl;
  write_key = λ d r. refl;
  view-write = λ d r h m. write_mapping_lem d r h;
}
