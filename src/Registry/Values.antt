-- ===== src/Registry/Values.antt =====
-- The validated registry (models.py) and the rows that it is kept in (db/src/observatory_db/models.py).
-- JSON objects are given by their canonical text, `confidence` in a fixed unit. Surrogate ids and
-- timestamps of rows are left out, and the sources of a topic are the list that `items` gives. A
-- category or a source is referred to by its unique slug or name.
use signal_observatory.Prelude.{
  ℕ, Bool, Option, List, String, ℕ_discrete, str_eq, eq_iff, Bool-cases, inl, inr,
}

pub data TopicStatus : Type 0 where
  active paused deprecated : TopicStatus

pub data AliasStatus : Type 0 where
  active deprecated : AliasStatus

pub data AliasType : Type 0 where
  name abbreviation spelling product_name related_term search_term : AliasType

pub data MatchMode : Type 0 where
  exact phrase : MatchMode

pub record CategoryDefinition : Type 0 where
  pub name : String
  pub slug : String
  pub description : Option String
  pub parent : Option String
  pub sort_order : ℕ

-- An alias with its `normalized` property; also the columns that hold it.
pub record AliasContent : Type 0 where
  pub value : String
  pub normalized : String
  pub alias_type : AliasType
  pub match_mode : MatchMode
  pub case_sensitive : Bool
  pub status : AliasStatus
  pub confidence : ℕ
  pub metadata : String

pub record AliasRow : Type 0 where
  pub source : Option String
  pub content : AliasContent

-- A source's configuration: its `enabled`, and the dump of the rest, one field with its values.
pub record SourceConfig : Type 0 where
  pub source_name : String
  pub enabled : Bool
  pub field : String
  pub values : List String

pub record MappingContent : Type 0 where
  pub source_name : String
  pub enabled : Bool
  pub external_identifier : Option String
  pub query : Option String
  pub field : String
  pub values : List String

pub record MappingRow : Type 0 where
  pub mapping_type : String
  pub content : MappingContent

pub record TopicDefinition : Type 0 where
  pub canonical_name : String
  pub slug : String
  pub description : String
  pub category : String
  pub status : TopicStatus
  pub monitoring_priority : ℕ
  pub aliases : List AliasContent
  pub sources : List SourceConfig
  pub metadata : String

pub record TopicRow : Type 0 where
  pub canonical_name : String
  pub normalized_name : String
  pub slug : String
  pub description : Option String
  pub category : Option String
  pub status : TopicStatus
  pub monitoring_priority : ℕ
  pub deprecated_at : Option ℕ
  pub registry_version : Option ℕ
  pub metadata : String
  pub aliases : List AliasRow
  pub mappings : List MappingRow

-- The keys of `_topic_definition` and `_topic_record`.
pub record TopicContent : Type 0 where
  pub canonical_name : String
  pub normalized_name : String
  pub slug : String
  pub description : Option String
  pub category : Option String
  pub status : TopicStatus
  pub monitoring_priority : ℕ
  pub metadata : String

pub string_discrete : Discrete String
string_discrete s t = elim (Bool-cases (str_eq s t)) [
  | inl e ↦ yes ((eq_iff s t).0 e)
  | inr e ↦ no (λ p. cc (e, (eq_iff s t).1 p))
]

pub TopicContent-discrete : Discrete TopicContent
TopicContent-discrete = hlevel (string_discrete, ℕ_discrete)

pub AliasContent-discrete : Discrete AliasContent
AliasContent-discrete = hlevel (string_discrete, ℕ_discrete)

pub MappingContent-discrete : Discrete MappingContent
MappingContent-discrete = hlevel (string_discrete, ℕ_discrete)

pub CategoryDefinition-discrete : Discrete CategoryDefinition
CategoryDefinition-discrete = hlevel (string_discrete, ℕ_discrete)
