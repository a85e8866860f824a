-- ===== src/Coverage/Rebuild.antt =====
-- `CoverageDeriver.rebuild` (coverage.py): the mappings by topic and source, a projection of each group,
-- and the table brought to the projections.

pub mod Groups
pub mod Refines
pub mod Again
pub mod Whole
use signal_observatory.Prelude.{
  ℕ, suc, ◌+◌, Bool, true, false, not, ◌&&◌, ◌||◌, Option, none, some, List, [], ◌∷◌, ◌++◌, map,
  String, str_eq, if◌then◌else◌, exists, find, select, length, ◌==◌,
}
use signal_observatory.Coverage.Derive.{
  ArxivFacts, GithubFacts, CoverageProjection, derive_arxiv, derive_github,
}
use signal_observatory.Coverage.Derive.Equality.{projections_equal}

abbrev pub derivation_version : String
derivation_version = "coverage-v1"

-- A mapping that is enabled, of an active topic and a supported source, in the order of the query.
pub record Mapping : Type 0 where
  pub id : ℕ
  pub topic_id : ℕ
  pub source_id : ℕ
  pub source_name : String

pub record Group : Type 0 where
  pub topic_id : ℕ
  pub source_id : ℕ
  pub source_name : String
  pub mappings : List ℕ

-- A row of `TopicSourceCoverage`.
pub record CoverageRow : Type 0 where
  pub projection : CoverageProjection
  pub derived_at : ℕ
  pub derivation_version : String

pub record RebuildReport : Type 0 where
  pub projections : ℕ
  pub created : ℕ
  pub updated : ℕ
  pub unchanged : ℕ
  pub deleted : ℕ

-- `groups[(mapping.topic_id, mapping.source_id)].append(mapping)`.
abbrev pub in_group : ℕ → ℕ → Group → Bool
in_group topic source g = g.topic_id == topic && g.source_id == source

unfoldable pub add_mapping : Mapping → List Group → List Group
add_mapping m [] =
    record {
      topic_id = m.topic_id;
      source_id = m.source_id;
      source_name = m.source_name;
      mappings = m.id ∷ [];
    }
    ∷ []
add_mapping m (g ∷ gs) =
    let rest = add_mapping m gs in
    if in_group m.topic_id m.source_id g
    then record g { mappings = g.mappings ++ (m.id ∷ []) } ∷ gs
    else g ∷ rest

unfoldable pub group_into : List Group → List Mapping → List Group
unfolding add_mapping
group_into groups [] = groups
group_into groups (m ∷ ms) = group_into (add_mapping m groups) ms

-- What the queries of a group return.
pub record Facts : Type 0 where
  pub arxiv : ℕ → ℕ → List ℕ → ArxivFacts
  pub github : ℕ → ℕ → List ℕ → GithubFacts

abbrev pub projections_of : Facts → List Group → List CoverageProjection
projections_of facts [] = []
projections_of facts (g ∷ gs) =
    let rest = projections_of facts gs in
    if str_eq g.source_name "arxiv"
    then derive_arxiv g.topic_id g.source_id g.mappings
        (facts.arxiv g.topic_id g.source_id g.mappings)
      ∷ rest
    else (if str_eq g.source_name "github"
        then derive_github g.topic_id g.source_id g.mappings
            (facts.github g.topic_id g.source_id g.mappings)
          ∷ rest
        else rest)

abbrev pub has_key : ℕ → ℕ → CoverageProjection → Bool
has_key topic source p = p.topic_id == topic && p.source_id == source

abbrev pub row_has : ℕ → ℕ → CoverageRow → Bool
row_has topic source r = has_key topic source r.projection

-- `_projection_changed`.
unfoldable pub projection_changed : CoverageRow → CoverageProjection → Bool
unfolding projections_equal
projection_changed r p =
    not (str_eq r.derivation_version derivation_version) || not (projections_equal r.projection p)

abbrev pub new_row : ℕ → CoverageProjection → CoverageRow
new_row now p = record { projection = p; derived_at = now; derivation_version = derivation_version }

unfoldable pub refresh : ℕ → CoverageProjection → CoverageRow → CoverageRow
unfolding projection_changed
refresh now p r = if projection_changed r p then new_row now p else r

-- One round of the loop over the projections; `existing` holds the handled rows before the loop.
unfoldable pub write_projection :
    ℕ → List CoverageRow → CoverageProjection → List CoverageRow → List CoverageRow
unfolding refresh
write_projection now existing p rows =
    if exists (row_has p.topic_id p.source_id) existing
    then map (λ r. if row_has p.topic_id p.source_id r then refresh now p r else r) rows
    else rows ++ (new_row now p ∷ [])

unfoldable pub write_projections :
    ℕ → List CoverageRow → List CoverageProjection → List CoverageRow → List CoverageRow
unfolding write_projection
write_projections now existing [] rows = rows
write_projections now existing (p ∷ ps) rows =
    write_projections now existing ps (write_projection now existing p rows)

abbrev pub is_handled : List ℕ → CoverageRow → Bool
is_handled handled r = exists (λ s. s == r.projection.source_id) handled

abbrev pub is_expected : List CoverageProjection → CoverageRow → Bool
is_expected ps r = exists (has_key r.projection.topic_id r.projection.source_id) ps

-- Which count a projection goes to.
abbrev is_created : List CoverageRow → CoverageProjection → Bool
is_created existing p = not (exists (row_has p.topic_id p.source_id) existing)

abbrev is_updated : List CoverageRow → CoverageProjection → Bool
is_updated existing p = elim (find (row_has p.topic_id p.source_id) existing) [
  | none ↦ false
  | some r ↦ projection_changed r p
]

abbrev is_unchanged : List CoverageRow → CoverageProjection → Bool
is_unchanged existing p = elim (find (row_has p.topic_id p.source_id) existing) [
  | none ↦ false
  | some r ↦ not (projection_changed r p)
]

abbrev pub table_for : ℕ → List ℕ → List CoverageProjection → List CoverageRow → List CoverageRow
table_for now handled ps rows =
    let existing = select (is_handled handled) rows in
    select (λ r. not (is_handled handled r) || is_expected ps r)
      (write_projections now existing ps rows)

abbrev pub report_for : List ℕ → List CoverageProjection → List CoverageRow → RebuildReport
report_for handled ps rows =
    let existing = select (is_handled handled) rows in
    record {
      projections = length ps;
      created = length (select (is_created existing) ps);
      updated = length (select (is_updated existing) ps);
      unchanged = length (select (is_unchanged existing) ps);
      deleted = length (select (λ r. not (is_expected ps r)) existing);
    }

unfoldable pub rebuild :
    ℕ → List ℕ → Facts → List Mapping → List CoverageRow → List CoverageRow × RebuildReport
unfolding group_into write_projections
rebuild now handled facts mappings rows =
    let ps = projections_of facts (group_into [] mappings) in
    (table_for now handled ps rows, report_for handled ps rows)
