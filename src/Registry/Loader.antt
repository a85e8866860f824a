-- ===== src/Registry/Loader.antt =====
-- The checks of `TopicRegistryLoader._cross_file_issues` on categories and topics (loader.py), and the
-- order of what `load` returns. Issues are given by their code and what their message names; how
-- names are folded is a parameter. Alias collisions between topics and category cycles are left out.
pub mod WellFormed
use signal_observatory.Prelude.{
  ℕ, Bool, true, false, not, ◌&&◌, ◌||◌, Option, none, some, List, [], ◌∷◌, ◌++◌, String, str_eq,
  if◌then◌else◌, exists,
}
use signal_observatory.Registry.Values.{CategoryDefinition, AliasContent, TopicDefinition}
use signal_observatory.Registry.Entries.Texts.{text_le}

pub data Issue : Type 0 where
  duplicate_category_slug duplicate_category_name duplicate_topic_slug duplicate_canonical_name :
      String → Issue
  missing_parent_category missing_category duplicate_topic_alias : String → String → Issue

-- `in` on the keys of a dictionary or on a set.
abbrev pub has_text : List String → String → Bool
has_text seen k = exists (λ s. str_eq s k) seen

abbrev issue_if : Bool → Issue → List Issue
issue_if b issue = if b then issue ∷ [] else []

module _ (normalize : String → String) where
  -- The first loop, with the slugs and the folded names of the categories before.
  unfoldable pub category_issues : List String → List String → List CategoryDefinition → List Issue
  category_issues slugs names [] = []
  category_issues slugs names (c ∷ cs) =
      issue_if (has_text slugs c.slug) (duplicate_category_slug c.slug)
      ++ (issue_if (has_text names (normalize c.name)) (duplicate_category_name c.name)
          ++ category_issues (c.slug ∷ slugs) (normalize c.name ∷ names) cs)

abbrev pub category_known : List CategoryDefinition → String → Bool
category_known categories slug = exists (λ c. str_eq c.slug slug) categories

abbrev pub parent_issue : List CategoryDefinition → CategoryDefinition → Option String → List Issue
parent_issue categories c none = []
parent_issue categories c (some p) =
    issue_if (not (category_known categories p)) (missing_parent_category c.slug p)

unfoldable pub parent_issues : List CategoryDefinition → List CategoryDefinition → List Issue
parent_issues categories [] = []
parent_issues categories (c ∷ cs) =
    parent_issue categories c c.parent ++ parent_issues categories cs

abbrev same_case : Bool → Bool → Bool
same_case true b = b
same_case false b = not b

-- `(alias.normalized, alias.case_sensitive)`.
abbrev pub same_identity : AliasContent → AliasContent → Bool
same_identity a b = str_eq a.normalized b.normalized && same_case a.case_sensitive b.case_sensitive

unfoldable pub alias_issues : String → List AliasContent → List AliasContent → List Issue
alias_issues slug seen [] = []
alias_issues slug seen (a ∷ as') =
    issue_if (exists (λ b. same_identity b a) seen) (duplicate_topic_alias slug a.value)
    ++ alias_issues slug (a ∷ seen) as'

module _ (normalize : String → String) where
  unfoldable pub topic_issues :
      List CategoryDefinition → List String → List String → List TopicDefinition → List Issue
  unfolding alias_issues
  topic_issues categories slugs names [] = []
  topic_issues categories slugs names (t ∷ ts) =
      issue_if (has_text slugs t.slug) (duplicate_topic_slug t.slug)
      ++ (issue_if (has_text names (normalize t.canonical_name))
            (duplicate_canonical_name t.canonical_name)
          ++ (issue_if (not (category_known categories t.category))
                (missing_category t.slug t.category)
              ++ (alias_issues t.slug [] t.aliases
                  ++ topic_issues categories (t.slug ∷ slugs) (normalize t.canonical_name ∷ names)
                      ts)))

  unfoldable pub definition_issues : List CategoryDefinition → List TopicDefinition → List Issue
  unfolding category_issues parent_issues topic_issues
  definition_issues categories topics =
      category_issues normalize [] [] categories
      ++ (parent_issues categories categories ++ topic_issues categories [] [] topics)

-- `sorted(…, key=lambda item: item.slug)`.
insert_by : {A : Type 0} → (A → String) → A → List A → List A
insert_by key a [] = a ∷ []
insert_by key a (b ∷ bs) =
    let rest = insert_by key a bs in if text_le (key a) (key b) then a ∷ b ∷ bs else b ∷ rest

unfoldable pub sort_by : {A : Type 0} → (A → String) → List A → List A
unfolding insert_by
sort_by key [] = []
sort_by key (a ∷ as') = insert_by key a (sort_by key as')
