-- ===== src/Registry/Loader/WellFormed.antt =====
-- What the loader's checks establish for the synchronisation.
use signal_observatory.Prelude.{
  ℕ, Bool, true, false, ◌||◌, Option, none, some, List, [], ◌∷◌, String, str_eq, eq_iff,
  if◌then◌else◌, exists, ◌≡◌, refl, sym, ap, ◌∙◌, arith, Bool-cases, inl, inr, All, All-mono,
}
use signal_observatory.Registry.Values.{CategoryDefinition, AliasContent, TopicDefinition}
use signal_observatory.Registry.Entries.{Entity, is_wanted}
use signal_observatory.Registry.Entries.Laws.{UniqueKeys}
use signal_observatory.Registry.Entries.Unchanged.{append_none}
use signal_observatory.Registry.Entries.Texts.{text_le}
use signal_observatory.Registry.Entities.{category, alias, mapping}
use signal_observatory.Registry.Topics.{topic}
use signal_observatory.Registry.Compare.Warnings.{Warning}
use signal_observatory.Registry.Sync.Categories.{ParentKnown}
use signal_observatory.Registry.Sync.Topics.{UniqueParts}
use signal_observatory.Registry.Sync.Converges.{IsWellFormed}
use signal_observatory.Registry.Loader.{
  Issue, has_text, category_issues, parent_issue, parent_issues, alias_issues, topic_issues,
  definition_issues, same_identity, insert_by, sort_by,
}

issue_none : (b : Bool) (i : Issue) → (if b then i ∷ [] else []) ≡ [] → b ≡ false
issue_none true i h = cc
issue_none false i h = refl

apart_keys :
    {A : Type 0} (key : A → String) (k : String) (xs : List A)
    → All (λ x. str_eq k (key x) ≡ false) xs
    → exists (λ x. str_eq (key x) k) xs ≡ false
apart_keys key k [] a = refl
apart_keys key k (x ∷ xs) a =
    ground (arith, apart_keys key k xs, eq_iff k (key x), eq_iff (key x) k)

-- The later keys are apart from this one, and from those before.
split_seen :
    {A : Type 0} (key : A → String) (k : String) (seen : List String) (xs : List A)
    → All (λ x. has_text (k ∷ seen) (key x) ≡ false) xs
    → All (λ x. str_eq k (key x) ≡ false) xs × All (λ x. has_text seen (key x) ≡ false) xs
split_seen key k seen [] a = (tt, tt)
split_seen key k seen (x ∷ xs) a =
    let (b, c) = split_seen key k seen xs a.1 in ((ground arith, b), (ground arith, c))

category_lem :
    (normalize : String → String) (slugs names : List String) (cs : List CategoryDefinition)
    → category_issues normalize slugs names cs ≡ []
    → UniqueKeys category cs × All (λ c. has_text slugs c.slug ≡ false) cs
unfolding category_issues
category_lem normalize slugs names [] h = (tt, tt)
category_lem normalize slugs names (c ∷ cs) h =
    let (a, h1) = append_none _ h in
    let (b, h2) = append_none _ h1 in
    let (u, s) = category_lem normalize (c.slug ∷ slugs) (normalize c.name ∷ names) cs h2 in
    let (apart, before) = split_seen (λ c. c.slug) c.slug slugs cs s in
    ((apart_keys (λ c. c.slug) c.slug cs apart, u), (issue_none _ _ a, before))

parent_known :
    (categories : List CategoryDefinition) (c : CategoryDefinition) (o : Option String)
    → parent_issue categories c o ≡ []
    → ParentKnown categories o
parent_known categories c none h = tt
parent_known categories c (some p) h = let k = issue_none _ _ h in ground arith

parent_lem :
    (categories cs : List CategoryDefinition)
    → parent_issues categories cs ≡ []
    → All (λ c. ParentKnown categories c.parent) cs
unfolding parent_issues
parent_lem categories [] h = tt
parent_lem categories (c ∷ cs) h =
    let (a, b) = append_none (parent_issue categories c c.parent) h in
    (parent_known categories c c.parent a, parent_lem categories cs b)

-- No alias is case-sensitive, so that aliases with one text are one for the loader.
abbrev pub CaseFolded : TopicDefinition → Type 0
CaseFolded d = All (λ a. a.case_sensitive ≡ false) d.aliases

same_text :
    (b a : AliasContent)
    → b.case_sensitive ≡ false
    → a.case_sensitive ≡ false
    → same_identity b a ≡ str_eq b.normalized a.normalized
same_text b a h k = rw h (rw k (ground arith))

alias_lem :
    (slug : String) (seen as' : List AliasContent)
    → All (λ a. a.case_sensitive ≡ false) seen
    → All (λ a. a.case_sensitive ≡ false) as'
    → alias_issues slug seen as' ≡ []
    → UniqueKeys alias as'
      × All (λ a. exists (λ b. str_eq b.normalized a.normalized) seen ≡ false) as'
unfolding alias_issues
alias_lem slug seen [] s c h = (tt, tt)
alias_lem slug seen (a ∷ as') s c h =
    let (i, rest) = append_none _ h in
    let (u, t) = alias_lem slug (a ∷ seen) as' (c.0, s) c.1 rest in
    (
      (
        apart_keys (λ b. b.normalized) a.normalized as'
            (All-mono _ (λ b. str_eq a.normalized b.normalized ≡ false) as' (λ b q. ground arith)
              t),
        u,
      ),
      (
        folded seen s (issue_none _ _ i),
        All-mono _ (λ b. exists (λ d. str_eq d.normalized b.normalized) seen ≡ false) as'
            (λ b q. ground arith) t,
      ),
    )
  where
    folded :
        (seen : List AliasContent)
        → All (λ b. b.case_sensitive ≡ false) seen
        → exists (λ b. same_identity b a) seen ≡ false
        → exists (λ b. str_eq b.normalized a.normalized) seen ≡ false
    folded [] s h = refl
    folded (b ∷ seen) s h =
        let e = same_text b a s.0 c.0 in
        let g : same_identity b a ≡ false = ground arith in
        let f : exists (λ d. same_identity d a) seen ≡ false = ground arith in
        rw (sym e ∙ g) (folded seen s.1 f)

topic_lem :
    (normalize : String → String) (categories : List CategoryDefinition) (slugs names : List String)
    (ts : List TopicDefinition)
    → All (λ d. UniqueKeys mapping d.sources) ts
    → All CaseFolded ts
    → topic_issues normalize categories slugs names ts ≡ []
    → UniqueKeys (topic normalize 0 0) ts
      × All UniqueParts ts
      × All (λ d. has_text slugs d.slug ≡ false) ts
unfolding topic_issues
topic_lem normalize categories slugs names [] m c h = (tt, tt, tt)
topic_lem normalize categories slugs names (t ∷ ts) m c h =
    let (i1, h1) = append_none _ h in
    let (i2, h2) = append_none _ h1 in
    let (i3, h3) = append_none _ h2 in
    let (i4, h4) = append_none _ h3 in
    let (u, p, s) =
      topic_lem normalize categories (t.slug ∷ slugs) (normalize t.canonical_name ∷ names) ts m.1
        c.1 h4 in
    let (apart, before) = split_seen (λ d. d.slug) t.slug slugs ts s in
    let (aliases, empty) = alias_lem t.slug [] t.aliases tt c.0 i4 in
    (
      (apart_keys (λ d. d.slug) t.slug ts apart, u),
      ((aliases, m.0), p),
      (issue_none _ _ i1, before),
    )

-- Sorting keeps all of it.
exists-insert_by :
    {A : Type 0} (key : A → String) (p : A → Bool) (a : A) (as' : List A)
    → exists p (insert_by key a as') ≡ (p a || exists p as')
unfolding insert_by
exists-insert_by key p a [] = refl
exists-insert_by key p a (b ∷ bs) = ground (arith, exists-insert_by key p a bs)

exists-sort_by :
    {A : Type 0} (key : A → String) (p : A → Bool) (as' : List A)
    → exists p (sort_by key as') ≡ exists p as'
unfolding sort_by
exists-sort_by key p [] = refl
exists-sort_by key p (a ∷ as') =
    exists-insert_by key p a (sort_by key as') ∙ ap (λ b. p a || b) (exists-sort_by key p as')

All-insert_by :
    {A : Type 0} (P : A → Type 0) (key : A → String) (a : A) (as' : List A)
    → P a
    → All P as'
    → All P (insert_by key a as')
unfolding insert_by
All-insert_by P key a [] p h = (p, tt)
All-insert_by P key a (b ∷ bs) p h = elim (Bool-cases (text_le (key a) (key b))) [
  | inl q ↦ rw q (p, h)
  | inr q ↦ rw q (h.0, All-insert_by P key a bs p h.1)
]

All-sort_by :
    {A : Type 0} (P : A → Type 0) (key : A → String) (as' : List A)
    → All P as'
    → All P (sort_by key as')
unfolding sort_by
All-sort_by P key [] h = tt
All-sort_by P key (a ∷ as') h =
    All-insert_by P key a (sort_by key as') h.0 (All-sort_by P key as' h.1)

module _ {D R C : Type 0} (e : Entity D R C) where
  UniqueKeys-insert_by :
      (d : D) (ds : List D)
      → is_wanted e ds (e.key d) ≡ false
      → UniqueKeys e ds
      → UniqueKeys e (insert_by e.key d ds)
  unfolding insert_by
  UniqueKeys-insert_by d [] h u = (refl, tt)
  UniqueKeys-insert_by d (c ∷ cs) h u = elim (Bool-cases (text_le (e.key d) (e.key c))) [
    | inl q ↦ rw q (h, u)
    | inr q ↦
        let n : str_eq (e.key d) (e.key c) ≡ false =
          ground (arith, eq_iff (e.key d) (e.key c), eq_iff (e.key c) (e.key d)) in
        rw q (
          exists-insert_by e.key (λ x. str_eq (e.key x) (e.key c)) d cs ∙ rw n u.0,
          UniqueKeys-insert_by d cs (ground arith) u.1,
        )
  ]

  UniqueKeys-sort_by : (ds : List D) → UniqueKeys e ds → UniqueKeys e (sort_by e.key ds)
  unfolding sort_by
  UniqueKeys-sort_by [] u = tt
  UniqueKeys-sort_by (d ∷ ds) u =
      UniqueKeys-insert_by d (sort_by e.key ds)
        (exists-sort_by e.key (λ x. str_eq (e.key x) (e.key d)) ds ∙ u.0)
        (UniqueKeys-sort_by ds u.1)

known_sorted :
    (ds : List CategoryDefinition) (o : Option String)
    → ParentKnown ds o
    → ParentKnown (sort_by (λ c. c.slug) ds) o
known_sorted ds none h = tt
known_sorted ds (some p) h = exists-sort_by (λ c. c.slug) (λ c. str_eq c.slug p) ds ∙ h

-- If the checks find no issue, each topic has at most one mapping for a source, and no alias is
-- case-sensitive, then the registry that the loader returns, with its categories and topics in the
-- order of their slugs, is well-formed for the synchronisation.
pub sort_by-IsWellFormed :
    (normalize : String → String) (categories : List CategoryDefinition)
    (topics : List TopicDefinition) (checksum : String) (source_file_count : ℕ)
    (warnings : List Warning)
    → All (λ d. UniqueKeys mapping d.sources) topics
    → All CaseFolded topics
    → definition_issues normalize categories topics ≡ []
    → IsWellFormed normalize (record {
      categories = sort_by (λ c. c.slug) categories;
      topics = sort_by (λ d. d.slug) topics;
      checksum = checksum;
      source_file_count = source_file_count;
      warnings = warnings;
    })
unfolding definition_issues
sort_by-IsWellFormed normalize categories topics checksum source_file_count warnings m c h =
    let (a, rest) = append_none _ h in
    let (b, d) = append_none _ rest in
    let (u, before) = category_lem normalize [] [] categories a in
    let known = parent_lem categories categories b in
    let (t, p, s) = topic_lem normalize categories [] [] topics m c d in
    record {
      categories = UniqueKeys-sort_by category categories u;
      parents =
          All-sort_by (λ c. ParentKnown (sort_by (λ c. c.slug) categories) c.parent) (λ c. c.slug)
            categories
            (All-mono (λ c. ParentKnown categories c.parent) _ categories
              (λ c k. known_sorted categories c.parent k) known);
      topics = UniqueKeys-sort_by (topic normalize 0 0) topics t;
      parts = All-sort_by UniqueParts (λ d. d.slug) topics p;
    }
