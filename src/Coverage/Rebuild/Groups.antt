-- ===== src/Coverage/Rebuild/Groups.antt =====
-- The groups have distinct keys, and so have the projections.
use signal_observatory.Prelude.{
  ℕ, true, false, ◌&&◌, ◌||◌, List, [], ◌∷◌, str_eq, exists, ◌==◌, ◌≡◌, refl, ◌∙◌, arith,
  Bool-cases, inl, inr, All,
}
use signal_observatory.Coverage.Derive.{derive_arxiv, derive_github}
use signal_observatory.Coverage.Rebuild.{
  Mapping, Group, Facts, in_group, add_mapping, group_into, projections_of, has_key,
}
use signal_observatory.Coverage.Rebuild.Refines.{UniqueProjections, AllHandled}

abbrev UniqueGroups : List Group → Type 0
UniqueGroups [] = Unit
UniqueGroups (g ∷ gs) = (exists (in_group g.topic_id g.source_id) gs ≡ false) × UniqueGroups gs

abbrev GroupsHandled : List ℕ → List Group → Type 0
GroupsHandled handled gs = All (λ g. exists (λ s. s == g.source_id) handled ≡ true) gs

exists-add_mapping :
    (topic source : ℕ) (m : Mapping) (gs : List Group)
    → exists (in_group topic source) (add_mapping m gs)
      ≡ ((m.topic_id == topic && m.source_id == source) || exists (in_group topic source) gs)
unfolding add_mapping
exists-add_mapping topic source m [] = refl
exists-add_mapping topic source m (g ∷ gs) = elim (Bool-cases (in_group m.topic_id m.source_id g)) [
  | inl q ↦
      let t : g.topic_id ≡ m.topic_id = ground arith in
      let s : g.source_id ≡ m.source_id = ground arith in rw q (rw t (rw s (ground arith)))
  | inr q ↦ rw q (ground (arith, exists-add_mapping topic source m gs))
]

add_mapping-UniqueGroups :
    (m : Mapping) (gs : List Group) → UniqueGroups gs → UniqueGroups (add_mapping m gs)
unfolding add_mapping
add_mapping-UniqueGroups m [] u = (refl, tt)
add_mapping-UniqueGroups m (g ∷ gs) u = elim (Bool-cases (in_group m.topic_id m.source_id g)) [
  | inl q ↦ rw q u
  | inr q ↦ rw q (
    exists-add_mapping g.topic_id g.source_id m gs ∙ ground arith,
    add_mapping-UniqueGroups m gs u.1,
  )
]

add_mapping_handled :
    (handled : List ℕ) (m : Mapping) (gs : List Group)
    → exists (λ s. s == m.source_id) handled ≡ true
    → GroupsHandled handled gs
    → GroupsHandled handled (add_mapping m gs)
unfolding add_mapping
add_mapping_handled handled m [] h a = (h, tt)
add_mapping_handled handled m (g ∷ gs) h a = elim (Bool-cases (in_group m.topic_id m.source_id g)) [
  | inl q ↦ rw q a
  | inr q ↦ rw q (a.0, add_mapping_handled handled m gs h a.1)
]

-- The mappings of the query are of handled sources.
abbrev pub MappingsHandled : List ℕ → List Mapping → Type 0
MappingsHandled handled ms = All (λ m. exists (λ s. s == m.source_id) handled ≡ true) ms

group_into-UniqueGroups :
    (ms : List Mapping) (gs : List Group) → UniqueGroups gs → UniqueGroups (group_into gs ms)
unfolding group_into
group_into-UniqueGroups [] gs u = u
group_into-UniqueGroups (m ∷ ms) gs u =
    group_into-UniqueGroups ms (add_mapping m gs) (add_mapping-UniqueGroups m gs u)

group_into_handled :
    (handled : List ℕ) (ms : List Mapping) (gs : List Group)
    → MappingsHandled handled ms
    → GroupsHandled handled gs
    → GroupsHandled handled (group_into gs ms)
unfolding group_into
group_into_handled handled [] gs h a = a
group_into_handled handled (m ∷ ms) gs h a =
    group_into_handled handled ms (add_mapping m gs) h.1 (add_mapping_handled handled m gs h.0 a)

module _ (facts : Facts) where
  no_projection :
      (topic source : ℕ) (gs : List Group)
      → exists (in_group topic source) gs ≡ false
      → exists (has_key topic source) (projections_of facts gs) ≡ false
  unfolding derive_arxiv derive_github
  no_projection topic source [] h = refl
  no_projection topic source (g ∷ gs) h = elim (Bool-cases (str_eq g.source_name "arxiv")) [
    | inl q ↦ rw q (ground (arith, no_projection topic source gs))
    | inr q ↦ elim (Bool-cases (str_eq g.source_name "github")) [
      | inl r ↦ rw q (rw r (ground (arith, no_projection topic source gs)))
      | inr r ↦ rw q (rw r (no_projection topic source gs (ground arith)))
    ]
  ]

  projections_of-UniqueProjections :
      (gs : List Group) → UniqueGroups gs → UniqueProjections (projections_of facts gs)
  unfolding derive_arxiv derive_github
  projections_of-UniqueProjections [] u = tt
  projections_of-UniqueProjections (g ∷ gs) u =
      let n = no_projection g.topic_id g.source_id gs u.0 in
      let rest = projections_of-UniqueProjections gs u.1 in
      elim (Bool-cases (str_eq g.source_name "arxiv")) [
        | inl q ↦ rw q (n, rest)
        | inr q ↦ elim (Bool-cases (str_eq g.source_name "github")) [
          | inl r ↦ rw q (rw r (n, rest))
          | inr r ↦ rw q (rw r rest)
        ]
      ]

  projections_of-AllHandled :
      (handled : List ℕ) (gs : List Group)
      → GroupsHandled handled gs
      → AllHandled handled (projections_of facts gs)
  unfolding derive_arxiv derive_github
  projections_of-AllHandled handled [] a = tt
  projections_of-AllHandled handled (g ∷ gs) a =
      let rest = projections_of-AllHandled handled gs a.1 in
      elim (Bool-cases (str_eq g.source_name "arxiv")) [
        | inl q ↦ rw q (a.0, rest)
        | inr q ↦ elim (Bool-cases (str_eq g.source_name "github")) [
          | inl r ↦ rw q (rw r (a.0, rest))
          | inr r ↦ rw q (rw r rest)
        ]
      ]

  pub grouped-UniqueProjections :
      (ms : List Mapping) → UniqueProjections (projections_of facts (group_into [] ms))
  grouped-UniqueProjections ms =
      projections_of-UniqueProjections (group_into [] ms) (group_into-UniqueGroups ms [] tt)

  pub grouped-AllHandled :
      (handled : List ℕ) (ms : List Mapping)
      → MappingsHandled handled ms
      → AllHandled handled (projections_of facts (group_into [] ms))
  grouped-AllHandled handled ms h =
      projections_of-AllHandled handled (group_into [] ms) (group_into_handled handled ms [] h tt)
