-- ===== src/Registry/Sync/Sources.antt =====
-- The rows of `sources` that `_ensure_sources` leaves.
use signal_observatory.Prelude.{
  true, Option, none, some, List, [], ◌∷◌, ◌++◌, String, str_eq, eq_iff, ◌≡◌, refl, ◌∙◌, sym,
  Bool-cases, inl, inr, ok, err, Member, All, find, find_passed, map, ap,
}
use signal_observatory.Errors.{missing_source}
use signal_observatory.Registry.Values.{SourceConfig, TopicDefinition}
use signal_observatory.Registry.Entries.Texts.{sort_texts, Member-sort_texts}
use signal_observatory.Registry.Compare.{Registry}
use signal_observatory.Registry.Sync.{
  SourceRow, source_catalog, source_names, has_source, add_sources, ensure_sources,
}

module _ {A : Type 0} where
  pub Member-front : (x : A) (xs ys : List A) → Member x xs → Member x (xs ++ ys)
  Member-front x [] ys m = elim m [ ]
  Member-front x (z ∷ xs) ys (inl e) = inl e
  Member-front x (z ∷ xs) ys (inr m) = inr (Member-front x xs ys m)

  pub Member-back : (x : A) (xs ys : List A) → Member x ys → Member x (xs ++ ys)
  Member-back x [] ys m = m
  Member-back x (z ∷ xs) ys m = inr (Member-back x xs ys m)

  pub All-each {κ} : (P : A → Type κ) (xs : List A) → ((x : A) → Member x xs → P x) → All P xs
  All-each P [] f = tt
  All-each P (x ∷ xs) f = (f x (inl refl), All-each P xs (λ y m. f y (inr m)))

-- A source of this name has a row.
abbrev pub HasRow : List SourceRow → String → Type 0
HasRow rows name = (r : SourceRow) × Member r rows × (r.name ≡ name)

has_source-HasRow :
    (name : String) (rows : List SourceRow) → has_source name rows ≡ true → HasRow rows name
has_source-HasRow name [] h = cc
has_source-HasRow name (r ∷ rows) h = elim (Bool-cases (str_eq r.name name)) [
  | inl e ↦ (r, inl refl, (eq_iff r.name name).0 e)
  | inr e ↦ let (s, m, q) = has_source-HasRow name rows (rw e at h) in (s, inr m, q)
]

-- The names have rows, and no row is lost.
pub record Ensured (names : List String) (rows rows' : List SourceRow) : Type 0 where
  pub present : (name : String) → Member name names → HasRow rows' name
  pub kept : (r : SourceRow) → Member r rows → Member r rows'

there :
    (n : String) (ns : List String) (rows mid rows' : List SourceRow)
    → HasRow mid n
    → ((r : SourceRow) → Member r rows → Member r mid)
    → Ensured ns mid rows'
    → Ensured (n ∷ ns) rows rows'
there n ns rows mid rows' (r, m, q) grown h = record {
  present = found;
  kept = λ s k. h.kept s (grown s k);
}
  where
    found : (name : String) → Member name (n ∷ ns) → HasRow rows' name
    found name (inl e) = (r, h.kept r m, q ∙ sym e)
    found name (inr k) = h.present name k

add_sources-Ensured :
    (ns : List String) (rows : List SourceRow) {rows' : List SourceRow}
    → add_sources ns rows ≡ ok rows'
    → Ensured ns rows rows'
unfolding add_sources
add_sources-Ensured [] rows {rows'} h =
    let same : rows ≡ rows' = cc in
    record { present = λ name m. elim m [ ]; kept = λ r m. rw (← same) m }
add_sources-Ensured (n ∷ ns) rows {rows'} h = elim (Bool-cases (has_source n rows)) [
  | inl e ↦
      there n ns rows rows rows' (has_source-HasRow n rows e) (λ r m. m)
        (add_sources-Ensured ns rows (rw (e, add_sources) at h))
  | inr e ↦
      looked_up (find (λ r. str_eq r.name n) source_catalog) refl
        (λ spec k. add_sources-Ensured ns (rows ++ (spec ∷ [])) k) (rw (e, add_sources) at h)
]
  where
    looked_up :
        (o : Option SourceRow)
        → find (λ r. str_eq r.name n) source_catalog ≡ o
        → ((spec : SourceRow)
            → add_sources ns (rows ++ (spec ∷ [])) ≡ ok rows'
            → Ensured ns (rows ++ (spec ∷ [])) rows')
        → elim o [ none ↦ err missing_source | some spec ↦ add_sources ns (rows ++ (spec ∷ [])) ]
          ≡ ok rows'
        → Ensured (n ∷ ns) rows rows'
    looked_up none f ih k = cc
    looked_up (some spec) f ih k =
        there n ns rows (rows ++ (spec ∷ [])) rows'
          (
            spec,
            Member-back spec rows (spec ∷ []) (inl refl),
            (eq_iff spec.name n).0 (find_passed (λ r. str_eq r.name n) source_catalog spec f),
          )
          (λ r m. Member-front r rows (spec ∷ []) m) (ih spec k)

pub Member-map :
    {A B : Type 0} (f : A → B) (x : A) (xs : List A) → Member x xs → Member (f x) (map f xs)
Member-map f x [] m = elim m [ ]
Member-map f x (y ∷ xs) (inl e) = inl (ap f e)
Member-map f x (y ∷ xs) (inr m) = inr (Member-map f x xs m)

Member-source_names :
    (d : TopicDefinition) (s : SourceConfig) (ds : List TopicDefinition)
    → Member d ds
    → Member s d.sources
    → Member s.source_name (source_names ds)
Member-source_names d s [] m k = elim m [ ]
Member-source_names d s (e ∷ ds) (inl q) k =
    Member-front s.source_name (map (λ t. t.source_name) e.sources) (source_names ds)
      (Member-map (λ t. t.source_name) s e.sources (rw q at k))
Member-source_names d s (e ∷ ds) (inr m) k =
    Member-back s.source_name (map (λ t. t.source_name) e.sources) (source_names ds)
      (Member-source_names d s ds m k)

-- Each source that a topic of the registry is mapped to has a row, and the rows that were there are
-- still there.
pub ensure_sources-Ensured :
    (reg : Registry) (rows : List SourceRow) {rows' : List SourceRow}
    → ensure_sources reg rows ≡ ok rows'
    → All (λ d. All (λ s. HasRow rows' s.source_name) d.sources) reg.topics
      × All (λ r. Member r rows') rows
unfolding ensure_sources
ensure_sources-Ensured reg rows {rows'} h =
    let e = add_sources-Ensured (sort_texts (source_names reg.topics)) rows h in
    (
      All-each _ reg.topics (λ d m. All-each _ d.sources (λ s k. e.present s.source_name (
          Member-sort_texts s.source_name (source_names reg.topics)
            (Member-source_names d s reg.topics m k)))),
      All-each _ rows e.kept,
    )
