-- ===== src/Github/Persistence/Matches.antt =====
-- What a match says after it has been seen any number of times.
use signal_observatory.Prelude.{
  ℕ, ◌≤◌, ◌≡◌, refl, ◌∙◌, Bool, true, Option, none, some, List, [], ◌∷◌, String, min, max, find,
  map, All, Member, ◌⊎◌, inl, inr, arith, eq_iff, ◌==◌,
}
use signal_observatory.Github.State.{TrackingState, ignored, Match, Store}
use signal_observatory.Github.Persistence.{is_match, retracked, upsert_match}
use signal_observatory.Github.Search.Tables.{find-upserted}

-- One time that a search finds the repository.
pub record Sighting : Type 0 where
  pub rank : ℕ
  pub at_instant : ℕ
  pub state : TrackingState

same_number : (a : ℕ) → (a == a) ≡ true
same_number a = ground arith

min_cases : (a b : ℕ) → (min a b ≡ a) ⊎ (min a b ≡ b)
min_cases a b = ground arith

max_cases : (a b : ℕ) → (max a b ≡ a) ⊎ (max a b ≡ b)
max_cases a b = ground arith

-- Where a result is one of two numbers or a later one.
one_of : {B : Type 0} (r c a b : ℕ) → (c ≡ a) ⊎ (c ≡ b) → (r ≡ c) ⊎ B → (r ≡ a) ⊎ ((r ≡ b) ⊎ B)
one_of r c a b which (inr later) = inr (inr later)
one_of r c a b (inl e) (inl h) = inl (h ∙ e)
one_of r c a b (inr e) (inl h) = inr (inl (h ∙ e))

-- The evidence that a match stands for, and the store after some sightings of it.
module _ (topic repository mapping : ℕ) (query : String) where
  abbrev pub see : Sighting → Store → Store
  see x store = (upsert_match topic repository mapping query x.rank x.at_instant x.state store).0

  abbrev pub see_all : List Sighting → Store → Store
  see_all [] store = store
  see_all (x ∷ xs) store = see_all xs (see x store)

  abbrev pub is_this : Match → Bool
  is_this = is_match topic repository mapping query

  -- A match after sightings of it.
  pub record IsSeen (m m' : Match) (xs : List Sighting) : Type 0 where
    pub first : m'.first_discovered_at ≡ m.first_discovered_at
    pub rank_least :
        (m'.discovery_rank ≤ m.discovery_rank) × All (λ x. m'.discovery_rank ≤ x.rank) xs
    pub rank_one :
        (m'.discovery_rank ≡ m.discovery_rank) ⊎ Member m'.discovery_rank (map (λ x. x.rank) xs)
    pub last_greatest :
        (m.last_discovered_at ≤ m'.last_discovered_at)
        × All (λ x. x.at_instant ≤ m'.last_discovered_at) xs
    pub last_one :
        (m'.last_discovered_at ≡ m.last_discovered_at)
        ⊎ Member m'.last_discovered_at (map (λ x. x.at_instant) xs)
    pub stays_ignored : m.tracking_state ≡ ignored → m'.tracking_state ≡ ignored

  abbrev seen_again : Sighting → Match → Match
  seen_again x row = record row {
    last_discovered_at = max row.last_discovered_at x.at_instant;
    discovery_rank = min row.discovery_rank x.rank;
    tracking_state = retracked row.tracking_state x.state;
  }

  abbrev first_seen : Sighting → Match
  first_seen x = record {
    topic = topic;
    repository = repository;
    mapping = mapping;
    matched_query = query;
    discovery_rank = x.rank;
    first_discovered_at = x.at_instant;
    last_discovered_at = x.at_instant;
    tracking_state = x.state;
  }

  first_seen-is_this : (x : Sighting) → is_this (first_seen x) ≡ true
  first_seen-is_this x =
      rw
        (
          same_number topic,
          same_number repository,
          same_number mapping,
          (eq_iff query query).1 refl,
        )
        refl

  found_seen :
      (x : Sighting) (store : Store)
      → find is_this (see x store).matches
        ≡ some (elim (find is_this store.matches) [ none ↦ first_seen x | some m ↦ seen_again x m ])
  unfolding upsert_match
  found_seen x store =
      find-upserted is_this (first_seen x) (seen_again x) store.matches (first_seen-is_this x)
        (λ m. refl)

  ignored_kept :
      (x : Sighting) (m : Match)
      → m.tracking_state ≡ ignored
      → (seen_again x m).tracking_state ≡ ignored
  ignored_kept x m e = rw (e, retracked) refl

  next-IsSeen :
      (m m' : Match) (x : Sighting) (xs : List Sighting)
      → IsSeen (seen_again x m) m' xs
      → IsSeen m m' (x ∷ xs)
  next-IsSeen m m' x xs h =
      let r = h.rank_least.0 in
      let l = h.last_greatest.0 in
      record {
        first = h.first;
        rank_least = (omega (arith, r), (omega (arith, r), h.rank_least.1));
        rank_one = one_of m'.discovery_rank _ _ _ (min_cases m.discovery_rank x.rank) h.rank_one;
        last_greatest = (omega (arith, l), (omega (arith, l), h.last_greatest.1));
        last_one =
            one_of m'.last_discovered_at _ _ _ (max_cases m.last_discovered_at x.at_instant)
              h.last_one;
        stays_ignored = λ e. h.stays_ignored (ignored_kept x m e);
      }

  again_IsSeen :
      (m : Match) (xs : List Sighting) (store : Store)
      → find is_this store.matches ≡ some m
      → (m' : Match) × (find is_this (see_all xs store).matches ≡ some m') × IsSeen m m' xs
  again_IsSeen m [] store e = (
    m,
    e,
    record {
      first = refl;
      rank_least = (omega arith, tt);
      rank_one = inl refl;
      last_greatest = (omega arith, tt);
      last_one = inl refl;
      stays_ignored = λ i. i;
    },
  )
  again_IsSeen m (x ∷ xs) store e =
      let found : find is_this (see x store).matches ≡ some (seen_again x m) =
        rw e at (found_seen x store) in
      let (m', found', h) = again_IsSeen (seen_again x m) xs (see x store) found in
      (m', found', next-IsSeen m m' x xs h)

  new_IsSeen :
      (m' : Match) (x : Sighting) (xs : List Sighting)
      → IsSeen (first_seen x) m' xs
      → IsSeen (first_seen x) m' (x ∷ xs)
  new_IsSeen m' x xs h = record {
    first = h.first;
    rank_least = (h.rank_least.0, h.rank_least);
    rank_one = elim h.rank_one [ inl e ↦ inl e | inr later ↦ inr (inr later) ];
    last_greatest = (h.last_greatest.0, h.last_greatest);
    last_one = elim h.last_one [ inl e ↦ inl e | inr later ↦ inr (inr later) ];
    stays_ignored = h.stays_ignored;
  }

  -- The row before the sightings, or the one that the first of them makes.
  abbrev pub row_before : Option Match → Sighting → Match
  row_before none x = first_seen x
  row_before (some m) x = m

  -- Evidence that is seen once or more often has a match afterwards. Whether there was a row or the first
  -- sighting made it, the match keeps its first instant, has the least of the ranks and the greatest of
  -- the instants, and is still ignored if it was.
  pub see_all-IsSeen :
      (x : Sighting) (xs : List Sighting) (store : Store) (before : Option Match)
      → find is_this store.matches ≡ before
      → (m : Match) × (find is_this (see_all (x ∷ xs) store).matches ≡ some m)
        × IsSeen (row_before before x) m (x ∷ xs)
  see_all-IsSeen x xs store none e =
      let (m, found, h) =
        again_IsSeen (first_seen x) xs (see x store) (rw e at (found_seen x store)) in
      (m, found, new_IsSeen m x xs h)
  see_all-IsSeen x xs store (some m) e = again_IsSeen m (x ∷ xs) store e
