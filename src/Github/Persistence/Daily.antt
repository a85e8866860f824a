-- ===== src/Github/Persistence/Daily.antt =====
-- One snapshot for each repository and day: what `create_full_snapshot` and
-- `create_unchanged_snapshot` keep of the table, and what they add to it.
use signal_observatory.Prelude.{
  ℕ, ◌+◌, ◌/◌, ◌≡◌, refl, ap, ◌∙◌, Bool, none, some, List, [], ◌∷◌, ◌++◌, length, Result, ok, err,
  arith, Option-cases, Bool-cases, inl, inr, Member, length-append,
}
use signal_observatory.Clock.{day}
use signal_observatory.Github.State.{
  RepositoryData, Repository, Snapshot, Store, Response, to_int, GithubError,
}
use signal_observatory.Github.Persistence.{
  is_daily, daily_snapshot, previous_snapshot, full_snapshot, unchanged_snapshot,
  create_full_snapshot, create_unchanged_snapshot,
}

-- The unique constraint on repository and day.
abbrev pub OnePerDay : List Snapshot → Type 0
OnePerDay [] = Unit
OnePerDay (s ∷ ss) = (daily_snapshot s.repository (s.observed_at / day) ss ≡ none) × OnePerDay ss

-- A table with `count` more snapshots, and the constraint kept.
pub record IsGrown (old new : List Snapshot) (count : ℕ) : Type 0 where
  pub added : List Snapshot
  pub kept : new ≡ added ++ old
  pub counted : length added ≡ count
  pub one_per_day : OnePerDay old → OnePerDay new

pub same-IsGrown : (ss : List Snapshot) → IsGrown ss ss 0
same-IsGrown ss = record { added = []; kept = refl; counted = refl; one_per_day = λ h. h }

one-IsGrown :
    (s : Snapshot) (ss : List Snapshot)
    → daily_snapshot s.repository (s.observed_at / day) ss ≡ none
    → IsGrown ss (s ∷ ss) 1
one-IsGrown s ss free = record {
  added = s ∷ [];
  kept = refl;
  counted = refl;
  one_per_day = λ h. (free, h);
}

append_assoc : (xs ys zs : List Snapshot) → xs ++ (ys ++ zs) ≡ (xs ++ ys) ++ zs
append_assoc [] ys zs = refl
append_assoc (x ∷ xs) ys zs = ap (λ l. x ∷ l) (append_assoc xs ys zs)

pub IsGrown-trans :
    (a b c : List Snapshot) (m n : ℕ) → IsGrown a b m → IsGrown b c n → IsGrown a c (m + n)
IsGrown-trans a b c m n h k = record {
  added = k.added ++ h.added;
  kept = k.kept ∙ ap (λ l. k.added ++ l) h.kept ∙ append_assoc k.added h.added a;
  counted = omega (arith, length-append k.added h.added, h.counted, k.counted);
  one_per_day = λ o. k.one_per_day (h.one_per_day o);
}

member_append :
    (s : Snapshot) (front back : List Snapshot) → Member s back → Member s (front ++ back)
member_append s [] back m = m
member_append s (x ∷ front) back m = inr (member_append s front back m)

-- Snapshots are never lost.
pub IsGrown-member :
    (a b : List Snapshot) (n : ℕ) (s : Snapshot) → IsGrown a b n → Member s a → Member s b
IsGrown-member a b n s h m = rw h.kept (member_append s h.added a m)

-- There is a snapshot of the repository on the day.
abbrev pub IsObserved : ℕ → ℕ → List Snapshot → Type 0
IsObserved repository date ss =
    (s : Snapshot) × Member s ss × (s.repository ≡ repository) × (s.observed_at / day ≡ date)

pub IsGrown-IsObserved :
    (a b : List Snapshot) (n repository date : ℕ)
    → IsGrown a b n
    → IsObserved repository date a
    → IsObserved repository date b
IsGrown-IsObserved a b n repository date h (s, m, e, d) = (s, IsGrown-member a b n s h m, e, d)

daily_snapshot-IsObserved :
    (repository date : ℕ) (ss : List Snapshot) (s : Snapshot)
    → daily_snapshot repository date ss ≡ some s
    → IsObserved repository date ss
daily_snapshot-IsObserved repository date [] s h = cc
daily_snapshot-IsObserved repository date (t ∷ ss) s h =
    elim (Bool-cases (is_daily repository date t)) [
      | inl e ↦ (t, inl refl, ground arith, ground arith)
      | inr e ↦
          let (u, m, a, b) = daily_snapshot-IsObserved repository date ss s (rw e at h) in
          (u, inr m, a, b)
    ]

-- A call that records an observation: the table grows by the new snapshot, if there is one, and
-- has one of the repository on the day.
pub record IsRecorded (repository : ℕ) (r : Response) (store store' : Store) (created : Bool)
    : Type 0 where
  pub grown : IsGrown store.snapshots store'.snapshots (to_int created)
  pub observed : IsObserved repository (r.requested_at / day) store'.snapshots

pub create_full_snapshot-IsRecorded :
    (data' : RepositoryData) (r : Response) (store : Store)
    → IsRecorded data'.github_repository_id r store
        (create_full_snapshot data' r store).0
        (create_full_snapshot data' r store).1
unfolding create_full_snapshot
create_full_snapshot-IsRecorded data' r store =
    let date = r.requested_at / day in
    elim (Option-cases (daily_snapshot data'.github_repository_id date store.snapshots)) [
      | inl e ↦
          rw (e, create_full_snapshot)
            (record {
              grown = one-IsGrown (full_snapshot data' r) store.snapshots e;
              observed = (full_snapshot data' r, inl refl, refl, refl);
            })
      | inr (s, e) ↦
          rw (e, create_full_snapshot)
            (record {
              grown = same-IsGrown store.snapshots;
              observed =
                  daily_snapshot-IsObserved data'.github_repository_id date store.snapshots s e;
            })
    ]

-- What a recorded observation or a `ValueError` leaves.
abbrev pub IsRecordedOrRefused : ℕ → Response → Store → Result GithubError (Store × Bool) → Type 0
IsRecordedOrRefused repository r store (ok (store', created)) =
    IsRecorded repository r store store' created
IsRecordedOrRefused repository r store (err e) = previous_snapshot repository store.snapshots ≡ none

pub create_unchanged_snapshot-IsRecordedOrRefused :
    (repository : Repository) (r : Response) (store : Store)
    → IsRecordedOrRefused repository.github_repository_id r store
        (create_unchanged_snapshot repository r store)
unfolding create_unchanged_snapshot
create_unchanged_snapshot-IsRecordedOrRefused repository r store =
    let id = repository.github_repository_id in
    let date = r.requested_at / day in
    elim (Option-cases (daily_snapshot id date store.snapshots)) [
      | inr (s, e) ↦
          rw (e, IsRecordedOrRefused, create_unchanged_snapshot)
            (record {
              grown = same-IsGrown store.snapshots;
              observed = daily_snapshot-IsObserved id date store.snapshots s e;
            })
      | inl e ↦
          rw (e, IsRecordedOrRefused, create_unchanged_snapshot)
            (elim (Option-cases (previous_snapshot id store.snapshots)) [
              | inl none' ↦ rw (none', IsRecordedOrRefused, create_unchanged_snapshot) none'
              | inr (s, q) ↦
                  rw (q, IsRecordedOrRefused, create_unchanged_snapshot)
                    (record {
                      grown = one-IsGrown (unchanged_snapshot repository s r) store.snapshots e;
                      observed = (unchanged_snapshot repository s r, inl refl, refl, refl);
                    })
            ])
    ]
