-- ===== src/Github/Snapshots/Observed.antt =====
-- Every repository that is due is observed by a run that succeeds.
use signal_observatory.Prelude.{
  ℕ, ◌≡◌, refl, Bool, true, false, not, Option, List, [], ◌∷◌, leb, select, exists, is_empty,
  Result, ok, err, String, Member, Member-select, inl, inr, Bool-cases, if◌then◌else◌,
}
use signal_observatory.Operations.{IngestionStatus}
use signal_observatory.Github.State.{
  Settings, Repository, Store, RateLimit, RunAccumulator, GithubError, collection_error,
}
use signal_observatory.Github.Due.{tracked_repositories, is_due, by_id, insert_repository}
use signal_observatory.Github.Persistence.{is_repository}
use signal_observatory.Github.Snapshots.{Visit, snapshot, SnapshotRequest, finished}
use signal_observatory.Github.Snapshots.Visits.{IsCovered}
use signal_observatory.Github.Snapshots.Runs.{AllGenuine, AllCovered}
use signal_observatory.Github.Snapshots.Whole.{snapshot-AllCovered}

Member-insert_repository :
    (row other : Repository) (rows : List Repository)
    → Member row (other ∷ rows)
    → Member row (insert_repository other rows)
unfolding insert_repository
Member-insert_repository row other [] m = m
Member-insert_repository row other (next ∷ rows) m =
    elim (Bool-cases (leb other.github_repository_id next.github_repository_id)) [
      | inl e ↦ rw (e, insert_repository) m
      | inr e ↦ rw (e, insert_repository) (later m (λ k. Member-insert_repository row other rows k))
    ]
  where
    later :
        Member row (other ∷ next ∷ rows)
        → (Member row (other ∷ rows) → Member row (insert_repository other rows))
        → Member row (next ∷ insert_repository other rows)
    later (inl e) ih = inr (ih (inl e))
    later (inr (inl e)) ih = inl e
    later (inr (inr k)) ih = inr (ih (inr k))

Member-by_id :
    (row : Repository) (rows : List Repository) → Member row rows → Member row (by_id rows)
unfolding by_id
Member-by_id row [] m = elim m [ ]
Member-by_id row (other ∷ rows) (inl e) = Member-insert_repository row other (by_id rows) (inl e)
Member-by_id row (other ∷ rows) (inr m) =
    Member-insert_repository row other (by_id rows) (inr (Member-by_id row rows m))

ok_injective :
    (a b : List Repository) → ◌≡◌ {A = Result GithubError (List Repository)} (ok a) (ok b) → a ≡ b
ok_injective a b h = cc

-- A query that returns has every repository that is due.
due-Member :
    (s : Settings) (due_at : ℕ) (topics ids : List ℕ) (store : Store) (rows : List Repository)
    (row : Repository)
    → tracked_repositories s due_at topics ids store ≡ ok rows
    → Member row store.repositories
    → is_due s due_at topics ids store row ≡ true
    → Member row rows
unfolding tracked_repositories
due-Member s due_at topics ids store rows row e m due =
    chosen (by_id (select (is_due s due_at topics ids store) store.repositories))
      (is_empty (
        select
          (λ id. not (
            exists (is_repository id)
              (by_id (select (is_due s due_at topics ids store) store.repositories))))
          ids))
      (Member-by_id row _
        (Member-select (is_due s due_at topics ids store) row store.repositories m due))
      e
  where
    chosen :
        (found : List Repository) (complete : Bool)
        → Member row found
        → (if complete then ok found else err collection_error) ≡ ok rows
        → Member row rows
    chosen found true k q = rw (← ok_injective found rows q) k
    chosen found false k q = cc

AllCovered-Member :
    (row : Repository) (rows : List Repository) (visits : List Visit) (store : Store)
    → Member row rows
    → AllCovered rows visits store
    → (v : Visit) × Member v visits × IsCovered row.github_repository_id v.attempts store
AllCovered-Member row [] visits store m h = elim m [ ]
AllCovered-Member row (other ∷ rows) [] store m h = elim h [ ]
AllCovered-Member row (other ∷ rows) (v ∷ visits) store (inl e) h = (v, inl refl, rw e h.0)
AllCovered-Member row (other ∷ rows) (v ∷ visits) store (inr m) h =
    let (w, k, c) = AllCovered-Member row rows visits store m h.1 in (w, inr k, c)

-- If no answer is about another repository than the one asked for: after a run that finishes as
-- succeeded, each repository of the store that was due when it started (it has a match that is tracked and
-- chosen by the filters, its last snapshot is old enough, and it may be polled again) has a snapshot of
-- the day of an answer to one of the visits.
pub snapshot-IsCovered :
    (s : Settings) (q : SnapshotRequest) (started_at : ℕ) (budgets : String → Option RateLimit)
    (visits : List Visit) (store store' : Store) (acc : RunAccumulator) (rows : List Repository)
    (row : Repository)
    → tracked_repositories s started_at q.topics q.ids store ≡ ok rows
    → AllGenuine rows visits
    → snapshot s q started_at budgets visits store
      ≡ (finished IngestionStatus.succeeded acc, store')
    → Member row store.repositories
    → is_due s started_at q.topics q.ids store row ≡ true
    → (v : Visit) × Member v visits × IsCovered row.github_repository_id v.attempts store'
snapshot-IsCovered s q started_at budgets visits store store' acc rows row chosen g e m due =
    AllCovered-Member row rows visits store'
      (due-Member s started_at q.topics q.ids store rows row chosen m due)
      (snapshot-AllCovered s q started_at budgets visits store store' acc rows chosen g e)
