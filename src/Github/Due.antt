-- ===== src/Github/Due.antt =====
-- `_tracked_repositories` (collectors/github/src/github_collector/service.py): the repositories whose
-- snapshot is due, as one query over matches and poll states, in the order of their ids.

use signal_observatory.Prelude.{
  ℕ, ◌+◌, Bool, true, false, not, ◌&&◌, ◌||◌, Option, none, some, List, [], ◌∷◌, select, find,
  exists, is_empty, leb, ◌==◌, if◌then◌else◌, Result, ok, err,
}
use signal_observatory.Github.State.{
  Settings, tracked, candidate, ignored, TrackingState, Repository, PollState, Store, GithubError,
  collection_error,
}
use signal_observatory.Github.Persistence.{is_repository}

abbrev is_tracked : TrackingState → Bool
is_tracked tracked = true
is_tracked candidate = false
is_tracked ignored = false

-- A filter that names nothing lets everything pass.
abbrev is_selected : List ℕ → ℕ → Bool
is_selected names x = is_empty names || exists (λ y. y == x) names

abbrev at_most : Option ℕ → ℕ → Bool
at_most none bound = true
at_most (some t) bound = leb t bound

-- The poll state's part of the query; `none` for a repository that has no row.
abbrev is_poll_due : Settings → ℕ → Option PollState → Bool
is_poll_due s due_at none = true
is_poll_due s due_at (some p) =
    elim p.last_snapshot_at [ none ↦ true | some t ↦ leb (t + s.snapshot_due) due_at ]
    && at_most p.next_eligible_at due_at

abbrev pub is_due : Settings → ℕ → List ℕ → List ℕ → Store → Repository → Bool
is_due s due_at topics ids store row =
    exists
      (λ m.
        m.repository == row.github_repository_id
        && is_tracked m.tracking_state
        && is_selected topics m.topic)
      store.matches
    && is_poll_due s due_at (find (λ p. p.repository == row.github_repository_id) store.polls)
    && is_selected ids row.github_repository_id

unfoldable pub insert_repository : Repository → List Repository → List Repository
insert_repository row [] = row ∷ []
insert_repository row (other ∷ rows) =
    let rest = insert_repository row rows in
    if leb row.github_repository_id other.github_repository_id
    then row ∷ other ∷ rows
    else other ∷ rest

unfoldable pub by_id : List Repository → List Repository
unfolding insert_repository
by_id [] = []
by_id (row ∷ rows) = insert_repository row (by_id rows)

-- `_tracked_repositories`; a topic stands for its slug.
unfoldable pub tracked_repositories :
    Settings → ℕ → List ℕ → List ℕ → Store → Result GithubError (List Repository)
unfolding by_id insert_repository
tracked_repositories s due_at topics ids store =
    let rows = by_id (select (is_due s due_at topics ids store) store.repositories) in
    if is_empty (select (λ id. not (exists (is_repository id) rows)) ids)
    then ok rows
    else err collection_error
