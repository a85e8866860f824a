-- ===== src/Github/Snapshots/Visits.antt =====
-- The work on one repository: the step that it is, and what it has left when it ended well.
use signal_observatory.Prelude.{ℕ, ◌/◌, refl, List}
use signal_observatory.Clock.{day}
use signal_observatory.Github.State.{
  Settings, Repository, Store, Response, Attempt, budget_exhausted, transport_error,
  request_limit_reached, parse_error, value_error, query_error, collection_error, assertion_error,
  raw_error, http_error, rate_limit_error, Run,
}
use signal_observatory.Github.Client.{
  GetEnd, answered, raises, unanswered, get_repository, core_resource,
}
use signal_observatory.Github.Client.Bounds.{get-Outcome, IsAnswerOf, Answers}
use signal_observatory.Github.Persistence.{with_poll_state}
use signal_observatory.Github.Persistence.Daily.{IsObserved}
use signal_observatory.Github.Snapshots.{
  VisitEnd, observed, fails, cut_off, after_get, after_answer, snapshot_repository,
}
use signal_observatory.Github.Snapshots.Steps.{
  IsStep, kept-IsStep, IsStep-trans, request-IsStep, IsGenuine, Seen, StepTo,
  after_answer-IsAnswerStep,
}

-- The visit's answers are about the repository.
abbrev pub IsGenuineVisit : ℕ → List Attempt → Type 0
IsGenuineVisit id attempts = (r : Response) → IsAnswerOf r attempts → IsGenuine id r

-- The repository has a snapshot of the day of one of the visit's answers.
abbrev pub IsCovered : ℕ → List Attempt → Store → Type 0
IsCovered id attempts store =
    (r : Response) × IsAnswerOf r attempts × IsObserved id (r.requested_at / day) store.snapshots

-- What a visit does, and what it has left if it ended well.
abbrev pub Covers : ℕ → List Attempt → VisitEnd × Run × Store → Type 0
Covers id attempts (observed, run, store) = IsGenuineVisit id attempts → IsCovered id attempts store
Covers id attempts (fails e, run, store) = Unit
Covers id attempts (cut_off, run, store) = Unit

Seen-Covers :
    (id : ℕ) (attempts : List Attempt) (r : Response) (to : VisitEnd × Run × Store)
    → IsAnswerOf r attempts
    → Seen id r to
    → Covers id attempts to
Seen-Covers id attempts r (observed, run, store) ans seen = λ g. (r, ans, seen (g r ans))
Seen-Covers id attempts r (fails e, run, store) ans seen = tt
Seen-Covers id attempts r (cut_off, run, store) ans seen = tt

abbrev pub IsVisit : ℕ → ℕ → List Attempt → Run → Store → VisitEnd × Run × Store → Type 0
IsVisit limit id attempts run store to = StepTo limit run store to × Covers id attempts to

after_get-IsVisit :
    (limit : ℕ) (repository : Repository) (attempts : List Attempt) (store : Store) (got : GetEnd)
    (run : Run)
    → Answers got attempts
    → IsVisit limit repository.github_repository_id attempts run store
        (after_get repository store (got, run))
unfolding after_get
after_get-IsVisit limit repository attempts store unanswered run a =
    (kept-IsStep limit run store refl, tt)
after_get-IsVisit limit repository attempts store (raises (http_error r)) run a =
    (kept-IsStep limit run store refl, tt)
after_get-IsVisit limit repository attempts store (raises (rate_limit_error r)) run a =
    (kept-IsStep limit run store refl, tt)
after_get-IsVisit limit repository attempts store (raises budget_exhausted) run a =
    (kept-IsStep limit run store refl, tt)
after_get-IsVisit limit repository attempts store (raises transport_error) run a =
    (kept-IsStep limit run store refl, tt)
after_get-IsVisit limit repository attempts store (raises request_limit_reached) run a =
    (kept-IsStep limit run store refl, tt)
after_get-IsVisit limit repository attempts store (raises parse_error) run a =
    (kept-IsStep limit run store refl, tt)
after_get-IsVisit limit repository attempts store (raises query_error) run a =
    (kept-IsStep limit run store refl, tt)
after_get-IsVisit limit repository attempts store (raises value_error) run a =
    (kept-IsStep limit run store refl, tt)
after_get-IsVisit limit repository attempts store (raises collection_error) run a =
    (kept-IsStep limit run store refl, tt)
after_get-IsVisit limit repository attempts store (raises assertion_error) run a =
    (kept-IsStep limit run store refl, tt)
after_get-IsVisit limit repository attempts store (raises raw_error) run a =
    (kept-IsStep limit run store refl, tt)
after_get-IsVisit limit repository attempts store (answered r) run a =
    let h = after_answer-IsAnswerStep limit repository store r run in
    (
      h.step,
      Seen-Covers repository.github_repository_id attempts r (after_answer repository store r run) a
          h.seen,
    )

after-IsVisit :
    (limit id : ℕ) (attempts : List Attempt) (run mid : Run) (store store' : Store)
    (to : VisitEnd × Run × Store)
    → IsStep limit run store mid store'
    → IsVisit limit id attempts mid store' to
    → IsVisit limit id attempts run store to
after-IsVisit limit id attempts run mid store store' (end, run', last) h (k, c) =
    (IsStep-trans limit run mid run' store store' last h k, c)

pub snapshot_repository-IsVisit :
    (s : Settings) (limit : ℕ) (repository : Repository) (attempts : List Attempt) (run : Run)
    (store : Store)
    → IsVisit limit repository.github_repository_id attempts run store
        (snapshot_repository s limit repository attempts run store)
unfolding snapshot_repository
snapshot_repository-IsVisit s limit repository attempts run store =
    let id = repository.github_repository_id in
    let store' = with_poll_state id (λ p. p) store in
    let (got, run') = get_repository s limit run attempts in
    after-IsVisit limit id attempts run run' store store' (after_get repository store' (got, run'))
      (request-IsStep s limit run attempts store store' refl)
      (after_get-IsVisit limit repository attempts store' got run'
        (get-Outcome s limit core_resource s.min_core_remaining run attempts).1)
