-- ===== src/Github/Snapshots/Steps.antt =====
-- What each step of a snapshot run keeps: the request limit, the table of snapshots, and the counts.
use signal_observatory.Prelude.{
  find, find_passed, ℕ, ◌+◌, ◌/◌, ◌≤◌, ◌≡◌, refl, Bool, Option, none, some, List, ◌==◌, max, arith,
  Option-cases, Bool-cases, inl, inr, Result, ok, err,
}
use signal_observatory.Clock.{day}
use signal_observatory.Github.State.{
  Settings, Repository, Store, Response, Attempt, GithubError, parse_error, http_error, Run, to_int,
  RepositoryData,
}
use signal_observatory.Github.Client.{get_repository, core_resource}
use signal_observatory.Github.Client.Bounds.{get-IsRequest}
use signal_observatory.Github.Persistence.{
  is_repository, mark_poll_failure, upsert_repository, create_full_snapshot,
  create_unchanged_snapshot,
}
use signal_observatory.Github.Persistence.Daily.{
  IsObserved, IsGrown, same-IsGrown, IsGrown-trans, IsRecorded, create_full_snapshot-IsRecorded,
  IsRecordedOrRefused, create_unchanged_snapshot-IsRecordedOrRefused,
}
use signal_observatory.Github.Snapshots.{
  after_answer, VisitEnd, observed, fails, cut_off, current, unchanged_counted, full_counted,
}

-- From the start of a piece of work to its end.
pub record IsStep (limit : ℕ) (run : Run) (store : Store) (run' : Run) (store' : Store)
    : Type 0 where
  pub requests : run'.acc.requests_sent ≤ max run.acc.requests_sent limit
  pub calls :
      run'.acc.transport_calls + run.acc.requests_sent
      ≡ run.acc.transport_calls + run'.acc.requests_sent
  pub errors : run.acc.errors ≤ run'.acc.errors
  pub count : ℕ
  pub created : run'.acc.snapshots_created ≡ run.acc.snapshots_created + count
  pub grown : IsGrown store.snapshots store'.snapshots count

pub same-IsStep : (limit : ℕ) (run : Run) (store : Store) → IsStep limit run store run store
same-IsStep limit run store = record {
  requests = omega arith;
  calls = omega arith;
  errors = omega arith;
  count = 0;
  created = omega arith;
  grown = same-IsGrown store.snapshots;
}

pub IsStep-trans :
    (limit : ℕ) (a b c : Run) (p q r : Store)
    → IsStep limit a p b q
    → IsStep limit b q c r
    → IsStep limit a p c r
IsStep-trans limit a b c p q r h k = record {
  requests = omega (arith, h.requests, k.requests);
  calls = omega (arith, h.calls, k.calls);
  errors = omega (arith, h.errors, k.errors);
  count = h.count + k.count;
  created = omega (arith, h.created, k.created);
  grown = IsGrown-trans p.snapshots q.snapshots r.snapshots h.count k.count h.grown k.grown;
}

-- A request, and changes of other tables.
pub request-IsStep :
    (s : Settings) (limit : ℕ) (run : Run) (attempts : List Attempt) (store store' : Store)
    → store'.snapshots ≡ store.snapshots
    → IsStep limit run store (get_repository s limit run attempts).1 store'
request-IsStep s limit run attempts store store' e =
    let h = get-IsRequest s limit core_resource s.min_core_remaining run attempts in
    record {
      requests = h.within;
      calls = h.calls;
      errors = omega (arith, h.items.errors);
      count = 0;
      created = omega (arith, h.items.created);
      grown = rw e (same-IsGrown store.snapshots);
    }

pub kept-IsStep :
    (limit : ℕ) (run : Run) (store : Store) {store' : Store}
    → store'.snapshots ≡ store.snapshots
    → IsStep limit run store run store'
kept-IsStep limit run store e = record {
  requests = omega arith;
  calls = omega arith;
  errors = omega arith;
  count = 0;
  created = omega arith;
  grown = rw e (same-IsGrown store.snapshots);
}

-- A parsed repository is the one that was asked for.
abbrev pub IsGenuine : ℕ → Response → Type 0
IsGenuine id r =
    (data' : RepositoryData) → r.repository ≡ some data' → data'.github_repository_id ≡ id

-- What a visit that ended well has left.
abbrev pub Seen : ℕ → Response → VisitEnd × Run × Store → Type 0
Seen id r (observed, run, store) =
    IsGenuine id r → IsObserved id (r.requested_at / day) store.snapshots
Seen id r (fails e, run, store) = Unit
Seen id r (cut_off, run, store) = Unit

abbrev pub StepTo : ℕ → Run → Store → VisitEnd × Run × Store → Type 0
StepTo limit run store (end, run', store') = IsStep limit run store run' store'

abbrev pub SameErrors : Run → VisitEnd × Run × Store → Type 0
SameErrors run (end, run', store') = run'.acc.errors ≡ run.acc.errors

pub record IsAnswerStep (limit id : ℕ) (r : Response) (run : Run) (store : Store)
    (to : VisitEnd × Run × Store) : Type 0 where
  pub step : StepTo limit run store to
  pub errors : SameErrors run to
  pub seen : Seen id r to

failed-IsAnswerStep :
    (limit id : ℕ) (r : Response) (run : Run) (store : Store) {store' : Store} (e : GithubError)
    → store'.snapshots ≡ store.snapshots
    → IsAnswerStep limit id r run store (fails e, run, store')
failed-IsAnswerStep limit id r run store e h = record {
  step = kept-IsStep limit run store h;
  errors = refl;
  seen = tt;
}

unchanged-IsAnswerStep :
    (limit id : ℕ) (r : Response) (run : Run) (store store' : Store) (created : Bool)
    → IsRecorded id r store store' created
    → IsAnswerStep limit id r run store (observed, unchanged_counted created run, store')
unchanged-IsAnswerStep limit id r run store store' created h = record {
  step = record {
    requests = omega arith;
    calls = omega arith;
    errors = omega arith;
    count = to_int created;
    created = refl;
    grown = h.grown;
  };
  errors = refl;
  seen = λ g. h.observed;
}

full-IsAnswerStep :
    (limit id : ℕ) (r : Response) (run : Run) (store : Store) (data' : RepositoryData)
    → r.repository ≡ some data'
    → IsAnswerStep limit id r run store (
      observed,
      full_counted
          (create_full_snapshot data' r (upsert_repository data' r.requested_at store).0).1
          run,
      (create_full_snapshot data' r (upsert_repository data' r.requested_at store).0).0,
    )
unfolding upsert_repository
full-IsAnswerStep limit id r run store data' e =
    let before = (upsert_repository data' r.requested_at store).0 in
    let h = create_full_snapshot-IsRecorded data' r before in
    record {
      step = record {
        requests = omega arith;
        calls = omega arith;
        errors = omega arith;
        count = to_int (create_full_snapshot data' r before).1;
        created = refl;
        grown = h.grown;
      };
      errors = refl;
      seen = λ g. rw (← g data' e) h.observed;
    }

-- The session's row for a repository has its id.
current-id :
    (store : Store) (repository : Repository)
    → (current store repository).github_repository_id ≡ repository.github_repository_id
current-id store repository =
    let same = is_repository repository.github_repository_id in
    elim (Option-cases (find same store.repositories)) [
      | inl e ↦ rw (e, current) refl
      | inr (row, e) ↦ rw (e, current) (ground (arith, find_passed same store.repositories row e))
    ]

pub after_answer-IsAnswerStep :
    (limit : ℕ) (repository : Repository) (store : Store) (r : Response) (run : Run)
    → IsAnswerStep limit repository.github_repository_id r run store
        (after_answer repository store r run)
unfolding after_answer
after_answer-IsAnswerStep limit repository store r run =
    let id = repository.github_repository_id in
    elim (Bool-cases (r.status_code == 304)) [
      | inl e ↦
          rw (e, after_answer)
            (unchanged (create_unchanged_snapshot (current store repository) r store) (
              rw (current-id store repository) at
                (create_unchanged_snapshot-IsRecordedOrRefused (current store repository) r store)))
      | inr e ↦
          rw (e, after_answer)
            (elim (Bool-cases (r.status_code == 200)) [
              | inr f ↦
                  rw (f, after_answer)
                    (failed-IsAnswerStep limit id r run store (http_error r) refl)
              | inl f ↦ rw (f, after_answer) (parsed r.repository refl)
            ])
    ]
  where
    unchanged :
        (made : Result GithubError (Store × Bool))
        → IsRecordedOrRefused repository.github_repository_id r store made
        → IsAnswerStep limit repository.github_repository_id r run store (elim made [
          | err e ↦ (fails e, run, store)
          | ok (store', created) ↦ (observed, unchanged_counted created run, store')
        ])
    unchanged (err e) h =
        failed-IsAnswerStep limit repository.github_repository_id r run store e refl
    unchanged (ok (store', created)) h =
        unchanged-IsAnswerStep limit repository.github_repository_id r run store store' created h

    parsed :
        (found : Option RepositoryData)
        → r.repository ≡ found
        → IsAnswerStep limit repository.github_repository_id r run store (elim found [
          | none ↦ (
            fails parse_error,
            run,
            mark_poll_failure repository.github_repository_id r.requested_at r.status_code none
                store,
          )
          | some data' ↦
              let (store', created) =
                create_full_snapshot data' r (upsert_repository data' r.requested_at store).0 in
              (observed, full_counted created run, store')
        ])
    parsed none g =
        failed-IsAnswerStep limit repository.github_repository_id r run store parse_error refl
    parsed (some data') g =
        full-IsAnswerStep limit repository.github_repository_id r run store data' g
