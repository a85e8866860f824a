-- ===== src/Github/Client/Bounds.antt =====
-- What a request of the GitHub client leaves alone, and the bounds that it keeps.
use signal_observatory.Prelude.{
  Member, ℕ, zero, suc, ◌+◌, ◌≤◌, ◌<◌, ◌≡◌, refl, Bool, true, false, not, ◌&&◌, ◌||◌, Option, none,
  some, List, [], ◌∷◌, leb, ltb, ◌==◌, max, if◌then◌else◌, arith, Bool-cases, inl, inr, String,
}
use signal_observatory.Github.State.{
  Settings, Response, Attempt, transport_error, raw_error, Run, RunAccumulator,
}
use signal_observatory.Github.Client.{
  called, unstored, Turn, over, again, attempt, after_response, GetEnd, answered, raises,
  unanswered, attempts_from, get, is_answer, is_rate_limited, is_transient, rate_wait, backoff,
  attempted, received, slept, counted, preserved, below_floor,
}

-- The counts of a run that only the callers of a request change.
pub record SameItems (acc acc' : RunAccumulator) : Type 0 where
  pub received : acc'.repositories_received ≡ acc.repositories_received
  pub ids : acc'.repository_ids ≡ acc.repository_ids
  pub created : acc'.snapshots_created ≡ acc.snapshots_created
  pub unchanged : acc'.unchanged_observations ≡ acc.unchanged_observations
  pub errors : acc'.errors ≡ acc.errors
  pub failed : acc'.failed_items ≡ acc.failed_items
  pub new : acc'.new_repositories ≡ acc.new_repositories
  pub existing : acc'.existing_repositories ≡ acc.existing_repositories
  pub added : acc'.topic_matches_added ≡ acc.topic_matches_added
  pub executed : acc'.mappings_executed ≡ acc.mappings_executed
  pub due : acc'.repositories_due ≡ acc.repositories_due

leb-false : (a b : ℕ) → leb a b ≡ false → b < a
leb-false a b h = ground arith

pub record IsRequest (limit left : ℕ) (acc acc' : RunAccumulator) : Type 0 where
  pub within : acc'.requests_sent ≤ max acc.requests_sent limit
  pub attempts : acc'.requests_sent ≤ acc.requests_sent + left
  pub grows : acc.requests_sent ≤ acc'.requests_sent
  pub calls : acc'.transport_calls + acc.requests_sent ≡ acc.transport_calls + acc'.requests_sent
  pub raw_bound : acc'.raw_payloads + acc.requests_sent ≤ acc.raw_payloads + acc'.requests_sent
  pub items : SameItems acc acc'

SameItems-preserved :
    (r : Response) (acc : RunAccumulator) → SameItems acc (preserved r (called (counted acc)))
SameItems-preserved r acc = record {
  received = refl;
  ids = refl;
  created = refl;
  unchanged = refl;
  errors = refl;
  failed = refl;
  new = refl;
  existing = refl;
  added = refl;
  executed = refl;
  due = refl;
}

none_sent-IsRequest : (limit left : ℕ) (acc : RunAccumulator) → IsRequest limit left acc acc
none_sent-IsRequest limit left acc = ground arith

next-IsRequest :
    (limit left : ℕ) (acc mid acc' : RunAccumulator)
    → IsRequest limit 1 acc mid
    → IsRequest limit left mid acc'
    → IsRequest limit (suc left) acc acc'
next-IsRequest limit left acc mid acc' h k = ground arith

attempted-IsRequest :
    (limit : ℕ) (run : Run)
    → leb limit run.acc.requests_sent ≡ false
    → IsRequest limit 1 run.acc (attempted run).acc
attempted-IsRequest limit run free = ground arith

received-IsRequest :
    (limit : ℕ) (r : Response) (run : Run)
    → leb limit run.acc.requests_sent ≡ false
    → IsRequest limit 1 run.acc (received r run).acc
received-IsRequest limit r run free =
    let h = leb-false limit run.acc.requests_sent free in
    record {
      within = omega (arith, h);
      attempts = omega arith;
      grows = omega arith;
      calls = omega arith;
      raw_bound = omega arith;
      items = SameItems-preserved r run.acc;
    }

unstored-IsRequest :
    (limit : ℕ) (r : Response) (run : Run)
    → leb limit run.acc.requests_sent ≡ false
    → IsRequest limit 1 run.acc (unstored r run).acc
unstored-IsRequest limit r run free = attempted-IsRequest limit run free

-- An answer comes from one of the attempts.
abbrev pub IsAnswerOf : Response → List Attempt → Type 0
IsAnswerOf r as' = (a : Attempt) × Member a as' × (a.answer ≡ some r)

abbrev pub Answers : GetEnd → List Attempt → Type 0
Answers (answered r) as' = IsAnswerOf r as'
Answers (raises e) as' = Unit
Answers unanswered as' = Unit

-- One turn of the loop.
abbrev TurnOutcome : ℕ → Run → Attempt → Turn → Type 0
TurnOutcome limit run a (again run') = IsRequest limit 1 run.acc run'.acc
TurnOutcome limit run a (over end run') = IsRequest limit 1 run.acc run'.acc × Answers end (a ∷ [])

after_response-Outcome :
    (s : Settings) (limit left before : ℕ) (a : Attempt) (r : Response) (run run' : Run)
    → a.answer ≡ some r
    → IsRequest limit 1 run.acc run'.acc
    → TurnOutcome limit run a (after_response s left before a r run')
unfolding after_response
after_response-Outcome s limit left before a r run run' e h =
    elim (Bool-cases (is_answer r.status_code)) [
      | inl done ↦ rw (done, after_response) (h, (a, inl refl, e))
      | inr bad ↦
          rw (bad, after_response)
            (elim (Bool-cases (is_rate_limited r)) [
              | inl limited ↦
                  rw (limited, after_response)
                    (elim (Bool-cases
                      (left == 0 || ltb s.max_rate_limit_wait (rate_wait r before a))) [
                        | inl last ↦ rw (last, after_response) (h, tt)
                        | inr more ↦ rw (more, after_response) h
                      ])
              | inr plain ↦
                  rw (plain, after_response)
                    (elim (Bool-cases (is_transient r.status_code && not (left == 0))) [
                      | inl more ↦ rw (more, after_response) h
                      | inr last ↦ rw (last, after_response) (h, tt)
                    ])
            ])
    ]

attempt-Outcome :
    (s : Settings) (limit left before : ℕ) (a : Attempt) (run : Run)
    → TurnOutcome limit run a (attempt s limit left before a run)
unfolding attempt
attempt-Outcome s limit left before a run = elim (Bool-cases (leb limit run.acc.requests_sent)) [
  | inl full ↦ rw (full, attempt) (none_sent-IsRequest limit 1 run.acc, tt)
  | inr free ↦ rw (free, attempt) (heard free a.answer refl)
]
  where
    heard :
        leb limit run.acc.requests_sent ≡ false
        → (answer : Option Response) → a.answer ≡ answer
        → TurnOutcome limit run a (elim answer [
          | none ↦
              if left == 0
              then over (raises transport_error) (attempted run)
              else again (slept (backoff before a.jitter) (attempted run))
          | some r ↦
              if a.raw_fails
              then over (raises raw_error) (unstored r run)
              else after_response s left before a r (received r run)
        ])
    heard free none e =
        let h = attempted-IsRequest limit run free in
        elim (Bool-cases (left == 0)) [ inl last ↦ rw last (h, tt) | inr more ↦ rw more h ]
    heard free (some r) e = stored a.raw_fails
      where
        stored :
            (is_lost : Bool)
            → TurnOutcome limit run a (
                if is_lost
                then over (raises raw_error) (unstored r run)
                else after_response s left before a r (received r run))
        stored true = (unstored-IsRequest limit r run free, tt)
        stored false =
            after_response-Outcome s limit left before a r run (received r run) e
              (received-IsRequest limit r run free)

later-Answers :
    (end : GetEnd) (a : Attempt) (as' : List Attempt) → Answers end as' → Answers end (a ∷ as')
later-Answers (answered r) a as' (b, m, e) = (b, inr m, e)
later-Answers (raises e) a as' h = tt
later-Answers unanswered a as' h = tt

first-Answers :
    (end : GetEnd) (a : Attempt) (as' : List Attempt) → Answers end (a ∷ []) → Answers end (a ∷ as')
first-Answers (answered r) a as' (b, inl m, e) = (b, inl m, e)
first-Answers (answered r) a as' (b, inr m, e) = elim m [ ]
first-Answers (raises e) a as' h = tt
first-Answers unanswered a as' h = tt

abbrev pub Outcome : ℕ → ℕ → Run → List Attempt → GetEnd × Run → Type 0
Outcome limit left run as' (end, run') = IsRequest limit left run.acc run'.acc × Answers end as'

next-Outcome :
    (limit left : ℕ) (run run' : Run) (a : Attempt) (as' : List Attempt) (out : GetEnd × Run)
    → IsRequest limit 1 run.acc run'.acc
    → Outcome limit left run' as' out
    → Outcome limit (suc left) run (a ∷ as') out
next-Outcome limit left run run' a as' (end, run'') h (k, ans) =
    (next-IsRequest limit left run.acc run'.acc run''.acc h k, later-Answers end a as' ans)

attempts_from-Outcome :
    (s : Settings) (limit left before : ℕ) (run : Run) (as' : List Attempt)
    → Outcome limit left run as' (attempts_from s limit left before run as')
unfolding attempts_from
attempts_from-Outcome s limit zero before run as' = (none_sent-IsRequest limit zero run.acc, tt)
attempts_from-Outcome s limit (suc left) before run [] =
    (none_sent-IsRequest limit (suc left) run.acc, tt)
attempts_from-Outcome s limit (suc left) before run (a ∷ as') =
    turned (attempt s limit left before a run) (attempt-Outcome s limit left before a run)
      (λ run'. attempts_from-Outcome s limit left (before + 1) run' as')
  where
    turned :
        (t : Turn)
        → TurnOutcome limit run a t
        → ((run' : Run)
            → Outcome limit left run' as' (attempts_from s limit left (before + 1) run' as'))
        → Outcome limit (suc left) run (a ∷ as') (elim t [
          | over end run' ↦ (end, run')
          | again run' ↦ attempts_from s limit left (before + 1) run' as'
        ])
    turned (over end run') (h, ans) ih = (
      next-IsRequest limit left run.acc run'.acc run'.acc h
          (none_sent-IsRequest limit left run'.acc),
      first-Answers end a as' ans,
    )
    turned (again run') h ih =
        next-Outcome limit left run run' a as' (attempts_from s limit left (before + 1) run' as') h
          (ih run')

pub get-Outcome :
    (s : Settings) (limit : ℕ) (resource : String) (floor : ℕ) (run : Run) (as' : List Attempt)
    → Outcome limit s.retry_attempts run as' (get s limit resource floor run as')
unfolding get
get-Outcome s limit resource floor run as' =
    elim (Bool-cases (below_floor floor (run.budgets resource))) [
      | inl e ↦ rw (e, get) (none_sent-IsRequest limit s.retry_attempts run.acc, tt)
      | inr e ↦ rw (e, get) (attempts_from-Outcome s limit s.retry_attempts 0 run as')
    ]

-- A request makes at most `retry_attempts` attempts, never passes the limit of the run, and keeps at
-- most one Raw payload for each attempt; each call of the transport has been counted. No other count of the run's items changes.
pub get-IsRequest :
    (s : Settings) (limit : ℕ) (resource : String) (floor : ℕ) (run : Run) (as' : List Attempt)
    → IsRequest limit s.retry_attempts run.acc (get s limit resource floor run as').1.acc
get-IsRequest s limit resource floor run as' = (get-Outcome s limit resource floor run as').0
