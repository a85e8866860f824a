-- ===== src/Arxiv/Collect/Budget.antt =====
-- The run's limits hold over the page loop, and the outcome agrees with the cursor.
use signal_observatory.Prelude.{
  ℕ, ◌+◌, ◌≤◌, ◌≡◌, refl, true, some, List, [], ◌∷◌, arith, max, leb, ltb, ◌==◌, ◌&&◌, ◌⊎◌, inl,
  inr, Option-cases, Bool-cases, ◌∙◌,
}
use signal_observatory.Arxiv.Window.{split_window}
use signal_observatory.Arxiv.State.{
  Cursor, running, succeeded, partial, failed, Accumulator, Feed, unparsable, page, Round,
}
use signal_observatory.Arxiv.Client.{
  get, GetEnd, answered, raises, unanswered, IsRequest, get-IsRequest,
}
use signal_observatory.Arxiv.Collect.{
  Mode, Job, WindowEnd, ended, split, raises_error, starved, End, Pass, again, returns, pass,
  receive, read_page, store_page, too_large, collect_pages, collect_window, guard, wanted, begun,
  persisted, succeed, next_position, resumes, is_succeeded,
}

-- The cursor's status tells how the window ended, and an incomplete end stops the run or splits.
abbrev pub Agrees : Job → WindowEnd → Cursor → Accumulator → Type 0
Agrees job (ended s) cursor acc =
    (cursor.status ≡ s) × ((s ≡ succeeded) ⊎ ((s ≡ partial) × (acc.stopped_by_safety_limit ≡ true)))
Agrees job (split a b) cursor acc =
    (cursor.status ≡ partial)
    × (split_window job.settings.min_partition_minutes job.window ≡ some (a, b))
Agrees job (raises_error e) cursor acc = (cursor.status ≡ running) ⊎ (cursor.status ≡ failed)
Agrees job starved cursor acc = cursor.status ≡ running

-- What the page loop keeps, from `acc` on.
pub record Keeps (job : Job) (acc : Accumulator) (end : End) : Type 0 where
  pub within : end.2.api_requests ≤ max acc.api_requests job.settings.max_requests_per_run
  pub calls : end.2.transport_calls + acc.api_requests ≡ acc.transport_calls + end.2.api_requests
  pub requests : acc.api_requests ≤ end.2.api_requests
  pub asked : acc.records_requested ≤ end.2.records_requested
  pub windows : end.2.successful_windows ≡ acc.successful_windows
  pub entries : acc.entries_received ≤ end.2.entries_received
  pub raw : acc.raw_payloads ≤ end.2.raw_payloads
  pub errors : end.2.errors ≡ acc.errors
  pub agrees : Agrees job end.0 end.1 end.2

abbrev KeepsPass : Job → Accumulator → Pass → Type 0
KeepsPass job acc (returns end) = Keeps job acc end
KeepsPass job acc (again cursor acc') =
    (acc'.api_requests ≤ max acc.api_requests job.settings.max_requests_per_run)
    × (acc.entries_received ≤ acc'.entries_received)
    × (acc.raw_payloads ≤ acc'.raw_payloads)
    × (acc'.errors ≡ acc.errors)
    × (cursor.status ≡ running)
    × (acc'.transport_calls + acc.api_requests ≡ acc.transport_calls + acc'.api_requests)
    × (acc.api_requests ≤ acc'.api_requests)
    × (acc.records_requested ≤ acc'.records_requested)
    × (acc'.successful_windows ≡ acc.successful_windows)

module _ (job : Job) (cursor : Cursor) (here : cursor.status ≡ running) where
  too_large-Keeps : (acc : Accumulator) → Keeps job acc (too_large job cursor acc)
  unfolding too_large
  too_large-Keeps acc =
      elim (Option-cases (split_window job.settings.min_partition_minutes job.window)) [
        | inl e ↦ rw (e, too_large) (ground arith)
        | inr (p, e) ↦ rw (e, too_large) (ground arith)
      ]

  store_page-Keeps :
      (acc : Accumulator) (feed : Feed) → KeepsPass job acc (store_page job cursor acc feed)
  unfolding store_page persisted succeed
  store_page-Keeps acc feed = elim (Option-cases (next_position cursor.next_start feed)) [
    | inl e ↦ rw (e, store_page) (ground arith)
    | inr (next, e) ↦ elim (Bool-cases (leb feed.total_results next)) [
      | inl last ↦ rw (e, store_page) (rw last (ground arith))
      | inr more ↦ rw (e, store_page) (rw more (ground arith))
    ]
  ]

  read_page-Keeps :
      (acc : Accumulator) (feed : Feed) → KeepsPass job acc (read_page job cursor acc feed)
  unfolding read_page
  read_page-Keeps acc feed = elim (Bool-cases (feed.start_index == cursor.next_start)) [
    | inr e ↦ rw (e, read_page) (ground arith)
    | inl e ↦
        elim (Bool-cases
          ((cursor.next_start == 0) && ltb job.settings.large_query_threshold feed.total_results)) [
            | inl large ↦ rw (e, read_page) (rw large (too_large-Keeps acc))
            | inr small ↦ rw (e, read_page) (rw small (store_page-Keeps acc feed))
          ]
  ]

  receive-Keeps : (acc : Accumulator) (r : GetEnd) → KeepsPass job acc (receive job cursor (r, acc))
  unfolding receive
  receive-Keeps acc unanswered = ground arith
  receive-Keeps acc (raises e) = ground arith
  receive-Keeps acc (answered unparsable) = ground arith
  receive-Keeps acc (answered (page feed)) = read_page-Keeps acc feed

-- Bounds of two steps in a row.
after_request :
    (job : Job) (left requested : ℕ) (acc acc' : Accumulator) (p : Pass)
    → IsRequest job.settings left requested acc acc'
    → KeepsPass job acc' p
    → KeepsPass job acc p
after_request job left requested acc acc' (returns end) r k = record {
  within = omega (arith, k.within, r.within);
  calls = omega (arith, k.calls, r.calls);
  requests = omega (arith, k.requests, r.grows);
  asked = omega (arith, k.asked, r.asked);
  windows = k.windows ∙ r.windows;
  entries = omega (arith, k.entries, r.entries);
  raw = omega (arith, k.raw, r.raw_grows);
  errors = k.errors ∙ r.errors;
  agrees = k.agrees;
}
after_request job left requested acc acc' (again cursor acc'') r k = (
  omega (arith, r.within),
  omega (arith, r.entries),
  omega (arith, r.raw_grows),
  k.3 ∙ r.errors,
  k.4,
  omega (arith, r.calls),
  omega (arith, r.grows),
  omega (arith, r.asked),
  k.8 ∙ r.windows,
)

pass-Keeps :
    (job : Job) (cursor : Cursor) (acc : Accumulator) (pages : ℕ) (round : Round)
    → cursor.status ≡ running
    → KeepsPass job acc (pass job cursor acc pages round)
unfolding pass
pass-Keeps job cursor acc pages round here =
    elim (Option-cases (guard job acc pages round.over_time)) [
      | inr (reason, e) ↦ rw (e, pass) (ground arith)
      | inl e ↦
          (let r =
              get-IsRequest job.settings.retry_attempts job.settings (wanted job acc) acc
                round.attempts in
            let g =
              get job.settings.retry_attempts job.settings (wanted job acc) acc round.attempts in
            rw (e, pass)
              (after_request job job.settings.retry_attempts (wanted job acc) acc g.1
                (receive job cursor g) r (receive-Keeps job cursor here g.1 g.0)))
    ]

then_Keeps :
    (job : Job) (acc acc' : Accumulator) (cursor : Cursor) (end : End)
    → KeepsPass job acc (again cursor acc')
    → Keeps job acc' end
    → Keeps job acc end
then_Keeps job acc acc' cursor end k m = record {
  within = omega (arith, m.within);
  calls = omega (arith, m.calls, k.5);
  requests = omega (arith, m.requests, k.6);
  asked = omega (arith, m.asked, k.7);
  windows = m.windows ∙ k.8;
  entries = omega (arith, m.entries);
  raw = omega (arith, m.raw);
  errors = m.errors ∙ k.3;
  agrees = m.agrees;
}

collect_pages-Keeps :
    (job : Job) (cursor : Cursor) (acc : Accumulator) (pages : ℕ) (rounds : List Round)
    → cursor.status ≡ running
    → Keeps job acc (collect_pages job cursor acc pages rounds)
unfolding collect_pages
collect_pages-Keeps job cursor acc pages [] here = ground arith
collect_pages-Keeps job cursor acc pages (round ∷ rounds) here =
    next (pass job cursor acc pages round) (pass-Keeps job cursor acc pages round here)
      (λ c a. collect_pages-Keeps job c a (pages + 1) rounds)
  where
    next :
        (p : Pass)
        → KeepsPass job acc p
        → ((c : Cursor) (a : Accumulator)
            → c.status ≡ running
            → Keeps job a (collect_pages job c a (pages + 1) rounds))
        → Keeps job acc
            (elim p [ returns end ↦ end | again c a ↦ collect_pages job c a (pages + 1) rounds ])
    next (returns end) k ih = k
    next (again c a) k ih =
        then_Keeps job acc a c (collect_pages job c a (pages + 1) rounds) k (ih c a k.4)

pub collect_window-Keeps :
    (mode : Mode) (job : Job) (cursor : Cursor) (acc : Accumulator) (rounds : List Round)
    → Keeps job acc (collect_window mode job cursor acc rounds)
unfolding collect_window
collect_window-Keeps mode job cursor acc rounds =
    elim (Bool-cases (resumes mode && is_succeeded cursor.status)) [
      | inl e ↦ rw e (ground arith)
      | inr e ↦ elim (Bool-cases (leb job.window.window_until job.window.window_from)) [
        | inl bad ↦ rw e (rw bad (ground arith))
        | inr good ↦ rw e (rw good (collect_pages-Keeps job (begun job cursor) acc 0 rounds refl))
      ]
    ]
