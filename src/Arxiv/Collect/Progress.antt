-- ===== src/Arxiv/Collect/Progress.antt =====
-- A window that succeeds has received every result, if the API returns full pages.
use signal_observatory.Prelude.{
  ℕ, zero, suc, ◌+◌, ◌≤◌, ◌≡◌, refl, false, some, List, [], ◌∷◌, arith, inl, inr, Option-cases,
  Bool-cases, All, length, leb, leb→le, ==_iff, ltb, ◌==◌, ◌&&◌,
}
use signal_observatory.Arxiv.Window.{split_window}
use signal_observatory.Arxiv.State.{
  Settings, Cursor, succeeded, partial, Accumulator, Feed, Body, unparsable, page, Answer,
  no_response, response, Attempt, Round,
}
use signal_observatory.Arxiv.Client.{
  called, get, GetEnd, answered, raises, unanswered, get-IsRequest, counted, preserved,
}
use signal_observatory.Arxiv.Collect.{
  Mode, Job, ended, End, Pass, again, returns, pass, receive, read_page, store_page, too_large,
  collect_pages, collect_window, guard, wanted, begun, persisted, succeed, next_position,
  is_succeeded,
}

module _ (total : ℕ) where
  -- A page that counts `total` results and holds as many articles as it says.
  pub record IsFull (feed : Feed) : Type 0 where
    pub all_results : feed.total_results ≡ total
    pub full : feed.items_per_page ≤ length feed.articles

  abbrev pub FullBody : Body → Type 0
  FullBody unparsable = Unit
  FullBody (page feed) = IsFull feed

  abbrev pub FullAnswer : Answer → Type 0
  FullAnswer no_response = Unit
  FullAnswer (response code body) = FullBody body

  abbrev pub FullAttempt : Attempt → Type 0
  FullAttempt a = FullAnswer a.answer

  abbrev pub FullRound : Round → Type 0
  FullRound r = All FullAttempt r.attempts

  get-IsFull :
      (left : ℕ) (s : Settings) (requested : ℕ) (acc : Accumulator) (as' : List Attempt)
      (feed : Feed)
      → All FullAttempt as'
      → (get left s requested acc as').0 ≡ answered (page feed)
      → IsFull feed
  unfolding get
  get-IsFull zero s requested acc as' feed h e = cc
  get-IsFull (suc left) s requested acc [] feed h e = cc
  get-IsFull (suc left) s requested acc (a ∷ as') feed h e =
      let one = get-IsFull left s requested (called (counted requested acc)) as' feed h.1 in
      let two =
        get-IsFull left s requested (preserved (called (counted requested acc))) as' feed h.1 in
      ground (arith, h.0)

  -- Each pass receives at least as many entries as the cursor moves, and the last one reaches the
  -- total.
  abbrev Moves : Cursor → Accumulator → End → Type 0
  Moves cursor acc (ended succeeded, cursor', acc') =
      total + acc.entries_received ≤ acc'.entries_received + cursor.next_start
  Moves cursor acc _ = Unit

  abbrev MovesPass : Cursor → Accumulator → Pass → Type 0
  MovesPass cursor acc (returns end) = Moves cursor acc end
  MovesPass cursor acc (again cursor' acc') =
      cursor'.next_start + acc.entries_received ≤ acc'.entries_received + cursor.next_start

  module _ (job : Job) (cursor : Cursor) where
    too_large-Moves : (acc : Accumulator) → Moves cursor acc (too_large job cursor acc)
    unfolding too_large
    too_large-Moves acc =
        elim (Option-cases (split_window job.settings.min_partition_minutes job.window)) [
          | inl e ↦ rw (e, too_large) tt
          | inr (p, e) ↦ rw (e, too_large) tt
        ]

    position :
        (feed : Feed) {next : ℕ}
        → IsFull feed
        → feed.start_index ≡ cursor.next_start
        → next_position cursor.next_start feed ≡ some next
        → next ≤ cursor.next_start + length feed.articles
    unfolding next_position
    position feed f same e = let a = f.all_results in let b = f.full in ground arith

    store_page-Moves :
        (acc : Accumulator) (feed : Feed)
        → IsFull feed
        → feed.start_index ≡ cursor.next_start
        → MovesPass cursor acc (store_page job cursor acc feed)
    unfolding store_page persisted succeed
    store_page-Moves acc feed f same = elim (Option-cases (next_position cursor.next_start feed)) [
      | inl e ↦ rw (e, store_page) tt
      | inr (next, e) ↦
          (let p = position feed {next = next} f same e in
            elim (Bool-cases (leb feed.total_results next)) [
              | inl last ↦
                  rw (e, store_page)
                    (rw last (omega (arith, leb→le feed.total_results next last, f.all_results)))
              | inr more ↦ rw (e, store_page) (rw more (omega arith))
            ])
    ]

    read_page-Moves :
        (acc : Accumulator) (feed : Feed)
        → IsFull feed
        → MovesPass cursor acc (read_page job cursor acc feed)
    unfolding read_page
    read_page-Moves acc feed f = elim (Bool-cases (feed.start_index == cursor.next_start)) [
      | inr e ↦ rw (e, read_page) tt
      | inl e ↦
          elim (Bool-cases (
            (cursor.next_start == 0)
            && ltb job.settings.large_query_threshold feed.total_results)) [
              | inl large ↦ rw (e, read_page) (rw large (too_large-Moves acc))
              | inr small ↦
                  rw (e, read_page)
                    (rw small (
                      store_page-Moves acc feed f
                        ((==_iff feed.start_index cursor.next_start).0 e)))
            ]
    ]

    receive-Moves :
        (acc : Accumulator) (r : GetEnd)
        → ((feed : Feed) → r ≡ answered (page feed) → IsFull feed)
        → MovesPass cursor acc (receive job cursor (r, acc))
    unfolding receive
    receive-Moves acc unanswered h = tt
    receive-Moves acc (raises e) h = tt
    receive-Moves acc (answered unparsable) h = tt
    receive-Moves acc (answered (page feed)) h = read_page-Moves acc feed (h feed refl)

  same_entries :
      (cursor : Cursor) (acc acc' : Accumulator) (p : Pass)
      → acc'.entries_received ≡ acc.entries_received
      → MovesPass cursor acc' p
      → MovesPass cursor acc p
  same_entries cursor acc acc' (returns (ended succeeded, c, a)) e m = omega arith
  same_entries cursor acc acc' (again c a) e m = omega arith
  same_entries cursor acc acc' (returns (ended partial, c, a)) e m = tt
  same_entries cursor acc acc' (returns (ended _, c, a)) e m = tt
  same_entries cursor acc acc' (returns (_, c, a)) e m = tt

  pass-Moves :
      (job : Job) (cursor : Cursor) (acc : Accumulator) (pages : ℕ) (round : Round)
      → FullRound round
      → MovesPass cursor acc (pass job cursor acc pages round)
  unfolding pass
  pass-Moves job cursor acc pages round full =
      elim (Option-cases (guard job acc pages round.over_time)) [
        | inr (reason, e) ↦ rw (e, pass) tt
        | inl e ↦
            (let s = job.settings in
              let g = get s.retry_attempts s (wanted job acc) acc round.attempts in
              let r = get-IsRequest s.retry_attempts s (wanted job acc) acc round.attempts in
              rw (e, pass)
                (same_entries cursor acc g.1 (receive job cursor g) r.entries (
                  receive-Moves job cursor g.1 g.0 (λ feed q.
                    get-IsFull s.retry_attempts s (wanted job acc) acc round.attempts feed full
                      q))))
      ]

  then_Moves :
      (cursor cursor' : Cursor) (acc acc' : Accumulator) (end : End)
      → MovesPass cursor acc (again cursor' acc')
      → Moves cursor' acc' end
      → Moves cursor acc end
  then_Moves cursor cursor' acc acc' (ended succeeded, c, a) k m = omega arith
  then_Moves cursor cursor' acc acc' (ended _, c, a) k m = tt
  then_Moves cursor cursor' acc acc' (_, c, a) k m = tt

  collect_pages-Moves :
      (job : Job) (cursor : Cursor) (acc : Accumulator) (pages : ℕ) (rounds : List Round)
      → All FullRound rounds
      → Moves cursor acc (collect_pages job cursor acc pages rounds)
  unfolding collect_pages
  collect_pages-Moves job cursor acc pages [] full = tt
  collect_pages-Moves job cursor acc pages (round ∷ rounds) full =
      next (pass job cursor acc pages round) (pass-Moves job cursor acc pages round full.0)
        (λ c a. collect_pages-Moves job c a (pages + 1) rounds full.1)
    where
      next :
          (p : Pass)
          → MovesPass cursor acc p
          → ((c : Cursor) (a : Accumulator) → Moves c a (collect_pages job c a (pages + 1) rounds))
          → Moves cursor acc
              (elim p [ returns end ↦ end | again c a ↦ collect_pages job c a (pages + 1) rounds ])
      next (returns end) k ih = k
      next (again c a) k ih =
          then_Moves cursor c acc a (collect_pages job c a (pages + 1) rounds) k (ih c a)

  -- If every page that the API returns counts `total` results and holds at least as many articles
  -- as its `items_per_page`, then a window that starts at position 0 and is collected up to success
  -- has received at least `total` entries. The cursor must not have succeeded before.
  pub collect_window_complete :
      (mode : Mode) (job : Job) (cursor : Cursor) (acc : Accumulator) (rounds : List Round)
      {cursor' : Cursor} {acc' : Accumulator}
      → All FullRound rounds
      → is_succeeded cursor.status ≡ false
      → cursor.next_start ≡ 0
      → collect_window mode job cursor acc rounds ≡ (ended succeeded, cursor', acc')
      → acc.entries_received + total ≤ acc'.entries_received
  unfolding collect_window
  collect_window_complete mode job cursor acc rounds {cursor'} {acc'} full new start e =
      bound (collect_pages-Moves job (begun job cursor) acc 0 rounds full)
    where
      pages_end :
          collect_pages job (begun job cursor) acc 0 rounds ≡ (ended succeeded, cursor', acc')
      pages_end = ground arith

      bound :
          Moves (begun job cursor) acc (collect_pages job (begun job cursor) acc 0 rounds)
          → acc.entries_received + total ≤ acc'.entries_received
      bound m = let b = rw pages_end at m in omega arith
