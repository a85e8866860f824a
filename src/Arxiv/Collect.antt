-- ===== src/Arxiv/Collect.antt =====
-- `_collect_window` and `_pause_cursor` (collectors/arxiv/src/arxiv_collector/service.py). The page
-- loop runs over a trace of rounds, one for each pass of `while True`; `starved` where it stops.
pub mod Progress
pub mod Budget
use signal_observatory.Prelude.{
  ℕ, ◌+◌, ◌-◌, ◌*◌, Bool, true, false, not, ◌&&◌, ◌||◌, Option, none, some, List, [], ◌∷◌, length,
  leb, ltb, ◌==◌, if◌then◌else◌, min, max,
}
use signal_observatory.Errors.{Error, parse_error, query_error}
use signal_observatory.Arxiv.Window.{QueryWindow, split_window}
use signal_observatory.Arxiv.State.{
  Settings, Cursor, CursorStatus, running, succeeded, partial, failed, pending, Reason,
  max_requests_per_run, max_runtime_minutes, max_pages, max_results_per_topic,
  large_query_minimum_partition, large_query_partition, empty_page_before_total, raised,
  Accumulator, Feed, Body, unparsable, page, Round, request_limit_reached, update,
}
use signal_observatory.Arxiv.Client.{get, GetEnd, answered, raises, unanswered}

pub data Mode : Type 0 where
  backfill incremental incremental_part : Mode

-- `WindowOutcome` with its optional split, or an exception.
pub data WindowEnd : Type 0 where
  ended : CursorStatus → WindowEnd
  split : QueryWindow → QueryWindow → WindowEnd
  raises_error : Error → WindowEnd
  starved : WindowEnd

abbrev pub End : Type 0
End = WindowEnd × Cursor × Accumulator

-- What the loop does not change: settings, topic, page limits, the window, and the clock at its end.
pub record Job : Type 0 where
  pub settings : Settings
  pub topic : ℕ
  pub page_limit : Option ℕ
  pub page_size : ℕ
  pub window : QueryWindow
  pub now : ℕ

-- `_pause_cursor`.
abbrev pub pause : Cursor → Accumulator → Reason → End
pause cursor acc reason = (
  ended partial,
  record cursor { status = partial; last_error = some reason },
  record acc { stopped_by_safety_limit = true },
)

abbrev pub fail : Cursor → Accumulator → Error → End
fail cursor acc e =
    (raises_error e, record cursor { status = failed; last_error = some (raised e) }, acc)

abbrev latest : List ℕ → Option ℕ → Option ℕ
latest [] o = o
latest (t ∷ []) o = some t
latest (t ∷ ts) o = elim (latest ts o) [ none ↦ some t | some u ↦ some (max t u) ]

-- The cursor when the last page is in.
unfoldable pub succeed : Job → Cursor → Feed → Accumulator → End
succeed job cursor feed acc = (
  ended succeeded,
  record cursor {
    status = succeeded;
    last_successful_run_at = some job.now;
    last_query_from = some job.window.window_from;
    last_query_until = some job.window.window_until;
    last_observed_updated_at = latest feed.articles cursor.last_observed_updated_at;
    last_error = none;
  },
  acc,
)

-- `persist_feed` and the counts after it.
unfoldable pub persisted : Job → Feed → Accumulator → Accumulator
persisted job feed acc = record acc {
  entries_received = acc.entries_received + length feed.articles;
  results_by_topic =
      update acc.results_by_topic job.topic (acc.results_by_topic job.topic + length feed.articles);
}

abbrev pub page_limit_reached : Option ℕ → ℕ → Bool
page_limit_reached none pages = false
page_limit_reached (some limit) pages = leb limit pages

-- The step after a page is persisted: none if the page is empty before the total.
unfoldable pub next_position : ℕ → Feed → Option ℕ
next_position start feed =
    let advance = max (length feed.articles) feed.items_per_page in
    if advance == 0
    then (if ltb start feed.total_results then none else some feed.total_results)
    else some (feed.start_index + advance)

-- The partition of a query that is too large.
unfoldable pub too_large : Job → Cursor → Accumulator → End
too_large job cursor acc = elim (split_window job.settings.min_partition_minutes job.window) [
  | none ↦ pause cursor acc large_query_minimum_partition
  | some (a, b) ↦
      (split a b, record cursor { status = partial; last_error = some large_query_partition }, acc)
]

-- The guards at the head of the loop, in their order.
abbrev pub guard : Job → Accumulator → ℕ → Bool → Option Reason
guard job acc pages over_time =
    if request_limit_reached job.settings acc
    then some max_requests_per_run
    else (if over_time
        then some max_runtime_minutes
        else (if page_limit_reached job.page_limit pages
            then some max_pages
            else (if leb job.settings.max_results_per_topic (acc.results_by_topic job.topic)
                then some max_results_per_topic
                else none)))

-- `request.max_results`.
abbrev pub wanted : Job → Accumulator → ℕ
wanted job acc =
    min job.page_size (job.settings.max_results_per_topic - acc.results_by_topic job.topic)

-- How one pass of the loop goes on: with the cursor and counts for the next pass, or it returns.
pub data Pass : Type 0 where
  again : Cursor → Accumulator → Pass
  returns : End → Pass

-- A page that is parsed, in its place and not too large.
unfoldable pub store_page : Job → Cursor → Accumulator → Feed → Pass
store_page job cursor acc feed = elim (next_position cursor.next_start feed) [
  | none ↦ returns (pause cursor (persisted job feed acc) empty_page_before_total)
  | some next ↦
      if leb feed.total_results next
      then returns (succeed job (record cursor { next_start = next }) feed (persisted job feed acc))
      else again (record cursor { next_start = next }) (persisted job feed acc)
]

unfoldable pub read_page : Job → Cursor → Accumulator → Feed → Pass
read_page job cursor acc feed =
    if not (feed.start_index == cursor.next_start)
    then returns (fail cursor acc parse_error)
    else (if cursor.next_start == 0 && ltb job.settings.large_query_threshold feed.total_results
        then returns (too_large job cursor acc)
        else store_page job cursor acc feed)

unfoldable pub receive : Job → Cursor → GetEnd × Accumulator → Pass
receive job cursor (unanswered, acc) = returns (starved, cursor, acc)
receive job cursor (raises e, acc) = returns (raises_error e, cursor, acc)
receive job cursor (answered unparsable, acc) = returns (fail cursor acc parse_error)
receive job cursor (answered (page feed), acc) = read_page job cursor acc feed

unfoldable pub pass : Job → Cursor → Accumulator → ℕ → Round → Pass
pass job cursor acc pages round = elim (guard job acc pages round.over_time) [
  | some reason ↦ returns (pause cursor acc reason)
  | none ↦
      receive job cursor
        (get job.settings.retry_attempts job.settings (wanted job acc) acc round.attempts)
]

-- `while True`.
unfoldable pub collect_pages : Job → Cursor → Accumulator → ℕ → List Round → End
collect_pages job cursor acc pages [] = (starved, cursor, acc)
collect_pages job cursor acc pages (round ∷ rounds) = elim (pass job cursor acc pages round) [
  | returns end ↦ end
  | again cursor' acc' ↦ collect_pages job cursor' acc' (pages + 1) rounds
]

abbrev pub is_succeeded : CursorStatus → Bool
is_succeeded succeeded = true
is_succeeded _ = false

-- `mode in {"backfill", "incremental_part"}`.
abbrev pub resumes : Mode → Bool
resumes incremental = false
resumes _ = true

-- The cursor as the loop begins.
abbrev pub begun : Job → Cursor → Cursor
begun job cursor = record cursor {
  status = running;
  last_error = none;
  window_from = some job.window.window_from;
  window_until = some job.window.window_until;
}

unfoldable pub collect_window : Mode → Job → Cursor → Accumulator → List Round → End
unfolding collect_pages
collect_window mode job cursor acc rounds =
    if resumes mode && is_succeeded cursor.status
    then (ended succeeded, cursor, acc)
    else (if leb job.window.window_until job.window.window_from
        then (raises_error query_error, begun job cursor, acc)
        else collect_pages job (begun job cursor) acc 0 rounds)
