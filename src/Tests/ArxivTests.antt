-- ===== src/Tests/ArxivTests.antt =====
-- Collection runs on small traces. Instants are microseconds.
use signal_observatory.Prelude.{
  ℕ, ◌+◌, ◌*◌, ◌≤◌, ◌≡◌, refl, false, some, none, List, [], ◌∷◌, ok, arith, All,
}
use signal_observatory.Clock.{aware, second, day, hour}
use signal_observatory.Arxiv.Window.{QueryWindow, window, partition_windows, split_window}
use signal_observatory.Arxiv.Window.Tiling.{Tiles, NoLonger, partition_windows-Tiles}
use signal_observatory.Arxiv.State.{
  Settings, CursorStatus, Cursor, Partition, new_cursor, Feed, unparsable, page, Answer,
  no_response, response, Attempt, Round,
}
use signal_observatory.Arxiv.Client.{get}
use signal_observatory.Arxiv.Collect.{
  pass, receive, read_page, store_page, next_position, persisted, succeed, too_large, incremental,
  Job, ended, split, End, collect_window,
}
use signal_observatory.Arxiv.Collect.Progress.{FullRound, collect_window_complete}
use signal_observatory.Arxiv.Incremental.{collect_mapping}
use signal_observatory.Arxiv.Incremental.Partitions.{
  IsPartition, Sound, collect_mapping-Sound, collect_mapping-split,
}
use signal_observatory.Arxiv.Run.{Mapping, collect, new_accumulator}
use signal_observatory.Arxiv.Backfill.{BackfillMapping, Setup, backfill, collect_pending}
use signal_observatory.Arxiv.Backfill.Limits.{EndsWithin, backfill-EndsWithin}
use signal_observatory.Arxiv.Backfill.Coverage.{Covers, collect_pending-Covers}
use signal_observatory.Arxiv.Pacing.{Limiter, remaining, acquire, request_starts}
use signal_observatory.Arxiv.Pacing.Spacing.{Sleeps, Spaced, request_starts-Spaced}
use signal_observatory.Arxiv.Run.Status.{Within, collect-Within}

-- 2 requests of one attempt; a query is too large above 100 results.
abbrev settings : Settings
settings = record {
  max_requests_per_run = 5;
  max_results_per_topic = 1000;
  large_query_threshold = 100;
  min_partition_minutes = 60;
  retry_attempts = 2;
  incremental_overlap = hour;
}

abbrev job : Job
job = record {
  settings = settings;
  topic = 1;
  page_limit = none;
  page_size = 2;
  window = window (10 * day) (11 * day);
  now = 12 * day;
}

abbrev cursor : Cursor
cursor = new_cursor none none

abbrev feed : ℕ → ℕ → ℕ → List ℕ → Feed
feed total start items articles = record {
  total_results = total;
  start_index = start;
  items_per_page = items;
  articles = articles;
}

abbrev answers : Answer → Attempt
answers a = record { over_time = false; answer = a }

abbrev round : List Attempt → Round
round as' = record { over_time = false; attempts = as' }

-- Three results in two pages; the first request is repeated after a 503.
abbrev two_pages : List Round
two_pages =
    round (
      answers (response 503 unparsable)
      ∷ answers (response 200 (page (feed 3 0 2 (5 ∷ 6 ∷ []))))
      ∷ [])
    ∷ round (answers (response 200 (page (feed 3 2 1 (7 ∷ [])))) ∷ [])
    ∷ []

abbrev too_many : List Round
too_many = round (answers (response 200 (page (feed 500 0 2 (5 ∷ 6 ∷ [])))) ∷ []) ∷ []

partition_windows-Tiles_example :
    (ws : List QueryWindow) × (partition_windows (10 * day) (15 * day) 2 ≡ some (ok ws))
    × Tiles (10 * day) (15 * day) ws
    × All (NoLonger (2 * day)) ws
partition_windows-Tiles_example =
    partition_windows-Tiles (10 * day) (15 * day) 2 (omega arith) (omega arith)

abbrev first_half : QueryWindow
first_half = window (10 * day) (10 * day + 12 * hour)

abbrev second_half : QueryWindow
second_half = window (10 * day + 12 * hour) (11 * day)

split_day : split_window 60 (window (10 * day) (11 * day)) ≡ some (first_half, second_half)
unfolding split_window
split_day = refl

abbrev attempts : List Attempt
attempts = answers no_response ∷ answers (response 403 unparsable) ∷ []

abbrev window_end : End
window_end = collect_window incremental job cursor new_accumulator two_pages

pages_succeed :
    collect_window incremental job cursor new_accumulator two_pages
    ≡ (ended CursorStatus.succeeded, window_end.1, window_end.2)
unfolding collect_window pass receive get read_page store_page next_position persisted succeed
pages_succeed = refl

collect_window_complete_example : 0 + 3 ≤ window_end.2.entries_received
collect_window_complete_example =
    collect_window_complete 3 incremental job cursor new_accumulator two_pages
      {cursor' = window_end.1} {acc' = window_end.2} full refl refl pages_succeed
  where
    full : All (FullRound 3) two_pages
    full = (
      (tt, (record { all_results = refl; full = omega arith }, tt)),
      ((record { all_results = refl; full = omega arith }, tt), tt),
    )

-- The parts of a split day; the first half is done.
abbrev half_done : Partition
half_done = record {
  root_from = 10 * day;
  root_until = 11 * day;
  pending = second_half ∷ [];
  completed = first_half ∷ [];
}

abbrev resumed : Cursor
resumed = record cursor { status = CursorStatus.partial; partition = some half_done }

half_done-IsPartition : IsPartition job.window half_done
half_done-IsPartition = record {
  root = (refl, refl);
  tiles = (refl, omega arith, (refl, omega arith, refl));
}

collect_mapping-Sound_example :
    Sound job.window (collect_mapping job resumed [] new_accumulator (two_pages ∷ []))
collect_mapping-Sound_example =
    collect_mapping-Sound (two_pages ∷ []) job resumed half_done [] new_accumulator (omega arith)
      refl half_done-IsPartition

abbrev split_end : End
split_end = collect_window incremental job cursor new_accumulator too_many

splits :
    collect_window incremental job cursor new_accumulator too_many
    ≡ (split first_half second_half, split_end.1, split_end.2)
unfolding collect_window pass receive get read_page too_large split_window
splits = refl

collect_mapping-split_example :
    Sound job.window
      (collect_mapping job cursor [] new_accumulator (too_many ∷ two_pages ∷ two_pages ∷ []))
collect_mapping-split_example =
    collect_mapping-split (two_pages ∷ two_pages ∷ []) job cursor split_end.1 first_half second_half
      [] new_accumulator split_end.2 too_many (omega arith) refl splits

abbrev mapping : Mapping
mapping = record {
  topic = 1;
  cursor = cursor;
  parts = [];
  over_time = false;
  traces = too_many ∷ two_pages ∷ two_pages ∷ [];
}

collect-Within_example :
    Within settings (collect settings 2 none (11 * day) (mapping ∷ mapping ∷ [])).1
collect-Within_example = collect-Within settings 2 none (11 * day) (mapping ∷ mapping ∷ [])

abbrev backfill_mapping : BackfillMapping
backfill_mapping = record {
  topic = 1;
  cursors = [];
  over_time = false;
  traces = too_many ∷ two_pages ∷ two_pages ∷ [];
}

-- Nothing is raised before the loop.
abbrev setup : Setup
setup = record { prepared = none; started = none }

backfill-EndsWithin_example : EndsWithin settings (
    backfill settings 7 2 none
      (12 * day)
      setup
      (aware (10 * day))
      (aware (11 * day))
      false
      (backfill_mapping ∷ []))
backfill-EndsWithin_example =
    backfill-EndsWithin settings 7 2 none (12 * day) setup (aware (10 * day)) (aware (11 * day))
      false (backfill_mapping ∷ []) (omega arith)

abbrev day_windows : List QueryWindow
day_windows = window (10 * day) (11 * day) ∷ []

collect_pending-Covers_example :
    Covers
      (10 * day)
      (11 * day)
      (collect_pending job day_windows [] new_accumulator (too_many ∷ two_pages ∷ two_pages ∷ []))
collect_pending-Covers_example =
    collect_pending-Covers (10 * day) (11 * day) (too_many ∷ two_pages ∷ two_pages ∷ []) job
      day_windows [] new_accumulator (omega arith) (refl, omega arith, refl)

abbrev limiter : Limiter
limiter = record { minimum_interval = 3 * second; last_request_started = none }

-- The first request goes at once; the second comes a second later and sleeps two.
abbrev readings : List (ℕ × ℕ)
readings = (second, second) ∷ (2 * second, 4 * second) ∷ []

readings_sleep : Sleeps limiter readings
unfolding remaining acquire
readings_sleep = (omega arith, (omega arith, tt))

request_starts-Spaced_example : Spaced (3 * second) none (request_starts limiter readings)
request_starts-Spaced_example = request_starts-Spaced limiter readings readings_sleep
