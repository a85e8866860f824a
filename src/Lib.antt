-- ===== src/Lib.antt =====
-- Signal Observatory: the scheduler of the collectors, the arXiv and GitHub collection runs, the topic
-- registry, and the policies around them.
--
-- The parts and how they interact. The worker (apps/worker) computes the next window of a job from
-- its cron schedule, plans that window in the scheduler ledger (packages/operations), waits until it
-- is due, claims it, runs the collector and records the outcome. When the worker starts, it first
-- plans the windows that went by while it was away and closes what an earlier process left open. The
-- punctuality verifier reads the same table. One of the jobs is the arXiv collection run
-- (collectors/arxiv): per mapping, a window is collected page by page through the client; a query
-- that is too large is split, and the parts are kept in the parent cursor's checkpoint. Another is the GitHub
-- run (collectors/github): a discovery searches for the repositories of each mapping, and a snapshot
-- call observes each tracked repository that is due, once a day. Health states
-- (packages/operations) summarise the runs. The topics and queries that are collected come from the
-- topic registry (packages/topic-registry), which is compared with the database and synchronised to
-- it. Coverage (packages/operations) is derived from the cursors and snapshots that the collectors
-- keep.
--
-- Which file models which part:
--   Clock, Text, Errors   instants as microseconds since 0001-01-01 UTC, aware or naive; `str.split`
--                         and `int` on ASCII text; one constructor for each kind of exception
--   Cron                  apps/worker/src/signal_observatory_worker/main.py: `next_cron_run`,
--                         `next_arxiv_run`, `elapsed_cron_runs`
--   Scheduler.Row         db/src/observatory_db/models.py: `SchedulerExecution` and its status; the
--                         table is the list of rows, in the order of insertion
--   Scheduler.Ledger      packages/operations/src/observatory_operations/scheduler.py:
--                         `SchedulerLedger`, each method a function from table to table
--   Scheduler.Table, .Lifecycle, .Claims    the validity of tables, histories of calls, and pairs of
--                         calls on one window
--   Scheduler.Timing, .Delays, .Punctuality  `scheduler_timing` and `SchedulerPunctualityVerifier`
--   Scheduler.Startup, .Worker  the two halves of `scheduled_job`, `wait_until_due` and
--                         `scheduler_status_for_collector`
--   Arxiv.Window          collectors/arxiv/src/arxiv_collector/service.py: `partition_windows` and
--                         `_split_window`
--   Arxiv.State           the settings, cursors and counts of a run, and what the network answers
--   Arxiv.Client          collectors/arxiv/src/arxiv_collector/client.py: `ArxivClient.get`
--   Arxiv.Collect         `_collect_window`
--   Arxiv.Incremental     `_incremental_window` and `_collect_incremental_mapping`
--   Arxiv.Run             `collect` and `_terminal_status`
--   Arxiv.Backfill        `backfill`
--   Arxiv.Pacing          `MinimumIntervalLimiter` and `ArxivClient._backoff`
--   Github.State          the rows of db/src/observatory_db/github_models.py, the counts of a run, and
--                         what the network answers
--   Github.Client         collectors/github/src/github_collector/client.py: `GithubClient.get` with
--                         `GithubRateLimitManager`
--   Github.Persistence    collectors/github/src/github_collector/persistence.py
--   Github.Due, .Snapshots   collectors/github/src/github_collector/service.py: `_tracked_repositories`
--                         and `snapshot`
--   Github.Search, .Discovery   the same file: the searches of a mapping, and `discover`
--   Retry                 packages/collector-core/src/collector_core/retry.py
--   Operations            packages/operations/src/observatory_operations/models.py and the two state
--                         functions of health.py
--   Registry.Values, .Entities, .Topics  packages/topic-registry/src/topic_registry/models.py, the rows
--                         of db/src/observatory_db/models.py, and what is compared and assigned
--   Registry.Entries      a table with the registry's entries for it: comparison, loop, dictionary
--   Registry.Compare      packages/topic-registry/src/topic_registry/diff.py
--   Registry.Sync         packages/topic-registry/src/topic_registry/sync.py and source_catalog.py;
--                         Sync.Converges and Sync.Outcomes are about calls in a row and their ends,
--                         Sync.Refines has the abstract catalogue, Sync.Sources and Sync.Audit what
--                         is kept beside it
--   Registry.Loader       packages/topic-registry/src/topic_registry/loader.py: checks of categories
--                         and topics
--   Coverage              packages/operations/src/observatory_operations/coverage.py: missing days and
--                         window gaps; Coverage.Derive has the projection of a topic and a source,
--                         Coverage.Rebuild the table; what the queries return is an input
--   Stores.Raw, Stores.Checkpoint  packages/collector-core/src/collector_core/raw_store.py and
--                         checkpoint.py
--   Prelude               shared names, Boolean tests, lists and results
--   Tests                 runs at concrete inputs
--
-- Bounds and fuel. `elapsed_cron_runs` has one unit of fuel for each microsecond to cover and one
-- more, since every round moves the cursor forward; `partition_windows` likewise. The search for the
-- next qualification window has fuel for every microsecond up to the last row. The worker's wait and
-- the loops of the collection runs have no bound of their own in the source: they run over a trace of what the
-- environment answers, and say so when the trace stops (`waiting`, `starved`, `unanswered`, `cut_off`). Python's
-- integers and datetimes are natural numbers here; `datetime.max` is not reached, and days or hours
-- taken off an instant stop at 0001-01-01, but in `latest_due_window`, which raises there.
--
-- What is not modelled, and why: the database and its sessions (a call is one transaction on a
-- table), the leadership lock, asyncio tasks and their cancellation, HTTP and the XML parser (their
-- results are inputs), log lines, message texts, the texts of planned queries, run records and the
-- data quality counts of a collection. How Python rounds a delay to milliseconds is a parameter with
-- its documented error bound. In the registry, a JSON object is its canonical text, a confidence a
-- number in a fixed unit, surrogate ids and timestamps are left out, and the folding of names is a
-- parameter. Metadata that JSON changes (nested keys that
-- are no strings) or that differ from themselves (NaN) are outside this. A flush checks the unique
-- constraints on the rows that it leaves: a clash of two statements of one flush, as when two
-- categories swap their names, is not modelled. SHA-256 and gzip are parameters of the Raw store, and
-- `json.dump` and `json.load` of the checkpoint store. Of the GitHub collector, the query
-- texts, the URLs, the ETags that requests name and the rows of Raw responses are left out; what the
-- set-up of its client and run raises, and a failure of its Raw store, are inputs. The read models
-- of coverage, the reading of the registry's files, its checks across topics and for cycles, backups,
-- the API, the CLI and the web client are not modelled here.
pub mod Prelude
pub mod Text
pub mod Errors
pub mod Clock
pub mod Cron
pub mod Scheduler
pub mod Arxiv
pub mod Retry
pub mod Operations
pub mod Registry
pub mod Coverage
pub mod Stores
pub mod Github
mod Tests
