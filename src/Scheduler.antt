-- ===== src/Scheduler.antt =====
-- The durable scheduler: packages/operations/src/observatory_operations/scheduler.py with the
-- `SchedulerExecution` table of db/src/observatory_db/models.py, and the worker's `scheduled_job` of
-- apps/worker/src/signal_observatory_worker/main.py. The modules below hold the parts.
pub mod Row
pub mod Timing
pub mod Ledger
pub mod Table
pub mod Lifecycle
pub mod Claims
pub mod Startup
pub mod Delays
pub mod Worker
pub mod Punctuality
