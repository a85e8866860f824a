-- ===== src/Github.antt =====
-- The GitHub collector (collectors/github/src/github_collector): discovery of repositories by search, and
-- one snapshot of each tracked repository and day.
pub mod State
pub mod Client
pub mod Persistence
pub mod Due
pub mod Snapshots
pub mod Search
pub mod Discovery
