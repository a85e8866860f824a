-- ===== src/Arxiv.antt =====
-- The arXiv collector's orchestration: collectors/arxiv/src/arxiv_collector/service.py, with the
-- request loop of client.py. The modules below hold the parts.
pub mod Window
pub mod State
pub mod Client
pub mod Collect
pub mod Incremental
pub mod Run
pub mod Backfill
pub mod Pacing
