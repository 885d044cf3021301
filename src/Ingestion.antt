-- ===== src/Ingestion.antt =====
-- paper_live/retry_queue.py and paper_live/ingestion_run.py: the ranges whose collection failed.
pub mod Range
pub mod Retry
pub mod Failures
mod Tests
