-- ===== src/TradeFacade.antt =====
-- paper_live/trade_facade.py: intent, preview, submission.
pub mod Types
pub mod Assess
pub mod Calls
pub mod Submit
pub mod Sandbox
pub mod Rejected
pub mod Sound
pub mod OnPaper
pub mod Rows
pub mod Terms
pub mod Revalidate
pub mod Preflight
pub mod Samples
mod Tests
