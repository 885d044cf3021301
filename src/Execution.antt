-- ===== src/Execution.antt =====
-- paper_live/execution.py: paper orders, the paper account, the virtual matching engine, and the
-- gateway that guards it.
pub mod Types
pub mod Engine
pub mod Gateway
mod Tests
