-- ===== src/Screener.antt =====
-- The task screener (tau/workers/task_screener/).
pub mod Runner
pub mod Worker
