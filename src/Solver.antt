-- ===== src/Solver.antt =====
-- The task solver (tau/workers/task_solver/).
pub mod Jobs
pub mod Scheduler
