-- ===== src/Generator.antt =====
-- The task generator.
pub mod Workqueue
