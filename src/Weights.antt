-- ===== src/Weights.antt =====
-- How emission is split among the last kings, and when the split is sent to the chain (tau/weights/).
pub mod Compute
pub mod Schedule
pub mod Setter
