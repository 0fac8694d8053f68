-- ===== src/Judging.antt =====
-- Judging of two solutions.
pub mod Blinding
pub mod Worker
pub mod Fallback
pub mod Safety
