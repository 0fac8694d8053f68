-- ===== src/Qualification.antt =====
-- The qualification of submissions (tau/qualification/, tau/workers/qualification/).
pub mod Policy
pub mod Parse
pub mod Worker
pub mod Client
