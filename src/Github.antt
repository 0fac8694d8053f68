-- ===== src/Github.antt =====
-- GitHub access (tau/github/).
pub mod Tokens
pub mod Commits
pub mod Refs
pub mod Sampler
