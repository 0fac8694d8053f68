-- ===== src/Duel.antt =====
-- The duel between the reigning king and a challenger (tau/duel/).
pub mod Snapshot
pub mod Actions
pub mod Predicates
pub mod Decide
pub mod Tokens
