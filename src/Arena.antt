-- ===== src/Arena.antt =====
-- The arena: the tables and the duel resolver on them (tau/db/).
pub mod Tables
pub mod Queries
pub mod Tallies
pub mod Snapshot
pub mod Writes
pub mod Invariant
