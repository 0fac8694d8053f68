-- ===== src/Resolver.antt =====
-- The duel resolver's worker (tau/workers/duel_resolver/).
pub mod Tick
pub mod Run
