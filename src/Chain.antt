-- ===== src/Chain.antt =====
-- The chain watcher (tau/bittensor/ and its seam in tau/db/database.py).
pub mod Registrations
pub mod Watcher
