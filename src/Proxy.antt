-- ===== src/Proxy.antt =====
-- The LLM proxy (tau/proxy/).
pub mod Routing
pub mod Budget
pub mod Server
