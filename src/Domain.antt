-- ===== src/Domain.antt =====
-- internal/domain: the shared model of agents and routes.
pub mod Agent
pub mod Host
pub mod PathPrefix
pub mod Route
