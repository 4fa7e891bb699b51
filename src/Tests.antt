-- ===== src/Tests.antt =====
-- Runs of the models on concrete inputs.
pub mod Routes
pub mod Transport
pub mod Serving
pub mod Agents
pub mod Listeners
pub mod Database
pub mod Control
pub mod Edges
pub mod Sockets
