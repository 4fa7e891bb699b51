-- ===== src/Store.antt =====
-- internal/store: the database of agents, enrollment tokens and routes.
pub mod Db
pub mod Rows
pub mod Claim
pub mod Invariant
pub mod Routes
pub mod Heartbeat
pub mod Enrollment
pub mod SshKeys
