-- ===== src/Agent.antt =====
-- internal/agent: the session cache, its server and its client.
pub mod Protocol
pub mod Server
pub mod Client
pub mod Expiry
pub mod Exchange
