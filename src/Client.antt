-- ===== src/Client.antt =====
-- The tunnel client: src/client.rs.
pub mod Events
pub mod Attempt
pub mod Streams
pub mod Relayed
pub mod Once
pub mod Supervised
pub mod Backoff
pub mod Verdict
