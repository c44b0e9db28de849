-- ===== src/Store.antt =====
-- The client store of src/state.rs.
pub mod Model
pub mod Ops
pub mod Calls
pub mod Ports
pub mod Durable
pub mod Restart
pub mod Tokens
