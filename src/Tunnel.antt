-- ===== src/Tunnel.antt =====
-- The tunnel subsystem (src/tunnel).
pub mod Wire
pub mod Protocol
pub mod Listener
pub mod Session
pub mod Handshake
pub mod Connection
pub mod Sound
pub mod Steps
pub mod Clients
pub mod Acceptance
pub mod Stopping
pub mod Proxy
pub mod Relay
