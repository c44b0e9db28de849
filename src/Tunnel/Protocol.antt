-- ===== src/Tunnel/Protocol.antt =====
-- The wire protocol: src/tunnel/protocol.rs.
mod Send
mod Receive
pub mod RoundTrip
pub mod Accepts
unfoldable pub use Send.{
  magic, proto_version, status_ok, status_fail, write_lp_str, write_handshake, write_status,
  write_target,
}
unfoldable pub use Receive.{read_lp_str, read_handshake, read_status, read_target}
