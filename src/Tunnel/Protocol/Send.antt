-- ===== src/Tunnel/Protocol/Send.antt =====
-- The writing half of src/tunnel/protocol.rs.
use mini_mask.Common.{ℕ, ◌/◌, ◌%◌, ◌^◌, List, [], ◌∷◌, Bool, Text, text, length, ltb, if◌then◌else◌}
use mini_mask.Tunnel.Wire.{Write, ◌>>◌, fail, write_all, flush, string_too_long}

unfoldable pub magic : List ℕ
unfolding text
magic = text "MMSK"

abbrev pub proto_version : ℕ
proto_version = 1

abbrev pub status_ok : ℕ
status_ok = 1

abbrev pub status_fail : ℕ
status_fail = 0

-- `(n as u16).to_be_bytes()`.
abbrev pub u16_be_bytes : ℕ → List ℕ
u16_be_bytes n = let m = n % 2 ^ 16 in (m / 2 ^ 8) ∷ (m % 2 ^ 8) ∷ []

unfoldable pub write_lp_str : Text → Write (Unit {0})
write_lp_str s =
    if ltb 65535 (length s)
    then fail (string_too_long (length s))
    else do write_all (u16_be_bytes (length s)); write_all s

unfoldable pub write_handshake : Text → Text → Write (Unit {0})
write_handshake client_id token = do
  write_all magic
  write_all (proto_version ∷ [])
  write_lp_str client_id
  write_lp_str token
  flush

unfoldable pub write_status : Bool → Text → Write (Unit {0})
write_status accepted msg = do
  write_all ((if accepted then status_ok else status_fail) ∷ [])
  write_lp_str msg
  flush

unfoldable pub write_target : Text → Write (Unit {0})
write_target target = do write_lp_str target; flush
