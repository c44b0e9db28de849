-- ===== src/Tunnel/Protocol/Receive.antt =====
-- The reading half of src/tunnel/protocol.rs.
use mini_mask.Common.{
  ℕ, ◌+◌, ◌*◌, List, [], ◌∷◌, Bool, Text, text_eq, is_utf8, ok, err, ◌>>=◌, ◌>>◌, guard, ◌==◌,
  if◌then◌else◌,
}
use mini_mask.Tunnel.Wire.{Read, read_exact, invalid_magic, unsupported_version, invalid_utf8}
use mini_mask.Tunnel.Protocol.Send.{magic, proto_version, status_ok}

-- `buf[0]` of an array that `read_exact` has filled.
abbrev pub first_byte : List ℕ → ℕ
first_byte [] = 0
first_byte (b ∷ _) = b

-- `u16::from_be_bytes`.
abbrev pub u16_from_be_bytes : List ℕ → ℕ
u16_from_be_bytes (hi ∷ lo ∷ _) = hi * 256 + lo
u16_from_be_bytes _ = 0

unfoldable pub read_lp_str : Read Text
read_lp_str r = do
  (len_b, r₁) ← read_exact 2 r
  (buf, r₂) ← read_exact (u16_from_be_bytes len_b) r₁
  if is_utf8 buf then ok (buf, r₂) else err invalid_utf8

unfoldable pub read_handshake : Read (Text × Text)
read_handshake r = do
  (found, r₁) ← read_exact 4 r
  guard (text_eq found magic) invalid_magic
  (ver, r₂) ← read_exact 1 r₁
  guard (first_byte ver == proto_version) (unsupported_version (first_byte ver))
  (client_id, r₃) ← read_lp_str r₂
  (token, r₄) ← read_lp_str r₃
  ok ((client_id, token), r₄)

unfoldable pub read_status : Read (Bool × Text)
read_status r = do
  (s, r₁) ← read_exact 1 r
  (msg, r₂) ← read_lp_str r₁
  ok ((first_byte s == status_ok, msg), r₂)

unfoldable pub read_target : Read Text
read_target = read_lp_str
