-- ===== src/Examples/Wires.antt =====
-- The theorems about src/tunnel/protocol.rs at work.
use mini_mask.Common.{
  ℕ, ◌≡◌, refl, List, [], ◌∷◌, ◌++◌, none, some, Text, ok, arith, is_utf8, text_discrete,
  ℕ_discrete, All,
}
use mini_mask.Tunnel.Wire.{Writer, read_exact}
use mini_mask.Tunnel.Wire.Emits.{Emits}
use mini_mask.Tunnel.Protocol.{write_handshake, read_handshake, read_lp_str, magic}
use mini_mask.Tunnel.Protocol.RoundTrip.{
  IsSendable, handshake_bytes, write_handshake-Emits, read_handshake-write_handshake,
}
use mini_mask.Tunnel.Proxy.{chunk, Copied, copy_count, copy_count-Copied}
use mini_mask.Tunnel.Protocol.Accepts.{IsByte, read_handshake-eq-ok}

-- A client id, and a token of one character that takes two bytes.
abbrev cid : Text
cid = b'c' ∷ b'1' ∷ []

abbrev tok : Text
tok = 0xc3 ∷ 0xa9 ∷ []

abbrev fresh : Writer
fresh = record { out = []; faults = [] }

cid-IsSendable : IsSendable cid
unfolding is_utf8
cid-IsSendable = record { fits = omega arith; valid = refl }

tok-IsSendable : IsSendable tok
unfolding is_utf8
tok-IsSendable = record { fits = omega arith; valid = refl }

write_handshake_example : Emits (write_handshake cid tok) (handshake_bytes cid tok)
write_handshake_example = write_handshake-Emits cid tok (omega arith) (omega arith)

read_handshake_example :
    read_handshake ((write_handshake cid tok fresh).1.out ++ 9 ∷ []) ≡ ok ((cid, tok), 9 ∷ [])
read_handshake_example =
    read_handshake-write_handshake cid tok (9 ∷ []) fresh cid-IsSendable tok-IsSendable refl refl

-- Any list of bytes that is accepted; here the bytes of a handshake.
abbrev wire : List ℕ
wire = 77 ∷ 77 ∷ 83 ∷ 75 ∷ 1 ∷ 0 ∷ 2 ∷ b'c' ∷ b'1' ∷ 0 ∷ 2 ∷ 0xc3 ∷ 0xa9 ∷ 9 ∷ []

accepts_example : (wire ≡ handshake_bytes cid tok ++ 9 ∷ []) × IsSendable cid × IsSendable tok
accepts_example = read_handshake-eq-ok wire cid tok (9 ∷ []) bytes accepted
  where
    bytes : All IsByte wire
    bytes = ground arith

    accepted : read_handshake wire ≡ ok ((cid, tok), 9 ∷ [])
    accepted =
        unfold read_handshake read_lp_str read_exact magic text_discrete ℕ_discrete is_utf8 in refl

-- A chunk of two bytes, and one whose write breaks off behind a byte.
abbrev shaky : Writer
shaky = record { out = []; faults = none ∷ none ∷ some 1 ∷ [] }

copy_count_example :
    Copied
      (chunk (1 ∷ 2 ∷ []) ∷ chunk (3 ∷ 4 ∷ []) ∷ [])
      shaky
      5
      (copy_count (chunk (1 ∷ 2 ∷ []) ∷ chunk (3 ∷ 4 ∷ []) ∷ []) shaky 5)
copy_count_example =
    copy_count-Copied (chunk (1 ∷ 2 ∷ []) ∷ chunk (3 ∷ 4 ∷ []) ∷ []) shaky 5 (omega arith)
