-- ===== src/Tunnel/Protocol/RoundTrip.antt =====
-- What one side of src/tunnel/protocol.rs writes, and that the other reads it back.
use mathlib.Core.List.{append_assoc}
use mini_mask.Common.{
  ℕ, ◌≤◌, ◌≡◌, ap, ◌∙◌, List, [], ◌∷◌, ◌++◌, Bool, true, false, Text, text_eq_refl, is_utf8, ok,
  length, arith, if◌then◌else◌, ltb,
}
use mini_mask.Tunnel.Wire.{Writer, read_exact, read_exact-append}
use mini_mask.Tunnel.Wire.Emits.{Emits, write_all-Emits, >>-Emits, flush-Emits}
use mini_mask.Tunnel.Protocol.Send.{
  magic, proto_version, status_ok, status_fail, write_lp_str, write_handshake, write_status,
  write_target, u16_be_bytes,
}
use mini_mask.Tunnel.Protocol.Receive.{
  read_lp_str, u16_from_be_bytes, read_handshake, read_status, read_target,
}

-- A string that fits the length prefix.
pub record IsSendable (s : Text) : Type 0 where
  pub fits : length s ≤ 65535
  pub valid : is_utf8 s ≡ true

abbrev pub lp_str : Text → List ℕ
lp_str s = u16_be_bytes (length s) ++ s

-- A handshake, a status and a target on the wire.
abbrev pub handshake_bytes : Text → Text → List ℕ
handshake_bytes client_id token =
    magic ++ ((proto_version ∷ []) ++ (lp_str client_id ++ lp_str token))

abbrev pub status_bytes : Bool → Text → List ℕ
status_bytes accepted msg = (if accepted then status_ok else status_fail) ∷ lp_str msg

write_lp_str-Emits : (s : Text) → length s ≤ 65535 → Emits (write_lp_str s) (lp_str s)
unfolding write_lp_str
write_lp_str-Emits s h =
    rw short (>>-Emits (write_all-Emits s) (write_all-Emits (u16_be_bytes (length s))))
  where
    short : ltb 65535 (length s) ≡ false
    short = ground arith

-- On any stream a handshake is written in full, or the call fails with a front part of it written; on
-- a stream with no fault ahead it is written in full. Neither string may be longer than 65535 bytes.
pub write_handshake-Emits :
    (client_id token : Text)
    → length client_id ≤ 65535
    → length token ≤ 65535
    → Emits (write_handshake client_id token) (handshake_bytes client_id token)
unfolding write_handshake
write_handshake-Emits client_id token h k =
    >>-Emits
      (>>-Emits
        (>>-Emits (flush-Emits (write_lp_str-Emits token k)) (write_lp_str-Emits client_id h))
        (write_all-Emits (proto_version ∷ [])))
      (write_all-Emits magic)

pub write_status-Emits :
    (accepted : Bool) (msg : Text)
    → length msg ≤ 65535
    → Emits (write_status accepted msg) (status_bytes accepted msg)
unfolding write_status
write_status-Emits accepted msg h =
    >>-Emits (flush-Emits (write_lp_str-Emits msg h))
      (write_all-Emits ((if accepted then status_ok else status_fail) ∷ []))

pub write_target-Emits :
    (target : Text) → length target ≤ 65535 → Emits (write_target target) (lp_str target)
unfolding write_target
write_target-Emits target h = flush-Emits (write_lp_str-Emits target h)

u16_round_trip : (n : ℕ) → n ≤ 65535 → u16_from_be_bytes (u16_be_bytes n) ≡ n
u16_round_trip n h = omega arith

pub read_lp_str-lp_str :
    (s rest : Text) → IsSendable s → read_lp_str (lp_str s ++ rest) ≡ ok (s, rest)
unfolding read_lp_str
read_lp_str-lp_str s rest h =
    rw (read_exact-append (u16_be_bytes (length s)) (s ++ rest))
      (rw (u16_round_trip (length s) h.fits) (rw (read_exact-append s rest, h.valid)))

read_magic : (t : List ℕ) → read_exact 4 (magic ++ t) ≡ ok (magic, t)
unfolding magic
read_magic t = read_exact-append magic t

regroup :
    (client_id token rest : Text)
    → handshake_bytes client_id token ++ rest
      ≡ magic ++ ((proto_version ∷ []) ++ (lp_str client_id ++ (lp_str token ++ rest)))
regroup client_id token rest =
    append_assoc magic ((proto_version ∷ []) ++ (lp_str client_id ++ lp_str token)) rest
    ∙ ap (λ (t : List ℕ). magic ++ ((proto_version ∷ []) ++ t))
        (append_assoc (lp_str client_id) (lp_str token) rest)

read_handshake-bytes :
    (client_id token rest : Text)
    → IsSendable client_id
    → IsSendable token
    → read_handshake (handshake_bytes client_id token ++ rest) ≡ ok ((client_id, token), rest)
unfolding read_handshake
read_handshake-bytes client_id token rest h k =
    ap read_handshake (regroup client_id token rest)
    ∙ rw (read_magic ((proto_version ∷ []) ++ (lp_str client_id ++ (lp_str token ++ rest)))) (
        rw (text_eq_refl magic) (
          rw (read_exact-append (proto_version ∷ []) (lp_str client_id ++ (lp_str token ++ rest))) (
            rw (read_lp_str-lp_str client_id (lp_str token ++ rest) h)
              (rw (read_lp_str-lp_str token rest k)))))

-- The server reads back the client id and the token, of at most 65535 bytes of UTF-8 each, that the
-- client wrote on a fresh stream with no fault ahead, and whatever follows the handshake stays
-- unread.
pub read_handshake-write_handshake :
    (client_id token rest : Text) (w : Writer)
    → IsSendable client_id
    → IsSendable token
    → w.faults ≡ []
    → w.out ≡ []
    → read_handshake ((write_handshake client_id token w).1.out ++ rest)
      ≡ ok ((client_id, token), rest)
read_handshake-write_handshake client_id token rest w h k e f =
    rw ((write_handshake-Emits client_id token h.fits k.fits).clean w e)
      (rw f (read_handshake-bytes client_id token rest h k))

read_status-bytes :
    (accepted : Bool) (msg rest : Text)
    → IsSendable msg
    → read_status (status_bytes accepted msg ++ rest) ≡ ok ((accepted, msg), rest)
unfolding read_status
read_status-bytes true msg rest h =
    rw (read_exact-append (status_ok ∷ []) (lp_str msg ++ rest))
      (rw (read_lp_str-lp_str msg rest h))
read_status-bytes false msg rest h =
    rw (read_exact-append (status_fail ∷ []) (lp_str msg ++ rest))
      (rw (read_lp_str-lp_str msg rest h))

-- The client reads back the verdict and the message, of at most 65535 bytes of UTF-8, of a status
-- that was written on a fresh stream with no fault ahead, and whatever follows stays unread.
pub read_status-write_status :
    (accepted : Bool) (msg rest : Text) (w : Writer)
    → IsSendable msg
    → w.faults ≡ []
    → w.out ≡ []
    → read_status ((write_status accepted msg w).1.out ++ rest) ≡ ok ((accepted, msg), rest)
read_status-write_status accepted msg rest w h e f =
    rw ((write_status-Emits accepted msg h.fits).clean w e)
      (rw f (read_status-bytes accepted msg rest h))

-- The client reads back the target, of at most 65535 bytes of UTF-8, that the server wrote on a
-- fresh stream with no fault ahead, and whatever follows stays unread.
pub read_target-write_target :
    (target rest : Text) (w : Writer)
    → IsSendable target
    → w.faults ≡ []
    → w.out ≡ []
    → read_target ((write_target target w).1.out ++ rest) ≡ ok (target, rest)
unfolding read_target
read_target-write_target target rest w h e f =
    rw ((write_target-Emits target h.fits).clean w e) (rw f (read_lp_str-lp_str target rest h))
