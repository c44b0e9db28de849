-- ===== src/Tunnel/Relay.antt =====
-- Both directions of a proxied connection: `proxy_connection` of src/tunnel/proxy.rs.
use mini_mask.Common.{ℕ, List, [], ◌∷◌, ◌++◌, Text, Result, ok, err, length}
use mini_mask.Stats.{fetch_add}
use mini_mask.Tunnel.Wire.{Error, Writer, ◌>>◌, write_all, flush}
use mini_mask.Tunnel.Protocol.{write_target}
use mini_mask.Tunnel.Proxy.{Reading, chunk}

-- A round of one of the two loops, by what its read gives: outward from the visitor to the client, or
-- inward.
pub data Turn : Type 0 where
  outward inward : Reading → Turn

-- The streams to the client and to the visitor, and the two counters.
pub record Relay : Type 0 where
  pub to_client : Writer
  pub to_visitor : Writer
  pub bytes_out : ℕ
  pub bytes_in : ℕ

-- When one loop ends the other is dropped in its round: what it has already written of a chunk.
pub data Dropped : Type 0 where
  nothing : Dropped
  sent_outward sent_inward : List ℕ → Dropped

abbrev pub wrote_outward :
    List ℕ → Result Error (Unit {0}) × Writer → Relay → (Relay → Relay) → Relay
wrote_outward bs (err e, w) r next = record r { to_client = w }
wrote_outward bs (ok _, w) r next =
    next (record r { to_client = w; bytes_out = fetch_add r.bytes_out (length bs) })

abbrev pub wrote_inward :
    List ℕ → Result Error (Unit {0}) × Writer → Relay → (Relay → Relay) → Relay
wrote_inward bs (err e, w) r next = record r { to_visitor = w }
wrote_inward bs (ok _, w) r next =
    next (record r { to_visitor = w; bytes_in = fetch_add r.bytes_in (length bs) })

-- The rounds of both loops in the order in which they end; the first loop that ends, ends both.
unfoldable pub copy_both : List Turn → Relay → Relay
copy_both [] r = r
copy_both (outward (chunk (b ∷ bs)) ∷ ts) r =
    wrote_outward (b ∷ bs) ((write_all (b ∷ bs) >> flush) r.to_client) r (λ r'. copy_both ts r')
copy_both (inward (chunk (b ∷ bs)) ∷ ts) r =
    wrote_inward (b ∷ bs) ((write_all (b ∷ bs) >> flush) r.to_visitor) r (λ r'. copy_both ts r')
copy_both (_ ∷ ts) r = r

abbrev pub drop_round : Dropped → Relay → Relay
drop_round nothing r = r
drop_round (sent_outward bs) r = record r {
  to_client = record r.to_client { out = r.to_client.out ++ bs };
}
drop_round (sent_inward bs) r = record r {
  to_visitor = record r.to_visitor { out = r.to_visitor.out ++ bs };
}

abbrev pub with_target : List Turn → Dropped → Result Error (Unit {0}) × Writer → Relay → Relay
with_target ts dropped (err e, w) r = record r { to_client = w }
with_target ts dropped (ok _, w) r = drop_round dropped (copy_both ts (record r { to_client = w }))

unfoldable pub proxy_connection : (target : Text) → List Turn → Dropped → Relay → Relay
proxy_connection target ts dropped r = with_target ts dropped (write_target target r.to_client) r

-- What the rounds read in one direction before a loop ends.
unfoldable pub outward_bytes : List Turn → List ℕ
outward_bytes [] = []
outward_bytes (outward (chunk (b ∷ bs)) ∷ ts) = (b ∷ bs) ++ outward_bytes ts
outward_bytes (inward (chunk (b ∷ bs)) ∷ ts) = outward_bytes ts
outward_bytes (_ ∷ ts) = []

unfoldable pub inward_bytes : List Turn → List ℕ
inward_bytes [] = []
inward_bytes (outward (chunk (b ∷ bs)) ∷ ts) = inward_bytes ts
inward_bytes (inward (chunk (b ∷ bs)) ∷ ts) = (b ∷ bs) ++ inward_bytes ts
inward_bytes (_ ∷ ts) = []
