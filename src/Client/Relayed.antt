-- ===== src/Client/Relayed.antt =====
-- A visitor's connection from end to end: `proxy_connection` of src/tunnel/proxy.rs on the server, and
-- `handle_client_stream` of src/client.rs at the other end of the stream.
use mini_mask.Common.{
  ℕ, ◌≡◌, refl, ap, sym, ◌∙◌, List, [], ◌∷◌, ◌++◌, Bool, true, false, Text, text, ok, err, length,
}
use mathlib.Core.Path.{subst}
use mini_mask.Stats.{fetch_add}
use mathlib.Core.List.{append_assoc, append-nil}
use mini_mask.Tunnel.Wire.Emits.{sent, write_all-Emits, flush-Emits}
use mini_mask.Tunnel.Protocol.{write_target, read_target}
use mini_mask.Tunnel.Protocol.RoundTrip.{
  lp_str, IsSendable, write_target-Emits, read_target-write_target,
}
use mini_mask.Tunnel.Proxy.{chunk, read_failed, idle}
use mini_mask.Tunnel.Relay.{
  Turn, outward, inward, Relay, nothing, wrote_outward, wrote_inward, copy_both, with_target,
  proxy_connection, outward_bytes, inward_bytes,
}
use mini_mask.Client.Events.{EventSink, log_info}
use mini_mask.Client.Streams.{
  Copying, target_timeout, wrote_a, wrote_b, copy_bidirectional_idle, Opened, dialled, connected_to,
  to_target, handle_client_stream,
}

-- The streams of the server have delivered what was read, each in its direction.
record Relayed (ts : List Turn) (r r' : Relay) : Type 0 where
  out : r'.to_client.out ≡ r.to_client.out ++ outward_bytes ts
  back : r'.to_visitor.out ≡ r.to_visitor.out ++ inward_bytes ts

stays : (ts : List Turn) (r : Relay) → outward_bytes ts ≡ [] → inward_bytes ts ≡ [] → Relayed ts r r
stays ts r e f = record {
  out = sym (ap (◌++◌ r.to_client.out) e ∙ append-nil r.to_client.out);
  back = sym (ap (◌++◌ r.to_visitor.out) f ∙ append-nil r.to_visitor.out);
}

copy_both-Relayed :
    (ts : List Turn) (r : Relay)
    → r.to_client.faults ≡ []
    → r.to_visitor.faults ≡ []
    → Relayed ts r (copy_both ts r)
unfolding copy_both outward_bytes inward_bytes
copy_both-Relayed [] r e f = stays [] r refl refl
copy_both-Relayed (outward (chunk []) ∷ ts) r e f = stays (outward (chunk []) ∷ ts) r refl refl
copy_both-Relayed (outward read_failed ∷ ts) r e f = stays (outward read_failed ∷ ts) r refl refl
copy_both-Relayed (outward idle ∷ ts) r e f = stays (outward idle ∷ ts) r refl refl
copy_both-Relayed (inward (chunk []) ∷ ts) r e f = stays (inward (chunk []) ∷ ts) r refl refl
copy_both-Relayed (inward read_failed ∷ ts) r e f = stays (inward read_failed ∷ ts) r refl refl
copy_both-Relayed (inward idle ∷ ts) r e f = stays (inward idle ∷ ts) r refl refl
copy_both-Relayed (outward (chunk (b ∷ bs)) ∷ ts) r e f =
    let ts' = outward (chunk (b ∷ bs)) ∷ ts in
    let r' = record r {
      to_client = sent (b ∷ bs) r.to_client;
      bytes_out = fetch_add r.bytes_out (length (b ∷ bs));
    } in
    let later = copy_both-Relayed ts r' refl f in
    subst (λ x. Relayed ts' r (wrote_outward (b ∷ bs) x r (λ u. copy_both ts u)))
      (sym ((flush-Emits (write_all-Emits (b ∷ bs))).clean r.to_client e))
      (record {
        out = later.out ∙ append_assoc r.to_client.out (b ∷ bs) (outward_bytes ts);
        back = later.back;
      })
copy_both-Relayed (inward (chunk (b ∷ bs)) ∷ ts) r e f =
    let ts' = inward (chunk (b ∷ bs)) ∷ ts in
    let r' = record r {
      to_visitor = sent (b ∷ bs) r.to_visitor;
      bytes_in = fetch_add r.bytes_in (length (b ∷ bs));
    } in
    let later = copy_both-Relayed ts r' e refl in
    subst (λ x. Relayed ts' r (wrote_inward (b ∷ bs) x r (λ u. copy_both ts u)))
      (sym ((flush-Emits (write_all-Emits (b ∷ bs))).clean r.to_visitor f))
      (record {
        out = later.out;
        back = later.back ∙ append_assoc r.to_visitor.out (b ∷ bs) (inward_bytes ts);
      })

-- The same for the client's end, to the local service and back.
record Copied (ts : List Turn) (c c' : Copying) : Type 0 where
  out : c'.b.out ≡ c.b.out ++ outward_bytes ts
  back : c'.a.out ≡ c.a.out ++ inward_bytes ts

rests :
    (ts : List Turn) (c : Copying) → outward_bytes ts ≡ [] → inward_bytes ts ≡ [] → Copied ts c c
rests ts c e f = record {
  out = sym (ap (◌++◌ c.b.out) e ∙ append-nil c.b.out);
  back = sym (ap (◌++◌ c.a.out) f ∙ append-nil c.a.out);
}

copy_bidirectional_idle-Copied :
    (ts : List Turn) (c : Copying)
    → c.a.faults ≡ []
    → c.b.faults ≡ []
    → Copied ts c (copy_bidirectional_idle ts c).1
unfolding copy_bidirectional_idle outward_bytes inward_bytes
copy_bidirectional_idle-Copied [] c e f = rests [] c refl refl
copy_bidirectional_idle-Copied (outward (chunk []) ∷ ts) c e f =
    rests (outward (chunk []) ∷ ts) c refl refl
copy_bidirectional_idle-Copied (outward read_failed ∷ ts) c e f =
    rests (outward read_failed ∷ ts) c refl refl
copy_bidirectional_idle-Copied (outward idle ∷ ts) c e f = rests (outward idle ∷ ts) c refl refl
copy_bidirectional_idle-Copied (inward (chunk []) ∷ ts) c e f =
    rests (inward (chunk []) ∷ ts) c refl refl
copy_bidirectional_idle-Copied (inward read_failed ∷ ts) c e f =
    rests (inward read_failed ∷ ts) c refl refl
copy_bidirectional_idle-Copied (inward idle ∷ ts) c e f = rests (inward idle ∷ ts) c refl refl
copy_bidirectional_idle-Copied (outward (chunk (x ∷ bs)) ∷ ts) c e f =
    let ts' = outward (chunk (x ∷ bs)) ∷ ts in
    let c' = record c { b = sent (x ∷ bs) c.b; a_to_b = fetch_add c.a_to_b (length (x ∷ bs)) } in
    let later = copy_bidirectional_idle-Copied ts c' e refl in
    subst (λ p. Copied ts' c (wrote_b (x ∷ bs) p c (λ u. copy_bidirectional_idle ts u)).1)
      (sym ((write_all-Emits (x ∷ bs)).clean c.b f))
      (record {
        out = later.out ∙ append_assoc c.b.out (x ∷ bs) (outward_bytes ts);
        back = later.back;
      })
copy_bidirectional_idle-Copied (inward (chunk (x ∷ bs)) ∷ ts) c e f =
    let ts' = inward (chunk (x ∷ bs)) ∷ ts in
    let c' = record c { a = sent (x ∷ bs) c.a; b_to_a = fetch_add c.b_to_a (length (x ∷ bs)) } in
    let later = copy_bidirectional_idle-Copied ts c' refl f in
    subst (λ p. Copied ts' c (wrote_a (x ∷ bs) p c (λ u. copy_bidirectional_idle ts u)).1)
      (sym ((write_all-Emits (x ∷ bs)).clean c.a e))
      (record {
        out = later.out;
        back = later.back ∙ append_assoc c.a.out (x ∷ bs) (inward_bytes ts);
      })

-- What is assumed of both ends: new streams with no fault ahead, a target that the client can dial in
-- time, and that each end reads what the other has sent: the client what follows the target on the
-- stream, and the server what the client has written there, both in any pieces.
pub record AreJoined (target : Text) (ts : List Turn) (r : Relay) (o : Opened) (c : Copying)
    (sink : EventSink) : Type 0 where
  pub new_streams : (r.to_client.out ≡ []) × (c.a.out ≡ [])
  pub no_faults : (r.to_client.faults ≡ []) × (r.to_visitor.faults ≡ [])
  pub no_local_faults : (c.a.faults ≡ []) × (c.b.faults ≡ [])
  pub in_time : o.late ≡ false
  pub dials : o.dial target ≡ dialled
  pub sends : o.incoming ≡ (proxy_connection target ts nothing r).to_client.out
  pub reads :
      (t : Text) (rest : List ℕ)
      → read_target o.incoming ≡ ok (t, rest)
      → outward_bytes o.turns ≡ rest
  pub answers : inward_bytes ts ≡ (handle_client_stream o c sink).1.a.out

proxied-Relayed :
    (target : Text) (ts : List Turn) (r : Relay)
    → IsSendable target
    → r.to_client.faults ≡ []
    → r.to_visitor.faults ≡ []
    → Relayed ts
        (record r { to_client = (write_target target r.to_client).1 })
        (proxy_connection target ts nothing r)
unfolding proxy_connection
proxied-Relayed target ts r h e f =
    let w = write_target target r.to_client in
    let clean = (write_target-Emits target h.fits).clean r.to_client e in
    subst (λ x. Relayed ts (record r { to_client = x.1 }) (with_target ts nothing x r)) (sym clean)
      (copy_both-Relayed ts (record r { to_client = sent (lp_str target) r.to_client }) refl f)

-- The client's side, when the target is read in time and dialled.
handle_client_stream-dialled :
    (target rest : List ℕ) (o : Opened) (c : Copying) (sink : EventSink)
    → o.late ≡ false
    → o.dial target ≡ dialled
    → read_target o.incoming ≡ ok (target, rest)
    → handle_client_stream o c sink
      ≡ (ok tt, (copy_bidirectional_idle o.turns c).1, log_info (text "隧道 -> " ++ target) sink)
unfolding handle_client_stream
handle_client_stream-dialled target rest o c sink t d e =
    ap
      (λ (b : Bool). elim b [
        | true ↦ (err target_timeout, c, sink)
        | false ↦ to_target (read_target o.incoming) o c sink
      ])
      t
    ∙ ap (λ x. to_target x o c sink) e
    ∙ ap (λ x. connected_to x o c (log_info (text "隧道 -> " ++ target) sink)) d

-- A stream that the server opens for a visitor ends well at the client, which dials the target that
-- the server was given; the local service receives exactly what the visitor's reads gave the server,
-- in order and from the first byte on, and the visitor exactly what the local service's reads gave the
-- client, in whatever pieces the stream carries the bytes. The target has at most 65535 bytes of
-- UTF-8, and both ends are as `AreJoined` says.
pub handle_client_stream-proxy_connection :
    (target : Text) (ts : List Turn) (r : Relay) (o : Opened) (c : Copying) (sink : EventSink)
    → IsSendable target
    → AreJoined target ts r o c sink
    → let (result, c', sink') = handle_client_stream o c sink in
      (result ≡ ok tt)
      × (sink' ≡ log_info (text "隧道 -> " ++ target) sink)
      × (c'.b.out ≡ c.b.out ++ outward_bytes ts)
      × ((proxy_connection target ts nothing r).to_visitor.out
          ≡ r.to_visitor.out ++ inward_bytes o.turns)
handle_client_stream-proxy_connection target ts r o c sink h j =
    let server = proxied-Relayed target ts r h j.no_faults.0 j.no_faults.1 in
    let found : read_target o.incoming ≡ ok (target, outward_bytes ts) =
      ap read_target (j.sends ∙ server.out)
      ∙ read_target-write_target target (outward_bytes ts) r.to_client h j.no_faults.0
          j.new_streams.0 in
    let run =
      handle_client_stream-dialled target (outward_bytes ts) o c sink j.in_time j.dials found in
    let copied = copy_bidirectional_idle-Copied o.turns c j.no_local_faults.0 j.no_local_faults.1 in
    (
      ap (λ x. x.0) run,
      ap (λ x. x.2) run,
      ap (λ x. x.1.b.out) run
          ∙ copied.out
          ∙ ap (◌++◌ c.b.out) (j.reads target (outward_bytes ts) found),
      server.back
          ∙ ap (◌++◌ r.to_visitor.out) (
              j.answers
              ∙ ap (λ x. x.1.a.out) run
              ∙ copied.back
              ∙ ap (λ (t : List ℕ). t ++ inward_bytes o.turns) j.new_streams.1),
    )
