-- ===== src/Client/Verdict.antt =====
-- The two sides of a handshake: `run_once` of src/client.rs against what the server of
-- src/tunnel/listener.rs reads and answers.
use mini_mask.Common.{
  ◌≡◌, ap, [], ◌++◌, Bool, true, false, Text, Result, ok, err, if◌then◌else◌, arith, inl, inr, ◌⊎◌,
}
use mini_mask.Tunnel.Wire.{Writer}
use mini_mask.Tunnel.Protocol.{write_handshake, read_handshake, write_status, read_status}
use mini_mask.Tunnel.Protocol.RoundTrip.{
  IsSendable, write_handshake-Emits, read_handshake-write_handshake, read_status-write_status,
}
use mini_mask.Client.Events.{ClientArgs, EventSink}
use mini_mask.Client.Attempt.{
  in_time, Network, ClientError, rejected, authenticate, secured, open_transport, dialled, connect,
}

-- What the client makes of the server's verdict.
abbrev pub verdict : Bool → Text → Result ClientError (Unit {0})
verdict accepted msg = if accepted then ok tt else err (rejected msg)

-- The transport is there, in time, and has no fault ahead.
pub record IsUp (args : ClientArgs) (net : Network) : Type 0 where
  pub tcp : net.tcp ≡ ok tt
  pub tls : (args.tls ≡ false) ⊎ (net.tls ≡ ok tt)
  pub pace : net.pace ≡ in_time
  pub fresh : net.stream.out ≡ []
  pub clean : net.stream.faults ≡ []

authenticate-verdict :
    (args : ClientArgs) (net : Network) (accepted : Bool) (msg rest : Text) (sink : EventSink)
    → net.pace ≡ in_time
    → (write_handshake args.id args.token net.stream).0 ≡ ok tt
    → read_status net.incoming ≡ ok ((accepted, msg), rest)
    → (authenticate args net sink).0 ≡ verdict accepted msg
authenticate-verdict args net accepted msg rest sink t w r = ground arith

module _ (args : ClientArgs) (net : Network) (accepted : Bool) (msg : Text)
    (h : (k : EventSink) → (authenticate args net k).0 ≡ verdict accepted msg) where
  secured-verdict :
      (r : Result Text (Unit {0})) (k : EventSink)
      → r ≡ ok tt
      → (secured args net r k).0 ≡ verdict accepted msg
  secured-verdict (ok _) k e = h k
  secured-verdict (err x) k e = absurd (cc)

  open_transport-verdict :
      (tls : Bool) (k : EventSink)
      → (tls ≡ false) ⊎ (net.tls ≡ ok tt)
      → (open_transport args net tls k).0 ≡ verdict accepted msg
  open_transport-verdict false k e = h k
  open_transport-verdict true k (inl e) = absurd (cc)
  open_transport-verdict true k (inr e) = secured-verdict net.tls _ e

  dialled-verdict :
      (r : Result Text (Unit {0})) (k : EventSink)
      → r ≡ ok tt
      → (args.tls ≡ false) ⊎ (net.tls ≡ ok tt)
      → (dialled args net r k).0 ≡ verdict accepted msg
  dialled-verdict (ok _) k e t = open_transport-verdict args.tls _ t
  dialled-verdict (err x) k e t = absurd (cc)

-- If the transport holds, the server reads the id and the token that the client was started with;
-- and when the server answers with a status, the client's attempt succeeds if it is an acceptance
-- and otherwise fails with the server's message. The id, the token and the message have at most
-- 65535 bytes of UTF-8.
pub connect-verdict :
    (args : ClientArgs) (net : Network) (accepted : Bool) (msg rest : Text) (w : Writer)
    (sink : EventSink)
    → IsUp args net
    → IsSendable args.id
    → IsSendable args.token
    → IsSendable msg
    → w.out ≡ []
    → w.faults ≡ []
    → net.incoming ≡ (write_status accepted msg w).1.out ++ rest
    → (read_handshake ((write_handshake args.id args.token net.stream).1.out ++ [])
        ≡ ok ((args.id, args.token), []))
      × ((connect args net sink).0 ≡ verdict accepted msg)
unfolding connect
connect-verdict args net accepted msg rest w sink up id token m fresh clean answer = (
  read_handshake-write_handshake args.id args.token [] net.stream id token up.clean up.fresh,
  dialled-verdict args net accepted msg
      (λ k. authenticate-verdict args net accepted msg rest k up.pace written answered) net.tcp _
      up.tcp up.tls,
)
  where
    written : (write_handshake args.id args.token net.stream).0 ≡ ok tt
    written =
        ap (λ r. r.0)
          ((write_handshake-Emits args.id args.token id.fits token.fits).clean net.stream up.clean)

    answered : read_status net.incoming ≡ ok ((accepted, msg), rest)
    answered = rw answer (read_status-write_status accepted msg rest w m clean fresh)
