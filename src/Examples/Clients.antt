-- ===== src/Examples/Clients.antt =====
-- The theorems about src/client.rs at work.
use mini_mask.Common.{
  text, List, ℕ, ◌≤◌, ◌≡◌, refl, [], ◌∷◌, ◌++◌, some, true, false, Text, ok, err, All, arith, inl,
  is_utf8,
}
use mini_mask.Tunnel.Wire.{Writer, write_all, read_exact}
use mini_mask.Tunnel.Protocol.{write_handshake, read_handshake, write_status}
use mini_mask.Tunnel.Protocol.RoundTrip.{IsSendable}
use mini_mask.Client.Events.{ClientArgs, EventSink, log_info}
use mini_mask.Tunnel.Protocol.{write_target, write_lp_str, read_target, read_lp_str}
use mini_mask.Tunnel.Proxy.{chunk}
use mini_mask.Tunnel.Relay.{
  Turn, outward, inward, Relay, nothing, copy_both, proxy_connection, outward_bytes, inward_bytes,
}
use mini_mask.Client.Streams.{
  Opened, dialled, Copying, copy_bidirectional_idle, handle_client_stream,
}
use mini_mask.Client.Relayed.{AreJoined, handle_client_stream-proxy_connection}
use mini_mask.Client.Attempt.{in_time, Network, connect}
use mini_mask.Client.Supervised.{Round, never, during, run_supervised}
use mini_mask.Client.Backoff.{IsSteady, streak, backoff_after, run_supervised-backoff}
use mini_mask.Client.Verdict.{IsUp, verdict, connect-verdict}

abbrev args : ClientArgs
args = record {
  server = b's' ∷ [];
  id = b'a' ∷ [];
  token = b't' ∷ [];
  tls = false;
  server_name = b'l' ∷ [];
  ca_path = b'c' ∷ [];
  insecure_skip_verify = false;
}

abbrev quiet : EventSink
quiet = record { tx = some [] }

abbrev fails : Round Text
fails = record {
  cancel = never;
  outcome = err (b'x' ∷ []);
  events = λ s. s;
  factor = 1_000_000_000;
}

abbrev cancels : Round Text
cancels = record fails { cancel = during }

fails-IsSteady : IsSteady fails
fails-IsSteady = record { uncancelled = refl; factor_bound = omega arith }

backoff_example :
    let l = run_supervised (λ (e : Text). e) args (fails ∷ fails ∷ []) quiet in
    (l.returned ≡ false)
    × (l.backoff ≡ backoff_after (streak 0 (fails ∷ fails ∷ [])))
    × All (λ ms. ms ≤ 33_000) l.slept
backoff_example =
    run_supervised-backoff (λ (e : Text). e) args (fails ∷ fails ∷ []) quiet
      (fails-IsSteady, (fails-IsSteady, tt))

abbrev fresh : Writer
fresh = record { out = []; faults = [] }

-- The server refuses with the message `m`.
abbrev net : Network
net = record {
  tcp = ok tt;
  tls = ok tt;
  stream = fresh;
  incoming = (write_status false (b'm' ∷ []) fresh).1.out ++ [];
  pace = in_time;
}

net-IsUp : IsUp args net
net-IsUp = record { tcp = refl; tls = inl refl; pace = refl; fresh = refl; clean = refl }

letter-IsSendable : (b : ℕ) → is_utf8 (b ∷ []) ≡ true → IsSendable (b ∷ [])
letter-IsSendable b h = record { fits = omega arith; valid = h }

verdict_example :
    (read_handshake ((write_handshake args.id args.token net.stream).1.out ++ [])
      ≡ ok ((args.id, args.token), []))
    × ((connect args net quiet).0 ≡ verdict false (b'm' ∷ []))
verdict_example =
    connect-verdict args net false (b'm' ∷ []) [] fresh quiet net-IsUp
      (letter-IsSendable b'a' (unfold is_utf8 in refl))
      (letter-IsSendable b't' (unfold is_utf8 in refl))
      (letter-IsSendable b'm' (unfold is_utf8 in refl)) refl refl refl

-- A visitor sends two bytes, which the stream carries one by one, and gets one back.
abbrev told : Relay
told = record { to_client = fresh; to_visitor = fresh; bytes_out = 0; bytes_in = 0 }

abbrev visit_turns : List Turn
visit_turns = outward (chunk (1 ∷ 2 ∷ [])) ∷ inward (chunk (7 ∷ [])) ∷ outward (chunk []) ∷ []

abbrev opened : Opened
opened = record {
  incoming = 0 ∷ 1 ∷ b't' ∷ 1 ∷ 2 ∷ [];
  late = false;
  dial = λ target. dialled;
  turns = outward (chunk (1 ∷ [])) ∷ outward (chunk (2 ∷ [])) ∷ inward (chunk (7 ∷ [])) ∷ [];
}

abbrev fresh_copy : Copying
fresh_copy = record { a = fresh; b = fresh; a_to_b = 0; b_to_a = 0 }

joined : AreJoined (b't' ∷ []) visit_turns told opened fresh_copy quiet
unfolding proxy_connection write_target write_lp_str write_all copy_both handle_client_stream
    read_target read_lp_str read_exact is_utf8 copy_bidirectional_idle outward_bytes inward_bytes
joined = record {
  new_streams = (refl, refl);
  no_faults = (refl, refl);
  no_local_faults = (refl, refl);
  in_time = refl;
  dials = refl;
  sends = refl;
  reads = λ t rest h. cc;
  answers = refl;
}

relayed_example :
    let (result, c', sink') = handle_client_stream opened fresh_copy quiet in
    (result ≡ ok tt)
    × (sink' ≡ log_info (text "隧道 -> " ++ b't' ∷ []) quiet)
    × (c'.b.out ≡ outward_bytes visit_turns)
    × ((proxy_connection (b't' ∷ []) visit_turns nothing told).to_visitor.out
        ≡ inward_bytes opened.turns)
relayed_example =
    handle_client_stream-proxy_connection (b't' ∷ []) visit_turns told opened fresh_copy quiet
      (letter-IsSendable b't' (unfold is_utf8 in refl)) joined
