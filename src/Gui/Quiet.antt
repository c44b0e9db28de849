-- ===== src/Gui/Quiet.antt =====
-- What `run_once` of src/client.rs reports is no reconnection.
use mini_mask.Common.{
  ℕ, ◌≡◌, refl, ◌∙◌, List, [], ◌∷◌, ◌++◌, Bool, true, false, Text, text, Result, ok, err,
}
use mini_mask.Tunnel.Wire.{Error}
use mini_mask.Tunnel.Protocol.{write_handshake, read_status, read_target}
use mini_mask.Client.Events.{ClientArgs, EventSink, info, warn, log_info, log_warn}
use mini_mask.Client.Attempt.{
  Network, ClientError, Pace, in_time, late_handshake, late_answer, got_answer, asked, unanswered,
  paced, hint, judge, authenticate, warn_insecure, secured, open_transport, dialled, connect,
}
use mini_mask.Client.Streams.{
  StreamError, Inbound, stream, failed, Opened, Copying, connected_to, to_target, Dial,
  handle_client_stream, stream_ended, run_client_session,
}
use mini_mask.Client.Streams as Streams
use mini_mask.Client.Once.{session_after, run_once, round_of}
use mini_mask.Gui.Reconnects.{tally, tally-log, tally-connected, IsPlain}

hint-quiet : (tls : Bool) (sink : EventSink) → tally (hint tls sink) ≡ tally sink
hint-quiet true sink = refl
hint-quiet false sink =
    tally-log warn _ (log_warn (text "服务端在握手后立即关闭了连接") sink) ∙ tally-log warn _ sink

judge-quiet :
    (args : ClientArgs) (r : Result Error (Bool × Text)) (sink : EventSink)
    → tally (judge args (r, sink)).1 ≡ tally sink
judge-quiet args (err e) sink = hint-quiet args.tls sink
judge-quiet args (ok (false, msg)) sink = refl
judge-quiet args (ok (true, msg)) sink =
    tally-connected (log_info (text "认证成功，隧道已建立") sink) ∙ tally-log info _ sink

asked-quiet :
    (net : Network) (r : Result Error (Unit {0})) (sink : EventSink)
    → tally (asked net r sink).1 ≡ tally sink
asked-quiet net (err e) sink = refl
asked-quiet net (ok _) sink =
    got_answer-quiet (read_status net.incoming) (log_info (text "等待认证结果 ...") sink)
    ∙ tally-log info _ sink
  where
    got_answer-quiet :
        (r : Result Error ((Bool × Text) × List ℕ)) (sink : EventSink)
        → tally (got_answer r sink).1 ≡ tally sink
    got_answer-quiet (err e) sink = refl
    got_answer-quiet (ok (answer, _)) sink = refl

paced-quiet :
    (args : ClientArgs) (net : Network) (p : Pace) (sink : EventSink)
    → tally (paced args net p sink).1 ≡ tally sink
paced-quiet args net in_time sink =
    let x = asked net (write_handshake args.id args.token net.stream).0 sink in
    judge-quiet args x.0 x.1
    ∙ asked-quiet net (write_handshake args.id args.token net.stream).0 sink
paced-quiet args net late_handshake sink = refl
paced-quiet args net late_answer sink =
    ungot_answer-quiet (write_handshake args.id args.token net.stream).0
  where
    ungot_answer-quiet :
        (r : Result Error (Unit {0})) → tally (unanswered args r sink).1 ≡ tally sink
    ungot_answer-quiet (err e) = hint-quiet args.tls sink
    ungot_answer-quiet (ok _) = tally-log info _ sink

authenticate-quiet :
    (args : ClientArgs) (net : Network) (sink : EventSink)
    → tally (authenticate args net sink).1 ≡ tally sink
authenticate-quiet args net sink =
    let ready = log_info (text "传输通道就绪") sink in
    paced-quiet args net net.pace (log_info (text "发送握手 (id=" ++ args.id ++ text ")") ready)
    ∙ tally-log info _ ready
    ∙ tally-log info _ sink

secured-quiet :
    (args : ClientArgs) (net : Network) (r : Result Text (Unit {0})) (sink : EventSink)
    → tally (secured args net r sink).1 ≡ tally sink
secured-quiet args net (err e) sink = refl
secured-quiet args net (ok _) sink = authenticate-quiet args net sink

warn_insecure-quiet : (b : Bool) (sink : EventSink) → tally (warn_insecure b sink) ≡ tally sink
warn_insecure-quiet true sink = tally-log warn _ sink
warn_insecure-quiet false sink = refl

open_transport-quiet :
    (args : ClientArgs) (net : Network) (tls : Bool) (sink : EventSink)
    → tally (open_transport args net tls sink).1 ≡ tally sink
open_transport-quiet args net false sink = authenticate-quiet args net sink
open_transport-quiet args net true sink =
    let begun = log_info (text "开始 TLS 握手 (server_name=" ++ args.server_name ++ text ")") sink in
    secured-quiet args net net.tls (warn_insecure args.insecure_skip_verify begun)
    ∙ warn_insecure-quiet args.insecure_skip_verify begun
    ∙ tally-log info _ sink

dialled-quiet :
    (args : ClientArgs) (net : Network) (r : Result Text (Unit {0})) (sink : EventSink)
    → tally (dialled args net r sink).1 ≡ tally sink
dialled-quiet args net (err e) sink = refl
dialled-quiet args net (ok _) sink =
    open_transport-quiet args net args.tls (log_info (text "TCP 已连接到 " ++ args.server) sink)
    ∙ tally-log info _ sink

connect-quiet :
    (args : ClientArgs) (net : Network) (sink : EventSink)
    → tally (connect args net sink).1 ≡ tally sink
unfolding connect
connect-quiet args net sink =
    dialled-quiet args net net.tcp (log_info (text "正在连接 " ++ args.server ++ text " ...") sink)
    ∙ tally-log info _ sink

-- The streams of a session.
connected_to-quiet :
    (d : Dial) (o : Opened) (c : Copying) (sink : EventSink)
    → tally (connected_to d o c sink).2 ≡ tally sink
connected_to-quiet Streams.dialled o c sink = refl
connected_to-quiet Streams.too_late o c sink = refl
connected_to-quiet (Streams.refused e) o c sink = refl

to_target-quiet :
    (r : Result Error (Text × List ℕ)) (o : Opened) (c : Copying) (sink : EventSink)
    → tally (to_target r o c sink).2 ≡ tally sink
to_target-quiet (err e) o c sink = refl
to_target-quiet (ok (target, rest)) o c sink =
    connected_to-quiet (o.dial target) o c (log_info (text "隧道 -> " ++ target) sink)
    ∙ tally-log info _ sink

handle_client_stream-quiet :
    (o : Opened) (c : Copying) (sink : EventSink)
    → tally (handle_client_stream o c sink).2 ≡ tally sink
unfolding handle_client_stream
handle_client_stream-quiet o c sink = timed o.late
  where
    timed :
        (b : Bool)
        → tally
            (elim b as (λ _. Result StreamError (Unit {0}) × Copying × EventSink) [
              | true ↦ (err Streams.target_timeout, c, sink)
              | false ↦ to_target (read_target o.incoming) o c sink
            ]).2
          ≡ tally sink
    timed true = refl
    timed false = to_target-quiet (read_target o.incoming) o c sink

stream_ended-quiet :
    (show : StreamError → Text) (x : Result StreamError (Unit {0}) × Copying × EventSink)
    → tally (stream_ended show x) ≡ tally x.2
stream_ended-quiet show (ok _, c, sink) = refl
stream_ended-quiet show (err e, c, sink) = tally-log warn _ sink

run_client_session-quiet :
    (show : StreamError → Text) (is : List Inbound) (sink : EventSink)
    → tally (run_client_session show is sink) ≡ tally sink
unfolding run_client_session
run_client_session-quiet show [] sink = tally-log info _ sink
run_client_session-quiet show (failed e ∷ is) sink = tally-log warn _ sink
run_client_session-quiet show (stream o c ∷ is) sink =
    run_client_session-quiet show is (stream_ended show (handle_client_stream o c sink))
    ∙ stream_ended-quiet show (handle_client_stream o c sink)
    ∙ handle_client_stream-quiet o c sink

run_once-quiet :
    (show : StreamError → Text) (args : ClientArgs) (net : Network) (is : List Inbound)
    (sink : EventSink)
    → tally (run_once show args net is sink).1 ≡ tally sink
unfolding run_once
run_once-quiet show args net is sink = after (connect args net sink) ∙ connect-quiet args net sink
  where
    after :
        (x : Result ClientError (Unit {0}) × EventSink)
        → tally (session_after show is x).1 ≡ tally x.1
    after (err e, t) = refl
    after (ok _, t) = run_client_session-quiet show is t

-- A round that runs `run_once` to its end is as the counter of the window wants it.
pub round_of-IsPlain :
    (show : StreamError → Text) (args : ClientArgs) (net : Network) (is : List Inbound) (factor : ℕ)
    (sink : EventSink)
    → IsPlain (round_of show args net is factor sink)
round_of-IsPlain show args net is factor sink = record {
  quiet = run_once-quiet show args net is;
  awake = λ h. cc;
}
