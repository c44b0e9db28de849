-- ===== src/Client/Attempt.antt =====
-- One connection of the client: `run_once` of src/client.rs up to the session.
use mini_mask.Common.{ℕ, List, ◌++◌, Bool, true, false, Text, text, Result, ok, err}
use mini_mask.Tunnel.Wire.{Error, Writer}
use mini_mask.Tunnel.Protocol.{write_handshake, read_status}
use mini_mask.Client.Events.{ClientArgs, EventSink, log_info, log_warn, set_state, connected}

-- Whether the handshake and the answer come within 15 s, or which of them is late.
pub data Pace : Type 0 where
  in_time late_handshake late_answer : Pace

-- What the network does to an attempt: the TCP connection and the TLS handshake, with what goes wrong,
-- the stream that they give, what the server sends before it closes, and its pace.
pub record Network : Type 0 where
  pub tcp : Result Text (Unit {0})
  pub tls : Result Text (Unit {0})
  pub stream : Writer
  pub incoming : List ℕ
  pub pace : Pace

pub data ClientError : Type 0 where
  not_connected no_tls : Text → ClientError
  protocol : Error → ClientError
  handshake_timeout : ClientError
  rejected : (message : Text) → ClientError

abbrev pub got_answer :
    Result Error ((Bool × Text) × List ℕ) → EventSink → Result Error (Bool × Text) × EventSink
got_answer (err e) sink = (err e, sink)
got_answer (ok (answer, _)) sink = (ok answer, sink)

-- Behind the handshake, or the failure to write it.
abbrev pub asked :
    Network → Result Error (Unit {0}) → EventSink → Result Error (Bool × Text) × EventSink
asked net (err e) sink = (err e, sink)
asked net (ok _) sink = got_answer (read_status net.incoming) (log_info (text "等待认证结果 ...") sink)

-- The handshake and the server's answer; what comes behind `?` is not done.
abbrev pub exchange : ClientArgs → Network → EventSink → Result Error (Bool × Text) × EventSink
exchange args net sink = asked net (write_handshake args.id args.token net.stream).0 sink

-- The hint for a client without TLS.
abbrev pub hint : Bool → EventSink → EventSink
hint true sink = sink
hint false sink =
    log_warn (text "提示：服务端可能要求 TLS，请尝试勾选「启用 TLS」") (log_warn (text "服务端在握手后立即关闭了连接") sink)

abbrev pub judge :
    ClientArgs → Result Error (Bool × Text) × EventSink → Result ClientError (Unit {0}) × EventSink
judge args (err e, sink) = (err (protocol e), hint args.tls sink)
judge args (ok (false, msg), sink) = (err (rejected msg), sink)
judge args (ok (true, msg), sink) = (ok tt, set_state connected (log_info (text "认证成功，隧道已建立") sink))

-- The answer does not come, unless the handshake could not be written.
abbrev pub unanswered :
    ClientArgs → Result Error (Unit {0}) → EventSink → Result ClientError (Unit {0}) × EventSink
unanswered args (err e) sink = judge args (err e, sink)
unanswered args (ok _) sink = (err handshake_timeout, log_info (text "等待认证结果 ...") sink)

abbrev pub paced :
    ClientArgs → Network → Pace → EventSink → Result ClientError (Unit {0}) × EventSink
paced args net in_time sink = judge args (exchange args net sink)
paced args net late_handshake sink = (err handshake_timeout, sink)
paced args net late_answer sink =
    unanswered args (write_handshake args.id args.token net.stream).0 sink

-- Behind the transport.
abbrev pub authenticate :
    ClientArgs → Network → EventSink → Result ClientError (Unit {0}) × EventSink
authenticate args net sink =
    paced args net net.pace
      (log_info (text "发送握手 (id=" ++ args.id ++ text ")") (log_info (text "传输通道就绪") sink))

-- The warning of an attempt that trusts every certificate.
abbrev pub warn_insecure : Bool → EventSink → EventSink
warn_insecure true sink = log_warn (text "已禁用 TLS 证书校验（--insecure-skip-verify），仅用于本地调试") sink
warn_insecure false sink = sink

abbrev pub secured :
    ClientArgs
    → Network
    → Result Text (Unit {0})
    → EventSink
    → Result ClientError (Unit {0}) × EventSink
secured args net (err e) sink = (err (no_tls e), sink)
secured args net (ok _) sink = authenticate args net sink

abbrev pub start_tls : ClientArgs → Network → EventSink → Result ClientError (Unit {0}) × EventSink
start_tls args net sink = secured args net net.tls (
    warn_insecure args.insecure_skip_verify
      (log_info (text "开始 TLS 握手 (server_name=" ++ args.server_name ++ text ")") sink))

-- TLS if it is asked for.
abbrev pub open_transport :
    ClientArgs → Network → Bool → EventSink → Result ClientError (Unit {0}) × EventSink
open_transport args net true sink = start_tls args net sink
open_transport args net false sink = authenticate args net sink

abbrev pub dialled :
    ClientArgs
    → Network
    → Result Text (Unit {0})
    → EventSink
    → Result ClientError (Unit {0}) × EventSink
dialled args net (err e) sink = (err (not_connected e), sink)
dialled args net (ok _) sink =
    open_transport args net args.tls (log_info (text "TCP 已连接到 " ++ args.server) sink)

-- A success is a session that may begin.
unfoldable pub connect :
    ClientArgs → Network → EventSink → Result ClientError (Unit {0}) × EventSink
connect args net sink =
    dialled args net net.tcp (log_info (text "正在连接 " ++ args.server ++ text " ...") sink)
