-- ===== src/Client/Streams.antt =====
-- A stream that the server opens: `handle_client_stream` and `copy_bidirectional_idle` of
-- src/client.rs.
use mini_mask.Common.{
  ℕ, List, [], ◌∷◌, ◌++◌, Bool, true, false, Text, text, Result, ok, err, length,
}
use mini_mask.Stats.{fetch_add}
use mini_mask.Tunnel.Wire.{Error, Writer, write_all}
use mini_mask.Tunnel.Protocol.{read_target}
use mini_mask.Tunnel.Proxy.{chunk, read_failed, idle}
use mini_mask.Tunnel.Relay.{Turn, outward, inward}
use mini_mask.Client.Events.{EventSink, log_info, log_warn}

-- `a` is the stream of the tunnel, `b` the connection to the local service; the two counters are those
-- of the result.
pub record Copying : Type 0 where
  pub a : Writer
  pub b : Writer
  pub a_to_b : ℕ
  pub b_to_a : ℕ

pub data StreamError : Type 0 where
  not_read idle_timeout target_timeout dial_timeout : StreamError
  not_written bad_target : Error → StreamError
  not_dialled : Text → StreamError

abbrev pub wrote_b :
    List ℕ
    → Result Error (Unit {0}) × Writer
    → Copying
    → (Copying → Result StreamError (Unit {0}) × Copying)
    → Result StreamError (Unit {0}) × Copying
wrote_b bs (err e, w) c next = (err (not_written e), record c { b = w })
wrote_b bs (ok _, w) c next = next (record c { b = w; a_to_b = fetch_add c.a_to_b (length bs) })

abbrev pub wrote_a :
    List ℕ
    → Result Error (Unit {0}) × Writer
    → Copying
    → (Copying → Result StreamError (Unit {0}) × Copying)
    → Result StreamError (Unit {0}) × Copying
wrote_a bs (err e, w) c next = (err (not_written e), record c { a = w })
wrote_a bs (ok _, w) c next = next (record c { a = w; b_to_a = fetch_add c.b_to_a (length bs) })

-- The loop, by what the reads give: outward are those of `a`, inward those of `b`. An idle turn of
-- either direction is the timer, which a read on any side resets.
unfoldable pub copy_bidirectional_idle :
    List Turn → Copying → Result StreamError (Unit {0}) × Copying
copy_bidirectional_idle [] c = (ok tt, c)
copy_bidirectional_idle (outward (chunk []) ∷ ts) c = (ok tt, c)
copy_bidirectional_idle (outward (chunk (x ∷ bs)) ∷ ts) c =
    wrote_b (x ∷ bs) (write_all (x ∷ bs) c.b) c (λ c'. copy_bidirectional_idle ts c')
copy_bidirectional_idle (outward read_failed ∷ ts) c = (err not_read, c)
copy_bidirectional_idle (outward idle ∷ ts) c = (err idle_timeout, c)
copy_bidirectional_idle (inward (chunk []) ∷ ts) c = (ok tt, c)
copy_bidirectional_idle (inward (chunk (x ∷ bs)) ∷ ts) c =
    wrote_a (x ∷ bs) (write_all (x ∷ bs) c.a) c (λ c'. copy_bidirectional_idle ts c')
copy_bidirectional_idle (inward read_failed ∷ ts) c = (err not_read, c)
copy_bidirectional_idle (inward idle ∷ ts) c = (err idle_timeout, c)

-- How the dial of the local service ends.
pub data Dial : Type 0 where
  dialled too_late : Dial
  refused : Text → Dial

-- What the server sends on the stream before it closes it, whether the target is late, the dial, and
-- the turns of the copy.
pub record Opened : Type 0 where
  pub incoming : List ℕ
  pub late : Bool
  pub dial : Text → Dial
  pub turns : List Turn

-- The result of the copy is ignored.
abbrev pub connected_to :
    Dial → Opened → Copying → EventSink → Result StreamError (Unit {0}) × Copying × EventSink
connected_to dialled o c sink = (ok tt, (copy_bidirectional_idle o.turns c).1, sink)
connected_to too_late o c sink = (err dial_timeout, c, sink)
connected_to (refused e) o c sink = (err (not_dialled e), c, sink)

abbrev pub to_target :
    Result Error (Text × List ℕ)
    → Opened
    → Copying
    → EventSink
    → Result StreamError (Unit {0}) × Copying × EventSink
to_target (err e) o c sink = (err (bad_target e), c, sink)
to_target (ok (target, rest)) o c sink =
    connected_to (o.dial target) o c (log_info (text "隧道 -> " ++ target) sink)

unfoldable pub handle_client_stream :
    Opened → Copying → EventSink → Result StreamError (Unit {0}) × Copying × EventSink
handle_client_stream o c sink = elim o.late [
  | true ↦ (err target_timeout, c, sink)
  | false ↦ to_target (read_target o.incoming) o c sink
]

-- What `poll_next_inbound` gives; the end of the list is the end of the tunnel.
pub data Inbound : Type 0 where
  stream : Opened → Copying → Inbound
  failed : Text → Inbound

-- The end of the task of a stream; a warning if it has failed.
abbrev pub stream_ended :
    (show : StreamError → Text) → Result StreamError (Unit {0}) × Copying × EventSink → EventSink
stream_ended show (ok _, c, sink) = sink
stream_ended show (err e, c, sink) = log_warn (text "代理流结束：" ++ show e) sink

-- The loop of a session. The tasks of the streams are put in the order in which they begin.
unfoldable pub run_client_session :
    (show : StreamError → Text) → List Inbound → EventSink → EventSink
run_client_session show [] sink = log_info (text "服务端关闭了隧道") sink
run_client_session show (failed e ∷ is) sink = log_warn (text "yamux 错误：" ++ e) sink
run_client_session show (stream o c ∷ is) sink =
    run_client_session show is (stream_ended show (handle_client_stream o c sink))
