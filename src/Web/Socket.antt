-- ===== src/Web/Socket.antt =====
-- The socket of a dashboard: `handle_ws` of src/web/ws.rs.
pub mod Order
use mini_mask.Common.{List, [], ◌∷◌, ◌++◌, Bool, true, false, Text, if◌then◌else◌}
use mini_mask.Broadcast.{Subscriber}
use mini_mask.Broadcast.Delivery.{receives}
use mini_mask.State.{AppState}
use mini_mask.Web.Values.{StatsValue, build_stats_value}

-- `rendered` is the `to_string` of serde_json.
abbrev pub build_stats_message : (rendered : StatsValue → Text) → AppState → Text
build_stats_message rendered s = rendered (build_stats_value s)

pub data Message : Type 0 where
  closing ping pong content : Message

-- What `socket.recv()` gives: a message, an error, or the end of the stream.
pub data Received : Type 0 where
  frame : Message → Received
  recv_failed ended : Received

-- What the task meets at its `select!`: one of the two branches, the second with whether the send
-- succeeds, or a message that another task broadcasts while it waits. With nothing in the queue
-- `rx.recv()` is ready only if the senders are gone.
pub data Happening : Type 0 where
  heard : Received → Happening
  delivers : (sent : Bool) → Happening
  broadcasts : Text → Happening
  senders_gone : Happening

-- What the socket has been sent, and the receiver `rx`.
pub record Dashboard : Type 0 where
  pub sent : List Text
  pub rx : Subscriber

-- The task returns, and drops `rx`.
abbrev pub finish : Dashboard → Dashboard
finish d = record d { rx = record { closed = true; queue = d.rx.queue } }

abbrev pub send : (sent : Bool) → Text → Dashboard → Dashboard
send true msg d = record d { sent = d.sent ++ msg ∷ [] }
send false msg d = finish d

abbrev pub hear : Received → Dashboard → Dashboard
hear (frame closing) d = finish d
hear (frame ping) d = d
hear (frame pong) d = d
hear (frame content) d = d
hear recv_failed d = finish d
hear ended d = finish d

abbrev pub deliver : (sent : Bool) → List Text → Dashboard → Dashboard
deliver b [] d = d
deliver b (msg ∷ msgs) d =
    send b msg (record d { rx = record { closed = d.rx.closed; queue = msgs } })

abbrev pub disconnect : List Text → Dashboard → Dashboard
disconnect [] d = finish d
disconnect (_ ∷ _) d = d

-- One turn of the loop; a broadcast reaches a receiver that is there.
abbrev pub turn : Happening → Dashboard → Dashboard
turn (heard r) d = hear r d
turn (delivers b) d = deliver b d.rx.queue d
turn (broadcasts msg) d = record d { rx = receives msg d.rx }
turn senders_gone d = disconnect d.rx.queue d

abbrev pub turns : List Happening → Dashboard → Dashboard
turns [] d = d
turns (h ∷ hs) d = let rest = turns hs (turn h d) in if d.rx.closed then d else rest

-- `handle_ws` from its subscription on: `before` is what is broadcast until the loop begins, and
-- `greeted` whether the send of the first snapshot succeeds.
unfoldable pub handle_ws :
    (rendered : StatsValue → Text)
    → (before : List Text) → (greeted : Bool) → List Happening
    → AppState
    → Dashboard
handle_ws rendered before greeted hs s = turns hs (
    send greeted (build_stats_message rendered s)
      (record { sent = []; rx = record { closed = false; queue = before } }))
