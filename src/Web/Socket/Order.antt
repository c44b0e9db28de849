-- ===== src/Web/Socket/Order.antt =====
-- What the socket of a dashboard is sent (src/web/ws.rs).
use mini_mask.Common.{◌≡◌, refl, sym, ap, ◌∙◌, List, [], ◌∷◌, ◌++◌, Bool, true, false, Text}
use mathlib.Core.List.{append_assoc, append-nil}
use mini_mask.State.{AppState}
use mini_mask.Web.Values.{StatsValue}
use mini_mask.Web.Socket.{
  build_stats_message, closing, ping, pong, content, Received, frame, recv_failed, ended, Happening,
  heard, delivers, broadcasts, senders_gone, Dashboard, send, hear, deliver, disconnect, turn,
  turns, handle_ws,
}

-- The messages that are broadcast.
abbrev pub messages : List Happening → List Text
messages [] = []
messages (heard _ ∷ hs) = messages hs
messages (delivers _ ∷ hs) = messages hs
messages (broadcasts msg ∷ hs) = msg ∷ messages hs
messages (senders_gone ∷ hs) = messages hs

-- A delivery for each message that waits.
abbrev pub deliveries : List Text → List Happening
deliveries [] = []
deliveries (_ ∷ msgs) = delivers true ∷ deliveries msgs

-- Of the messages `ms` the socket was sent a front part; the remaining ones wait if it is open.
pub data IsInOrder (ms : List Text) (d : Dashboard) : Type 0 where
  waiting : d.rx.closed ≡ false → d.sent ++ d.rx.queue ≡ ms → IsInOrder ms d
  over : (rest : List Text) → d.rx.closed ≡ true → d.sent ++ rest ≡ ms → IsInOrder ms d

turns-closed : (hs : List Happening) (d : Dashboard) → d.rx.closed ≡ true → turns hs d ≡ d
turns-closed [] d c = refl
turns-closed (h ∷ hs) d c = rw c refl

turns-open :
    (h : Happening) (hs : List Happening) (d : Dashboard)
    → d.rx.closed ≡ false
    → turns (h ∷ hs) d ≡ turns hs (turn h d)
turns-open h hs d o = rw o refl

messages-cons :
    (h : Happening) (hs : List Happening) → messages (h ∷ hs) ≡ messages (h ∷ []) ++ messages hs
messages-cons (heard _) hs = refl
messages-cons (delivers _) hs = refl
messages-cons (broadcasts msg) hs = refl
messages-cons senders_gone hs = refl

send-IsInOrder :
    (b : Bool) (ms : List Text) (msg : Text) (d : Dashboard)
    → d.rx.closed ≡ false
    → d.sent ++ msg ∷ d.rx.queue ≡ ms
    → IsInOrder ms (send b msg d)
send-IsInOrder true ms msg d o p = waiting o (append_assoc d.sent (msg ∷ []) d.rx.queue ∙ p)
send-IsInOrder false ms msg d o p = over (msg ∷ d.rx.queue) refl p

module _ (ms : List Text) (d : Dashboard) (o : d.rx.closed ≡ false)
    (p : d.sent ++ d.rx.queue ≡ ms) where
  hear-IsInOrder : (r : Received) → IsInOrder ms (hear r d)
  hear-IsInOrder (frame closing) = over d.rx.queue refl p
  hear-IsInOrder (frame ping) = waiting o p
  hear-IsInOrder (frame pong) = waiting o p
  hear-IsInOrder (frame content) = waiting o p
  hear-IsInOrder recv_failed = over d.rx.queue refl p
  hear-IsInOrder ended = over d.rx.queue refl p

  deliver-IsInOrder : (b : Bool) (q : List Text) → q ≡ d.rx.queue → IsInOrder ms (deliver b q d)
  deliver-IsInOrder b [] e = waiting o p
  deliver-IsInOrder b (msg ∷ msgs) e =
      send-IsInOrder b ms msg (record d { rx = record { closed = d.rx.closed; queue = msgs } }) o
        (ap (◌++◌ d.sent) e ∙ p)

  disconnect-IsInOrder : (q : List Text) → IsInOrder ms (disconnect q d)
  disconnect-IsInOrder [] = over d.rx.queue refl p
  disconnect-IsInOrder (_ ∷ _) = waiting o p

  turn-IsInOrder : (h : Happening) → IsInOrder (ms ++ messages (h ∷ [])) (turn h d)
  turn-IsInOrder (heard r) = rw (append-nil ms) (hear-IsInOrder r)
  turn-IsInOrder (delivers b) = rw (append-nil ms) (deliver-IsInOrder b d.rx.queue refl)
  turn-IsInOrder (broadcasts msg) =
      waiting o (sym (append_assoc d.sent d.rx.queue (msg ∷ [])) ∙ ap (λ xs. xs ++ msg ∷ []) p)
  turn-IsInOrder senders_gone = rw (append-nil ms) (disconnect-IsInOrder d.rx.queue)

turns-IsInOrder :
    (hs : List Happening) (ms : List Text) (d : Dashboard)
    → IsInOrder ms d
    → IsInOrder (ms ++ messages hs) (turns hs d)
turns-IsInOrder hs ms d (over rest c p) = rw (turns-closed hs d c) (
    over (rest ++ messages hs) c
      (sym (append_assoc d.sent rest (messages hs)) ∙ ap (λ xs. xs ++ messages hs) p))
turns-IsInOrder [] ms d (waiting o p) = rw (append-nil ms) (waiting o p)
turns-IsInOrder (h ∷ hs) ms d (waiting o p) =
    rw
      (
        turns-open h hs d o,
        messages-cons h hs,
        sym (append_assoc ms (messages (h ∷ [])) (messages hs)),
      )
      (turns-IsInOrder hs (ms ++ messages (h ∷ [])) (turn h d) (turn-IsInOrder ms d o p h))

-- With a delivery that succeeds for each message that waits, the queue is emptied.
sent-deliveries :
    (q : List Text) (d : Dashboard)
    → d.rx.closed ≡ false
    → q ≡ d.rx.queue
    → (turns (deliveries q) d).sent ≡ d.sent ++ q
sent-deliveries [] d o e = sym (append-nil d.sent)
sent-deliveries (msg ∷ msgs) d o e =
    rw (turns-open (delivers true) (deliveries msgs) d o, sym e)
      (sent-deliveries msgs
          (record d {
            sent = d.sent ++ msg ∷ [];
            rx = record { closed = d.rx.closed; queue = msgs };
          })
          o refl
        ∙ append_assoc d.sent (msg ∷ []) msgs)

-- The same, and what waits is sent once as many sends succeed.
pub data IsShown (ms : List Text) (d : Dashboard) : Type 0 where
  going_on :
      d.rx.closed ≡ false
      → d.sent ++ d.rx.queue ≡ ms
      → (turns (deliveries d.rx.queue) d).sent ≡ ms
      → IsShown ms d
  has_ended : (rest : List Text) → d.rx.closed ≡ true → d.sent ++ rest ≡ ms → IsShown ms d

shown : (ms : List Text) (d : Dashboard) → IsInOrder ms d → IsShown ms d
shown ms d (waiting o p) = going_on o p (sent-deliveries d.rx.queue d o refl ∙ p)
shown ms d (over rest c p) = has_ended rest c p

-- A dashboard is meant to see the snapshot, and then all that is broadcast from its subscription on,
-- in order. It has been sent a front part of this; and while its task goes on the rest waits for it,
-- and is sent once as many sends succeed.
pub handle_ws-IsShown :
    (rendered : StatsValue → Text) (before : List Text) (greeted : Bool) (hs : List Happening)
    (s : AppState)
    → IsShown
        ((build_stats_message rendered s ∷ before) ++ messages hs)
        (handle_ws rendered before greeted hs s)
unfolding handle_ws
handle_ws-IsShown rendered before greeted hs s =
    shown ((snapshot ∷ before) ++ messages hs) (turns hs (send greeted snapshot subscribed))
      (turns-IsInOrder hs (snapshot ∷ before) (send greeted snapshot subscribed) (greeting greeted))
  where
    snapshot : Text
    snapshot = build_stats_message rendered s

    subscribed : Dashboard
    subscribed = record { sent = []; rx = record { closed = false; queue = before } }

    greeting : (b : Bool) → IsInOrder (snapshot ∷ before) (send b snapshot subscribed)
    greeting true = waiting refl refl
    greeting false = over (snapshot ∷ before) refl refl
