-- ===== src/Broadcast.antt =====
-- The WebSocket broadcaster of src/state.rs. A subscriber is the two ends of its channel: whether the
-- receiver is gone, and what waits in it.
pub mod Delivery
use mini_mask.Common.{ℕ, List, [], ◌∷◌, ◌++◌, map, Bool, true, false, not, Text, length, retain}

pub record Subscriber : Type 0 where
  pub closed : Bool
  pub queue : List Text

pub record WsBroadcaster : Type 0 where
  pub clients : List Subscriber

unfoldable pub new_broadcaster : WsBroadcaster
new_broadcaster = record { clients = [] }

unfoldable pub subscribe : WsBroadcaster → WsBroadcaster
subscribe b = record b { clients = b.clients ++ record { closed = false; queue = [] } ∷ [] }

unfoldable pub subscriber_count : WsBroadcaster → ℕ × WsBroadcaster
subscriber_count b =
    let live = retain (λ s. not s.closed) b.clients in (length live, record b { clients = live })

-- `s.send(msg)` on each subscriber in turn; an unbounded send fails only on a closed channel.
abbrev pub send_all : Text → List Subscriber → List Subscriber
send_all msg [] = []
send_all msg (s ∷ ss) = elim s.closed [
  | true ↦ send_all msg ss
  | false ↦ record s { queue = s.queue ++ msg ∷ [] } ∷ send_all msg ss
]

unfoldable pub broadcast : Text → WsBroadcaster → WsBroadcaster
broadcast msg b = record b { clients = send_all msg b.clients }
