-- ===== src/Broadcast/Delivery.antt =====
-- Who receives a message of the broadcaster of src/state.rs.
use mini_mask.Common.{
  ◌<◌, ◌≡◌, refl, List, [], ◌∷◌, ◌++◌, map, Bool, true, not, Text, length, retain, any, arith,
}
use mini_mask.Broadcast.{Subscriber, WsBroadcaster, subscriber_count, send_all, broadcast}

abbrev pub is_open : Subscriber → Bool
is_open s = not s.closed

abbrev pub receives : Text → Subscriber → Subscriber
receives msg s = record s { queue = s.queue ++ msg ∷ [] }

send_all-open :
    (msg : Text) (ss : List Subscriber) → send_all msg ss ≡ map (receives msg) (retain is_open ss)
send_all-open msg [] = refl
send_all-open msg (s ∷ ss) = ground (arith, send_all-open msg ss)

-- A message goes to the end of the queue of each open subscriber, and the closed ones are dropped.
pub broadcast-open :
    (msg : Text) (b : WsBroadcaster)
    → (broadcast msg b).clients ≡ map (receives msg) (retain is_open b.clients)
unfolding broadcast
broadcast-open msg b = send_all-open msg b.clients

-- Somebody is watching.
abbrev pub has_open : WsBroadcaster → Bool
has_open b = any is_open b.clients

has_open-send_all :
    (msg : Text) (ss : List Subscriber) → any is_open (send_all msg ss) ≡ any is_open ss
has_open-send_all msg [] = refl
has_open-send_all msg (s ∷ ss) = ground (arith, has_open-send_all msg ss)

pub has_open-broadcast : (msg : Text) (b : WsBroadcaster) → has_open (broadcast msg b) ≡ has_open b
unfolding broadcast
has_open-broadcast msg b = has_open-send_all msg b.clients

has_open-retain : (ss : List Subscriber) → any is_open (retain is_open ss) ≡ any is_open ss
has_open-retain [] = refl
has_open-retain (s ∷ ss) = ground (arith, has_open-retain ss)

length-retain_pos : (ss : List Subscriber) → any is_open ss ≡ true → 0 < length (retain is_open ss)
length-retain_pos [] h = absurd (cc)
length-retain_pos (s ∷ ss) h = ground (arith, length-retain_pos ss)

-- The count is positive while somebody watches, and counting drops nobody who does.
pub subscriber_count-has_open :
    (b : WsBroadcaster)
    → has_open b ≡ true
    → (0 < (subscriber_count b).0) × (has_open (subscriber_count b).1 ≡ true)
unfolding subscriber_count
subscriber_count-has_open b h =
    (length-retain_pos b.clients h, ground (arith, has_open-retain b.clients))
