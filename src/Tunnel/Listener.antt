-- ===== src/Tunnel/Listener.antt =====
-- Public-port listeners: src/tunnel/listener.rs.
use mini_mask.Common.{
  ℕ, ◌+◌, List, [], ◌∷◌, ◌++◌, Option, none, some, Bool, true, false, not, ◌&&◌, Text, lookup,
  insert, remove, retain, leb, ltb, length, ◌==◌, if◌then◌else◌,
}
use mini_mask.Store.Model.{PortMapping, find_client}
use mini_mask.State.{SessionInfo, AcceptLoop, Channel, AppState, port_bound}

-- `handles.insert(mapping_id, handle)` in the session of a client. An old handle is dropped, which
-- does not stop its loop.
abbrev pub hold_listener : Text → Text → ℕ → AppState → AppState
hold_listener client_id mapping_id number s = elim (lookup client_id s.sessions) [
  | none ↦ s
  | some info ↦ record s {
    sessions =
        insert client_id (record info { listeners = insert mapping_id number info.listeners })
          s.sessions;
  }
]

-- The new accept loop, once the port is bound.
abbrev pub new_loop : ℕ → SessionInfo → PortMapping → AcceptLoop
new_loop number info mapping = record {
  number = number;
  port = mapping.remote_port;
  session_id = info.session_id;
  local_addr = mapping.local_addr;
}

abbrev pub spawn_loop : SessionInfo → PortMapping → AppState → AppState
spawn_loop info mapping s = record s {
  loops = s.loops ++ new_loop s.next_loop info mapping ∷ [];
  next_loop = s.next_loop + 1;
}

unfoldable pub add_listener : Text → PortMapping → AppState → Bool × AppState
add_listener client_id mapping s = elim (lookup client_id s.sessions) [
  | none ↦ (false, s)
  | some info ↦
      if port_bound mapping.remote_port s
      then (false, s)
      else (true, hold_listener client_id mapping.id s.next_loop (spawn_loop info mapping s))
]

abbrev pub add_listeners : Text → List PortMapping → AppState → AppState
add_listeners client_id [] s = s
add_listeners client_id (m ∷ ms) s = add_listeners client_id ms (add_listener client_id m s).1

unfoldable pub start_client_listeners : Text → AppState → AppState
start_client_listeners client_id s = elim (find_client client_id s.clients) [
  | none ↦ s
  | some client ↦ add_listeners client_id (retain (λ m. m.enabled) client.mappings) s
]

-- `handle.abort()`: the loop ends and its port is free.
abbrev pub abort : ℕ → AppState → AppState
abort number s = record s { loops = retain (λ l. not (l.number == number)) s.loops }

abbrev pub abort_all : List (Text × ℕ) → AppState → AppState
abort_all [] s = s
abort_all ((_, number) ∷ handles) s = abort_all handles (abort number s)

-- The first session that holds a listener of the mapping, and the listener.
abbrev pub find_listener : Text → List (Text × SessionInfo) → Option (Text × SessionInfo × ℕ)
find_listener mapping_id [] = none
find_listener mapping_id ((client_id, info) ∷ sessions) = elim (lookup mapping_id info.listeners) [
  | some number ↦ some (client_id, info, number)
  | none ↦ find_listener mapping_id sessions
]

unfoldable pub remove_listener : Text → AppState → AppState
remove_listener mapping_id s = elim (find_listener mapping_id s.sessions) [
  | none ↦ s
  | some (client_id, info, number) ↦ abort number (record s {
    sessions =
        insert client_id (record info { listeners = remove mapping_id info.listeners }) s.sessions;
  })
]

unfoldable pub remove_client_listeners : Text → AppState → AppState
remove_client_listeners client_id s = elim (lookup client_id s.sessions) [
  | none ↦ s
  | some info ↦
      abort_all info.listeners
        (record s { sessions = insert client_id (record info { listeners = [] }) s.sessions })
]

-- What one visitor meets in `public_accept_loop`.
pub data Visit : Type 0 where
  -- Dropped at the limit of connections; handed over; the channel is closed and the loop ends; the
  -- channel is full until the 200 ms are over, and the visitor is dropped.
  at_limit sent loop_ends timed_out : Visit

abbrev pub channel_capacity : ℕ
channel_capacity = 256

-- `tx.send(req)` within its time. Where the driver frees a slot during the wait, its step comes before
-- this one.
abbrev pub send_request : Text → Channel → Visit × Channel
send_request local_addr ch =
    if not ch.is_open
    then (loop_ends, ch)
    else if ltb (length ch.queued) channel_capacity
    then (sent, record ch { queued = ch.queued ++ local_addr ∷ [] })
    else (timed_out, ch)

abbrev pub visit_channel : (max_conns : ℕ) → Text → Channel → Visit × Channel
visit_channel max_conns local_addr ch =
    if not (max_conns == 0) && leb max_conns ch.active_conns
    then (at_limit, ch)
    else send_request local_addr ch

-- One round of an accept loop, which ends if its channel is closed.
unfoldable pub visit : AcceptLoop → AppState → Visit × AppState
visit l s = elim (lookup l.session_id s.channels) [
  | none ↦ (loop_ends, abort l.number s)
  | some ch ↦
      let (outcome, ch') = visit_channel s.config.security.max_conns_per_client l.local_addr ch in
      let s' = record s { channels = insert l.session_id ch' s.channels } in
      (outcome, elim outcome [ loop_ends ↦ abort l.number s' | _ ↦ s' ])
]

-- The other end of a round: an accept that fails ends the loop.
unfoldable pub accept_fails : AcceptLoop → AppState → AppState
accept_fails l s = abort l.number s
