-- ===== src/Tunnel/Sound.antt =====
-- What holds between any two steps of the tasks of src/tunnel.
pub mod Listeners
pub mod Tasks
pub mod Handshakes
use mini_mask.Common.{
  ℕ, suc, ◌+◌, ◌≤◌, ◌<◌, ◌≡◌, refl, List, [], ◌∷◌, ◌++◌, Option, none, some, Bool, true, false,
  Result, ok, err, text, not, ◌||◌, Text, length, any, retain, count_by, count_by-append,
  count_by-retain-le, lookup, insert, remove, lookup-insert, length-insert-le, length-insert_old,
  length-remove-le, Bool-cases, Option-cases, inl, inr, if◌then◌else◌, leb, ltb, ◌==◌, arith,
  text_eq, length-append,
}
use mini_mask.Store.Model.{PortMapping, find_client, verify_token}
use mini_mask.Stats.{Stats}
use mini_mask.State.{
  SessionInfo, AcceptLoop, Channel, AppState, Deps, log, announce, holds_port, port_bound,
}
use mini_mask.Tunnel.Wire.{Error, Writer}
use mini_mask.Tunnel.Protocol.{write_status, read_handshake}
use mini_mask.Tunnel.Listener.{
  find_listener, add_listener, add_listeners, start_client_listeners, remove_listener,
  remove_client_listeners, abort, abort_all, visit, Visit, at_limit, sent, loop_ends, timed_out,
  new_loop, hold_listener, channel_capacity, visit_channel,
}
use mini_mask.Tunnel.Session.{
  Round, on_request, proxy_starts, proxy_ends, end_session, with_channel, remove_session,
  close_channel, take_request,
}
use mini_mask.Tunnel.Handshake.{
  Refusal, bad_handshake, Peer, handle_tunnel, register, answered, admit, check_token, new_session,
}

-- There are at most `max_clients` sessions, no public port is held twice, and no channel holds more
-- than its capacity.
pub record IsSound (s : AppState) : Type 0 where
  pub few_sessions : length s.sessions ≤ s.config.security.max_clients
  pub port_once : (p : ℕ) → count_by (holds_port p) s.loops ≤ 1
  pub queue_bound :
      (id : Text) (ch : Channel)
      → lookup id s.channels ≡ some ch
      → length ch.queued ≤ channel_capacity
