-- ===== src/Tunnel/Steps.antt =====
-- What the tasks of src/tunnel do to the shared state, one step at a time in any order, and what no
-- step breaks.
use mini_mask.Common.{ℕ, Bool, Text}
use mini_mask.Store.Model.{PortMapping}
use mini_mask.State.{AcceptLoop, AppState, Deps}
use mini_mask.Tunnel.Listener.{
  accept_fails, add_listener, start_client_listeners, remove_listener, remove_client_listeners,
  visit,
}
use mini_mask.Tunnel.Session.{on_request, proxy_starts, proxy_ends, end_session}
use mini_mask.Tunnel.Connection.{Connection, handle_connection, handle_connection-keeps}
use mini_mask.Tunnel.Sound.{IsSound}
use mini_mask.Tunnel.Sound.Listeners.{
  abort-IsSound, add_listener-IsSound, start_client_listeners-IsSound,
  remove_client_listeners-IsSound, remove_listener-IsSound,
}
use mini_mask.Tunnel.Sound.Tasks.{
  visit-IsSound, on_request-IsSound, proxy_starts-IsSound, proxy_ends-IsSound, end_session-IsSound,
}
use mini_mask.Tunnel.Sound.Handshakes.{handle_tunnel-IsSound}

-- One step of a task, each between two points at which the task waits or releases a lock.
pub data Step (deps : Deps) : AppState → AppState → Type 0 where
  connects :
      {s : AppState} (tls : Bool) (c : Connection) → Step deps s (handle_connection deps tls c s).2
  adds :
      {s : AppState} (client_id : Text) (m : PortMapping)
      → Step deps s (add_listener client_id m s).1
  starts : {s : AppState} (client_id : Text) → Step deps s (start_client_listeners client_id s)
  removes : {s : AppState} (mapping_id : Text) → Step deps s (remove_listener mapping_id s)
  removes_all :
      {s : AppState} (client_id : Text) → Step deps s (remove_client_listeners client_id s)
  fails : {s : AppState} (l : AcceptLoop) → Step deps s (accept_fails l s)
  visits : {s : AppState} (l : AcceptLoop) → Step deps s (visit l s).1
  requests :
      {s : AppState} (session_id : Text) (opened : Bool)
      → Step deps s (on_request session_id opened s).1
  proxies : {s : AppState} (session_id : Text) → Step deps s (proxy_starts session_id s)
  finishes : {s : AppState} (session_id : Text) → Step deps s (proxy_ends session_id s)
  disconnects :
      {s : AppState} (now : ℕ) (client_id session_id : Text)
      → Step deps s (end_session deps now client_id session_id s)

pub Step-IsSound : (deps : Deps) (s t : AppState) → Step deps s t → IsSound s → IsSound t
Step-IsSound deps s t (connects tls c) v =
    handle_connection-keeps IsSound deps c s v (handle_tunnel-IsSound deps c.peer s v) tls
Step-IsSound deps s t (adds client_id m) v = add_listener-IsSound client_id m s v
Step-IsSound deps s t (starts client_id) v = start_client_listeners-IsSound client_id s v
Step-IsSound deps s t (removes id) v = remove_listener-IsSound id s v
Step-IsSound deps s t (removes_all client_id) v = remove_client_listeners-IsSound client_id s v
Step-IsSound deps s t (fails l) v = unfold accept_fails in abort-IsSound l.number s v
Step-IsSound deps s t (visits l) v = visit-IsSound l s v
Step-IsSound deps s t (requests id opened) v = on_request-IsSound id opened s v
Step-IsSound deps s t (proxies id) v = proxy_starts-IsSound id s v
Step-IsSound deps s t (finishes id) v = proxy_ends-IsSound id s v
Step-IsSound deps s t (disconnects now client_id id) v =
    end_session-IsSound deps now client_id id s v
