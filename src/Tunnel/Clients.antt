-- ===== src/Tunnel/Clients.antt =====
-- The tasks of src/tunnel read the client store and leave it as it is.
use mini_mask.Common.{
  ℕ, ◌≡◌, refl, ◌∙◌, List, [], ◌∷◌, Option, none, some, Bool, true, Result, ok, err, text, Text,
  lookup, Bool-cases, Option-cases, inl, inr, retain, arith,
}
use mini_mask.Store.Model.{PortMapping, find_client, verify_token}
use mini_mask.State.{AcceptLoop, Channel, AppState, Deps, log}
use mini_mask.Tunnel.Wire.{Error, Writer}
use mini_mask.Tunnel.Protocol.{read_handshake, write_status}
use mini_mask.Tunnel.Listener.{
  add_listener, add_listeners, start_client_listeners, remove_listener, remove_client_listeners,
  abort, abort_all, visit, accept_fails, find_listener,
}
use mini_mask.Tunnel.Session.{
  on_request, proxy_starts, proxy_ends, end_session, remove_session, with_channel,
}
use mini_mask.Tunnel.Handshake.{Peer, handle_tunnel, register, answered, admit, check_token}
use mini_mask.Tunnel.Connection.{handle_connection-keeps}
use mini_mask.Tunnel.Steps.{
  Step, connects, adds, starts, removes, removes_all, fails, visits, requests, proxies, finishes,
  disconnects,
}

pub clients-add_listener :
    (client_id : Text) (m : PortMapping) (s : AppState)
    → (add_listener client_id m s).1.clients ≡ s.clients
unfolding add_listener
clients-add_listener client_id m s = ground arith

clients-add_listeners :
    (client_id : Text) (ms : List PortMapping) (s : AppState)
    → (add_listeners client_id ms s).clients ≡ s.clients
clients-add_listeners client_id [] s = refl
clients-add_listeners client_id (m ∷ ms) s =
    clients-add_listeners client_id ms (add_listener client_id m s).1
    ∙ clients-add_listener client_id m s

pub clients-start_client_listeners :
    (client_id : Text) (s : AppState) → (start_client_listeners client_id s).clients ≡ s.clients
unfolding start_client_listeners
clients-start_client_listeners client_id s = elim (Option-cases (find_client client_id s.clients)) [
  | inl e ↦ rw (e, start_client_listeners) refl
  | inr (client, e) ↦
      rw (e, start_client_listeners)
        (clients-add_listeners client_id (retain (λ m. m.enabled) client.mappings) s)
]

clients-abort_all :
    (handles : List (Text × ℕ)) (s : AppState) → (abort_all handles s).clients ≡ s.clients
clients-abort_all [] s = refl
clients-abort_all ((_, n) ∷ handles) s = clients-abort_all handles (abort n s)

pub clients-remove_listener :
    (mapping_id : Text) (s : AppState) → (remove_listener mapping_id s).clients ≡ s.clients
unfolding remove_listener
clients-remove_listener mapping_id s = elim (Option-cases (find_listener mapping_id s.sessions)) [
  | inl e ↦ rw (e, remove_listener) refl
  | inr ((client_id, info, number), e) ↦ rw (e, remove_listener) refl
]

pub clients-remove_client_listeners :
    (client_id : Text) (s : AppState) → (remove_client_listeners client_id s).clients ≡ s.clients
unfolding remove_client_listeners
clients-remove_client_listeners client_id s = elim (Option-cases (lookup client_id s.sessions)) [
  | inl e ↦ rw (e, remove_client_listeners) refl
  | inr (info, e) ↦ rw (e, remove_client_listeners) (clients-abort_all info.listeners _)
]

pub clients-log :
    (deps : Deps) (now : ℕ) (level category message : Text) (s : AppState)
    → (log deps now level category message s).clients ≡ s.clients
unfolding log
clients-log deps now level category message s = refl

clients-with_channel :
    (id : Text) (f : Channel → Channel) (s : AppState) → (with_channel id f s).clients ≡ s.clients
clients-with_channel id f s = ground arith

clients-visit : (l : AcceptLoop) (s : AppState) → (visit l s).1.clients ≡ s.clients
unfolding visit
clients-visit l s = ground arith

clients-on_request :
    (id : Text) (opened : Bool) (s : AppState) → (on_request id opened s).1.clients ≡ s.clients
unfolding on_request
clients-on_request id opened s = ground arith

clients-end_session :
    (deps : Deps) (now : ℕ) (client_id id : Text) (s : AppState)
    → (end_session deps now client_id id s).clients ≡ s.clients
unfolding end_session remove_session log
clients-end_session deps now client_id id s = ground arith

clients-register :
    (client_id : Text) (p : Peer) (s : AppState) → (register client_id p s).1.clients ≡ s.clients
unfolding register
clients-register client_id p s = ground arith

clients-answered :
    (deps : Deps) (client_id : Text) (p : Peer) (x : Result Error (Unit {0}) × Writer)
    (s : AppState)
    → (answered deps client_id p x s).2.clients ≡ s.clients
unfolding log
clients-answered deps client_id p (err e, w) s = refl
clients-answered deps client_id p (ok _, w) s = clients-start_client_listeners client_id _

clients-admit :
    (deps : Deps) (client_id : Text) (p : Peer) (s : AppState)
    → (admit deps client_id p s).2.clients ≡ s.clients
unfolding log
clients-admit deps client_id p s = elim (Bool-cases (register client_id p s).0) [
  | inl e ↦ rw e (clients-register client_id p s)
  | inr e ↦ rw e (
      clients-answered deps client_id p (write_status true (text "ok") p.stream)
        (register client_id p s).1
      ∙ clients-register client_id p s)
]

clients-handle_tunnel :
    (deps : Deps) (p : Peer) (s : AppState) → (handle_tunnel deps p s).2.clients ≡ s.clients
unfolding handle_tunnel
clients-handle_tunnel deps p s = by_handshake (read_handshake p.incoming) refl
  where
    checked :
        (token : Text) (found : Option (Text × Bool))
        → verify_token deps.crates token s.token_pepper s.clients ≡ found
        → (check_token deps token p s).2.clients ≡ s.clients
    checked token none e = rw (e, check_token) (clients-log deps p.now _ _ _ s)
    checked token (some (client_id, _)) e = rw (e, check_token) (clients-admit deps client_id p s)

    by_handshake :
        (r : Result Error ((Text × Text) × List ℕ))
        → read_handshake p.incoming ≡ r
        → (handle_tunnel deps p s).2.clients ≡ s.clients
    by_handshake (err e) h = rw (h, handle_tunnel) refl
    by_handshake (ok ((claimed, token), rest)) h = rw (h, handle_tunnel) (checked token _ refl)

pub Step-clients : (deps : Deps) (s t : AppState) → Step deps s t → t.clients ≡ s.clients
unfolding proxy_starts proxy_ends accept_fails
Step-clients deps s t (connects tls c) =
    handle_connection-keeps (λ x. x.clients ≡ s.clients) deps c s refl
      (clients-handle_tunnel deps c.peer s) tls
Step-clients deps s t (adds client_id m) = clients-add_listener client_id m s
Step-clients deps s t (starts client_id) = clients-start_client_listeners client_id s
Step-clients deps s t (removes id) = clients-remove_listener id s
Step-clients deps s t (removes_all client_id) = clients-remove_client_listeners client_id s
Step-clients deps s t (fails l) = refl
Step-clients deps s t (visits l) = clients-visit l s
Step-clients deps s t (requests id opened) = clients-on_request id opened s
Step-clients deps s t (proxies id) = clients-with_channel id _ _
Step-clients deps s t (finishes id) = clients-with_channel id _ _
Step-clients deps s t (disconnects now client_id id) = clients-end_session deps now client_id id s
