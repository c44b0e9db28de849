-- ===== src/Tunnel/Stopping.antt =====
-- When the accept loops of src/tunnel/listener.rs end, and what a session leaves behind that ends
-- (src/tunnel/session.rs).
use mini_mask.Common.{
  ℕ, ◌≤◌, ◌<◌, ◌≡◌, ◌≢◌, refl, ap, ◌∙◌, ◌⊎◌, List, [], ◌∷◌, ◌++◌, none, some, Bool, true, false,
  not, text, Text, length, lookup, insert, lookup-insert, lookup-remove, arith, retain, any,
  count_by, count_by-retain-le, ◌==◌,
}
use mini_mask.Store.Model.{PortMapping}
use mini_mask.State.{SessionInfo, AcceptLoop, Channel, AppState, Deps, log, announce, holds_port}
use mini_mask.Tunnel.Listener.{
  add_listener, remove_client_listeners, abort, abort_all, visit, loop_ends,
}
use mini_mask.Tunnel.Session.{remove_session, end_session, with_channel, close_channel}
use mini_mask.Tunnel.Handshake.{Peer, register, new_session}

abbrev pub has_number : ℕ → AcceptLoop → Bool
has_number n l = l.number == n

count_by-abort :
    (n : ℕ) (ls : List AcceptLoop)
    → count_by (has_number n) (retain (λ l. not (l.number == n)) ls) ≡ 0
count_by-abort n [] = refl
count_by-abort n (l ∷ ls) = ground (arith, count_by-abort n ls)

abort_all-le :
    (n : ℕ) (handles : List (Text × ℕ)) (s : AppState)
    → count_by (has_number n) (abort_all handles s).loops ≤ count_by (has_number n) s.loops
abort_all-le n [] s = omega arith
abort_all-le n ((_, k) ∷ handles) s = omega (
  arith,
  abort_all-le n handles (abort k s),
  count_by-retain-le (has_number n) (λ l. not (l.number == k)) s.loops,
)

abort_all-stops :
    (mapping_id : Text) (n : ℕ) (handles : List (Text × ℕ)) (s : AppState)
    → lookup mapping_id handles ≡ some n
    → count_by (has_number n) (abort_all handles s).loops ≡ 0
abort_all-stops mapping_id n [] s h = absurd (cc)
abort_all-stops mapping_id n ((id, k) ∷ handles) s h = ground (
  arith,
  abort_all-stops mapping_id n handles (abort k s),
  abort_all-le n handles (abort k s),
  count_by-abort n s.loops,
)

abort_all-sessions :
    (handles : List (Text × ℕ)) (s : AppState) → (abort_all handles s).sessions ≡ s.sessions
abort_all-sessions [] s = refl
abort_all-sessions ((_, k) ∷ handles) s = abort_all-sessions handles (abort k s)

-- When the listeners of a client are removed, every accept loop that its session holds has ended, and
-- the session holds none.
pub remove_client_listeners-stops :
    (client_id mapping_id : Text) (n : ℕ) (info : SessionInfo) (s : AppState)
    → lookup client_id s.sessions ≡ some info
    → lookup mapping_id info.listeners ≡ some n
    → let t = remove_client_listeners client_id s in
      (count_by (has_number n) t.loops ≡ 0)
      × (lookup client_id t.sessions ≡ some (record info { listeners = [] }))
unfolding remove_client_listeners
remove_client_listeners-stops client_id mapping_id n info s e h =
    let none_left = record info { listeners = [] } in
    let t = record s { sessions = insert client_id none_left s.sessions } in
    rw (e, remove_client_listeners)
      (
        abort_all-stops mapping_id n info.listeners t h,
        ap (lookup client_id) (abort_all-sessions info.listeners t)
            ∙ ground (arith, lookup-insert client_id client_id none_left s.sessions),
      )

-- The end of a session leaves all accept loops running, and no listener can be added for a port that
-- one of them holds.
pub end_session-port_bound :
    (deps : Deps) (now : ℕ) (client_id session_id other : Text) (m : PortMapping) (s : AppState)
    → any (holds_port m.remote_port) s.loops ≡ true
    → let t = end_session deps now client_id session_id s in
      (t.loops ≡ s.loops) × ((add_listener other m t).0 ≡ false)
unfolding end_session remove_session log add_listener
end_session-port_bound deps now client_id session_id other m s h = ground arith

with_channel-some :
    (id : Text) (f : Channel → Channel) (ch : Channel) (s : AppState)
    → lookup id s.channels ≡ some ch
    → with_channel id f s ≡ record s { channels = insert id (f ch) s.channels }
with_channel-some id f ch s e = rw (e, with_channel) refl

visit_closed :
    (l : AcceptLoop) (ch : Channel) (s : AppState)
    → lookup l.session_id s.channels ≡ some ch
    → ch.is_open ≡ false
    → (s.config.security.max_conns_per_client ≡ 0)
      ⊎ (ch.active_conns < s.config.security.max_conns_per_client)
    → ((visit l s).0 ≡ loop_ends) × (count_by (has_number l.number) (visit l s).1.loops ≡ 0)
unfolding visit
visit_closed l ch s e shut below = rw (e, visit) (ground (arith, count_by-abort l.number s.loops))

-- The parts of the state that the end of a session leaves to `close_channel`.
before_close :
    (deps : Deps) (now : ℕ) (client_id session_id : Text) (s : AppState)
    → (t : AppState) × (end_session deps now client_id session_id s ≡ close_channel session_id t)
      × (t.channels ≡ s.channels)
      × (t.config ≡ s.config)
unfolding end_session remove_session log
before_close deps now client_id session_id s = (
  announce (
      log deps now (text "info") (text "tunnel")
        (text "client " ++ client_id ++ text " disconnected")
        (remove_session client_id session_id s)),
  refl,
  ground arith,
  ground arith,
)

-- Once a session that has a channel has ended, the next visitor of an accept loop of it ends the
-- loop, unless there is a limit of connections and those that are still proxied reach it.
pub visit-end_session :
    (deps : Deps) (now : ℕ) (client_id : Text) (l : AcceptLoop) (ch : Channel) (s : AppState)
    → lookup l.session_id s.channels ≡ some ch
    → (s.config.security.max_conns_per_client ≡ 0)
      ⊎ (ch.active_conns < s.config.security.max_conns_per_client)
    → let t = end_session deps now client_id l.session_id s in
      ((visit l t).0 ≡ loop_ends) × (count_by (has_number l.number) (visit l t).1.loops ≡ 0)
visit-end_session deps now client_id l ch s e below =
    let (t, ends, same, config) = before_close deps now client_id l.session_id s in
    let shut : Channel = record ch { is_open = false; queued = [] } in
    let found : lookup l.session_id t.channels ≡ some ch = rw same e in
    rw ends (
      rw
        (with_channel-some l.session_id (λ ch. record ch { is_open = false; queued = [] }) ch t
          found)
        (visit_closed l shut (record t { channels = insert l.session_id shut t.channels })
          (ground (arith, lookup-insert l.session_id l.session_id shut t.channels)) refl
          (rw config below)))

-- When a client registers, with room for its session, then the end of a session of it with another
-- id leaves the table as it is, and the end of the new session removes the entry.
pub remove_session-register :
    (client_id : Text) (p : Peer) (old : Text) (s : AppState)
    → length s.sessions < s.config.security.max_clients
    → old ≢ p.session_id
    → let t = (register client_id p s).1 in
      (remove_session client_id old t ≡ t)
      × (lookup client_id (remove_session client_id p.session_id t).sessions ≡ none)
unfolding remove_session register
remove_session-register client_id p old s h ne = ground (
  arith,
  lookup-insert client_id client_id (new_session client_id p) s.sessions,
  lookup-remove client_id client_id (insert client_id (new_session client_id p) s.sessions),
)
