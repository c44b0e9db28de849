-- ===== src/Tunnel/Sound/Handshakes.antt =====
-- The handshake of src/tunnel/listener.rs keeps the state sound.
use mini_mask.Common.{
  ℕ, List, [], true, Result, ok, err, text, Text, lookup-insert, length-insert-le, Bool-cases,
  Option-cases, inl, inr, arith,
}
use mini_mask.Store.Model.{verify_token}
use mini_mask.State.{AppState, Deps}
use mini_mask.Tunnel.Wire.{Error, Writer}
use mini_mask.Tunnel.Protocol.{write_status, read_handshake}
use mini_mask.Tunnel.Handshake.{
  Refusal, bad_handshake, Peer, handle_tunnel, register, answered, admit, check_token, new_session,
}
use mini_mask.Tunnel.Sound.{IsSound}
use mini_mask.Tunnel.Sound.Listeners.{start_client_listeners-IsSound}
use mini_mask.Tunnel.Sound.Tasks.{log-IsSound, announce-IsSound}

pub register-IsSound :
    (client_id : Text) (p : Peer) (s : AppState) → IsSound s → IsSound (register client_id p s).1
unfolding register
register-IsSound client_id p s v = record {
  few_sessions =
      ground
        (arith, v.few_sessions, length-insert-le client_id (new_session client_id p) s.sessions);
  port_once = λ q. ground (arith, v.port_once q);
  queue_bound = λ id ch h. ground (
    arith,
    v.queue_bound id ch,
    lookup-insert p.session_id id (record { is_open = true; queued = []; active_conns = 0 })
        s.channels,
  );
}

pub answered-IsSound :
    (deps : Deps) (client_id : Text) (p : Peer) (x : Result Error (Unit {0}) × Writer)
    (s : AppState)
    → IsSound s
    → IsSound (answered deps client_id p x s).2
answered-IsSound deps client_id p (err e, w) s v = v
answered-IsSound deps client_id p (ok _, w) s v =
    start_client_listeners-IsSound client_id _
      (announce-IsSound _ (log-IsSound deps p.now _ _ _ s v))

pub admit-IsSound :
    (deps : Deps) (client_id : Text) (p : Peer) (s : AppState)
    → IsSound s
    → IsSound (admit deps client_id p s).2
admit-IsSound deps client_id p s v =
    let next = register-IsSound client_id p s v in
    elim (Bool-cases (register client_id p s).0) [
      | inl e ↦ rw e (log-IsSound deps p.now _ _ _ _ next)
      | inr e ↦
          rw e (answered-IsSound deps client_id p (write_status true (text "ok") p.stream) _ next)
    ]

pub check_token-IsSound :
    (deps : Deps) (token : Text) (p : Peer) (s : AppState)
    → IsSound s
    → IsSound (check_token deps token p s).2
check_token-IsSound deps token p s v =
    elim (Option-cases (verify_token deps.crates token s.token_pepper s.clients)) [
      | inl e ↦ rw (e, check_token) (log-IsSound deps p.now _ _ _ s v)
      | inr ((client_id, enabled), e) ↦ rw (e, check_token) (admit-IsSound deps client_id p s v)
    ]

pub handle_tunnel-IsSound :
    (deps : Deps) (p : Peer) (s : AppState) → IsSound s → IsSound (handle_tunnel deps p s).2
unfolding handle_tunnel
handle_tunnel-IsSound deps p s v = by_handshake (read_handshake p.incoming)
  where
    by_handshake :
        (r : Result Error ((Text × Text) × List ℕ))
        → IsSound
            (elim r as (λ _. Result Refusal Text × Writer × AppState) [
              | err e ↦ (err (bad_handshake e), p.stream, s)
              | ok ((_, token), _) ↦ check_token deps token p s
            ]).2
    by_handshake (err e) = v
    by_handshake (ok ((id, token), rest)) = check_token-IsSound deps token p s v
