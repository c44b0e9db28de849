-- ===== src/Tunnel/Acceptance.antt =====
-- Whom `handle_tunnel` of src/tunnel/listener.rs accepts, and what it leaves behind for the others.
use mini_mask.Common.{
  ◌≤◌, ◌<◌, ◌≡◌, ◌⊎◌, ◌++◌, none, some, Bool, true, Result, ok, err, text, Text, length, lookup,
}
use mini_mask.Store.Model.{verify_token}
use mini_mask.State.{SessionInfo, AppState, Deps}
use mini_mask.Tunnel.Wire.{Error, Writer}
use mini_mask.Tunnel.Protocol.RoundTrip.{status_bytes}
use mini_mask.Tunnel.Handshake.{Peer, Refusal, status_failed, invalid_token, max_clients}

-- The client's entry belongs to the session.
pub record HasSession (client_id session_id : Text) (s : AppState) : Type 0 where
  pub info : SessionInfo
  pub entry : lookup client_id s.sessions ≡ some info
  pub same : info.session_id ≡ session_id

-- How the handshake of a client ends that is registered.
abbrev pub Answered : Text → Peer → AppState → Result Refusal Text × Writer × AppState → Type 0
Answered client_id p s (r, w, t) =
    ((r ≡ ok client_id)
      × (w.out ≡ p.stream.out ++ status_bytes true (text "ok"))
      × HasSession client_id p.session_id t)
    ⊎ ((e : Error) × (r ≡ err (status_failed e)) × HasSession client_id p.session_id t)

-- The parts of the state that the tunnel clients share are as they were.
pub record IsUntouched (s t : AppState) : Type 0 where
  pub sessions : t.sessions ≡ s.sessions
  pub channels : t.channels ≡ s.channels
  pub loops : t.loops ≡ s.loops
  pub clients : t.clients ≡ s.clients

-- How the handshake of a client ends whose token is valid.
abbrev pub Admitted : Text → Peer → AppState → Result Refusal Text × Writer × AppState → Type 0
Admitted client_id p s (r, w, t) =
    ((s.config.security.max_clients ≤ length s.sessions) × (r ≡ err max_clients) × IsUntouched s t)
    ⊎ ((length s.sessions < s.config.security.max_clients) × Answered client_id p s (r, w, t))

-- How the handshake of a client ends whose handshake could be read.
abbrev pub Checked :
    Deps → Text → Peer → AppState → Result Refusal Text × Writer × AppState → Type 0
Checked deps token p s x =
    ((verify_token deps.crates token s.token_pepper s.clients ≡ none)
      × (x.0 ≡ err invalid_token)
      × IsUntouched s x.2)
    ⊎ ((client_id : Text) × (enabled : Bool) × (verify_token deps.crates token s.token_pepper
            s.clients
          ≡ some (client_id, enabled))
        × Admitted client_id p s x)
