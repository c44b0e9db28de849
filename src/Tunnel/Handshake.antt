-- ===== src/Tunnel/Handshake.antt =====
-- The acceptance of a tunnel client: `handle_tunnel` of src/tunnel/listener.rs, up to the point where
-- the session is driven.
use mini_mask.Common.{
  ℕ, List, [], ◌++◌, none, some, Bool, true, false, Text, text, Result, ok, err, insert, leb,
  length, if◌then◌else◌,
}
use mini_mask.Store.Model.{verify_token}
use mini_mask.State.{SessionInfo, AppState, Deps, log, announce}
use mini_mask.Tunnel.Wire.{Error, Writer}
use mini_mask.Tunnel.Protocol.{read_handshake, write_status}
use mini_mask.Tunnel.Listener.{start_client_listeners}

-- A connection that has been accepted, and over TLS has shaken hands: what its peer sends before it
-- closes, the stream back, its address, and the id and the time that the server gives it.
pub record Peer : Type 0 where
  pub incoming : List ℕ
  pub stream : Writer
  pub addr : Text
  pub session_id : Text
  pub now : ℕ

-- Why a connection is not driven; the last is a status that could not be written.
pub data Refusal : Type 0 where
  bad_handshake status_failed : Error → Refusal
  invalid_token max_clients : Refusal

abbrev pub new_session : Text → Peer → SessionInfo
new_session client_id p = record {
  client_id = client_id;
  session_id = p.session_id;
  remote_addr = p.addr;
  connected_at = p.now;
  listeners = [];
}

-- Under one write lock: the test of the limit and the new entry. True if the client is rejected.
unfoldable pub register : Text → Peer → AppState → Bool × AppState
register client_id p s =
    if leb s.config.security.max_clients (length s.sessions) then (true, s) else (
      false,
      record s {
        sessions = insert client_id (new_session client_id p) s.sessions;
        channels =
            insert p.session_id (record { is_open = true; queued = []; active_conns = 0 })
              s.channels;
      },
    )

-- What comes behind the status for a client that is registered: its id if it is to be driven.
abbrev pub answered :
    Deps
    → Text
    → Peer
    → Result Error (Unit {0}) × Writer
    → AppState
    → Result Refusal Text × Writer × AppState
answered deps client_id p (err e, w) s = (err (status_failed e), w, s)
answered deps client_id p (ok _, w) s = (
  ok client_id,
  w,
  start_client_listeners client_id (
      announce (
        log deps p.now (text "info") (text "tunnel")
          (text "client " ++ client_id ++ text " connected from " ++ p.addr) s)),
)

-- Behind the test of the token.
abbrev pub admit : Deps → Text → Peer → AppState → Result Refusal Text × Writer × AppState
admit deps client_id p s =
    let (rejected, s') = register client_id p s in
    if rejected
    then (
      err max_clients,
      (write_status false (text "max clients reached") p.stream).1,
      log deps p.now (text "warn") (text "tunnel")
          (text "max clients reached, rejecting " ++ client_id) s',
    )
    else answered deps client_id p (write_status true (text "ok") p.stream) s'

abbrev pub check_token : Deps → Text → Peer → AppState → Result Refusal Text × Writer × AppState
check_token deps token p s = elim (verify_token deps.crates token s.token_pepper s.clients) [
  | none ↦ (
    err invalid_token,
    (write_status false (text "invalid token") p.stream).1,
    log deps p.now (text "warn") (text "tunnel") (text "rejected auth from " ++ p.addr) s,
  )
  | some (client_id, _) ↦ admit deps client_id p s
]

-- The id that the client sends is read and not used.
unfoldable pub handle_tunnel : Deps → Peer → AppState → Result Refusal Text × Writer × AppState
handle_tunnel deps p s = elim (read_handshake p.incoming) [
  | err e ↦ (err (bad_handshake e), p.stream, s)
  | ok ((_, token), _) ↦ check_token deps token p s
]
