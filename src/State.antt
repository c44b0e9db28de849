-- ===== src/State.antt =====
-- `AppState` of src/state.rs, with what the running tasks hold beside it.
use mini_mask.Common.{ℕ, List, Bool, ◌||◌, Text, text, any, ◌==◌}
use mini_mask.Util.{Crates}
use mini_mask.Disk.{Disk}
use mini_mask.Config.{Config}
use mini_mask.Store.Model.{ClientStore, ClientJson}
use mini_mask.Auth.{AuthStore, AuthJson}
use mini_mask.Audit.{AuditLog, AuditLogStore, LogJson, add}
use mini_mask.Stats.{Stats}
use mini_mask.Broadcast.{WsBroadcaster, broadcast}

-- `active_conns` and `proxy_tx` are shared with the driver of the session and with its accept loops:
-- they are found under the session's id. `listeners` names the accept loops by number.
pub record SessionInfo : Type 0 where
  pub client_id : Text
  pub session_id : Text
  pub remote_addr : Text
  pub connected_at : ℕ
  pub listeners : List (Text × ℕ)

-- A running `public_accept_loop`, which holds its public port.
pub record AcceptLoop : Type 0 where
  pub number : ℕ
  pub port : ℕ
  pub session_id : Text
  pub local_addr : Text

-- The two ends that a session shares: `open` while its driver receives, and the proxied connections.
pub record Channel : Type 0 where
  pub is_open : Bool
  pub queued : List Text
  pub active_conns : ℕ

-- What other programs have bound is `refused`; `refused p` says that the system refuses port `p`.
pub record AppState : Type 0 where
  pub config : Config
  pub clients : ClientStore
  pub sessions : List (Text × SessionInfo)
  pub stats : Stats
  pub logs : AuditLogStore
  pub auth : AuthStore
  pub ws : WsBroadcaster
  pub token_pepper : Text
  pub channels : List (Text × Channel)
  pub loops : List AcceptLoop
  pub next_loop : ℕ
  pub refused : ℕ → Bool
  pub disk : Disk

-- The crates that the program calls.
pub record Deps : Type 0 where
  pub crates : Crates
  pub client_json : ClientJson
  pub auth_json : AuthJson
  pub log_json : LogJson

unfoldable pub log : Deps → ℕ → Text → Text → Text → AppState → AppState
log deps now level category message s =
    let entry : AuditLog = record {
      ts = now;
      level = level;
      category = category;
      message = message;
    } in
    let (logs, disk) = add deps.log_json entry s.logs s.disk in
    record s { logs = logs; disk = disk }

-- `json!({ "type": "session_change" }).to_string()`.
unfoldable pub session_change : Text
unfolding text
session_change = text "{\"type\":\"session_change\"}"

abbrev pub announce : AppState → AppState
announce s = record s { ws = broadcast session_change s.ws }

-- Whether a public port is held by a running accept loop.
abbrev pub holds_port : ℕ → AcceptLoop → Bool
holds_port p l = l.port == p

abbrev pub port_bound : ℕ → AppState → Bool
port_bound p s = s.refused p || any (holds_port p) s.loops
