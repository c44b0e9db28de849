-- ===== src/Web/Values.antt =====
-- What the API shows of the state: the readers of src/web/routes.rs, src/web/auth.rs and
-- src/web/ws.rs.
use mini_mask.Common.{ℕ, List, map, none, some, Bool, Text, lookup}
use mini_mask.Stats.{Sample, StatsSnapshot, snapshot}
use mini_mask.Audit.{AuditLog}
use mini_mask.Broadcast.{subscribe}
use mini_mask.Store.Model.{PortMapping, MappingView}
use mini_mask.State.{SessionInfo, AppState}
use mini_mask.Web.Routes.{ClientView}

pub record SessionView : Type 0 where
  pub client_id : Text
  pub remote_addr : Text
  pub connected_at : ℕ
  pub active_conns : ℕ

-- `SessionInfo::active_conns`; the counter is found under the session's id.
abbrev pub active_conns : AppState → SessionInfo → ℕ
active_conns s i = elim (lookup i.session_id s.channels) [ none ↦ 0 | some ch ↦ ch.active_conns ]

abbrev pub session_view : AppState → Text × SessionInfo → SessionView
session_view s (_, i) = record {
  client_id = i.client_id;
  remote_addr = i.remote_addr;
  connected_at = i.connected_at;
  active_conns = active_conns s i;
}

unfoldable pub list_sessions : AppState → List SessionView
list_sessions s = map (session_view s) s.sessions

pub record StatsValue : Type 0 where
  pub snapshot : StatsSnapshot
  pub history : List Sample
  pub sessions : List SessionView

unfoldable pub build_stats_value : AppState → StatsValue
build_stats_value s = record {
  snapshot = snapshot s.stats;
  history = s.stats.history;
  sessions = list_sessions s;
}

pub record SettingsView : Type 0 where
  pub username : Text
  pub tunnel_bind : Text
  pub web_bind : Text
  pub tunnel_tls : Bool
  pub web_tls : Bool
  pub max_clients : ℕ
  pub max_conns_per_client : ℕ
  pub data_dir : Text

unfoldable pub get_settings : AppState → SettingsView
get_settings s = record {
  username = s.auth.inner.username;
  tunnel_bind = s.config.server.tunnel_bind;
  web_bind = s.config.server.web_bind;
  tunnel_tls = s.config.server.tunnel_tls;
  web_tls = s.config.server.web_tls;
  max_clients = s.config.security.max_clients;
  max_conns_per_client = s.config.security.max_conns_per_client;
  data_dir = s.config.server.data_dir;
}

-- The JSON values of the answers; `is_ok` is `{ "ok": true }`.
pub data Value : Type 0 where
  is_ok : Value
  user : (username : Text) → Value
  clients : List ClientView → Value
  client_with_token : ClientView × Text → Value
  token : Text → Value
  mappings : List MappingView → Value
  mapping : PortMapping → Value
  logs : List AuditLog → Value
  stats : StatsValue → Value
  sessions : List SessionView → Value
  settings : SettingsView → Value

-- `handle_ws` takes its place among the subscribers before anything else.
abbrev pub ws_handler : AppState → AppState
ws_handler s = record s { ws = subscribe s.ws }
