-- ===== src/Startup/Run.antt =====
-- `run` of src/server.rs, up to the point at which it serves.
use mini_mask.Common.{
  ℕ, List, [], ◌++◌, Option, none, some, Bool, true, false, ◌||◌, Text, text, Result, ok, err,
  if◌then◌else◌,
}
use mini_mask.Util.{AnyError}
use mini_mask.Disk.{Disk}
use mini_mask.Config.{Config, is_empty}
use mini_mask.Config.Load.{Toml, load_or_create}
use mini_mask.Store.Model.{ClientStore}
use mini_mask.Store.Ops.{load}
use mini_mask.Auth.{AuthStore, load_or_seed}
use mini_mask.Audit.{AuditLogStore, new_log, with_file}
use mini_mask.State.{AppState, Deps, log}
use mini_mask.Tls.{
  Rcgen, Rustls, CertPaths, TlsAcceptor, ensure_ca_and_server_cert, build_tls_acceptor,
}
use mini_mask.Startup.{join, ensure_jwt_secret, ensure_pepper}

-- What may fail and writes to the disk.
abbrev pub Boot : Type 0 → Type 0
Boot A = Disk → Result AnyError A × Disk

unfoldable pub continue :
    {A B : Type 0} → (A → Boot B) → Result AnyError A × Disk → Result AnyError B × Disk
continue k (ok a, d) = k a d
continue k (err e, d) = (err e, d)

infixl 5 ◌>>=◌ ◌>>◌
abbrev pub ◌>>=◌ : {A B : Type 0} → Boot A → (A → Boot B) → Boot B
(m >>= k) d = continue k (m d)

abbrev pub ◌>>◌ : {B : Type 0} → Boot (Unit {0}) → Boot B → Boot B
m >> k = m >>= λ _. k

abbrev pub give : {A : Type 0} → A → Boot A
give a d = (ok a, d)

abbrev pub reading : {A : Type 0} → (Disk → Result AnyError A) → Boot A
reading f d = (f d, d)

-- What the first start draws, the time, whether the address of the API can be bound, and the ports
-- that the system refuses.
pub record Surroundings : Type 0 where
  pub jwt_random : List ℕ
  pub pepper_random : List ℕ
  pub ca_random : List ℕ
  pub key_random : List ℕ
  pub salt : Text
  pub now : ℕ
  pub web_bindable : Bool
  pub refused : ℕ → Bool

-- A server that serves: none of an acceptor is plain TCP or HTTP.
pub record Server : Type 0 where
  pub state : AppState
  pub tunnel : Option TlsAcceptor
  pub web : Option TlsAcceptor

abbrev pub cert_paths : Config → CertPaths
cert_paths cfg = record {
  ca = cfg.server.ca_path;
  ca_key = cfg.server.ca_key_path;
  cert = cfg.server.cert_path;
  key = cfg.server.key_path;
}

-- The audit log, with a file if its path is not empty.
abbrev pub audit_log : Config → AuditLogStore
audit_log cfg =
    if is_empty cfg.audit.log_file
    then new_log 500
    else with_file cfg.audit.log_file cfg.audit.max_size_mb (new_log 500)

-- The state, of which nothing but the stores is there yet; its disk is the one that they leave.
abbrev pub fresh_state :
    Surroundings → Config → (pepper : Text) → ClientStore → AuthStore → Disk → AppState
fresh_state w cfg pepper clients auth d = record {
  config = cfg;
  clients = clients;
  sessions = [];
  stats = record { bytes_out = 0; bytes_in = 0; total_conns = 0; active_conns = 0; history = [] };
  logs = audit_log cfg;
  auth = auth;
  ws = record { clients = [] };
  token_pepper = pepper;
  channels = [];
  loops = [];
  next_loop = 0;
  refused = w.refused;
  disk = d;
}

module _ {Key Cert : Type 0} (deps : Deps) (toml : Toml) (rcgen : Rcgen Key Cert) (rustls : Rustls)
    (w : Surroundings) where
  abbrev pub ensure_certificates : Config → Boot (Unit {0})
  ensure_certificates cfg d =
      if cfg.server.tunnel_tls || cfg.server.web_tls
      then ensure_ca_and_server_cert rcgen (cert_paths cfg) cfg.server.cert_san w.ca_random
          w.key_random d
      else (ok tt, d)

  abbrev pub load_state : Config → (pepper : Text) → Boot AppState
  load_state cfg pepper = do
    clients ← load deps.client_json (join cfg.server.data_dir (text "clients.json"))
    auth ←
        load_or_seed deps.auth_json deps.crates (join cfg.server.data_dir (text "auth.json"))
          cfg.auth.admin_username cfg.auth.admin_password w.salt
    λ d. (ok (fresh_state w cfg pepper clients auth d), d)

  -- The line that a start leaves in the log.
  abbrev pub announced : AppState → Boot AppState
  announced s d =
      let s' =
        log deps w.now (text "info") (text "system")
          (text "MiniMask server starting (data_dir=" ++ s.config.server.data_dir ++ text ")") s in
      (ok s', s'.disk)

  abbrev pub acceptor_if : Bool → Config → Boot (Option TlsAcceptor)
  acceptor_if false cfg = give none
  acceptor_if true cfg = do
    acceptor ← reading (build_tls_acceptor rustls cfg.server.cert_path cfg.server.key_path)
    give (some acceptor)

  abbrev pub bind_web : Boot (Unit {0})
  bind_web d = (if w.web_bindable then ok tt else err (text "bind"), d)

  abbrev pub start_serving : AppState → Boot Server
  start_serving s = do
    tunnel ← acceptor_if s.config.server.tunnel_tls s.config
    bind_web
    web ← acceptor_if s.config.server.web_tls s.config
    give (record { state = s; tunnel = tunnel; web = web })

  -- The tasks of the tunnel listener and of the sampler take their steps on the state from here on.
  unfoldable pub run : (config_path : Text) → Boot Server
  run config_path = do
    loaded ← load_or_create toml config_path
    cfg ← ensure_jwt_secret deps.crates w.jwt_random loaded
    pepper ← ensure_pepper deps.crates w.pepper_random cfg
    ensure_certificates cfg
    loaded_state ← load_state cfg pepper
    s ← announced loaded_state
    start_serving s
