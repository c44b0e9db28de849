-- ===== src/Examples/Boots.antt =====
-- A first start of src/server.rs on an empty disk.
use mini_mask.Common.{[], ◌∷◌, some, none, Bool, true, false, Result, ok, err}
use mini_mask.Util.{AnyError}
use mini_mask.Disk.{Disk}
use mini_mask.Config.{Config}
use mini_mask.Config.Load.{Toml}
use mini_mask.Startup.Run.{Surroundings, Server, run}
use mini_mask.Examples.Given.{plain_deps, started, no_files}
use mini_mask.Examples.Certs.{plain_rcgen, plain_rustls}

-- The configuration in the file, with short names for everything.
abbrev small_config : Config
small_config = record {
  server = record {
    tunnel_bind = b't' ∷ [];
    web_bind = b'w' ∷ [];
    data_dir = b'd' ∷ [];
    tunnel_tls = true;
    web_tls = false;
    cert_path = 1 ∷ [];
    key_path = 2 ∷ [];
    ca_path = 3 ∷ [];
    ca_key_path = 4 ∷ [];
    cert_san = [];
  };
  auth = record {
    admin_username = b'r' ∷ [];
    admin_password = b'o' ∷ [];
    jwt_secret = [];
    token_ttl_hours = 24;
  };
  security = record { max_clients = 5; max_conns_per_client = 7 };
  audit = record { log_file = []; max_size_mb = 1 };
}

abbrev plain_toml : Toml
plain_toml = record { to_toml = λ cfg. some []; from_toml = λ raw. some small_config }

abbrev first_start : Surroundings
first_start = record {
  jwt_random = b'j' ∷ [];
  pepper_random = b'p' ∷ [];
  ca_random = 1 ∷ [];
  key_random = 2 ∷ [];
  salt = [];
  now = 3;
  web_bindable = true;
  refused = λ p. false;
}

unfoldable booted : Result AnyError Server × Disk
booted = run plain_deps plain_toml plain_rcgen plain_rustls first_start (b'c' ∷ []) no_files

abbrev server_of : Result AnyError Server → Server
server_of (ok s) = s
server_of (err e) = record { state = started; tunnel = none; web = none }

unfoldable server : Server
server = server_of booted.0

abbrev has_started : Result AnyError Server → Bool
has_started (ok s) = true
has_started (err e) = false
