-- ===== src/Examples/Given.antt =====
-- Plain stand-ins for the crates that src/util.rs and src/state.rs call, and small stores.
use mini_mask.Common.{
  ℕ, [], ◌∷◌, ◌++◌, Option, none, some, true, false, Text, text_eq, text_eq_refl, if◌then◌else◌,
  ltb, arith, List, ◌==◌,
}
use mini_mask.Util.{Crates, Claims}
use mini_mask.Disk.{Disk}
use mini_mask.Store.Model.{Client, PortMapping, ClientStore}
use mini_mask.Auth.{AuthJson}
use mini_mask.Auth.Password.{AuthLaws}
use mini_mask.Audit.{LogJson}
use mini_mask.Config.{default_config}
use mini_mask.State.{SessionInfo, AcceptLoop, Channel, AppState, Deps}
use mini_mask.Tunnel.Connection.{Connection, shaken}
use mini_mask.Tunnel.Handshake.{Peer}
use mini_mask.Web.App.{Extract}
use mini_mask.Web.Assets.{Assets}
use mini_mask.Examples.Codec.{put_text, get_text, get_text-put_text, plain_json}

-- A token is its expiry, its name and the secret.
abbrev pub plain_jwt_decode : Text → Text → ℕ → Option Claims
plain_jwt_decode secret [] now = none
plain_jwt_decode secret (exp ∷ rest) now =
    let (sub, key) = get_text rest in
    if text_eq key secret
    then (if ltb now exp then some (record { sub = sub; exp = exp }) else none)
    else none

unfoldable pub plain_crates : Crates
unfolding put_text get_text
plain_crates = record {
  base64_encode = λ bs. bs;
  hex_encode = λ bs. bs;
  hmac_sha256 = λ key message. key ++ message;
  argon2_hash = λ password salt. some password;
  argon2_verify = text_eq;
  jwt_encode = λ secret claims. some (claims.exp ∷ put_text claims.sub secret);
  jwt_decode = plain_jwt_decode;
}

unfoldable pub plain_auth_json : AuthJson
unfolding put_text get_text
plain_auth_json = record {
  to_json = λ f. some (put_text f.username f.password_hash);
  from_json = λ raw.
      let (name, hash) = get_text raw in some (record { username = name; password_hash = hash });
}

pub plain-AuthLaws : AuthLaws plain_auth_json plain_crates
unfolding plain_auth_json plain_crates
plain-AuthLaws = record {
  verifies = λ password salt hash h. ground (arith, text_eq_refl password);
  from-to = λ f raw h. ground (arith, get_text-put_text f.username f.password_hash);
}

unfoldable pub plain_log_json : LogJson
plain_log_json = record { to_json = λ entry. some entry.message }

-- Two clients, the second disabled, with a mapping each.
abbrev pub web : PortMapping
web = record {
  id = b'w' ∷ [];
  name = b'w' ∷ [];
  remote_port = 8000;
  local_addr = b'l' ∷ [];
  enabled = true;
  created_at = 1;
}

abbrev pub alice : Client
alice = record {
  id = b'a' ∷ [];
  name = b'A' ∷ [];
  token_hash = b'p' ∷ b't' ∷ [];
  token_prefix = b't' ∷ [];
  enabled = true;
  created_at = 1;
  mappings = web ∷ [];
}

abbrev pub bob : Client
bob = record alice {
  id = b'b' ∷ [];
  token_hash = b'p' ∷ b'u' ∷ [];
  enabled = false;
  mappings = record web { id = b'x' ∷ []; remote_port = 8001 } ∷ [];
}

abbrev pub two_clients : ClientStore
two_clients = record { list = alice ∷ bob ∷ []; path = b'c' ∷ [] }

unfoldable pub saved_disk : Disk
unfolding plain_json put_text
saved_disk = record {
  files =
      (b'c' ∷ [], elim (plain_json.to_json two_clients.list) [ none ↦ [] | some raw ↦ raw ]) ∷ [];
  faults = [];
}

abbrev pub plain_deps : Deps
plain_deps = record {
  crates = plain_crates;
  client_json = plain_json;
  auth_json = plain_auth_json;
  log_json = plain_log_json;
}

abbrev pub no_files : Disk
no_files = record { files = []; faults = [] }

-- A server that has just started, with the two clients; its pepper is `p`.
abbrev pub started : AppState
started = record {
  config = default_config;
  clients = two_clients;
  sessions = [];
  stats = record { bytes_out = 0; bytes_in = 0; total_conns = 0; active_conns = 0; history = [] };
  logs = record { logs = []; cap = 500; file = none };
  auth = record {
    inner = record { username = b'r' ∷ []; password_hash = b'o' ∷ [] };
    path = b'u' ∷ [];
  };
  ws = record { clients = [] };
  token_pepper = b'p' ∷ [];
  channels = [];
  loops = [];
  next_loop = 0;
  refused = λ p. false;
  disk = no_files;
}

-- Alice connects with her token `t`.
abbrev pub alice_calls : Peer
alice_calls = record {
  incoming = 77 ∷ 77 ∷ 83 ∷ 75 ∷ 1 ∷ 0 ∷ 1 ∷ b'a' ∷ 0 ∷ 1 ∷ b't' ∷ [];
  stream = record { out = []; faults = [] };
  addr = b'i' ∷ [];
  session_id = b's' ∷ [];
  now = 3;
}

abbrev pub alice_dials : Connection
alice_dials = record { tls_accept = shaken; in_time = true; peer = alice_calls }

-- Alice's session with one accept loop, for her mapping.
abbrev pub alice_session : SessionInfo
alice_session = record {
  client_id = b'a' ∷ [];
  session_id = b's' ∷ [];
  remote_addr = b'i' ∷ [];
  connected_at = 3;
  listeners = (b'w' ∷ [], 0) ∷ [];
}

abbrev pub alice_loop : AcceptLoop
alice_loop = record { number = 0; port = 8000; session_id = b's' ∷ []; local_addr = b'l' ∷ [] }

abbrev pub alice_channel : Channel
alice_channel = record { is_open = true; queued = []; active_conns = 1 }

abbrev pub connected : AppState
connected = record started {
  sessions = (b'a' ∷ [], alice_session) ∷ [];
  channels = (b's' ∷ [], alice_channel) ∷ [];
  loops = alice_loop ∷ [];
  next_loop = 1;
}

-- Bodies as a row of texts, whatever their content type, and no escapes in a path.
abbrev pub plain_pair : List ℕ → Text × Text
plain_pair bytes = let (a, rest) = get_text bytes in let (b, _) = get_text rest in (a, b)

abbrev pub plain_port : Text → Text → List ℕ → Option (Text × Text × ℕ × Text)
plain_port client_id name [] = none
plain_port client_id name (port ∷ rest) = some (client_id, name, port, (get_text rest).0)

abbrev pub plain_mapping_req : List ℕ → Option (Text × Text × ℕ × Text)
plain_mapping_req bytes =
    let (client_id, rest) = get_text bytes in
    let (name, rest') = get_text rest in plain_port client_id name rest'

unfoldable pub plain_extract : Extract
unfolding get_text
plain_extract = record {
  login_req = λ t bytes. some (plain_pair bytes);
  create_client_req = λ t bytes. some (get_text bytes).0;
  update_enabled_req = λ t bytes. some (if text_eq bytes (1 ∷ []) then true else false);
  create_mapping_req = λ t bytes. plain_mapping_req bytes;
  change_password_req = λ t bytes. some (plain_pair bytes);
  path_param = λ raw. some raw;
  is_socket_addr = λ addr. true;
}

-- The one page is `i`.
abbrev pub plain_assets : Assets
plain_assets = record {
  get = λ name. elim name [ [] ↦ none | b ∷ _ ↦ if b == b'i' then some (b'i' ∷ []) else none ];
  mime = λ name. b'h' ∷ [];
}
