-- ===== src/Config.antt =====
-- Configuration: src/config.rs.
pub mod Load
use mini_mask.Common.{
  ℕ, List, [], ◌∷◌, Bool, true, false, Text, text, Result, ok, err, ◌>>=◌, ◌>>◌, guard, not, ◌==◌,
  length,
}

pub record ServerConfig : Type 0 where
  pub tunnel_bind : Text
  pub web_bind : Text
  pub data_dir : Text
  pub tunnel_tls : Bool
  pub web_tls : Bool
  pub cert_path : Text
  pub key_path : Text
  pub ca_path : Text
  pub ca_key_path : Text
  pub cert_san : List Text

pub record AuthConfig : Type 0 where
  pub admin_username : Text
  pub admin_password : Text
  pub jwt_secret : Text
  pub token_ttl_hours : ℕ

pub record SecurityConfig : Type 0 where
  pub max_clients : ℕ
  pub max_conns_per_client : ℕ

pub record AuditConfig : Type 0 where
  pub log_file : Text
  pub max_size_mb : ℕ

pub record Config : Type 0 where
  pub server : ServerConfig
  pub auth : AuthConfig
  pub security : SecurityConfig
  pub audit : AuditConfig

unfoldable pub default_audit : AuditConfig
unfolding text
default_audit = record { log_file = text "./data/audit.log"; max_size_mb = 10 }

unfoldable pub default_server : ServerConfig
unfolding text
default_server = record {
  tunnel_bind = text "0.0.0.0:7443";
  web_bind = text "0.0.0.0:8080";
  data_dir = text "./data";
  tunnel_tls = true;
  web_tls = false;
  cert_path = text "./data/cert.pem";
  key_path = text "./data/key.pem";
  ca_path = text "./data/ca.pem";
  ca_key_path = text "./data/ca_key.pem";
  cert_san = text "localhost" ∷ text "127.0.0.1" ∷ [];
}

unfoldable pub default_auth : AuthConfig
unfolding text
default_auth = record {
  admin_username = text "admin";
  admin_password = text "admin";
  jwt_secret = [];
  token_ttl_hours = 24;
}

unfoldable pub default_security : SecurityConfig
default_security = record { max_clients = 100; max_conns_per_client = 512 }

unfoldable pub default_config : Config
unfolding default_audit default_server default_auth default_security
default_config = record {
  server = default_server;
  auth = default_auth;
  security = default_security;
  audit = default_audit;
}

abbrev pub is_empty : Text → Bool
is_empty [] = true
is_empty (_ ∷ _) = false

unfoldable pub validate : Config → Result Text (Unit {0})
validate cfg = do
  guard (not (is_empty cfg.server.tunnel_bind)) (text "server.tunnel_bind must not be empty")
  guard (not (is_empty cfg.server.web_bind)) (text "server.web_bind must not be empty")
  guard (not (is_empty cfg.auth.admin_username)) (text "auth.admin_username must not be empty")
  guard (not (cfg.auth.token_ttl_hours == 0)) (text "auth.token_ttl_hours must be > 0")
  ok tt
