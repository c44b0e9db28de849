-- ===== src/Gui/Settings.antt =====
-- `Settings` of src/gui.rs and its file.
use mini_mask.Common.{
  [], Option, none, some, Bool, true, false, Text, text, is_utf8, Result, ok, ◌>>◌, guard, not,
  ◌==◌, any, if◌then◌else◌,
}
use mini_mask.Config.{is_empty}
use mini_mask.Disk.{Disk, contents, write}
use mini_mask.Startup.{join}
use mini_mask.Web.Trim.{trim}
use mini_mask.Client.Events.{ClientArgs}

pub record Settings : Type 0 where
  pub server : Text
  pub id : Text
  pub token : Text
  pub tls : Bool
  pub server_name : Text
  pub ca_path : Text
  pub insecure_skip_verify : Bool
  pub dark_mode : Bool

-- `serde_json` on the settings; none is an error. The first argument is the path for a file that
-- names none.
pub record SettingsJson : Type 0 where
  pub to_json : Settings → Option Text
  pub from_json : (default_ca_path : Text) → Text → Option Settings

unfoldable pub default_ca_path : Text
unfolding text
default_ca_path = text "./data/ca.pem"

unfoldable pub default_settings : Settings
unfolding text
default_settings = record {
  server = text "127.0.0.1:7443";
  id = [];
  token = [];
  tls = true;
  server_name = text "localhost";
  ca_path = text "./data/ca.pem";
  insecure_skip_verify = false;
  dark_mode = true;
}

-- There always is a path; the directory is created, whatever comes of it.
unfoldable pub config_path : Text
unfolding join text
config_path = join (text "data") (text "client_gui.json")

-- `read_to_string`.
abbrev read_text : Disk → Text → Option Text
read_text d path = elim (contents d path) [
  | none ↦ none
  | some bytes ↦ if is_utf8 bytes then some bytes else none
]

abbrev parsed : SettingsJson → Text → Settings
parsed json raw = elim (json.from_json default_ca_path raw) [ none ↦ default_settings | some s ↦ s ]

unfoldable pub load : SettingsJson → Disk → Settings
load json d = elim (read_text d config_path) [
  | none ↦ default_settings
  | some raw ↦ parsed json raw
]

-- A failure is ignored.
unfoldable pub save : SettingsJson → Settings → Disk → Disk
save json s d = elim (json.to_json s) [ none ↦ d | some raw ↦ (write config_path raw d).1 ]

-- `contains(':')`.
abbrev has_colon : Text → Bool
has_colon s = any (λ b. b == b':') s

-- `validate` of the application, which reads the settings only.
unfoldable pub validate : Settings → Result Text (Unit {0})
validate s = do
  guard (not (is_empty (trim s.server))) (text "请填写服务器地址")
  guard (has_colon s.server) (text "服务器地址需包含端口，如 127.0.0.1:7443")
  guard (not (is_empty (trim s.id))) (text "请填写客户端 ID")
  guard (not (is_empty (trim s.token))) (text "请填写 Token")
  ok tt

-- What the client is started with.
unfoldable pub client_args : Settings → ClientArgs
client_args s = record {
  server = trim s.server;
  id = trim s.id;
  token = trim s.token;
  tls = s.tls;
  server_name = trim s.server_name;
  ca_path = trim s.ca_path;
  insecure_skip_verify = s.insecure_skip_verify;
}
