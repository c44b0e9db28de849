-- ===== src/Config/Load.antt =====
-- `Config::load_or_create` of src/config.rs.
use mini_mask.Common.{
  ◌<◌, ◌≡◌, ◌≢◌, refl, [], ◌++◌, Option, none, some, Text, text, Result, ok, err, if◌then◌else◌,
  arith, lookup-insert,
}
use mini_mask.Disk.{Disk, contents, write}
use mini_mask.Config.{Config, default_config, validate}

-- The `toml` crate; none is an error.
pub record Toml : Type 0 where
  pub to_toml : Config → Option Text
  pub from_toml : Text → Option Config

unfoldable pub config_header : Text
unfolding text
config_header =
    text
      "# MiniMask server configuration.\n# This file is auto-created with these defaults on first run if missing.\n\n"

abbrev or_empty : Option Text → Text
or_empty none = []
or_empty (some s) = s

module _ (toml : Toml) where
  -- The part behind the file's creation.
  abbrev pub read_config : Text → Disk → Result Text Config × Disk
  read_config path d = elim (contents d path) [
    | none ↦ (err (text "read config " ++ path), d)
    | some raw ↦ elim (toml.from_toml raw) [
      | none ↦ (err (text "parse config.toml"), d)
      | some cfg ↦ (elim (validate cfg) [ err e ↦ err e | ok _ ↦ ok cfg ], d)
    ]
  ]

  abbrev pub create_config : Text → Disk → Result Text Config × Disk
  create_config path d = elim (toml.to_toml default_config) [
    | none ↦ (err (text "serialize default config"), d)
    | some body ↦
        let (written, d') = write path (config_header ++ body) d in
        if written then read_config path d' else (err (text "write config to " ++ path), d')
  ]

  unfoldable pub load_or_create : Text → Disk → Result Text Config × Disk
  load_or_create path d = elim (contents d path) [
    | none ↦ create_config path d
    | some _ ↦ read_config path d
  ]

  -- What the rest of the program relies on.
  pub record IsValid (cfg : Config) : Type 0 where
    pub tunnel_bind : cfg.server.tunnel_bind ≢ []
    pub web_bind : cfg.server.web_bind ≢ []
    pub admin_username : cfg.auth.admin_username ≢ []
    pub token_ttl_hours : 0 < cfg.auth.token_ttl_hours

  validate-IsValid : (cfg : Config) → validate cfg ≡ ok tt → IsValid cfg
  unfolding validate
  validate-IsValid cfg h = ground arith

  read_config-validate :
      (path : Text) (d : Disk) (cfg : Config)
      → (read_config path d).0 ≡ ok cfg
      → validate cfg ≡ ok tt
  read_config-validate path d cfg h = ground arith

  -- Whatever the file holds and whatever fails, a configuration that is loaded is valid.
  pub load_or_create-IsValid :
      (path : Text) (d : Disk) (cfg : Config) → (load_or_create path d).0 ≡ ok cfg → IsValid cfg
  unfolding load_or_create
  load_or_create-IsValid path d cfg h = validate-IsValid cfg (checked h)
    where
      checked : (load_or_create path d).0 ≡ ok cfg → validate cfg ≡ ok tt
      checked e = ground (
        arith,
        read_config-validate path d cfg,
        read_config-validate path
            (write path (config_header ++ or_empty (toml.to_toml default_config)) d).1 cfg,
      )

  default_config-validate : validate default_config ≡ ok tt
  unfolding validate default_config
  default_config-validate = refl

  -- Where there is no file and the disk has no fault ahead, the defaults are returned and a second
  -- start reads them back; the header must be a comment to `toml`.
  pub load_or_create_first :
      (path body : Text) (d : Disk)
      → contents d path ≡ none
      → d.faults ≡ []
      → toml.to_toml default_config ≡ some body
      → toml.from_toml (config_header ++ body) ≡ some default_config
      → let (r, d') = load_or_create path d in
        (r ≡ ok default_config) × (load_or_create path d' ≡ (ok default_config, d'))
  unfolding load_or_create
  load_or_create_first path body d none_yet clean e law =
      ground
        (arith, lookup-insert path path (config_header ++ body) d.files, default_config-validate)
