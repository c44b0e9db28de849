-- ===== src/Auth.antt =====
-- The administrator's account: `AuthStore` of src/state.rs.
pub mod Password
use mini_mask.Common.{Option, none, some, Bool, Text, text, Result, ok, err, ◌++◌, if◌then◌else◌}
use mini_mask.Util.{AnyError, Crates, hash_password, verify_password}
use mini_mask.Disk.{Disk, contents, write}
use mini_mask.Disk.Replace.{replace_file}

pub record AuthFile : Type 0 where
  pub username : Text
  pub password_hash : Text

pub record AuthStore : Type 0 where
  pub inner : AuthFile
  pub path : Text

-- `serde_json` on the account; none is an error.
pub record AuthJson : Type 0 where
  pub to_json : AuthFile → Option Text
  pub from_json : Text → Option AuthFile

module _ (json : AuthJson) (c : Crates) where
  -- The first start: the account of the configuration is written out.
  abbrev pub seed : Text → Text → Text → Text → Disk → Result AnyError AuthStore × Disk
  seed path username password salt d = elim (hash_password c password salt) [
    | err e ↦ (err e, d)
    | ok hash ↦
        let f : AuthFile = record { username = username; password_hash = hash } in
        elim (json.to_json f) [
          | none ↦ (err (text "serialize auth"), d)
          | some raw ↦
              let (written, d') = write path raw d in
              (
                if written
                    then ok (record { inner = f; path = path })
                    else err (text "write auth " ++ path),
                d',
              )
        ]
  ]

  unfoldable pub load_or_seed : Text → Text → Text → Text → Disk → Result AnyError AuthStore × Disk
  load_or_seed path username password salt d = elim (contents d path) [
    | none ↦ seed path username password salt d
    | some raw ↦ elim (json.from_json raw) [
      | none ↦ (err (text "parse " ++ path), d)
      | some f ↦ (ok (record { inner = f; path = path }), d)
    ]
  ]

  unfoldable pub persist_inner : AuthFile → AuthStore → Disk → Result AnyError (Unit {0}) × Disk
  persist_inner f s d = elim (json.to_json f) [
    | none ↦ (err (text "serialize auth"), d)
    | some raw ↦ replace_file (text "auth") raw s.path d
  ]

  -- A hash that fails leaves the account as it was; a file that fails leaves the new hash in memory.
  unfoldable pub change_password :
      Text → Text → AuthStore → Disk → Result AnyError (Unit {0}) × AuthStore × Disk
  change_password new_password salt s d = elim (hash_password c new_password salt) [
    | err e ↦ (err e, s, d)
    | ok hash ↦
        let f = record s.inner { password_hash = hash } in
        let (r, d') = persist_inner f s d in (r, record s { inner = f }, d')
  ]

unfoldable pub verify : Crates → Text → AuthStore → Bool
verify c password s = verify_password c password s.inner.password_hash
