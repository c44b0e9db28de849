-- ===== src/Startup.antt =====
-- The secrets that src/server.rs makes on the first start.
pub mod Secrets
pub mod Run
pub mod Safety
use mini_mask.Common.{
  ℕ, List, [], ◌∷◌, ◌++◌, Option, none, some, Bool, true, false, Text, text, Result, ok, err, ◌==◌,
  if◌then◌else◌,
}
use mini_mask.Util.{AnyError, Crates, gen_jwt_secret}
use mini_mask.Config.{Config, is_empty}
use mini_mask.Disk.{Disk, contents, write}
use mini_mask.Web.Trim.{trim}

abbrev ends_with : ℕ → Text → Bool
ends_with c [] = false
ends_with c (b ∷ []) = b == c
ends_with c (a ∷ b ∷ s) = ends_with c (b ∷ s)

-- `dir.join(name)` of a relative name.
unfoldable pub join : Text → Text → Text
join [] name = name
join (b ∷ s) name = if ends_with b'/' (b ∷ s) then (b ∷ s) ++ name else (b ∷ s) ++ b'/' ∷ name

-- The secret in a file, which is made from `random` if there is none.
unfoldable pub ensure_secret : Crates → (path : Text) → List ℕ → Disk → Result AnyError Text × Disk
ensure_secret c path random d = elim (contents d path) [
  | some raw ↦ (ok (trim raw), d)
  | none ↦
      let secret = gen_jwt_secret c random in
      let (written, d') = write path secret d in
      (if written then ok secret else err (text "write " ++ path), d')
]

-- The configuration with a secret for the tokens of the API.
unfoldable pub ensure_jwt_secret : Crates → List ℕ → Config → Disk → Result AnyError Config × Disk
ensure_jwt_secret c random cfg d =
    if is_empty cfg.auth.jwt_secret
    then (let (r, d') = ensure_secret c (join cfg.server.data_dir (text "jwt_secret")) random d in
        (
          elim r [
            | err e ↦ err e
            | ok secret ↦ ok (record cfg { auth = record cfg.auth { jwt_secret = secret } })
          ],
          d',
        ))
    else (ok cfg, d)

unfoldable pub ensure_pepper : Crates → List ℕ → Config → Disk → Result AnyError Text × Disk
ensure_pepper c random cfg d =
    ensure_secret c (join cfg.server.data_dir (text "token_pepper")) random d
