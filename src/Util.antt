-- ===== src/Util.antt =====
-- src/util.rs: ids, tokens, hashes and JWTs over the crates that it calls.
use mini_mask.Common.{
  ℕ, ◌+◌, ◌*◌, List, ◌++◌, Option, none, some, Bool, Text, text, Result, ok, err,
}

abbrev pub AnyError : Type 0
AnyError = Text

pub record Claims : Type 0 where
  pub sub : Text
  pub exp : ℕ

-- What the program takes from other crates: base64, hex, hmac and sha2, argon2, jsonwebtoken.
-- A random choice is an argument.
pub record Crates : Type 0 where
  pub base64_encode : List ℕ → Text
  pub hex_encode : List ℕ → Text
  pub hmac_sha256 : (key message : List ℕ) → List ℕ
  pub argon2_hash : (password salt : Text) → Option Text
  pub argon2_verify : (password hash : Text) → Bool
  pub jwt_encode : (secret : Text) → Claims → Option Text
  pub jwt_decode : (secret token : Text) (now : ℕ) → Option Claims

module _ (c : Crates) where
  unfoldable pub gen_client_id : List ℕ → Text
  gen_client_id random = text "cli_" ++ c.base64_encode random

  unfoldable pub gen_mapping_id : List ℕ → Text
  gen_mapping_id random = text "map_" ++ c.base64_encode random

  unfoldable pub gen_token : List ℕ → Text
  gen_token random = text "mmk_" ++ c.base64_encode random

  unfoldable pub gen_jwt_secret : List ℕ → Text
  gen_jwt_secret random = c.base64_encode random

  unfoldable pub sha256_hex_with_pepper : Text → Text → Text
  sha256_hex_with_pepper token pepper = c.hex_encode (c.hmac_sha256 pepper token)

  unfoldable pub hash_password : Text → Text → Result AnyError Text
  hash_password password salt = elim (c.argon2_hash password salt) [
    | none ↦ err (text "argon2 hash")
    | some hash ↦ ok hash
  ]

  unfoldable pub verify_password : Text → Text → Bool
  verify_password password hash = c.argon2_verify password hash

  unfoldable pub make_jwt : Text → Text → ℕ → ℕ → Result AnyError Text
  make_jwt username secret ttl_hours now =
      elim (c.jwt_encode secret (record { sub = username; exp = now + ttl_hours * 3600 })) [
        | none ↦ err (text "jwt encode")
        | some token ↦ ok token
      ]

  unfoldable pub verify_jwt : Text → Text → ℕ → Result AnyError Claims
  verify_jwt token secret now = elim (c.jwt_decode secret token now) [
    | none ↦ err (text "jwt decode")
    | some claims ↦ ok claims
  ]
