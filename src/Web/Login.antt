-- ===== src/Web/Login.antt =====
-- Who gets past `require_auth` of src/web/auth.rs.
use mini_mask.Common.{
  ℕ, ◌+◌, ◌*◌, ◌≤◌, ◌<◌, ◌≡◌, refl, List, [], ◌∷◌, ◌++◌, some, true, false, Text, ok, ◌==◌, arith,
  All, Option-cases, inl, inr,
}
use mini_mask.Util.{Crates, Claims, make_jwt, verify_jwt}
use mini_mask.Auth as Account
use mini_mask.State.{AppState, Deps}
use mini_mask.Web.Trim.{trim}
use mini_mask.Web.Cookies.{
  cookie_name, split_on, strip_prefix, find_cookie, get_cookie, require_auth, login,
}

-- What is assumed of jsonwebtoken: a token decodes with its secret to its claims until it expires, and
-- not later than a minute after that, the crate's leeway.
pub record JwtLaws (c : Crates) : Type 0 where
  pub decodes :
      (secret token : Text) (claims : Claims) (now : ℕ)
      → c.jwt_encode secret claims ≡ some token
      → now < claims.exp
      → c.jwt_decode secret token now ≡ some claims
  pub expires :
      (secret token : Text) (claims : Claims) (now : ℕ)
      → c.jwt_decode secret token now ≡ some claims
      → now ≤ claims.exp + 60

split_on-none : (c : ℕ) (s : Text) → All (λ b. (b == c) ≡ false) s → split_on c s ≡ (s, [])
split_on-none c [] h = refl
split_on-none c (b ∷ s) (miss, later) = rw (split_on-none c s later, miss) refl

strip_prefix-append : (p s : Text) → strip_prefix p (p ++ s) ≡ some s
strip_prefix-append [] s = refl
strip_prefix-append (a ∷ p) s = ground (arith, strip_prefix-append p s)

find_cookie-hit :
    (name value part : Text) (parts : List Text)
    → trim part ≡ (name ++ b'=' ∷ []) ++ value
    → find_cookie name (part ∷ parts) ≡ some value
find_cookie-hit name value part parts h =
    rw (h, find_cookie) (rw (strip_prefix-append (name ++ b'=' ∷ []) value) refl)

-- A cookie header of one cookie, with no semicolon and nothing to trim, gives back its value.
get_cookie-one :
    (name value : Text)
    → let header = (name ++ b'=' ∷ []) ++ value in
      All (λ b. (b == b';') ≡ false) header
      → trim header ≡ header
      → get_cookie (some header) name ≡ some value
unfolding get_cookie
get_cookie-one name value plain trimmed =
    let header = (name ++ b'=' ∷ []) ++ value in
    rw (split_on-none b';' header plain) (find_cookie-hit name value header [] trimmed)

-- A login that succeeds has been given the administrator's name and password, and the token that it
-- returns, sent back as the only cookie, passes `require_auth` with that name until it expires. The
-- header must have no semicolon, and nothing that `trim` takes off, and jsonwebtoken does what
-- `JwtLaws` says.
pub require_auth-login :
    (deps : Deps) (laws : JwtLaws deps.crates) (username password token cookie : Text)
    (now later : ℕ) (s t : AppState)
    → login deps username password now s ≡ (ok (token, cookie), t)
    → later < now + s.config.auth.token_ttl_hours * 3600
    → let header = (cookie_name ++ b'=' ∷ []) ++ token in
      All (λ b. (b == b';') ≡ false) header
      → trim header ≡ header
      → (username ≡ s.auth.inner.username)
        × (Account.verify deps.crates password s.auth ≡ true)
        × (require_auth deps (some header) later s ≡ ok username)
unfolding login require_auth make_jwt verify_jwt
require_auth-login deps laws username password token cookie now later s t h soon plain trimmed =
    let claims : Claims = record {
      sub = s.auth.inner.username;
      exp = now + s.config.auth.token_ttl_hours * 3600;
    } in
    elim (Option-cases (deps.crates.jwt_encode s.config.auth.jwt_secret claims)) [
      | inl e ↦ absurd (ground (arith, h, e))
      | inr (made, e) ↦ ground (
        arith,
        h,
        e,
        get_cookie-one cookie_name token plain trimmed,
        laws.decodes s.config.auth.jwt_secret made claims later e soon,
      )
    ]
