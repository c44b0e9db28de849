-- ===== src/Web/Cookies.antt =====
-- Cookies and the login: src/web/auth.rs.
use mini_mask.Common.{
  ℕ, ◌*◌, List, [], ◌∷◌, ◌++◌, Option, none, some, Bool, ◌&&◌, Text, text, decimal, text_eq, Result,
  ok, err, ◌==◌, if◌then◌else◌,
}
use mini_mask.Util.{AnyError, make_jwt, verify_jwt}
use mini_mask.Auth as Account
use mini_mask.State.{AppState, Deps, log}
use mini_mask.Web.Errors.{AppError, unauthorized, internal, Response}
use mini_mask.Web.Trim.{trim}

-- `util::COOKIE_NAME`.
unfoldable pub cookie_name : Text
unfolding text
cookie_name = text "mmk_token"

-- `s.split(c)`: the part in front, and the parts behind.
abbrev pub split_on : ℕ → Text → Text × List Text
split_on c [] = ([], [])
split_on c (b ∷ s) =
    let (part, parts) = split_on c s in if b == c then ([], part ∷ parts) else (b ∷ part, parts)

abbrev pub strip_prefix : Text → Text → Option Text
strip_prefix [] s = some s
strip_prefix (a ∷ p) [] = none
strip_prefix (a ∷ p) (b ∷ s) = if a == b then strip_prefix p s else none

-- `strip_prefix(name)` and then `strip_prefix('=')`.
abbrev pub cookie_value : Text → Text → Option Text
cookie_value name part = strip_prefix (name ++ b'=' ∷ []) part

abbrev pub find_cookie : Text → List Text → Option Text
find_cookie name [] = none
find_cookie name (part ∷ parts) = elim (cookie_value name (trim part)) [
  | some v ↦ some v
  | none ↦ find_cookie name parts
]

-- The value of the `Cookie` header is none if there is no such header, or not one of visible ASCII.
unfoldable pub get_cookie : Option Text → Text → Option Text
get_cookie none name = none
get_cookie (some header) name =
    let (part, parts) = split_on b';' header in find_cookie name (part ∷ parts)

-- The value of `Set-Cookie`.
unfoldable pub auth_cookie : (token : Text) (ttl_secs : ℕ) (secure : Bool) → Text
auth_cookie token ttl_secs secure =
    cookie_name
    ++ text "="
    ++ token
    ++ text "; HttpOnly; Path=/; SameSite=Strict; Max-Age="
    ++ decimal ttl_secs
    ++ (if secure then text "; Secure" else [])

unfoldable pub cleared_cookie : Text
cleared_cookie = cookie_name ++ text "=; HttpOnly; Path=/; SameSite=Strict; Max-Age=0"

-- The user's name, for the handler behind.
unfoldable pub require_auth :
    Deps → (cookies : Option Text) (now : ℕ) → AppState → Result AppError Text
require_auth deps cookies now s = elim (get_cookie cookies cookie_name) [
  | none ↦ err unauthorized
  | some token ↦ elim (verify_jwt deps.crates token s.config.auth.jwt_secret now) [
    | err _ ↦ err unauthorized
    | ok claims ↦ ok claims.sub
  ]
]

-- What comes behind the token: the cookie that carries it, and a line in the log.
abbrev pub signed : Deps → ℕ → AppState → Result AnyError Text → Response (Text × Text)
signed deps now s (err e) = (err (internal e), s)
signed deps now s (ok token) = (
  ok (token, auth_cookie token (s.config.auth.token_ttl_hours * 3600) s.config.server.web_tls),
  log deps now (text "info") (text "auth")
      (text "user " ++ s.auth.inner.username ++ text " logged in") s,
)

-- What comes behind the check of name and password.
abbrev pub logged_in : Deps → ℕ → AppState → Response (Text × Text)
logged_in deps now s = signed deps now s (
    make_jwt deps.crates s.auth.inner.username s.config.auth.jwt_secret
      s.config.auth.token_ttl_hours now)

unfoldable pub login :
    Deps → (username password : Text) (now : ℕ) → AppState → Response (Text × Text)
login deps username password now s =
    if text_eq username s.auth.inner.username && Account.verify deps.crates password s.auth
    then logged_in deps now s
    else (
      err unauthorized,
      log deps now (text "warn") (text "auth")
          (text "failed login attempt for '" ++ username ++ text "'") s,
    )
