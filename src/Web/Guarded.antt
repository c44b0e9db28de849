-- ===== src/Web/Guarded.antt =====
-- Which requests the router of src/web/mod.rs lets through without a login.
use mini_mask.Common.{
  ℕ, ◌≡◌, ◌≢◌, refl, sym, ap, ◌∙◌, ◌⊎◌, inl, inr, List, [], ◌∷◌, ◌++◌, Option, none, some, Text,
  text, err, ◌==◌, arith, Option-cases, if◌then◌else◌,
}
use mini_mask.Util.{verify_jwt}
use mini_mask.State.{AppState, Deps}
use mini_mask.Web.Errors.{unauthorized}
use mini_mask.Web.Assets.{Assets, serve_embed}
use mini_mask.Web.Cookies.{cookie_name, split_on, get_cookie, require_auth}
use mini_mask.Web.Paths.{
  Endpoint, public_login, guarded, one_part, two_parts, three_parts, below_api, from_root,
  find_route,
}
use mini_mask.Web.App.{Extract, HttpRequest, failed, asset, authorized, served, serve_http}

unfoldable pub login_path : Text
unfolding text
login_path = text "/api/auth/login"

abbrev unsplit : ℕ → Text × List Text → Text
unsplit c (p, []) = p
unsplit c (p, q ∷ ps) = p ++ c ∷ unsplit c (q, ps)

unsplit-step :
    (c b : ℕ) (p : Text × List Text)
    → unsplit c (if b == c then ([], p.0 ∷ p.1) else (b ∷ p.0, p.1)) ≡ b ∷ unsplit c p
unsplit-step c b (p, []) = ground arith
unsplit-step c b (p, q ∷ ps) = ground arith

unsplit-split_on : (c : ℕ) (s : Text) → unsplit c (split_on c s) ≡ s
unsplit-split_on c [] = refl
unsplit-split_on c (b ∷ s) = unsplit-step c b (split_on c s) ∙ ap (◌∷◌ b) (unsplit-split_on c s)

one_part-login : (a : Text) → one_part a ≢ some public_login
one_part-login a h = ground arith

two_parts-login :
    (a b : Text) → two_parts a b ≡ some public_login → (a ≡ text "auth") × (b ≡ text "login")
two_parts-login a b h = ground arith

three_parts-login : (a b c : Text) → three_parts a b c ≢ some public_login
three_parts-login a b c h = ground arith

below_api-login :
    (parts : List Text)
    → below_api parts ≡ some public_login
    → parts ≡ text "auth" ∷ text "login" ∷ []
below_api-login [] h = absurd (cc)
below_api-login (a ∷ []) h = absurd (one_part-login a h)
below_api-login (a ∷ b ∷ []) h = let (e, f) = two_parts-login a b h in rw (e, f) refl
below_api-login (a ∷ b ∷ c ∷ []) h = absurd (three_parts-login a b c h)
below_api-login (a ∷ b ∷ c ∷ d ∷ parts) h = absurd (cc)

from_root-login :
    (p : Text × List Text) → from_root p ≡ some public_login → unsplit b'/' p ≡ login_path
unfolding login_path
from_root-login ([], []) h = absurd (cc)
from_root-login ([], a ∷ parts) h =
    let e : a ≡ text "api" = ground (arith, h) in
    let f = below_api-login parts (ground (arith, h)) in rw (e, f) refl
from_root-login (b ∷ p, parts) h = absurd (cc)

find_route-login : (path : Text) → find_route path ≡ some public_login → path ≡ login_path
unfolding find_route
find_route-login path h = sym (unsplit-split_on b'/' path) ∙ from_root-login (split_on b'/' path) h

require_auth-refused :
    (deps : Deps) (cookies : Option Text) (now : ℕ) (s : AppState)
    → ((token : Text)
        → get_cookie cookies cookie_name ≡ some token
        → deps.crates.jwt_decode s.config.auth.jwt_secret token now ≡ none)
    → require_auth deps cookies now s ≡ err unauthorized
unfolding require_auth verify_jwt
require_auth-refused deps cookies now s h = elim (Option-cases (get_cookie cookies cookie_name)) [
  | inl e ↦ ground (arith, e)
  | inr (token, e) ↦ ground (arith, e, h token e)
]

module _ (deps : Deps) (e : Extract) (a : Assets) (q : HttpRequest) (s : AppState) where
  served-guarded :
      (found : Option Endpoint)
      → found ≢ some public_login
      → require_auth deps q.cookies q.draw.now s ≡ err unauthorized
      → (served deps e a q found s ≡ (failed unauthorized, s))
        ⊎ ((found ≡ none) × (served deps e a q found s ≡ (asset (serve_embed a q.path), s)))
  served-guarded none h r = inr (refl, refl)
  served-guarded (some public_login) h r = absurd (h refl)
  served-guarded (some (guarded route)) h r = inl (ap (λ o. authorized deps e a q route o s) r)

-- A request for any path but `/api/auth/login`, whatever its method and its body, that brings no cookie
-- which decodes under the server's secret, changes nothing; it is answered with 401, or, where the path
-- is not one of the API's routes, with a static file or 404. None of this depends on the state.
pub serve_http-guarded :
    (deps : Deps) (e : Extract) (a : Assets) (q : HttpRequest) (s : AppState)
    → q.path ≢ login_path
    → ((token : Text)
        → get_cookie q.cookies cookie_name ≡ some token
        → deps.crates.jwt_decode s.config.auth.jwt_secret token q.draw.now ≡ none)
    → (serve_http deps e a q s ≡ (failed unauthorized, s))
      ⊎ ((find_route q.path ≡ none) × (serve_http deps e a q s ≡ (asset (serve_embed a q.path), s)))
unfolding serve_http
serve_http-guarded deps e a q s other no_cookie =
    served-guarded deps e a q s (find_route q.path) (λ h. other (find_route-login q.path h))
      (require_auth-refused deps q.cookies q.draw.now s no_cookie)
