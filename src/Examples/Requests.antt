-- ===== src/Examples/Requests.antt =====
-- The theorems about the API of src/web, and about the server as a whole, at work.
use mini_mask.Common.{
  ℕ, ◌≤◌, ◌≡◌, refl, [], ◌∷◌, ◌++◌, ◌⊎◌, none, some, Bool, true, false, ◌+◌, Text, text, ok, arith,
  text_discrete, ℕ_discrete, text_eq_refl,
}
use mini_mask.Util.{Claims, make_jwt, verify_jwt, gen_mapping_id, verify_password}
use mini_mask.Config.{default_config, default_auth, default_server}
use mini_mask.Auth as Account
use mini_mask.Store.Ops as Ops
use mini_mask.Store.Model.{remote_port_taken}
use mini_mask.Disk.Paths.{with_extension}
use mini_mask.State.{AppState}
use mini_mask.Tunnel.Listener.{visit}
use mini_mask.Tunnel.Session.{end_session}
use mini_mask.Tunnel.Connection.{handle_connection}
use mini_mask.Web.Routes.{Context, create_mapping}
use mini_mask.Web.Requests.{Request, deletes_client}
use mini_mask.Web.Values.{mapping}
use mini_mask.Web.Paths.{find_route}
use mini_mask.Web.App.{post, get, HttpRequest, failed, asset, value, dispatch, serve_http}
use mini_mask.Web.Assets.{serve_embed}
use mini_mask.Web.Guarded.{login_path, serve_http-guarded}
use mini_mask.Web.Errors.{unauthorized}
use mini_mask.Web.Trim.{trim}
use mini_mask.Web.Cookies.{cookie_name, get_cookie, auth_cookie, require_auth, login}
use mini_mask.Web.Login.{JwtLaws, require_auth-login}
use mini_mask.Examples.Codec.{put_text, get_text, plain_json, get_text-put_text}
use mini_mask.Examples.Given.{
  plain_crates, plain_deps, plain_extract, plain_assets, started, alice_dials, alice_loop,
  connected,
}

abbrev root_asks : Context
root_asks = record {
  user = b'r' ∷ [];
  draw = record { token_bytes = 1 ∷ []; id_bytes = 2 ∷ []; now = 8 };
  salt = [];
}

abbrev any_addr : Text → Bool
any_addr addr = true

-- The administrator's token says when it expires, and the secret is empty.
abbrev root_token : Text
root_token = 86401 ∷ 1 ∷ b'r' ∷ []

unfoldable root_cookie : Text
root_cookie = (cookie_name ++ b'=' ∷ []) ++ root_token

-- A mapping of Alice's for port 8002.
unfoldable new_port : HttpRequest
new_port = record {
  method = post;
  path = text "/api/mappings";
  cookies = some root_cookie;
  content_type = none;
  body = 1 ∷ b'a' ∷ 1 ∷ b'n' ∷ 8002 ∷ 1 ∷ b'l' ∷ [];
  upgrades = false;
  draw = record { token_bytes = 1 ∷ []; id_bytes = 2 ∷ []; now = 8 };
  salt = [];
}

new_port_test :
    (serve_http plain_deps plain_extract plain_assets new_port started).0
    ≡ value
        (mapping (record {
          id = text "map_" ++ 2 ∷ [];
          name = b'n' ∷ [];
          remote_port = 8002;
          local_addr = b'l' ∷ [];
          enabled = true;
          created_at = 8;
        }))
        none
unfolding serve_http new_port root_cookie cookie_name text find_route get_cookie require_auth
    verify_jwt trim dispatch create_mapping Ops.add_mapping Ops.persist plain_crates gen_mapping_id
    text_discrete ℕ_discrete plain_extract get_text put_text plain_json default_config default_auth
    remote_port_taken with_extension
new_port_test = refl

-- Alice connects, the administrator adds a mapping, a visitor comes, and she leaves.
abbrev after : AppState
after =
    end_session plain_deps 9 (b'a' ∷ []) (b's' ∷ [])
      (visit alice_loop
        (serve_http plain_deps plain_extract plain_assets new_port
          (handle_connection plain_deps false alice_dials started).2).1).1

-- There is no client `z`.
abbrev no_client : Request
no_client = deletes_client (b'z' ∷ [])

plain-JwtLaws : JwtLaws plain_crates
unfolding plain_crates
plain-JwtLaws = record {
  decodes = λ secret token claims now h soon.
      ground (arith, h, get_text-put_text claims.sub secret, text_eq_refl secret);
  expires = λ secret token claims now h. expires secret token claims now h;
}
  where
    expires :
        (secret token : Text) (claims : Claims) (now : ℕ)
        → plain_crates.jwt_decode secret token now ≡ some claims
        → now ≤ claims.exp + 60
    expires secret [] claims now h = absurd (cc)
    expires secret (exp ∷ rest) claims now h = ground (arith, h)

-- The administrator's password is `o`.
login_example :
    (b'r' ∷ [] ≡ started.auth.inner.username)
    × (Account.verify plain_crates (b'o' ∷ []) started.auth ≡ true)
    × (require_auth plain_deps (some ((cookie_name ++ b'=' ∷ []) ++ root_token)) 5 started
        ≡ ok (b'r' ∷ []))
login_example =
    require_auth-login plain_deps plain-JwtLaws (b'r' ∷ []) (b'o' ∷ []) root_token
      (auth_cookie root_token 86400 false) 1 5 started
      (login plain_deps (b'r' ∷ []) (b'o' ∷ []) 1 started).1
      (unfold login make_jwt plain_crates put_text Account.verify verify_password default_config
          default_auth default_server text_discrete ℕ_discrete in
        refl)
      (unfold default_config default_auth in omega arith) (unfold cookie_name text in ground arith)
      (unfold trim cookie_name text in refl)

-- Somebody without a cookie asks for the clients.
unfoldable stranger : HttpRequest
stranger = record new_port { method = get; path = text "/api/clients"; cookies = none }

guarded_example :
    (serve_http plain_deps plain_extract plain_assets stranger connected
      ≡ (failed unauthorized, connected))
    ⊎ ((find_route stranger.path ≡ none)
        × (serve_http plain_deps plain_extract plain_assets stranger connected
            ≡ (asset (serve_embed plain_assets stranger.path), connected)))
unfolding stranger get_cookie
guarded_example =
    serve_http-guarded plain_deps plain_extract plain_assets stranger connected
      (unfold login_path text in λ h. cc) (λ token h. absurd (cc))
