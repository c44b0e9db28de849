-- ===== src/Web/Serving.antt =====
-- A property of the state that the requests of src/web/routes.rs keep is kept by whatever the router of
-- src/web/mod.rs is sent.
use mini_mask.Common.{
  ℕ, Option, none, some, Bool, true, false, ◌&&◌, Text, text, text_eq, Result, ok, err, ◌++◌,
  if◌then◌else◌,
}
use mini_mask.Auth as Account
use mini_mask.Util.{AnyError, make_jwt}
use mini_mask.State.{AppState, Deps, log}
use mini_mask.Web.Errors.{AppError, unauthorized, Response}
use mini_mask.Web.Routes.{Context, list_logs}
use mini_mask.Web.Keeping.{IsKept}
use mini_mask.Web.Values.{
  user, logs, stats, sessions, settings, build_stats_value, list_sessions, get_settings, ws_handler,
}
use mini_mask.Web.App
use mini_mask.Web.Answering.{Keeps, extracted-Keeps, on_get-Keeps, on_post-Keeps}
use mini_mask.Web.Handling.{
  creates_client-Keeps, updates_client-Keeps, deletes_client-Keeps, regenerates_token-Keeps,
  creates_mapping-Keeps, updates_mapping-Keeps, deletes_mapping-Keeps, changes_password-Keeps,
  enables-Keeps,
}
use mini_mask.Web.Paths.{
  Route, me, logout, all_clients, all_mappings, all_logs, all_stats, all_sessions, all_settings,
  password, ws, one_client, client_token, one_mapping, Endpoint, public_login, guarded, find_route,
}
use mini_mask.Web.Cookies.{login, signed, logged_in, require_auth}
use mini_mask.Web.Assets.{Assets}
use mini_mask.Web.App.{
  Method, get, head, post, patch, delete, other, HttpRequest, Extract, Reply, answer, extracted,
  on_get, on_post, posts_client, patches_client, deletes_one_client, posts_token, posts_mapping,
  patches_mapping, deletes_one_mapping, posts_password, gets_ws, on_clients, enables, switching,
  unreadable, done, value, logs_in, on_mappings, on_one_client, on_one_mapping, dispatch, context,
  authorized, posts_login, logged_in_as, served, serve_http,
}

module _ (deps : Deps) (e : Extract) (a : Assets) (P : AppState → Type 0) (kept : IsKept deps P)
    (subscribes : (s : AppState) → P s → P (ws_handler s)) where
  module _ (q : HttpRequest) (x : Context) where
    -- One route each.
    unchanged : (m : Method) (v : AppState → Reply) → Keeps P (on_get m (λ s. (v s, s)))
    unchanged m v = on_get-Keeps P m (λ s. (v s, s)) (record { keeps = λ s h. h })

    on_clients-Keeps : (m : Method) → Keeps P (on_clients deps e a q x m)
    on_clients-Keeps get = record { keeps = λ s v. v }
    on_clients-Keeps head = record { keeps = λ s v. v }
    on_clients-Keeps post =
        extracted-Keeps P (e.create_client_req q.content_type q.body)
          (App.creates_client deps e a x) (creates_client-Keeps deps e a P kept q x)
    on_clients-Keeps patch = record { keeps = λ s v. v }
    on_clients-Keeps delete = record { keeps = λ s v. v }
    on_clients-Keeps other = record { keeps = λ s v. v }

    on_mappings-Keeps : (m : Method) → Keeps P (on_mappings deps e a q x m)
    on_mappings-Keeps get = record { keeps = λ s v. v }
    on_mappings-Keeps head = record { keeps = λ s v. v }
    on_mappings-Keeps post =
        extracted-Keeps P (e.create_mapping_req q.content_type q.body)
          (App.creates_mapping deps e a x) (creates_mapping-Keeps deps e a P kept q x)
    on_mappings-Keeps patch = record { keeps = λ s v. v }
    on_mappings-Keeps delete = record { keeps = λ s v. v }
    on_mappings-Keeps other = record { keeps = λ s v. v }

    on_one_client-Keeps : (id : Text) (m : Method) → Keeps P (on_one_client deps e a q x id m)
    on_one_client-Keeps id get = record { keeps = λ s v. v }
    on_one_client-Keeps id head = record { keeps = λ s v. v }
    on_one_client-Keeps id post = record { keeps = λ s v. v }
    on_one_client-Keeps id patch =
        extracted-Keeps P (e.path_param id) (enables deps e a q x (App.updates_client deps e a x)) (
          enables-Keeps deps e a P kept q x (App.updates_client deps e a x)
            (updates_client-Keeps deps e a P kept q x))
    on_one_client-Keeps id delete =
        extracted-Keeps P (e.path_param id) (App.deletes_client deps e a x)
          (deletes_client-Keeps deps e a P kept q x)
    on_one_client-Keeps id other = record { keeps = λ s v. v }

    on_one_mapping-Keeps : (id : Text) (m : Method) → Keeps P (on_one_mapping deps e a q x id m)
    on_one_mapping-Keeps id get = record { keeps = λ s v. v }
    on_one_mapping-Keeps id head = record { keeps = λ s v. v }
    on_one_mapping-Keeps id post = record { keeps = λ s v. v }
    on_one_mapping-Keeps id patch =
        extracted-Keeps P (e.path_param id) (enables deps e a q x (App.updates_mapping deps e a x))
          (enables-Keeps deps e a P kept q x (App.updates_mapping deps e a x)
            (updates_mapping-Keeps deps e a P kept q x))
    on_one_mapping-Keeps id delete =
        extracted-Keeps P (e.path_param id) (App.deletes_mapping deps e a x)
          (deletes_mapping-Keeps deps e a P kept q x)
    on_one_mapping-Keeps id other = record { keeps = λ s v. v }

    gets_ws-Keeps :
        (b : Bool) → Keeps P (λ s. if b then (switching, ws_handler s) else (unreadable, s))
    gets_ws-Keeps true = record { keeps = subscribes }
    gets_ws-Keeps false = record { keeps = λ s v. v }

    dispatch-Keeps : (r : Route) → Keeps P (dispatch deps e a q x r)
    unfolding dispatch
    dispatch-Keeps me = unchanged q.method (λ s. value (user x.user) none)
    dispatch-Keeps logout = on_post-Keeps P q.method _ (record { keeps = λ s v. v })
    dispatch-Keeps all_clients = on_clients-Keeps q.method
    dispatch-Keeps all_mappings = on_mappings-Keeps q.method
    dispatch-Keeps all_logs = unchanged q.method (λ s. value (logs (list_logs s)) none)
    dispatch-Keeps all_stats = unchanged q.method (λ s. value (stats (build_stats_value s)) none)
    dispatch-Keeps all_sessions = unchanged q.method (λ s. value (sessions (list_sessions s)) none)
    dispatch-Keeps all_settings = unchanged q.method (λ s. value (settings (get_settings s)) none)
    dispatch-Keeps password = on_post-Keeps P q.method (posts_password deps e a q x) (
        extracted-Keeps P (e.change_password_req q.content_type q.body)
          (App.changes_password deps e a x) (changes_password-Keeps deps e a P kept q x))
    dispatch-Keeps ws = on_get-Keeps P q.method (gets_ws deps e a q x) (gets_ws-Keeps q.upgrades)
    dispatch-Keeps (one_client id) = on_one_client-Keeps id q.method
    dispatch-Keeps (client_token id) = on_post-Keeps P q.method (posts_token deps e a q x id) (
        extracted-Keeps P (e.path_param id) (App.regenerates_token deps e a x)
          (regenerates_token-Keeps deps e a P kept q x))
    dispatch-Keeps (one_mapping id) = on_one_mapping-Keeps id q.method

  -- A login changes nothing but the log.
  logged_in_as-keeps :
      (username : Text) (r : Response (Text × Text))
      → P r.1
      → P (logged_in_as deps e a username r).1
  logged_in_as-keeps username (ok (_, cookie), s) h = h
  logged_in_as-keeps username (err x, s) h = h

  signed-keeps :
      (now : ℕ) (s : AppState) (r : Result AnyError Text) → P s → P (signed deps now s r).1
  signed-keeps now s (ok _) v = kept.logs now (text "info") (text "auth") _ s v
  signed-keeps now s (err x) v = v

  login-keeps :
      (username pass : Text) (now : ℕ) (s : AppState) → P s → P (login deps username pass now s).1
  unfolding login
  login-keeps username pass now s v =
      checked (text_eq username s.auth.inner.username && Account.verify deps.crates pass s.auth)
    where
      checked :
          (b : Bool)
          → P
              (if b then logged_in deps now s else (
                err unauthorized,
                log deps now
                    (text "warn")
                    (text "auth")
                    (text "failed login attempt for '" ++ username ++ text "'")
                    s,
              )).1
      checked true =
          signed-keeps now s
            (make_jwt deps.crates s.auth.inner.username s.config.auth.jwt_secret
              s.config.auth.token_ttl_hours now)
            v
      checked false = kept.logs now (text "warn") (text "auth") _ s v

  logs_in-Keeps : (now : ℕ) (p : Text × Text) → Keeps P (logs_in deps e a now p)
  logs_in-Keeps now (username, pass) = record {
    keeps = λ s v.
        logged_in_as-keeps username (login deps username pass now s)
          (login-keeps username pass now s v);
  }

  authorized-Keeps :
      (q : HttpRequest) (r : Route) (o : Result AppError Text) → Keeps P (authorized deps e a q r o)
  authorized-Keeps q r (ok username) = dispatch-Keeps q (context deps e a q username) r
  authorized-Keeps q r (err x) = record { keeps = λ s v. v }

  served-keeps :
      (q : HttpRequest) (found : Option Endpoint) (s : AppState)
      → P s
      → P (served deps e a q found s).1
  served-keeps q none s v = v
  served-keeps q (some public_login) s v =
      (on_post-Keeps P q.method (posts_login deps e a q) (
          extracted-Keeps P (e.login_req q.content_type q.body) (logs_in deps e a q.draw.now)
            (logs_in-Keeps q.draw.now))).keeps
        s v
  served-keeps q (some (guarded r)) s v =
      (authorized-Keeps q r (require_auth deps q.cookies q.draw.now s)).keeps s v

  pub serve_http-keeps : (q : HttpRequest) (s : AppState) → P s → P (serve_http deps e a q s).1
  unfolding serve_http
  serve_http-keeps q s v = served-keeps q (find_route q.path) s v
