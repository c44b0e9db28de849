-- ===== src/Web/App.antt =====
-- The router of src/web/mod.rs, with the handlers behind it.
use mini_mask.Common.{ℕ, List, Option, none, some, Bool, Text, Result, ok, err, if◌then◌else◌}
use mini_mask.Store.Ops.{Draw}
use mini_mask.State.{AppState, Deps}
use mini_mask.Web.Errors.{AppError, Response}
use mini_mask.Web.Routes.{
  Context, list_clients, list_mappings, list_logs, create_client, update_client, delete_client,
  regenerate_token, create_mapping, update_mapping, delete_mapping, change_password,
}
use mini_mask.Web.Values.{
  Value, is_ok, user, clients, client_with_token, token, mappings, mapping, logs, stats, sessions,
  settings, list_sessions, build_stats_value, get_settings, ws_handler,
}
use mini_mask.Web.Paths.{
  Route, me, logout, all_clients, all_mappings, all_logs, all_stats, all_sessions, all_settings,
  password, ws, one_client, client_token, one_mapping, Endpoint, public_login, guarded, find_route,
}
use mini_mask.Web.Assets.{Assets, Page, serve_embed}
use mini_mask.Web.Cookies.{require_auth, login, cleared_cookie}

-- The methods that the router tells apart.
pub data Method : Type 0 where
  get head post patch delete other : Method

-- A request. `draw` and `salt` are the time and what is random when it is served.
pub record HttpRequest : Type 0 where
  pub method : Method
  pub path : Text
  pub cookies : Option Text
  pub content_type : Option Text
  pub body : List ℕ
  pub upgrades : Bool
  pub draw : Draw
  pub salt : Text

-- axum's extractors: the bodies by their type, from the content type and the bytes; a parameter of the
-- path; and what parses as a socket address. None is a refusal by axum.
pub record Extract : Type 0 where
  pub login_req : Option Text → List ℕ → Option (Text × Text)
  pub create_client_req : Option Text → List ℕ → Option Text
  pub update_enabled_req : Option Text → List ℕ → Option Bool
  pub create_mapping_req : Option Text → List ℕ → Option (Text × Text × ℕ × Text)
  pub change_password_req : Option Text → List ℕ → Option (Text × Text)
  pub path_param : Text → Option Text
  pub is_socket_addr : Text → Bool

-- The answers: a value, with `Set-Cookie` if there is one; an error of the program's; a refusal by an
-- extractor; a method that the route does not have; a socket; a file, or none.
pub data Reply : Type 0 where
  value : Value → (set_cookie : Option Text) → Reply
  failed : AppError → Reply
  unreadable not_allowed switching : Reply
  asset : Option Page → Reply

abbrev pub answer : {A : Type 0} → (A → Value) → Response A → Reply × AppState
answer f (ok a, s) = (value (f a) none, s)
answer f (err e, s) = (failed e, s)

abbrev pub done : Unit {0} → Value
done _ = is_ok

-- What an extractor gives to a handler.
abbrev pub extracted :
    {A : Type 0} → Option A → (A → AppState → Reply × AppState) → AppState → Reply × AppState
extracted none k s = (unreadable, s)
extracted (some a) k s = k a s

abbrev pub shows : Value → AppState → Reply × AppState
shows v s = (value v none, s)

-- `get(handler)` and the like; a HEAD is served as a GET, whose body is dropped afterwards.
abbrev pub on_get : Method → (AppState → Reply × AppState) → AppState → Reply × AppState
on_get get k s = k s
on_get head k s = k s
on_get _ k s = (not_allowed, s)

abbrev pub on_post : Method → (AppState → Reply × AppState) → AppState → Reply × AppState
on_post post k s = k s
on_post _ k s = (not_allowed, s)

module _ (deps : Deps) (e : Extract) (a : Assets) where
  -- The handlers, behind their extractors.
  module _ (x : Context) where
    abbrev pub creates_client : Text → AppState → Reply × AppState
    creates_client name s = answer client_with_token (create_client deps x name s)

    abbrev pub updates_client : Text → Bool → AppState → Reply × AppState
    updates_client id enabled s = answer done (update_client deps x id enabled s)

    abbrev pub deletes_client : Text → AppState → Reply × AppState
    deletes_client id s = answer done (delete_client deps x id s)

    abbrev pub regenerates_token : Text → AppState → Reply × AppState
    regenerates_token id s = answer token (regenerate_token deps x id s)

    abbrev pub creates_mapping : Text × Text × ℕ × Text → AppState → Reply × AppState
    creates_mapping (client_id, name, port, addr) s =
        answer mapping (create_mapping deps x e.is_socket_addr client_id name port addr s)

    abbrev pub updates_mapping : Text → Bool → AppState → Reply × AppState
    updates_mapping id enabled s = answer done (update_mapping deps x id enabled s)

    abbrev pub deletes_mapping : Text → AppState → Reply × AppState
    deletes_mapping id s = answer done (delete_mapping deps x id s)

    abbrev pub changes_password : Text × Text → AppState → Reply × AppState
    changes_password (old, new) s = answer done (change_password deps x old new s)

  module _ (q : HttpRequest) (x : Context) where
    abbrev pub posts_client : AppState → Reply × AppState
    posts_client = extracted (e.create_client_req q.content_type q.body) (creates_client x)

    -- A parameter of the path comes before the body.
    abbrev pub enables :
        (Text → Bool → AppState → Reply × AppState) → Text → AppState → Reply × AppState
    enables k id = extracted (e.update_enabled_req q.content_type q.body) (k id)

    abbrev pub patches_client : Text → AppState → Reply × AppState
    patches_client raw = extracted (e.path_param raw) (enables (updates_client x))

    abbrev pub deletes_one_client : Text → AppState → Reply × AppState
    deletes_one_client raw = extracted (e.path_param raw) (deletes_client x)

    abbrev pub posts_token : Text → AppState → Reply × AppState
    posts_token raw = extracted (e.path_param raw) (regenerates_token x)

    abbrev pub posts_mapping : AppState → Reply × AppState
    posts_mapping = extracted (e.create_mapping_req q.content_type q.body) (creates_mapping x)

    abbrev pub patches_mapping : Text → AppState → Reply × AppState
    patches_mapping raw = extracted (e.path_param raw) (enables (updates_mapping x))

    abbrev pub deletes_one_mapping : Text → AppState → Reply × AppState
    deletes_one_mapping raw = extracted (e.path_param raw) (deletes_mapping x)

    abbrev pub posts_password : AppState → Reply × AppState
    posts_password = extracted (e.change_password_req q.content_type q.body) (changes_password x)

    abbrev pub gets_ws : AppState → Reply × AppState
    gets_ws s = if q.upgrades then (switching, ws_handler s) else (unreadable, s)

    abbrev pub on_clients : Method → AppState → Reply × AppState
    on_clients get s = shows (clients (list_clients s)) s
    on_clients head s = shows (clients (list_clients s)) s
    on_clients post s = posts_client s
    on_clients _ s = (not_allowed, s)

    abbrev pub on_mappings : Method → AppState → Reply × AppState
    on_mappings get s = shows (mappings (list_mappings s)) s
    on_mappings head s = shows (mappings (list_mappings s)) s
    on_mappings post s = posts_mapping s
    on_mappings _ s = (not_allowed, s)

    abbrev pub on_one_client : Text → Method → AppState → Reply × AppState
    on_one_client id patch s = patches_client id s
    on_one_client id delete s = deletes_one_client id s
    on_one_client id _ s = (not_allowed, s)

    abbrev pub on_one_mapping : Text → Method → AppState → Reply × AppState
    on_one_mapping id patch s = patches_mapping id s
    on_one_mapping id delete s = deletes_one_mapping id s
    on_one_mapping id _ s = (not_allowed, s)

    unfoldable pub dispatch : Route → AppState → Reply × AppState
    dispatch me s = on_get q.method (shows (user x.user)) s
    dispatch logout s = on_post q.method (λ t. (value is_ok (some cleared_cookie), t)) s
    dispatch all_clients s = on_clients q.method s
    dispatch all_mappings s = on_mappings q.method s
    dispatch all_logs s = on_get q.method (λ t. shows (logs (list_logs t)) t) s
    dispatch all_stats s = on_get q.method (λ t. shows (stats (build_stats_value t)) t) s
    dispatch all_sessions s = on_get q.method (λ t. shows (sessions (list_sessions t)) t) s
    dispatch all_settings s = on_get q.method (λ t. shows (settings (get_settings t)) t) s
    dispatch password s = on_post q.method posts_password s
    dispatch ws s = on_get q.method gets_ws s
    dispatch (one_client id) s = on_one_client id q.method s
    dispatch (client_token id) s = on_post q.method (posts_token id) s
    dispatch (one_mapping id) s = on_one_mapping id q.method s

  abbrev pub context : HttpRequest → (user : Text) → Context
  context q username = record { user = username; draw = q.draw; salt = q.salt }

  -- The layer in front of the routes, which covers the methods that they do not have, too.
  abbrev pub authorized : HttpRequest → Route → Result AppError Text → AppState → Reply × AppState
  authorized q r (err refusal) s = (failed refusal, s)
  authorized q r (ok username) s = dispatch q (context q username) r s

  abbrev pub logged_in_as : Text → Response (Text × Text) → Reply × AppState
  logged_in_as username (ok (_, cookie), s) = (value (user username) (some cookie), s)
  logged_in_as username (err refusal, s) = (failed refusal, s)

  abbrev pub logs_in : (now : ℕ) → Text × Text → AppState → Reply × AppState
  logs_in now (username, pass) s = logged_in_as username (login deps username pass now s)

  abbrev pub posts_login : HttpRequest → AppState → Reply × AppState
  posts_login q = extracted (e.login_req q.content_type q.body) (logs_in q.draw.now)

  abbrev pub served : HttpRequest → Option Endpoint → AppState → Reply × AppState
  served q none s = (asset (serve_embed a q.path), s)
  served q (some public_login) s = on_post q.method (posts_login q) s
  served q (some (guarded r)) s = authorized q r (require_auth deps q.cookies q.draw.now s) s

  unfoldable pub serve_http : HttpRequest → AppState → Reply × AppState
  serve_http q s = served q (find_route q.path) s
