-- ===== src/Web/Routes.antt =====
-- The handlers of src/web/routes.rs that change the state. `user` is the name in the request's token.
use mini_mask.Common.{
  ℕ, List, ◌++◌, map, Option, none, some, Bool, true, false, not, Text, text, decimal, Result, ok,
  err, length, ltb, ◌==◌, if◌then◌else◌,
}
use mini_mask.Util.{AnyError}
use mini_mask.Disk.{Disk}
use mini_mask.Config.{is_empty}
use mini_mask.Auth as Account
use mini_mask.Audit.{AuditLog}
use mini_mask.Store.Model.{Client, PortMapping, MappingView, mapping_views, find_mapping}
use mini_mask.Store.Ops as Ops
use mini_mask.Store.Ops.{Draw}
use mini_mask.State.{AppState, Deps, log}
use mini_mask.Tunnel.Listener.{
  add_listener, remove_listener, remove_client_listeners, start_client_listeners,
}
use mini_mask.Web.Errors.{not_found, bad_request, conflict, Response, lift, with_clients}
use mini_mask.Web.Trim.{trim}

pub record ClientView : Type 0 where
  pub id : Text
  pub name : Text
  pub token_prefix : Text
  pub enabled : Bool
  pub created_at : ℕ
  pub mappings : List PortMapping

abbrev pub client_view : Client → ClientView
client_view c = record {
  id = c.id;
  name = c.name;
  token_prefix = c.token_prefix;
  enabled = c.enabled;
  created_at = c.created_at;
  mappings = c.mappings;
}

unfoldable pub list_clients : AppState → List ClientView
list_clients s = map client_view s.clients.list

unfoldable pub list_mappings : AppState → List MappingView
list_mappings s = mapping_views s.clients

unfoldable pub list_logs : AppState → List AuditLog
list_logs s = s.logs.logs

-- What a handler takes beside the request: the user, the time, and what is random.
pub record Context : Type 0 where
  pub user : Text
  pub draw : Draw
  pub salt : Text

-- `{new}` and `{old}` of a log line.
abbrev pub onoff : Bool → Text
onoff true = text "true"
onoff false = text "false"

-- What follows a call that may fail.
abbrev pub and_then : {A B : Type 0} → Response A → (A → AppState → Response B) → Response B
and_then (ok a, s) k = k a s
and_then (err e, s) k = (err e, s)

-- The log line at the end of a handler.
abbrev pub logged :
    {A : Type 0} → Deps → Context → (level category line : Text) → A → AppState → Response A
logged deps x level category line a s =
    (ok a, log deps x.draw.now level category (x.user ++ line) s)

-- Behind each call of the store or the account stands what the handler does with its value; `false` and
-- none are a 404, for a new mapping a 409.
module _ (deps : Deps) (x : Context) where
  abbrev pub client_created : Client × Text → AppState → Response (ClientView × Text)
  client_created (client, token) s =
      logged deps x (text "info") (text "client")
        (text " created client " ++ client.id ++ text " (" ++ client.name ++ text ")")
        (client_view client, token) s

  abbrev pub store_client : Text → AppState → Response (ClientView × Text)
  store_client name s =
      and_then
        (with_clients
          (Ops.add_client deps.client_json deps.crates (trim name) s.token_pepper x.draw s.clients
            s.disk)
          s)
        client_created

  unfoldable pub create_client : Text → AppState → Response (ClientView × Text)
  create_client name s =
      if is_empty (trim name)
      then (err (bad_request (text "name is required")), s)
      else store_client name s

  abbrev pub client_updated : Text → Bool → Bool → AppState → Response (Unit {0})
  client_updated id enabled false s = (err not_found, s)
  client_updated id enabled true s =
      logged deps x (text "info") (text "client")
        (text " set client " ++ id ++ text " enabled=" ++ onoff enabled) tt
        (if enabled then start_client_listeners id s else remove_client_listeners id s)

  unfoldable pub update_client : Text → Bool → AppState → Response (Unit {0})
  update_client id enabled s =
      and_then
        (with_clients (Ops.set_client_enabled deps.client_json id enabled s.clients s.disk) s)
        (client_updated id enabled)

  abbrev pub client_deleted : Text → Bool → AppState → Response (Unit {0})
  client_deleted id false s = (err not_found, s)
  client_deleted id true s =
      logged deps x (text "warn") (text "client") (text " deleted client " ++ id) tt
        (remove_client_listeners id s)

  unfoldable pub delete_client : Text → AppState → Response (Unit {0})
  delete_client id s =
      and_then (with_clients (Ops.delete_client deps.client_json id s.clients s.disk) s)
        (client_deleted id)

  abbrev pub regenerated : Text → Option Text → AppState → Response Text
  regenerated id none s = (err not_found, s)
  regenerated id (some token) s =
      logged deps x (text "warn") (text "client") (text " regenerated token for client " ++ id)
        token s

  unfoldable pub regenerate_token : Text → AppState → Response Text
  regenerate_token id s =
      and_then
        (with_clients
          (Ops.regenerate_token deps.client_json deps.crates id s.token_pepper x.draw.token_bytes
            s.clients s.disk)
          s)
        (regenerated id)

  abbrev pub mapping_created : Text → Option PortMapping → AppState → Response PortMapping
  mapping_created client_id none s =
      (err (conflict (text "remote_port already in use or client not found")), s)
  mapping_created client_id (some m) s =
      logged deps x (text "info") (text "mapping")
        (text " created mapping "
          ++ m.id
          ++ text " ("
          ++ m.local_addr
          ++ text " -> :"
          ++ decimal m.remote_port
          ++ text ")")
        m (if m.enabled then (add_listener client_id m s).1 else s)

  abbrev pub store_mapping : (client_id name : Text) → ℕ → Text → AppState → Response PortMapping
  store_mapping client_id name remote_port local_addr s =
      and_then
        (with_clients
          (Ops.add_mapping deps.client_json deps.crates client_id (trim name) remote_port local_addr
            x.draw s.clients s.disk)
          s)
        (mapping_created client_id)

  -- `is_socket_addr` says whether a text parses as a `SocketAddr`.
  unfoldable pub create_mapping :
      (is_socket_addr : Text → Bool) (client_id name : Text) (remote_port : ℕ) (local_addr : Text)
      → AppState
      → Response PortMapping
  create_mapping is_socket_addr client_id name remote_port local_addr s =
      if is_empty (trim name)
      then (err (bad_request (text "name is required")), s)
      else if remote_port == 0
      then (err (bad_request (text "remote_port is required")), s)
      else if not (is_socket_addr local_addr)
      then (err (bad_request (text "local_addr must be IP:port, e.g. 127.0.0.1:8080")), s)
      else store_mapping client_id name remote_port local_addr s

  -- `if let Some((cid, m)) = find_mapping(&id)`.
  abbrev pub listen : Option (Text × PortMapping) → AppState → AppState
  listen none s = s
  listen (some (client_id, m)) s = (add_listener client_id m s).1

  abbrev pub mapping_updated : Text → Bool → Bool → AppState → Response (Unit {0})
  mapping_updated id enabled false s = (err not_found, s)
  mapping_updated id enabled true s =
      logged deps x (text "info") (text "mapping")
        (text " set mapping " ++ id ++ text " enabled=" ++ onoff enabled) tt
        (if enabled then listen (find_mapping id s.clients) s else remove_listener id s)

  unfoldable pub update_mapping : Text → Bool → AppState → Response (Unit {0})
  update_mapping id enabled s =
      and_then
        (with_clients (Ops.set_mapping_enabled deps.client_json id enabled s.clients s.disk) s)
        (mapping_updated id enabled)

  abbrev pub mapping_deleted : Text → Bool → AppState → Response (Unit {0})
  mapping_deleted id false s = (err not_found, s)
  mapping_deleted id true s =
      logged deps x (text "warn") (text "mapping") (text " deleted mapping " ++ id) tt
        (remove_listener id s)

  unfoldable pub delete_mapping : Text → AppState → Response (Unit {0})
  delete_mapping id s =
      and_then (with_clients (Ops.delete_mapping deps.client_json id s.clients s.disk) s)
        (mapping_deleted id)

  abbrev pub with_account :
      {A : Type 0} → Result AnyError A × Account.AuthStore × Disk → AppState → Response A
  with_account (r, auth, d) s = (lift r, record s { auth = auth; disk = d })

  abbrev pub password_changed : Unit {0} → AppState → Response (Unit {0})
  password_changed _ s =
      logged deps x (text "warn") (text "auth") (text " changed admin password") tt s

  abbrev pub store_password : Text → AppState → Response (Unit {0})
  store_password new_password s =
      and_then
        (with_account
          (Account.change_password deps.auth_json deps.crates new_password x.salt s.auth s.disk) s)
        password_changed

  -- The length is that of the bytes.
  unfoldable pub change_password :
      (old_password new_password : Text) → AppState → Response (Unit {0})
  change_password old_password new_password s =
      if ltb (length new_password) 6
      then (err (bad_request (text "new password must be at least 6 characters")), s)
      else if not (Account.verify deps.crates old_password s.auth)
      then (err (bad_request (text "old password incorrect")), s)
      else store_password new_password s
