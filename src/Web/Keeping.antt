-- ===== src/Web/Keeping.antt =====
-- A property of the state that every part of a handler of src/web/routes.rs keeps is kept by every
-- request.
use mini_mask.Common.{
  ℕ, ◌≡◌, refl, Option, none, some, Bool, true, false, ◌++◌, not, Text, text, Result, ok, err,
  if◌then◌else◌, ltb, length, ◌==◌,
}
use mini_mask.Config.{is_empty}
use mathlib.Core.Path.{subst}
use mini_mask.Util.{AnyError}
use mini_mask.Disk.{Disk}
use mini_mask.Auth as Account
use mini_mask.Auth.{AuthStore}
use mini_mask.Store.Model.{PortMapping, ClientStore, find_mapping}
use mini_mask.Store.Ops as Ops
use mini_mask.Store.Calls as Calls
use mini_mask.State.{AppState, Deps, log}
use mini_mask.Tunnel.Listener.{
  add_listener, remove_listener, remove_client_listeners, start_client_listeners,
}
use mini_mask.Web.Errors.{AppError, bad_request, Response, with_clients}
use mini_mask.Web.Trim.{trim}
use mini_mask.Web.Routes.{
  Context, and_then, logged, client_created, store_client, client_updated, client_deleted,
  regenerated, mapping_created, store_mapping, mapping_updated, mapping_deleted, store_password,
  password_changed, listen, client_view, create_client, update_client, delete_client,
  regenerate_token, create_mapping, update_mapping, delete_mapping, change_password,
}
use mini_mask.Web.Requests.{
  Request, creates_client, updates_client, deletes_client, regenerates_token, creates_mapping,
  updates_mapping, deletes_mapping, changes_password, forget, serve,
}

-- The state after a call of the client store.
abbrev pub stored : Deps → Calls.Call → AppState → AppState
stored deps call s =
    let (_, store, d) = Calls.perform deps.client_json deps.crates call s.clients s.disk in
    record s { clients = store; disk = d }

pub record IsKept (deps : Deps) (P : AppState → Type 0) : Type 0 where
  pub store : (call : Calls.Call) (s : AppState) → P s → P (stored deps call s)
  pub account :
      (auth : AuthStore) (d : Disk) (s : AppState) → P s → P (record s { auth = auth; disk = d })
  pub logs :
      (now : ℕ) (level category line : Text) (s : AppState)
      → P s
      → P (log deps now level category line s)
  pub adds :
      (client_id : Text) (m : PortMapping) (s : AppState) → P s → P (add_listener client_id m s).1
  pub starts : (client_id : Text) (s : AppState) → P s → P (start_client_listeners client_id s)
  pub removes : (mapping_id : Text) (s : AppState) → P s → P (remove_listener mapping_id s)
  pub removes_all :
      (client_id : Text) (s : AppState) → P s → P (remove_client_listeners client_id s)

module _ (deps : Deps) (P : AppState → Type 0) (kept : IsKept deps P) (x : Context) where
  -- A response whose state has the property.
  record Kept {A : Type 0} (r : Response A) : Type 0 where
    state : P r.1

  forget-Kept : {A : Type 0} (r : Response A) → Kept r → Kept (forget r)
  forget-Kept (ok a, s) h = record { state = h.state }
  forget-Kept (err e, s) h = record { state = h.state }

  and_then-Kept :
      {A B : Type 0} (r : Response A) (k : A → AppState → Response B)
      → P r.1
      → ((a : A) (s : AppState) → P s → Kept (k a s))
      → Kept (and_then r k)
  and_then-Kept (ok a, s) k h next = next a s h
  and_then-Kept (err e, s) k h next = record { state = h }

  if_keeps : (b : Bool) (s t : AppState) → P s → P t → P (if b then s else t)
  if_keeps true s t h k = h
  if_keeps false s t h k = k

  -- A check that fails leaves the state as it is.
  check-Kept :
      {B : Type 0} (b : Bool) (e : AppError) (s : AppState) (r : Response B)
      → P s
      → Kept r
      → Kept (if b then (err e, s) else r)
  check-Kept true e s r h k = record { state = h }
  check-Kept false e s r h k = k

  logged-Kept :
      {A : Type 0} (level category line : Text) (a : A) (s : AppState)
      → P s
      → Kept (logged deps x level category line a s)
  logged-Kept level category line a s h = record {
    state = kept.logs x.draw.now level category (x.user ++ line) s h;
  }

  client_updated-Kept :
      (id : Text) (enabled found : Bool) (s : AppState)
      → P s
      → Kept (client_updated deps x id enabled found s)
  client_updated-Kept id enabled false s h = record { state = h }
  client_updated-Kept id enabled true s h =
      logged-Kept _ _ _ tt _ (if_keeps enabled _ _ (kept.starts id s h) (kept.removes_all id s h))

  client_deleted-Kept :
      (id : Text) (found : Bool) (s : AppState) → P s → Kept (client_deleted deps x id found s)
  client_deleted-Kept id false s h = record { state = h }
  client_deleted-Kept id true s h = logged-Kept _ _ _ tt _ (kept.removes_all id s h)

  regenerated-Kept :
      (id : Text) (token : Option Text) (s : AppState) → P s → Kept (regenerated deps x id token s)
  regenerated-Kept id none s h = record { state = h }
  regenerated-Kept id (some token) s h = logged-Kept _ _ _ token s h

  mapping_created-Kept :
      (client_id : Text) (m : Option PortMapping) (s : AppState)
      → P s
      → Kept (mapping_created deps x client_id m s)
  mapping_created-Kept client_id none s h = record { state = h }
  mapping_created-Kept client_id (some m) s h =
      logged-Kept _ _ _ m _ (if_keeps m.enabled _ s (kept.adds client_id m s h) h)

  listen_keeps :
      (found : Option (Text × PortMapping)) (s : AppState) → P s → P (listen deps x found s)
  listen_keeps none s h = h
  listen_keeps (some (client_id, m)) s h = kept.adds client_id m s h

  mapping_updated-Kept :
      (id : Text) (enabled found : Bool) (s : AppState)
      → P s
      → Kept (mapping_updated deps x id enabled found s)
  mapping_updated-Kept id enabled false s h = record { state = h }
  mapping_updated-Kept id enabled true s h =
      logged-Kept _ _ _ tt _
        (if_keeps enabled _ _ (listen_keeps (find_mapping id s.clients) s h) (kept.removes id s h))

  mapping_deleted-Kept :
      (id : Text) (found : Bool) (s : AppState) → P s → Kept (mapping_deleted deps x id found s)
  mapping_deleted-Kept id false s h = record { state = h }
  mapping_deleted-Kept id true s h = logged-Kept _ _ _ tt _ (kept.removes id s h)

  -- A call of the store is followed by `k`.
  stored-Kept :
      {A B : Type 0} (r : Result AnyError A × ClientStore × Disk) (k : A → AppState → Response B)
      (call : Calls.Call) (s : AppState)
      → Calls.perform deps.client_json deps.crates call s.clients s.disk ≡ Calls.forget r
      → P s
      → ((a : A) (t : AppState) → P t → Kept (k a t))
      → Kept (and_then (with_clients r s) k)
  stored-Kept r k call s same h next =
      and_then-Kept (with_clients r s) k
        (subst
          (λ (o : Result AnyError (Unit {0}) × ClientStore × Disk).
            P (record s { clients = o.1; disk = o.2 }))
          same (kept.store call s h))
        next

  serve-Kept :
      (ok_addr : Text → Bool) (request : Request) (s : AppState)
      → P s
      → Kept (serve deps ok_addr x request s)
  unfolding serve create_client update_client delete_client regenerate_token create_mapping
      update_mapping delete_mapping change_password Calls.perform
  serve-Kept ok_addr (creates_client name) s h = forget-Kept (create_client deps x name s) (
      check-Kept (is_empty (trim name)) (bad_request (text "name is required")) s
        (store_client deps x name s) h
        (stored-Kept
          (Ops.add_client deps.client_json deps.crates (trim name) s.token_pepper x.draw s.clients
            s.disk)
          (client_created deps x) (Calls.adds_client (trim name) s.token_pepper x.draw) s refl h
          (λ (client, token) t k. logged-Kept _ _ _ (client_view client, token) t k)))
  serve-Kept ok_addr (updates_client id b) s h = forget-Kept (update_client deps x id b s) (
      stored-Kept (Ops.set_client_enabled deps.client_json id b s.clients s.disk)
        (client_updated deps x id b) (Calls.sets_client_enabled id b) s refl h
        (client_updated-Kept id b))
  serve-Kept ok_addr (deletes_client id) s h = forget-Kept (delete_client deps x id s) (
      stored-Kept (Ops.delete_client deps.client_json id s.clients s.disk)
        (client_deleted deps x id) (Calls.deletes_client id) s refl h (client_deleted-Kept id))
  serve-Kept ok_addr (regenerates_token id) s h = forget-Kept (regenerate_token deps x id s) (
      stored-Kept
        (Ops.regenerate_token deps.client_json deps.crates id s.token_pepper x.draw.token_bytes
          s.clients s.disk)
        (regenerated deps x id) (Calls.regenerates_token id s.token_pepper x.draw.token_bytes) s
        refl h (regenerated-Kept id))
  serve-Kept ok_addr (creates_mapping client_id name port addr) s h =
      forget-Kept (create_mapping deps x ok_addr client_id name port addr s) (
        check-Kept (is_empty (trim name)) (bad_request (text "name is required")) s _ h (
          check-Kept (port == 0) (bad_request (text "remote_port is required")) s _ h (
            check-Kept (not (ok_addr addr))
              (bad_request (text "local_addr must be IP:port, e.g. 127.0.0.1:8080")) s
              (store_mapping deps x client_id name port addr s) h
              (stored-Kept
                (Ops.add_mapping deps.client_json deps.crates client_id (trim name) port addr x.draw
                  s.clients s.disk)
                (mapping_created deps x client_id)
                (Calls.adds_mapping client_id (trim name) port addr x.draw) s refl h
                (mapping_created-Kept client_id)))))
  serve-Kept ok_addr (updates_mapping id b) s h = forget-Kept (update_mapping deps x id b s) (
      stored-Kept (Ops.set_mapping_enabled deps.client_json id b s.clients s.disk)
        (mapping_updated deps x id b) (Calls.sets_mapping_enabled id b) s refl h
        (mapping_updated-Kept id b))
  serve-Kept ok_addr (deletes_mapping id) s h = forget-Kept (delete_mapping deps x id s) (
      stored-Kept (Ops.delete_mapping deps.client_json id s.clients s.disk)
        (mapping_deleted deps x id) (Calls.deletes_mapping id) s refl h (mapping_deleted-Kept id))
  serve-Kept ok_addr (changes_password old new) s h =
      forget-Kept (change_password deps x old new s) (
        check-Kept (ltb (length new) 6)
          (bad_request (text "new password must be at least 6 characters")) s _ h
          (check-Kept (not (Account.verify deps.crates old s.auth))
            (bad_request (text "old password incorrect")) s (store_password deps x new s) h
            (and_then-Kept _ (password_changed deps x)
              (kept.account
                (Account.change_password deps.auth_json deps.crates new x.salt s.auth s.disk).1
                (Account.change_password deps.auth_json deps.crates new x.salt s.auth s.disk).2 s h)
              (λ _ t k. logged-Kept _ _ _ tt t k))))

  pub serve_keeps :
      (ok_addr : Text → Bool) (request : Request) (s : AppState)
      → P s
      → P (serve deps ok_addr x request s).1
  serve_keeps ok_addr request s h = (serve-Kept ok_addr request s h).state
