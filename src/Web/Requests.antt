-- ===== src/Web/Requests.antt =====
-- The requests of src/web/routes.rs that may change the state, as one type.
use mini_mask.Common.{ℕ, Bool, Text, ok, err}
use mini_mask.State.{AppState, Deps}
use mini_mask.Web.Errors.{Response}
use mini_mask.Web.Routes.{
  Context, create_client, update_client, delete_client, regenerate_token, create_mapping,
  update_mapping, delete_mapping, change_password,
}

pub data Request : Type 0 where
  creates_client : (name : Text) → Request
  updates_client : (id : Text) → Bool → Request
  deletes_client : (id : Text) → Request
  regenerates_token : (id : Text) → Request
  creates_mapping : (client_id name : Text) (remote_port : ℕ) (local_addr : Text) → Request
  updates_mapping : (id : Text) → Bool → Request
  deletes_mapping : (id : Text) → Request
  changes_password : (old new : Text) → Request

-- A response without its value.
abbrev pub forget : {A : Type 0} → Response A → Response (Unit {0})
forget (ok a, s) = (ok tt, s)
forget (err e, s) = (err e, s)

unfoldable pub serve :
    Deps → (is_socket_addr : Text → Bool) → Context → Request → AppState → Response (Unit {0})
serve deps ok_addr x (creates_client name) s = forget (create_client deps x name s)
serve deps ok_addr x (updates_client id b) s = forget (update_client deps x id b s)
serve deps ok_addr x (deletes_client id) s = forget (delete_client deps x id s)
serve deps ok_addr x (regenerates_token id) s = forget (regenerate_token deps x id s)
serve deps ok_addr x (creates_mapping client_id name port addr) s =
    forget (create_mapping deps x ok_addr client_id name port addr s)
serve deps ok_addr x (updates_mapping id b) s = forget (update_mapping deps x id b s)
serve deps ok_addr x (deletes_mapping id) s = forget (delete_mapping deps x id s)
serve deps ok_addr x (changes_password old new) s = forget (change_password deps x old new s)
