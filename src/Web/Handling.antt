-- ===== src/Web/Handling.antt =====
-- A property of the state that the requests of src/web/routes.rs keep is kept by the handlers as the
-- router of src/web/mod.rs calls them.
use mini_mask.Common.{ℕ, Bool, Text}
use mini_mask.State.{AppState, Deps}
use mini_mask.Web.Routes.{
  Context, create_client, update_client, delete_client, regenerate_token, create_mapping,
  update_mapping, delete_mapping, change_password,
}
use mini_mask.Web.Requests.{
  Request, creates_client, updates_client, deletes_client, regenerates_token, creates_mapping,
  updates_mapping, deletes_mapping, changes_password, serve,
}
use mini_mask.Web.Keeping.{IsKept, serve_keeps}
use mini_mask.Web.Values.{client_with_token, token, mapping}
use mini_mask.Web.App
use mini_mask.Web.Answering.{Keeps, answer-keeps, extracted-Keeps}
use mini_mask.Web.Assets.{Assets}
use mini_mask.Web.App.{HttpRequest, Extract, Reply, enables, done}

module _ (deps : Deps) (e : Extract) (a : Assets) (P : AppState → Type 0) (kept : IsKept deps P)
    (q : HttpRequest) (x : Context) where
  request-keeps :
      (request : Request) (s : AppState) → P s → P (serve deps e.is_socket_addr x request s).1
  request-keeps request s v = serve_keeps deps P kept x e.is_socket_addr request s v

  pub creates_client-Keeps : (name : Text) → Keeps P (App.creates_client deps e a x name)
  unfolding serve
  creates_client-Keeps name = record {
    keeps = λ s v.
        answer-keeps P client_with_token (create_client deps x name s)
          (request-keeps (creates_client name) s v);
  }

  pub updates_client-Keeps :
      (id : Text) (enabled : Bool) → Keeps P (App.updates_client deps e a x id enabled)
  unfolding serve
  updates_client-Keeps id enabled = record {
    keeps = λ s v.
        answer-keeps P done (update_client deps x id enabled s)
          (request-keeps (updates_client id enabled) s v);
  }

  pub deletes_client-Keeps : (id : Text) → Keeps P (App.deletes_client deps e a x id)
  unfolding serve
  deletes_client-Keeps id = record {
    keeps = λ s v.
        answer-keeps P done (delete_client deps x id s) (request-keeps (deletes_client id) s v);
  }

  pub regenerates_token-Keeps : (id : Text) → Keeps P (App.regenerates_token deps e a x id)
  unfolding serve
  regenerates_token-Keeps id = record {
    keeps = λ s v.
        answer-keeps P token (regenerate_token deps x id s)
          (request-keeps (regenerates_token id) s v);
  }

  pub creates_mapping-Keeps :
      (m : Text × Text × ℕ × Text) → Keeps P (App.creates_mapping deps e a x m)
  unfolding serve
  creates_mapping-Keeps (client_id, name, port, addr) = record {
    keeps = λ s v.
        answer-keeps P mapping (create_mapping deps x e.is_socket_addr client_id name port addr s)
          (request-keeps (creates_mapping client_id name port addr) s v);
  }

  pub updates_mapping-Keeps :
      (id : Text) (enabled : Bool) → Keeps P (App.updates_mapping deps e a x id enabled)
  unfolding serve
  updates_mapping-Keeps id enabled = record {
    keeps = λ s v.
        answer-keeps P done (update_mapping deps x id enabled s)
          (request-keeps (updates_mapping id enabled) s v);
  }

  pub deletes_mapping-Keeps : (id : Text) → Keeps P (App.deletes_mapping deps e a x id)
  unfolding serve
  deletes_mapping-Keeps id = record {
    keeps = λ s v.
        answer-keeps P done (delete_mapping deps x id s) (request-keeps (deletes_mapping id) s v);
  }

  pub changes_password-Keeps : (p : Text × Text) → Keeps P (App.changes_password deps e a x p)
  unfolding serve
  changes_password-Keeps (old, new) = record {
    keeps = λ s v.
        answer-keeps P done (change_password deps x old new s)
          (request-keeps (changes_password old new) s v);
  }

  pub enables-Keeps :
      (k : Text → Bool → AppState → Reply × AppState)
      → ((id : Text) (enabled : Bool) → Keeps P (k id enabled))
      → (id : Text) → Keeps P (enables deps e a q x k id)
  enables-Keeps k h id =
      extracted-Keeps P (e.update_enabled_req q.content_type q.body) (k id) (h id)
