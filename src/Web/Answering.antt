-- ===== src/Web/Answering.antt =====
-- What answers a request in src/web/mod.rs, over a property of the state.
use mini_mask.Common.{Option, none, some, ok, err}
use mini_mask.State.{AppState}
use mini_mask.Web.Errors.{Response}
use mini_mask.Web.Requests.{forget}
use mini_mask.Web.Values.{Value}
use mini_mask.Web.App.{
  Method, get, head, post, patch, delete, other, Reply, answer, extracted, on_get, on_post,
}

module _ (P : AppState → Type 0) where
  -- What answers a request, over a state with the property.
  pub record Keeps (k : AppState → Reply × AppState) : Type 0 where
    pub keeps : (s : AppState) → P s → P (k s).1

  pub answer-keeps :
      {A : Type 0} (f : A → Value) (r : Response A) → P (forget r).1 → P (answer f r).1
  answer-keeps f (ok v, s) h = h
  answer-keeps f (err x, s) h = h

  pub extracted-Keeps :
      {A : Type 0} (o : Option A) (k : A → AppState → Reply × AppState)
      → ((v : A) → Keeps (k v))
      → Keeps (extracted o k)
  extracted-Keeps none k h = record { keeps = λ s v. v }
  extracted-Keeps (some v) k h = h v

  pub on_get-Keeps : (m : Method) (k : AppState → Reply × AppState) → Keeps k → Keeps (on_get m k)
  on_get-Keeps get k h = h
  on_get-Keeps head k h = h
  on_get-Keeps post k h = record { keeps = λ s v. v }
  on_get-Keeps patch k h = record { keeps = λ s v. v }
  on_get-Keeps delete k h = record { keeps = λ s v. v }
  on_get-Keeps other k h = record { keeps = λ s v. v }

  pub on_post-Keeps : (m : Method) (k : AppState → Reply × AppState) → Keeps k → Keeps (on_post m k)
  on_post-Keeps post k h = h
  on_post-Keeps get k h = record { keeps = λ s v. v }
  on_post-Keeps head k h = record { keeps = λ s v. v }
  on_post-Keeps patch k h = record { keeps = λ s v. v }
  on_post-Keeps delete k h = record { keeps = λ s v. v }
  on_post-Keeps other k h = record { keeps = λ s v. v }
