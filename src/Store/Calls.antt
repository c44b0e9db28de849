-- ===== src/Store/Calls.antt =====
-- The changing operations of `ClientStore` (src/state.rs) as one type of calls.
use mini_mask.Common.{ℕ, List, [], ◌∷◌, Bool, Text, ok, err}
use mini_mask.Util.{Crates}
use mini_mask.Disk.{Disk}
use mini_mask.Store.Model.{ClientStore, ClientJson}
use mini_mask.Store.Ops.{
  Outcome, Draw, add_client, delete_client, set_client_enabled, regenerate_token, add_mapping,
  delete_mapping, set_mapping_enabled,
}

pub data Call : Type 0 where
  adds_client : (name pepper : Text) → Draw → Call
  deletes_client : (id : Text) → Call
  sets_client_enabled : (id : Text) → Bool → Call
  regenerates_token : (id pepper : Text) → List ℕ → Call
  adds_mapping : (client_id name : Text) (remote_port : ℕ) (local_addr : Text) → Draw → Call
  deletes_mapping : (id : Text) → Call
  sets_mapping_enabled : (id : Text) → Bool → Call

-- A result without its value.
abbrev pub forget : {A : Type 0} → Outcome A → Outcome (Unit {0})
forget (r, s, d) = (elim r [ ok _ ↦ ok tt | err e ↦ err e ], s, d)

module _ (json : ClientJson) (c : Crates) where
  unfoldable pub perform : Call → ClientStore → Disk → Outcome (Unit {0})
  perform (adds_client name pepper draw) s d = forget (add_client json c name pepper draw s d)
  perform (deletes_client id) s d = forget (delete_client json id s d)
  perform (sets_client_enabled id b) s d = forget (set_client_enabled json id b s d)
  perform (regenerates_token id pepper random) s d =
      forget (regenerate_token json c id pepper random s d)
  perform (adds_mapping client_id name port addr draw) s d =
      forget (add_mapping json c client_id name port addr draw s d)
  perform (deletes_mapping id) s d = forget (delete_mapping json id s d)
  perform (sets_mapping_enabled id b) s d = forget (set_mapping_enabled json id b s d)

  -- The whole history of a store.
  unfoldable pub perform_all : List Call → ClientStore → Disk → ClientStore × Disk
  perform_all [] s d = (s, d)
  perform_all (call ∷ calls) s d = let (_, s', d') = perform call s d in perform_all calls s' d'
