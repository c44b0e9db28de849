-- ===== src/Web/Missing.antt =====
-- A call of the client store of src/state.rs that finds nothing to change changes nothing.
use mini_mask.Common.{ℕ, ◌≡◌, List, none, Bool, false, not, Text, ok, arith}
use mini_mask.Util.{Crates}
use mini_mask.Disk.{Disk}
use mini_mask.Store.Model.{ClientStore, ClientJson, has_id}
use mini_mask.Store.Ops as Ops
use mini_mask.Store.Ops.{Draw}
use mini_mask.Store.Restart.{retain_all, drop_mappings-false, enable_mappings-false}

module _ (json : ClientJson) where
  pub set_client_enabled-false :
      (id : Text) (b : Bool) (s c : ClientStore) (d e : Disk)
      → Ops.set_client_enabled json id b s d ≡ (ok false, c, e)
      → (c ≡ s) × (e ≡ d)
  unfolding Ops.set_client_enabled
  set_client_enabled-false id b s c d e h = ground arith

  pub delete_client-false :
      (id : Text) (s c : ClientStore) (d e : Disk)
      → Ops.delete_client json id s d ≡ (ok false, c, e)
      → (c ≡ s) × (e ≡ d)
  unfolding Ops.delete_client
  delete_client-false id s c d e h = ground (arith, retain_all (λ c. not (has_id id c)) s.list)

  pub delete_mapping-false :
      (id : Text) (s c : ClientStore) (d e : Disk)
      → Ops.delete_mapping json id s d ≡ (ok false, c, e)
      → (c ≡ s) × (e ≡ d)
  unfolding Ops.delete_mapping
  delete_mapping-false id s c d e h = ground (arith, drop_mappings-false id s.list)

  pub set_mapping_enabled-false :
      (id : Text) (b : Bool) (s c : ClientStore) (d e : Disk)
      → Ops.set_mapping_enabled json id b s d ≡ (ok false, c, e)
      → (c ≡ s) × (e ≡ d)
  unfolding Ops.set_mapping_enabled
  set_mapping_enabled-false id b s c d e h = ground (arith, enable_mappings-false id b s.list)

  pub regenerate_token-none :
      (cr : Crates) (id pepper : Text) (random : List ℕ) (s c : ClientStore) (d e : Disk)
      → Ops.regenerate_token json cr id pepper random s d ≡ (ok none, c, e)
      → (c ≡ s) × (e ≡ d)
  unfolding Ops.regenerate_token
  regenerate_token-none cr id pepper random s c d e h = ground arith

  pub add_mapping-none :
      (cr : Crates) (client_id name : Text) (port : ℕ) (addr : Text) (draw : Draw)
      (s c : ClientStore) (d e : Disk)
      → Ops.add_mapping json cr client_id name port addr draw s d ≡ (ok none, c, e)
      → (c ≡ s) × (e ≡ d)
  unfolding Ops.add_mapping
  add_mapping-none cr client_id name port addr draw s c d e h = ground arith
