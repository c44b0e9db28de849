-- ===== src/Store/Ports.antt =====
-- Public ports in the client store of src/state.rs: no two mappings share one.
use mini_mask.Common.{
  ℕ, ◌+◌, ◌≤◌, ◌≡◌, refl, List, [], ◌∷◌, ◌++◌, none, Bool, false, not, Text, retain, any, count_by,
  count_by-append, count_by-retain-le, count_by-update_first, update_first, ◌==◌, if◌then◌else◌,
  arith,
}
use mini_mask.Util.{Crates, gen_token}
use mini_mask.Disk.{Disk}
use mini_mask.Store.Model.{
  Client, PortMapping, ClientStore, ClientJson, has_id, mapping_has_id, takes_port,
  remote_port_taken,
}
use mini_mask.Store.Ops.{
  Draw, add_client, delete_client, set_client_enabled, regenerate_token, add_mapping,
  delete_mapping, set_mapping_enabled, with_token, new_client, new_mapping, push_mapping,
  drop_mappings, enable_mappings,
}
use mini_mask.Store.Calls.{
  Call, adds_client, deletes_client, sets_client_enabled, regenerates_token, adds_mapping,
  deletes_mapping, sets_mapping_enabled, perform, perform_all,
}

abbrev uses_port : ℕ → PortMapping → Bool
uses_port p m = m.remote_port == p

-- How many mappings of the store have the port.
abbrev pub port_count : ℕ → List Client → ℕ
port_count p [] = 0
port_count p (c ∷ cs) = count_by (uses_port p) c.mappings + port_count p cs

pub record HasDistinctPorts (s : ClientStore) : Type 0 where
  pub once : (p : ℕ) → port_count p s.list ≤ 1

port_count-append :
    (p : ℕ) (cs ds : List Client) → port_count p (cs ++ ds) ≡ port_count p cs + port_count p ds
port_count-append p [] ds = omega arith
port_count-append p (c ∷ cs) ds = omega (arith, port_count-append p cs ds)

port_count-retain-le :
    (p : ℕ) (q : Client → Bool) (cs : List Client) → port_count p (retain q cs) ≤ port_count p cs
port_count-retain-le p q [] = omega arith
port_count-retain-le p q (c ∷ cs) = ground (arith, port_count-retain-le p q cs)

-- A change of one client that keeps its mappings' ports.
port_count-update_first :
    (p : ℕ) (q : Client → Bool) (f : Client → Client)
    → ((c : Client) → (f c).mappings ≡ c.mappings)
    → (cs : List Client) → port_count p (update_first q f cs) ≡ port_count p cs
port_count-update_first p q f h [] = refl
port_count-update_first p q f h (c ∷ cs) = ground (arith, h c, port_count-update_first p q f h cs)

port_count-push-le :
    (p : ℕ) (q : Client → Bool) (m : PortMapping) (cs : List Client)
    → port_count p (update_first q (push_mapping m) cs)
      ≤ port_count p cs + (if m.remote_port == p then 1 else 0)
port_count-push-le p q m [] = omega arith
port_count-push-le p q m (c ∷ cs) =
    ground (arith, count_by-append (uses_port p) c.mappings (m ∷ []), port_count-push-le p q m cs)

port_count-drop_mappings-le :
    (p : ℕ) (id : Text) (cs : List Client) → port_count p (drop_mappings id cs).0 ≤ port_count p cs
port_count-drop_mappings-le p id [] = omega arith
port_count-drop_mappings-le p id (c ∷ cs) = omega (
  arith,
  count_by-retain-le (uses_port p) (λ m. not (mapping_has_id id m)) c.mappings,
  port_count-drop_mappings-le p id cs,
)

port_count-enable_mappings :
    (p : ℕ) (id : Text) (b : Bool) (cs : List Client)
    → port_count p (enable_mappings id b cs).0 ≡ port_count p cs
port_count-enable_mappings p id b [] = refl
port_count-enable_mappings p id b (c ∷ cs) = omega (
  arith,
  count_by-update_first (uses_port p) (mapping_has_id id) (λ m. record m { enabled = b })
      (λ m. refl) c.mappings,
  port_count-enable_mappings p id b cs,
)

count_by_free :
    (p : ℕ) (ms : List PortMapping)
    → any (takes_port p none) ms ≡ false
    → count_by (uses_port p) ms ≡ 0
count_by_free p [] h = refl
count_by_free p (m ∷ ms) h = ground (arith, count_by_free p ms)

-- `remote_port_taken` says no exactly when the count is 0.
port_count_free :
    (p : ℕ) (cs : List Client)
    → any (λ c. any (takes_port p none) c.mappings) cs ≡ false
    → port_count p cs ≡ 0
port_count_free p [] h = refl
port_count_free p (c ∷ cs) h = ground (arith, count_by_free p c.mappings, port_count_free p cs)

module _ (json : ClientJson) (c : Crates) where
  -- A call leaves each port as often as it was, or less often, but for `add_mapping`, which adds one
  -- to a port that nobody has.
  add_mapping-once :
      (client_id name : Text) (port : ℕ) (addr : Text) (draw : Draw) (s : ClientStore) (d : Disk)
      → HasDistinctPorts s
      → (p : ℕ) → port_count p (add_mapping json c client_id name port addr draw s d).1.list ≤ 1
  unfolding add_mapping remote_port_taken
  add_mapping-once client_id name port addr draw s d v p = ground (
    arith,
    v.once p,
    port_count_free port s.list,
    port_count-push-le p (has_id client_id) (new_mapping c name port addr draw) s.list,
  )

  perform-once :
      (call : Call) (s : ClientStore) (d : Disk)
      → HasDistinctPorts s
      → (p : ℕ) → port_count p (perform json c call s d).1.list ≤ 1
  unfolding perform add_client delete_client set_client_enabled regenerate_token delete_mapping
      set_mapping_enabled
  perform-once (adds_client name pepper draw) s d v p =
      omega (arith, v.once p, port_count-append p s.list (new_client c name pepper draw ∷ []))
  perform-once (deletes_client id) s d v p =
      ground (arith, v.once p, port_count-retain-le p (λ c. not (has_id id c)) s.list)
  perform-once (sets_client_enabled id b) s d v p = ground (
    arith,
    v.once p,
    port_count-update_first p (has_id id) (λ c. record c { enabled = b }) (λ c. refl) s.list,
  )
  perform-once (regenerates_token id pepper random) s d v p = ground (
    arith,
    v.once p,
    port_count-update_first p (has_id id) (with_token c (gen_token c random) pepper) (λ c. refl)
        s.list,
  )
  perform-once (adds_mapping client_id name port addr draw) s d v p =
      add_mapping-once client_id name port addr draw s d v p
  perform-once (deletes_mapping id) s d v p =
      ground (arith, v.once p, port_count-drop_mappings-le p id s.list)
  perform-once (sets_mapping_enabled id b) s d v p =
      ground (arith, v.once p, port_count-enable_mappings p id b s.list)

  -- Whatever history of calls the store sees, with whatever failures of the file system, no two
  -- mappings of the store have the same public port, if none had at the start.
  pub perform_all-HasDistinctPorts :
      (calls : List Call) (s : ClientStore) (d : Disk)
      → HasDistinctPorts s
      → HasDistinctPorts (perform_all json c calls s d).0
  unfolding perform_all
  perform_all-HasDistinctPorts [] s d v = v
  perform_all-HasDistinctPorts (call ∷ calls) s d v =
      let next = perform json c call s d in
      perform_all-HasDistinctPorts calls next.1 next.2 (record { once = perform-once call s d v })
