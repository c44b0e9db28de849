-- ===== src/Store/Ops.antt =====
-- The operations of `ClientStore` in src/state.rs that change the list or the file. Each returns its
-- result, the store and the disk; the store is changed before it is persisted, and stays so if that
-- fails.
use mini_mask.Common.{
  ℕ, List, [], ◌∷◌, ◌++◌, Option, none, some, Bool, true, false, not, Text, text, Result, ok, err,
  length, retain, find, update_first, ◌==◌, if◌then◌else◌, take,
}
use mini_mask.Util.{
  AnyError, Crates, gen_token, gen_client_id, gen_mapping_id, sha256_hex_with_pepper,
}
use mini_mask.Disk.{Disk, contents, write}
use mini_mask.Disk.Replace.{replace_file}
use mini_mask.Store.Model.{
  Client, PortMapping, ClientStore, ClientJson, has_id, mapping_has_id, remote_port_taken,
}

abbrev pub Outcome : Type 0 → Type 0
Outcome A = Result AnyError A × ClientStore × Disk

-- What is random, and the time. A token is ASCII, so that its first 12 characters are its first 12
-- bytes.
pub record Draw : Type 0 where
  pub token_bytes : List ℕ
  pub id_bytes : List ℕ
  pub now : ℕ

abbrev pub new_client : Crates → Text → Text → Draw → Client
new_client c name pepper draw =
    let token = gen_token c draw.token_bytes in
    record {
      id = gen_client_id c draw.id_bytes;
      name = name;
      token_hash = sha256_hex_with_pepper c token pepper;
      token_prefix = take 12 token;
      enabled = true;
      created_at = draw.now;
      mappings = [];
    }

abbrev pub with_token : Crates → Text → Text → Client → Client
with_token c token pepper client = record client {
  token_hash = sha256_hex_with_pepper c token pepper;
  token_prefix = take 12 token;
}

abbrev pub new_mapping : Crates → Text → ℕ → Text → Draw → PortMapping
new_mapping c name remote_port local_addr draw = record {
  id = gen_mapping_id c draw.id_bytes;
  name = name;
  remote_port = remote_port;
  local_addr = local_addr;
  enabled = true;
  created_at = draw.now;
}

abbrev pub push_mapping : PortMapping → Client → Client
push_mapping m client = record client { mappings = client.mappings ++ m ∷ [] }

-- One round of the loop of `delete_mapping`.
abbrev pub drop_mapping : Text → Client → Client
drop_mapping id c = record c { mappings = retain (λ m. not (mapping_has_id id m)) c.mappings }

abbrev pub drop_mappings : Text → List Client → List Client × Bool
drop_mappings id [] = ([], false)
drop_mappings id (c ∷ cs) =
    let (cs', changed) = drop_mappings id cs in
    let c' = drop_mapping id c in
    (c' ∷ cs', (if length c'.mappings == length c.mappings then changed else true))

-- One round of the loop of `set_mapping_enabled`.
abbrev pub enable_mapping : Text → Bool → Client → Client
enable_mapping id enabled c = record c {
  mappings = update_first (mapping_has_id id) (λ m. record m { enabled = enabled }) c.mappings;
}

abbrev pub enable_mappings : Text → Bool → List Client → List Client × Bool
enable_mappings id enabled [] = ([], false)
enable_mappings id enabled (c ∷ cs) =
    let (cs', found) = enable_mappings id enabled cs in
    (
      enable_mapping id enabled c ∷ cs',
      elim (find (mapping_has_id id) c.mappings) [ none ↦ found | some _ ↦ true ],
    )

module _ (json : ClientJson) where
  unfoldable pub load : Text → Disk → Result AnyError ClientStore × Disk
  load path d = elim (contents d path) [
    | some raw ↦ elim (json.from_json raw) [
      | none ↦ (err (text "parse " ++ path), d)
      | some list ↦ (ok (record { list = list; path = path }), d)
    ]
    | none ↦ elim (json.to_json []) [
      | none ↦ (err (text "serialize clients"), d)
      | some raw ↦
          let (done, d') = write path raw d in
          if done
          then (ok (record { list = []; path = path }), d')
          else (err (text "write clients"), d')
    ]
  ]

  unfoldable pub persist : ClientStore → Disk → Result AnyError (Unit {0}) × Disk
  persist s d = elim (json.to_json s.list) [
    | none ↦ (err (text "serialize clients"), d)
    | some raw ↦ replace_file (text "clients") raw s.path d
  ]

  -- `self.persist().await?; Ok(a)` on a store that has been changed.
  abbrev pub persisted : {A : Type 0} → A → ClientStore → Disk → Outcome A
  persisted a s d = let (r, d') = persist s d in (elim r [ ok _ ↦ ok a | err e ↦ err e ], s, d')

  unfoldable pub add_client :
      Crates → Text → Text → Draw → ClientStore → Disk → Outcome (Client × Text)
  add_client c name pepper draw s d =
      let client = new_client c name pepper draw in
      persisted (client, gen_token c draw.token_bytes) (record s { list = s.list ++ client ∷ [] }) d

  unfoldable pub delete_client : Text → ClientStore → Disk → Outcome Bool
  delete_client id s d =
      let s' = record s { list = retain (λ c. not (has_id id c)) s.list } in
      if length s'.list == length s.list then (ok false, s', d) else persisted true s' d

  unfoldable pub set_client_enabled : Text → Bool → ClientStore → Disk → Outcome Bool
  set_client_enabled id enabled s d = elim (find (has_id id) s.list) [
    | none ↦ (ok false, s, d)
    | some _ ↦
        persisted true
          (record s {
            list = update_first (has_id id) (λ c. record c { enabled = enabled }) s.list;
          })
          d
  ]

  unfoldable pub regenerate_token :
      Crates → Text → Text → List ℕ → ClientStore → Disk → Outcome (Option Text)
  regenerate_token c id pepper random s d =
      let token = gen_token c random in
      elim (find (has_id id) s.list) [
        | none ↦ (ok none, s, d)
        | some _ ↦
            persisted (some token)
              (record s { list = update_first (has_id id) (with_token c token pepper) s.list }) d
      ]

  unfoldable pub add_mapping :
      Crates → Text → Text → ℕ → Text → Draw → ClientStore → Disk → Outcome (Option PortMapping)
  add_mapping c client_id name remote_port local_addr draw s d =
      let m = new_mapping c name remote_port local_addr draw in
      if remote_port_taken remote_port none s
      then (ok none, s, d)
      else elim (find (has_id client_id) s.list) [
        | none ↦ (ok none, s, d)
        | some _ ↦
            persisted (some m)
              (record s { list = update_first (has_id client_id) (push_mapping m) s.list }) d
      ]

  unfoldable pub delete_mapping : Text → ClientStore → Disk → Outcome Bool
  delete_mapping id s d =
      let (list, changed) = drop_mappings id s.list in
      let s' = record s { list = list } in
      if changed then persisted true s' d else (ok false, s', d)

  unfoldable pub set_mapping_enabled : Text → Bool → ClientStore → Disk → Outcome Bool
  set_mapping_enabled id enabled s d =
      let (list, found) = enable_mappings id enabled s.list in
      let s' = record s { list = list } in if found then persisted true s' d else (ok false, s', d)
