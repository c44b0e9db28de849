-- ===== src/Store/Model.antt =====
-- The data models of src/state.rs, and the lookups of `ClientStore`.
use mini_mask.Common.{
  ℕ, List, [], ◌∷◌, ◌++◌, map, Option, none, some, Bool, true, not, ◌&&◌, Text, text_eq, find, any,
  ◌==◌,
}
use mini_mask.Util.{Crates, sha256_hex_with_pepper}

pub record PortMapping : Type 0 where
  pub id : Text
  pub name : Text
  pub remote_port : ℕ
  pub local_addr : Text
  pub enabled : Bool
  pub created_at : ℕ

pub record Client : Type 0 where
  pub id : Text
  pub name : Text
  pub token_hash : Text
  pub token_prefix : Text
  pub enabled : Bool
  pub created_at : ℕ
  pub mappings : List PortMapping

pub record MappingView : Type 0 where
  pub id : Text
  pub name : Text
  pub remote_port : ℕ
  pub local_addr : Text
  pub enabled : Bool
  pub created_at : ℕ
  pub client_id : Text
  pub client_name : Text

-- `serde_json` on the list of clients; none is an error.
pub record ClientJson : Type 0 where
  pub to_json : List Client → Option Text
  pub from_json : Text → Option (List Client)

pub record ClientStore : Type 0 where
  pub list : List Client
  pub path : Text

abbrev pub has_id : Text → Client → Bool
has_id id c = text_eq c.id id

abbrev pub mapping_has_id : Text → PortMapping → Bool
mapping_has_id id m = text_eq m.id id

unfoldable pub find_client : Text → ClientStore → Option Client
find_client id s = find (has_id id) s.list

unfoldable pub find_mapping_in : Text → List Client → Option (Text × PortMapping)
find_mapping_in mapping_id [] = none
find_mapping_in mapping_id (c ∷ cs) = elim (find (mapping_has_id mapping_id) c.mappings) [
  | some m ↦ some (c.id, m)
  | none ↦ find_mapping_in mapping_id cs
]

unfoldable pub find_mapping : Text → ClientStore → Option (Text × PortMapping)
unfolding find_mapping_in
find_mapping mapping_id s = find_mapping_in mapping_id s.list

abbrev pub token_matches : Text → Client → Bool
token_matches hash c = text_eq c.token_hash hash && c.enabled

unfoldable pub verify_token : Crates → Text → Text → ClientStore → Option (Text × Bool)
verify_token c token pepper s =
    elim (find (token_matches (sha256_hex_with_pepper c token pepper)) s.list) [
      | none ↦ none
      | some client ↦ some (client.id, client.enabled)
    ]

-- `Some(m.id.as_str()) != ignore_mapping_id`.
abbrev pub not_ignored : Option Text → PortMapping → Bool
not_ignored none m = true
not_ignored (some id) m = not (text_eq m.id id)

abbrev pub takes_port : ℕ → Option Text → PortMapping → Bool
takes_port port ignore m = m.remote_port == port && not_ignored ignore m

unfoldable pub remote_port_taken : ℕ → Option Text → ClientStore → Bool
remote_port_taken port ignore s = any (λ c. any (takes_port port ignore) c.mappings) s.list

abbrev pub mapping_view : Client → PortMapping → MappingView
mapping_view c m = record {
  id = m.id;
  name = m.name;
  remote_port = m.remote_port;
  local_addr = m.local_addr;
  enabled = m.enabled;
  created_at = m.created_at;
  client_id = c.id;
  client_name = c.name;
}

abbrev pub views_of : List Client → List MappingView
views_of [] = []
views_of (c ∷ cs) = map (mapping_view c) c.mappings ++ views_of cs

unfoldable pub mapping_views : ClientStore → List MappingView
mapping_views s = views_of s.list
