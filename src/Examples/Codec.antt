-- ===== src/Examples/Codec.antt =====
-- A plain encoding of the program's records that stands in for `serde_json` (src/state.rs) in the
-- examples.
use mini_mask.Common.{
  ℕ, zero, suc, ◌≡◌, refl, ap, arith, List, [], ◌∷◌, ◌++◌, none, some, Bool, true, false, Text,
  length, take, drop, take-append_length, drop-append_length,
}
use mini_mask.Store.Model.{Client, PortMapping, ClientJson}
use mini_mask.Store.Durable.{RoundTrips}

unfoldable pub put_text : Text → List ℕ → List ℕ
put_text s rest = length s ∷ (s ++ rest)

unfoldable pub get_text : List ℕ → Text × List ℕ
get_text [] = ([], [])
get_text (n ∷ r) = (take n r, drop n r)

pub get_text-put_text : (s : Text) (rest : List ℕ) → get_text (put_text s rest) ≡ (s, rest)
unfolding get_text put_text
get_text-put_text s rest = rw (take-append_length s rest, drop-append_length s rest)

abbrev put_bool : Bool → ℕ
put_bool true = 1
put_bool false = 0

abbrev get_bool : ℕ → Bool
get_bool zero = false
get_bool (suc _) = true

get_bool-put_bool : (b : Bool) → get_bool (put_bool b) ≡ b
get_bool-put_bool true = refl
get_bool-put_bool false = refl

abbrev get_nat : List ℕ → ℕ × List ℕ
get_nat [] = (0, [])
get_nat (n ∷ r) = (n, r)

put_mapping : PortMapping → List ℕ → List ℕ
put_mapping m rest = put_text m.id (
    put_text m.name
      (m.remote_port ∷ put_text m.local_addr (put_bool m.enabled ∷ m.created_at ∷ rest)))

get_mapping : List ℕ → PortMapping × List ℕ
get_mapping r =
    let (id, r₁) = get_text r in
    let (name, r₂) = get_text r₁ in
    let (port, r₃) = get_nat r₂ in
    let (addr, r₄) = get_text r₃ in
    let (enabled, r₅) = get_nat r₄ in
    let (created_at, r₆) = get_nat r₅ in
    (
      record {
        id = id;
        name = name;
        remote_port = port;
        local_addr = addr;
        enabled = get_bool enabled;
        created_at = created_at;
      },
      r₆,
    )

get_mapping-put_mapping :
    (m : PortMapping) (rest : List ℕ) → get_mapping (put_mapping m rest) ≡ (m, rest)
unfolding get_mapping put_mapping
get_mapping-put_mapping m rest =
    let r₄ = put_bool m.enabled ∷ m.created_at ∷ rest in
    let r₂ = m.remote_port ∷ put_text m.local_addr r₄ in
    rw (get_text-put_text m.id (put_text m.name r₂)) (
      rw (get_text-put_text m.name r₂)
        (rw (get_text-put_text m.local_addr r₄) (rw (get_bool-put_bool m.enabled) refl)))

abbrev put_mappings : List PortMapping → List ℕ → List ℕ
put_mappings [] rest = rest
put_mappings (m ∷ ms) rest = put_mapping m (put_mappings ms rest)

get_mappings : ℕ → List ℕ → List PortMapping × List ℕ
get_mappings zero r = ([], r)
get_mappings (suc n) r =
    let (m, r₁) = get_mapping r in let (ms, r₂) = get_mappings n r₁ in (m ∷ ms, r₂)

get_mappings-put_mappings :
    (ms : List PortMapping) (rest : List ℕ)
    → get_mappings (length ms) (put_mappings ms rest) ≡ (ms, rest)
unfolding get_mappings
get_mappings-put_mappings [] rest = refl
get_mappings-put_mappings (m ∷ ms) rest =
    rw (get_mapping-put_mapping m (put_mappings ms rest))
      (rw (get_mappings-put_mappings ms rest) refl)

put_client : Client → List ℕ → List ℕ
put_client c rest = put_text c.id (
    put_text c.name (
      put_text c.token_hash (
        put_text c.token_prefix
          (put_bool c.enabled ∷ c.created_at ∷ length c.mappings ∷ put_mappings c.mappings rest))))

get_client : List ℕ → Client × List ℕ
get_client r =
    let (id, r₁) = get_text r in
    let (name, r₂) = get_text r₁ in
    let (hash, r₃) = get_text r₂ in
    let (prefix, r₄) = get_text r₃ in
    let (enabled, r₅) = get_nat r₄ in
    let (created_at, r₆) = get_nat r₅ in
    let (n, r₇) = get_nat r₆ in
    let (mappings, r₈) = get_mappings n r₇ in
    (
      record {
        id = id;
        name = name;
        token_hash = hash;
        token_prefix = prefix;
        enabled = get_bool enabled;
        created_at = created_at;
        mappings = mappings;
      },
      r₈,
    )

get_client-put_client : (c : Client) (rest : List ℕ) → get_client (put_client c rest) ≡ (c, rest)
unfolding get_client put_client
get_client-put_client c rest =
    let r₄ = put_bool c.enabled ∷ c.created_at ∷ length c.mappings ∷ put_mappings c.mappings rest in
    let r₃ = put_text c.token_prefix r₄ in
    let r₂ = put_text c.token_hash r₃ in
    rw (get_text-put_text c.id (put_text c.name r₂)) (
      rw (get_text-put_text c.name r₂) (
        rw (get_text-put_text c.token_hash r₃) (
          rw (get_text-put_text c.token_prefix r₄) (
            rw (get_bool-put_bool c.enabled)
              (rw (get_mappings-put_mappings c.mappings rest) refl)))))

abbrev put_clients : List Client → List ℕ
put_clients [] = []
put_clients (c ∷ cs) = put_client c (put_clients cs)

get_clients : ℕ → List ℕ → List Client
get_clients zero r = []
get_clients (suc n) r = let (c, r₁) = get_client r in c ∷ get_clients n r₁

get_clients-put_clients : (cs : List Client) → get_clients (length cs) (put_clients cs) ≡ cs
unfolding get_clients
get_clients-put_clients [] = refl
get_clients-put_clients (c ∷ cs) =
    rw (get_client-put_client c (put_clients cs)) (ap (◌∷◌ c) (get_clients-put_clients cs))

unfoldable pub plain_json : ClientJson
unfolding get_clients get_client put_client get_mappings get_mapping put_mapping get_text put_text
plain_json = record {
  to_json = λ cs. some (length cs ∷ put_clients cs);
  from_json = λ raw. elim raw [ [] ↦ none | n ∷ r ↦ some (get_clients n r) ];
}

pub plain_json-RoundTrips : RoundTrips plain_json
unfolding plain_json
plain_json-RoundTrips = record { from-to = reads_back }
  where
    reads_back :
        (cs : List Client) (raw : Text)
        → plain_json.to_json cs ≡ some raw
        → plain_json.from_json raw ≡ some cs
    reads_back cs raw h = ground (arith, get_clients-put_clients cs)
