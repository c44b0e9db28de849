-- ===== src/Examples/Stores.antt =====
-- The theorems about the stores of src/state.rs and src/config.rs at work.
use mini_mask.Common.{
  ◌≡◌, ◌≢◌, refl, ◌⊎◌, List, [], ◌∷◌, none, some, true, Text, text, ok, err, arith, find,
  text_discrete, ℕ_discrete,
}
use mathlib.Core.List.{Mem}
use mini_mask.Util.{AnyError, gen_token, gen_client_id, sha256_hex_with_pepper}
use mini_mask.Disk.{Disk}
use mini_mask.Disk.Paths.{with_extension}
use mini_mask.Config.{default_config, validate}
use mini_mask.Config.Load.{Toml, load_or_create, IsValid, load_or_create-IsValid}
use mini_mask.Store.Model.{Client, has_id, token_matches, verify_token}
use mini_mask.Store.Ops.{
  persist, Draw, load, add_client, delete_client, set_client_enabled, regenerate_token,
}
use mini_mask.Store.Calls.{Call, adds_mapping, deletes_mapping, perform, perform_all}
use mini_mask.Store.Ports.{HasDistinctPorts, perform_all-HasDistinctPorts}
use mini_mask.Store.Durable.{IsSaved, Persisted, persist_atomic, tmp_path}
use mini_mask.Store.Restart.{load-perform}
use mini_mask.Store.Tokens.{
  HasDistinctIds, verify_token_sound, verify_token-add_client, verify_token-regenerate_token,
  verify_token-delete_client, verify_token-set_client_enabled,
}
use mini_mask.Examples.Codec.{plain_json, plain_json-RoundTrips}
use mini_mask.Examples.Given.{plain_crates, alice, bob, two_clients, saved_disk}

with_extension_keeps_dir :
    with_extension (text "./data/clients.json") (text "json.tmp") ≡ text "./data/clients.json.tmp"
unfolding with_extension text
with_extension_keeps_dir = refl

two_clients-HasDistinctPorts : HasDistinctPorts two_clients
two_clients-HasDistinctPorts = record { once = λ p. ground arith }

abbrev draw : Draw
draw = record { token_bytes = 1 ∷ 2 ∷ []; id_bytes = 3 ∷ []; now = 7 }

-- Bob asks for a port that is free, for one that is taken, and both go to a disk that fails once.
abbrev calls : List Call
calls =
    adds_mapping (b'b' ∷ []) (b'n' ∷ []) 8002 (b'l' ∷ []) draw
    ∷ adds_mapping (b'b' ∷ []) (b'n' ∷ []) 8000 (b'l' ∷ []) draw
    ∷ deletes_mapping (b'w' ∷ [])
    ∷ []

abbrev full_disk : Disk
full_disk = record saved_disk { faults = none ∷ some [] ∷ [] }

perform_all_example :
    HasDistinctPorts (perform_all plain_json plain_crates calls two_clients full_disk).0
perform_all_example =
    perform_all-HasDistinctPorts plain_json plain_crates calls two_clients full_disk
      two_clients-HasDistinctPorts

other_path : two_clients.path ≢ tmp_path two_clients
unfolding with_extension text
other_path = λ h. cc

persist_example :
    Persisted plain_json two_clients full_disk (persist plain_json two_clients full_disk)
persist_example = persist_atomic plain_json two_clients full_disk other_path

two_clients-IsSaved : IsSaved plain_json two_clients full_disk
unfolding saved_disk text_discrete ℕ_discrete
two_clients-IsSaved = record {
  raw = _;
  in_file = refl;
  reads_back = plain_json-RoundTrips.from-to two_clients.list _ refl;
}

load-perform_example :
    let call = deletes_mapping (b'w' ∷ []) in
    let (r, t, d) = perform plain_json plain_crates call two_clients full_disk in
    ((r ≡ ok tt) × (load plain_json two_clients.path d ≡ (ok t, d)))
    ⊎ ((e : AnyError) × (r ≡ err e) × (load plain_json two_clients.path d ≡ (ok two_clients, d)))
load-perform_example =
    load-perform plain_json plain_crates (deletes_mapping (b'w' ∷ [])) two_clients full_disk
      plain_json-RoundTrips other_path two_clients-IsSaved

-- Alice's token is `t`, with the pepper `p`.
verify_token_example :
    (client : Client) × Mem client two_clients.list
    × (client.id ≡ b'a' ∷ [])
    × (client.token_hash ≡ sha256_hex_with_pepper plain_crates (b't' ∷ []) (b'p' ∷ []))
    × (client.enabled ≡ true)
    × (true ≡ true)
verify_token_example =
    verify_token_sound plain_crates (b't' ∷ []) (b'p' ∷ []) (b'a' ∷ []) true two_clients
      alice_enters
  where
    alice_enters :
        verify_token plain_crates (b't' ∷ []) (b'p' ∷ []) two_clients ≡ some (b'a' ∷ [], true)
    alice_enters =
        unfold verify_token sha256_hex_with_pepper plain_crates text_discrete ℕ_discrete in refl

nobody_has :
    (token : Text)
    → token ≡ gen_token plain_crates draw.token_bytes
    → find (token_matches (sha256_hex_with_pepper plain_crates token (b'p' ∷ []))) two_clients.list
      ≡ none
unfolding sha256_hex_with_pepper plain_crates gen_token text text_discrete ℕ_discrete
nobody_has token h = rw h refl

add_client_example :
    let token = gen_token plain_crates draw.token_bytes in
    verify_token plain_crates token
      (b'p' ∷ [])
      (add_client plain_json plain_crates (b'n' ∷ []) (b'p' ∷ []) draw two_clients full_disk).1
    ≡ some (gen_client_id plain_crates draw.id_bytes, true)
add_client_example =
    verify_token-add_client plain_crates plain_json (b'n' ∷ []) (b'p' ∷ []) draw two_clients
      full_disk (nobody_has _ refl)

alice_found : find (has_id (b'a' ∷ [])) two_clients.list ≡ some alice
unfolding text_discrete ℕ_discrete
alice_found = refl

regenerate_token_example :
    let token = gen_token plain_crates draw.token_bytes in
    verify_token plain_crates token
      (b'p' ∷ [])
      (regenerate_token plain_json plain_crates
        (b'a' ∷ [])
        (b'p' ∷ [])
        draw.token_bytes
        two_clients
        full_disk).1
    ≡ some (alice.id, true)
regenerate_token_example =
    verify_token-regenerate_token plain_crates plain_json (b'a' ∷ []) (b'p' ∷ []) draw.token_bytes
      alice two_clients full_disk (nobody_has _ refl) alice_found refl

delete_client_example : alice.id ≢ bob.id
delete_client_example =
    verify_token-delete_client plain_crates plain_json (b't' ∷ []) (b'p' ∷ []) (b'b' ∷ [])
      (b'a' ∷ []) true two_clients full_disk
      (unfold verify_token sha256_hex_with_pepper plain_crates text_discrete ℕ_discrete
          delete_client in
        ground arith)

two_clients-HasDistinctIds : HasDistinctIds two_clients.list
two_clients-HasDistinctIds = record { once = λ id. ground arith }

set_client_enabled_example : alice.id ≢ bob.id
set_client_enabled_example =
    verify_token-set_client_enabled plain_crates plain_json (b't' ∷ []) (b'p' ∷ []) (b'b' ∷ [])
      (b'a' ∷ []) true two_clients full_disk two_clients-HasDistinctIds
      (unfold verify_token sha256_hex_with_pepper plain_crates text_discrete ℕ_discrete
          set_client_enabled in
        ground arith)

-- A `toml` that writes nothing and reads the defaults.
abbrev plain_toml : Toml
plain_toml = record { to_toml = λ cfg. some []; from_toml = λ raw. some default_config }

abbrev no_files : Disk
no_files = record { files = []; faults = [] }

load_or_create-IsValid_example : IsValid plain_toml default_config
load_or_create-IsValid_example =
    load_or_create-IsValid plain_toml (b'c' ∷ []) no_files default_config first
  where
    first : (load_or_create plain_toml (b'c' ∷ []) no_files).0 ≡ ok default_config
    first = unfold load_or_create validate default_config text_discrete ℕ_discrete in refl
