-- ===== src/Store/Tokens.antt =====
-- Which tokens the client store of src/state.rs accepts, and how they are revoked.
use mathlib.Core.List.{Mem, mem-cons_self, mem-cons_of_mem}
use mathlib.Core.Path.{subst}
use mini_mask.Common.{
  ℕ, ◌≤◌, ◌≡◌, ◌≢◌, refl, List, [], ◌∷◌, ◌++◌, none, some, Bool, true, false, not, Text, retain,
  find, count_by, update_first, update_first-none, if◌then◌else◌, arith, Option-cases, inl, inr,
  Bool-cases,
}
use mini_mask.Util.{Crates, gen_token, gen_client_id, sha256_hex_with_pepper}
use mini_mask.Disk.{Disk}
use mini_mask.Store.Model.{Client, ClientStore, ClientJson, has_id, token_matches, verify_token}
use mini_mask.Store.Ops.{
  Draw, add_client, delete_client, set_client_enabled, regenerate_token, new_client, with_token,
}

find-mem {ℓ} :
    {A : Type ℓ} (p : A → Bool) (xs : List A) (x : A) → find p xs ≡ some x → Mem x xs × (p x ≡ true)
find-mem p [] x h = absurd (cc)
find-mem p (y ∷ xs) x h = elim (Bool-cases (p y)) [
  | inl hit ↦
      let same : y ≡ x = ground arith in
      (subst (λ z. Mem z (y ∷ xs)) same mem-cons_self, rw same at hit)
  | inr miss ↦
      let (later, passes) = find-mem p xs x (ground arith) in (mem-cons_of_mem y later, passes)
]

find-append_none {ℓ} :
    {A : Type ℓ} (p : A → Bool) (xs : List A) (x : A)
    → find p xs ≡ none
    → find p (xs ++ x ∷ []) ≡ (if p x then some x else none)
find-append_none p [] x h = refl
find-append_none p (y ∷ xs) x h = ground (arith, find-append_none p xs x)

-- What a search finds behind a deletion.
find-retain :
    (id : Text) (p : Client → Bool) (cs : List Client) (x : Client)
    → find p (retain (λ c. not (has_id id c)) cs) ≡ some x
    → x.id ≢ id
find-retain id p [] x h = absurd (cc)
find-retain id p (c ∷ cs) x h = ground (arith, find-retain id p cs x)

-- No two clients share an id.
pub record HasDistinctIds (cs : List Client) : Type 0 where
  pub once : (id : Text) → count_by (has_id id) cs ≤ 1

find_absent :
    (id : Text) (p : Client → Bool) (cs : List Client) (x : Client)
    → count_by (has_id id) cs ≤ 0
    → find p cs ≡ some x
    → x.id ≢ id
find_absent id p [] x n h = absurd (cc)
find_absent id p (c ∷ cs) x n h = ground (arith, find_absent id p cs x)

abbrev disabled : Client → Client
disabled c = record c { enabled = false }

find-disable :
    (id hash : Text) (cs : List Client) (x : Client)
    → count_by (has_id id) cs ≤ 1
    → find (token_matches hash) (update_first (has_id id) disabled cs) ≡ some x
    → x.id ≢ id
find-disable id hash [] x n h = absurd (cc)
find-disable id hash (c ∷ cs) x n h =
    ground (arith, find-disable id hash cs x, find_absent id (token_matches hash) cs x)

-- A change of hash at one client, seen by a search for a hash that nobody had.
find-regenerate :
    (id hash : Text) (f : Client → Client) (cs : List Client) (x : Client)
    → ((c : Client) → ((f c).id ≡ c.id) × ((f c).token_hash ≡ hash) × ((f c).enabled ≡ c.enabled))
    → find (token_matches hash) cs ≡ none
    → find (has_id id) cs ≡ some x
    → x.enabled ≡ true
    → find (token_matches hash) (update_first (has_id id) f cs) ≡ some (f x)
find-regenerate id hash f [] x law n h e = absurd (cc)
find-regenerate id hash f (c ∷ cs) x law n h e =
    ground (arith, law c, find-regenerate id hash f cs x law)

module _ (c : Crates) where
  -- A token is accepted only for an enabled client of the list whose hash is that of the token.
  pub verify_token_sound :
      (token pepper id : Text) (enabled : Bool) (s : ClientStore)
      → verify_token c token pepper s ≡ some (id, enabled)
      → (client : Client) × Mem client s.list
        × (client.id ≡ id)
        × (client.token_hash ≡ sha256_hex_with_pepper c token pepper)
        × (client.enabled ≡ true)
        × (enabled ≡ true)
  unfolding verify_token
  verify_token_sound token pepper id enabled s h =
      let hash = sha256_hex_with_pepper c token pepper in
      elim (Option-cases (find (token_matches hash) s.list)) [
        | inl e ↦ absurd (ground arith)
        | inr (x, e) ↦
            let (here, passes) = find-mem (token_matches hash) s.list x e in
            (x, here, ground arith, ground arith, ground arith, ground arith)
      ]

  module _ (json : ClientJson) where
    -- The token that `add_client` returns is accepted for the new client, whatever becomes of the
    -- file, unless an enabled client has its hash already.
    pub verify_token-add_client :
        (name pepper : Text) (draw : Draw) (s : ClientStore) (d : Disk)
        → let token = gen_token c draw.token_bytes in
          find (token_matches (sha256_hex_with_pepper c token pepper)) s.list ≡ none
          → verify_token c token pepper (add_client json c name pepper draw s d).1
            ≡ some (gen_client_id c draw.id_bytes, true)
    unfolding verify_token add_client
    verify_token-add_client name pepper draw s d h = ground (
      arith,
      find-append_none
          (token_matches (sha256_hex_with_pepper c (gen_token c draw.token_bytes) pepper)) s.list
          (new_client c name pepper draw) h,
    )

    -- The token that `regenerate_token` draws is accepted for its client, if that is enabled, unless
    -- an enabled client has its hash already.
    pub verify_token-regenerate_token :
        (id pepper : Text) (random : List ℕ) (client : Client) (s : ClientStore) (d : Disk)
        → let token = gen_token c random in
          find (token_matches (sha256_hex_with_pepper c token pepper)) s.list ≡ none
          → find (has_id id) s.list ≡ some client
          → client.enabled ≡ true
          → verify_token c token pepper (regenerate_token json c id pepper random s d).1
            ≡ some (client.id, true)
    unfolding verify_token regenerate_token
    verify_token-regenerate_token id pepper random client s d n h e =
        let token = gen_token c random in
        ground (
          arith,
          find-regenerate id (sha256_hex_with_pepper c token pepper) (with_token c token pepper)
              s.list client (λ c. (refl, refl, refl)) n h e,
        )

    delete_client-list :
        (id : Text) (s : ClientStore) (d : Disk)
        → (delete_client json id s d).1.list ≡ retain (λ c. not (has_id id c)) s.list
    unfolding delete_client
    delete_client-list id s d = ground arith

    set_client_enabled-list :
        (id : Text) (s : ClientStore) (d : Disk)
        → (set_client_enabled json id false s d).1.list ≡ update_first (has_id id) disabled s.list
    unfolding set_client_enabled
    set_client_enabled-list id s d = ground (arith, update_first-none (has_id id) disabled s.list)

    verify_token-eq-some :
        (token pepper other : Text) (enabled : Bool) (s : ClientStore) (cs : List Client)
        → s.list ≡ cs
        → verify_token c token pepper s ≡ some (other, enabled)
        → (x : Client) × (find (token_matches (sha256_hex_with_pepper c token pepper)) cs ≡ some x)
          × (x.id ≡ other)
    unfolding verify_token
    verify_token-eq-some token pepper other enabled s cs same h =
        let hash = sha256_hex_with_pepper c token pepper in
        elim (Option-cases (find (token_matches hash) s.list)) [
          | inl e ↦ absurd (ground arith)
          | inr (x, e) ↦ (x, rw (← same) e, ground arith)
        ]

    -- No token is accepted for a client that was deleted, whatever became of the file.
    pub verify_token-delete_client :
        (token pepper id other : Text) (enabled : Bool) (s : ClientStore) (d : Disk)
        → verify_token c token pepper (delete_client json id s d).1 ≡ some (other, enabled)
        → other ≢ id
    verify_token-delete_client token pepper id other enabled s d h =
        let hash = sha256_hex_with_pepper c token pepper in
        let (x, found, same) =
          verify_token-eq-some token pepper other enabled (delete_client json id s d).1 _
            (delete_client-list id s d) h in
        rw (← same) (find-retain id (token_matches hash) s.list x found)

    -- No token is accepted for a client that was disabled, whatever became of the file, if the ids of
    -- the clients are distinct.
    pub verify_token-set_client_enabled :
        (token pepper id other : Text) (enabled : Bool) (s : ClientStore) (d : Disk)
        → HasDistinctIds s.list
        → verify_token c token pepper (set_client_enabled json id false s d).1
          ≡ some (other, enabled)
        → other ≢ id
    verify_token-set_client_enabled token pepper id other enabled s d v h =
        let hash = sha256_hex_with_pepper c token pepper in
        let (x, found, same) =
          verify_token-eq-some token pepper other enabled (set_client_enabled json id false s d).1 _
            (set_client_enabled-list id s d) h in
        rw (← same) (find-disable id hash s.list x (v.once id) found)
