-- ===== src/Store/Restart.antt =====
-- Restarting after a call of the client store (src/state.rs): what the file gives back.
use mini_mask.Common.{
  ◌≡◌, ◌≢◌, refl, ◌∙◌, ◌⊎◌, inl, inr, List, [], ◌∷◌, Bool, false, not, Text, Result, ok, err,
  length, retain, length-retain-le, update_first-none, arith,
}
use mathlib.Core.Path.{subst}
use mini_mask.Util.{AnyError, Crates}
use mini_mask.Disk.{Disk, contents}
use mini_mask.Store.Model.{Client, ClientStore, ClientJson, has_id, mapping_has_id}
use mini_mask.Store.Ops.{
  Outcome, persist, persisted, load, add_client, delete_client, set_client_enabled,
  regenerate_token, add_mapping, delete_mapping, set_mapping_enabled, drop_mappings,
  enable_mappings,
}
use mini_mask.Store.Calls.{
  Call, adds_client, deletes_client, sets_client_enabled, regenerates_token, adds_mapping,
  deletes_mapping, sets_mapping_enabled, perform, forget,
}
use mini_mask.Store.Durable.{tmp_path, Persisted, persist_atomic, IsSaved, RoundTrips, load-IsSaved}

pub retain_all {ℓ} :
    {A : Type ℓ} (p : A → Bool) (xs : List A) → length (retain p xs) ≡ length xs → retain p xs ≡ xs
retain_all p [] h = refl
retain_all p (x ∷ xs) h = ground (arith, retain_all p xs, length-retain-le p xs)

pub drop_mappings-false :
    (id : Text) (cs : List Client) → (drop_mappings id cs).1 ≡ false → (drop_mappings id cs).0 ≡ cs
drop_mappings-false id [] h = refl
drop_mappings-false id (c ∷ cs) h =
    ground
      (arith, drop_mappings-false id cs, retain_all (λ m. not (mapping_has_id id m)) c.mappings)

pub enable_mappings-false :
    (id : Text) (b : Bool) (cs : List Client)
    → (enable_mappings id b cs).1 ≡ false
    → (enable_mappings id b cs).0 ≡ cs
enable_mappings-false id b [] h = refl
enable_mappings-false id b (c ∷ cs) h = ground (
  arith,
  enable_mappings-false id b cs,
  update_first-none (mapping_has_id id) (λ m. record m { enabled = b }) c.mappings,
)

module _ (json : ClientJson) (c : Crates) where
  -- A call answers at once and changes nothing, or it changes the list and persists it.
  abbrev Ends : ClientStore → Disk → Outcome (Unit {0}) → Type 0
  Ends s d o = (o ≡ (ok tt, s, d)) ⊎ ((o.1.path ≡ s.path) × (o ≡ forget (persisted json tt o.1 d)))

  perform-Ends : (call : Call) (s : ClientStore) (d : Disk) → Ends s d (perform json c call s d)
  unfolding perform add_client delete_client set_client_enabled regenerate_token add_mapping
      delete_mapping set_mapping_enabled
  perform-Ends (adds_client name pepper draw) s d = inr (refl, ground arith)
  perform-Ends (deletes_client id) s d = ground (arith, retain_all (λ c. not (has_id id c)) s.list)
  perform-Ends (sets_client_enabled id b) s d = ground arith
  perform-Ends (regenerates_token id pepper random) s d = ground arith
  perform-Ends (adds_mapping client_id name port addr draw) s d = ground arith
  perform-Ends (deletes_mapping id) s d = ground (arith, drop_mappings-false id s.list)
  perform-Ends (sets_mapping_enabled id b) s d = ground (arith, enable_mappings-false id b s.list)

  -- What the two ends mean for the file: the new store was saved, or the file is as it was.
  abbrev FileAfter : ClientStore → Disk → Outcome (Unit {0}) → Type 0
  FileAfter s d (r, t, d') =
      ((r ≡ ok tt) × (t.path ≡ s.path) × IsSaved json t d')
      ⊎ ((e : AnyError) × (r ≡ err e) × (contents d' s.path ≡ contents d s.path))

  persisted-FileAfter :
      (s t : ClientStore) (d : Disk)
      → RoundTrips json
      → s.path ≢ tmp_path s
      → t.path ≡ s.path
      → FileAfter s d (forget (persisted json tt t d))
  persisted-FileAfter s t d law ne same = ends (persist json t d) refl (persist_atomic json t d ne')
    where
      ne' : t.path ≢ tmp_path t
      ne' = rw same ne

      ends :
          (p : Result AnyError (Unit {0}) × Disk)
          → persist json t d ≡ p
          → Persisted json t d p
          → FileAfter s d (forget (elim p.0 [ ok _ ↦ ok tt | err e ↦ err e ], t, p.1))
      ends p e (inl (raw, written, done, new)) = inl (
        ground arith,
        same,
        record { raw = raw; in_file = new; reads_back = law.from-to t.list raw written },
      )
      ends p e (inr (x, failed, old)) = inr (x, ground arith, rw same at old)

  perform-FileAfter :
      (call : Call) (s : ClientStore) (d : Disk)
      → RoundTrips json
      → s.path ≢ tmp_path s
      → IsSaved json s d
      → FileAfter s d (perform json c call s d)
  perform-FileAfter call s d law ne v = by_end (perform json c call s d) (perform-Ends call s d)
    where
      by_end : (o : Outcome (Unit {0})) → Ends s d o → FileAfter s d o
      by_end o (inl e) = rw e (inl (refl, refl, v))
      by_end o (inr (same, e)) = rw e (persisted-FileAfter s o.1 d law ne same)

  -- If the file holds the store's list before a call, then a restart after the call reads the store
  -- as the call left it if the call succeeded, and as it was before the call if it failed. It is
  -- assumed that `serde_json` reads back what it wrote, and that the second file has another name.
  pub load-perform :
      (call : Call) (s : ClientStore) (d : Disk)
      → RoundTrips json
      → s.path ≢ tmp_path s
      → IsSaved json s d
      → let (r, t, d') = perform json c call s d in
        ((r ≡ ok tt) × (load json s.path d' ≡ (ok t, d')))
        ⊎ ((e : AnyError) × (r ≡ err e) × (load json s.path d' ≡ (ok s, d')))
  load-perform call s d law ne v =
      restarted (perform json c call s d) (perform-FileAfter call s d law ne v)
    where
      restarted :
          (o : Outcome (Unit {0}))
          → FileAfter s d o
          → ((o.0 ≡ ok tt) × (load json s.path o.2 ≡ (ok o.1, o.2)))
            ⊎ ((e : AnyError) × (o.0 ≡ err e) × (load json s.path o.2 ≡ (ok s, o.2)))
      restarted o (inl (done, same, saved)) = inl (
        done,
        subst (λ p. load json p o.2 ≡ (ok o.1, o.2)) same (load-IsSaved json o.1 o.2 saved),
      )
      restarted o (inr (e, failed, old)) = inr (
        e,
        failed,
        load-IsSaved json s o.2
            (record { raw = v.raw; in_file = old ∙ v.in_file; reads_back = v.reads_back }),
      )
