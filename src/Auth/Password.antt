-- ===== src/Auth/Password.antt =====
-- What `change_password` of src/state.rs does to logins, now and after a restart.
use mini_mask.Common.{
  ◌≡◌, ◌≢◌, refl, ◌∙◌, ◌⊎◌, inl, inr, none, some, true, Text, Result, ok, err, arith, Option-cases,
  text,
}
use mini_mask.Util.{AnyError, Crates, hash_password, verify_password}
use mini_mask.Disk.{Disk, contents}
use mini_mask.Disk.Replace.{tmp_name, replace_file, Replaced, replace_file-Replaced}
use mini_mask.Auth.{
  AuthFile, AuthStore, AuthJson, load_or_seed, persist_inner, change_password, verify,
}

-- What is assumed of argon2 and of `serde_json`: a password passes against its own hash, and reading
-- gives back what was written.
pub record AuthLaws (json : AuthJson) (c : Crates) : Type 0 where
  pub verifies :
      (password salt hash : Text)
      → c.argon2_hash password salt ≡ some hash
      → c.argon2_verify password hash ≡ true
  pub from-to :
      (f : AuthFile) (raw : Text) → json.to_json f ≡ some raw → json.from_json raw ≡ some f

module _ (json : AuthJson) (c : Crates) where
  -- The account is what a restart would read.
  pub record IsSaved (s : AuthStore) (d : Disk) : Type 0 where
    pub raw : Text
    pub in_file : contents d s.path ≡ some raw
    pub reads_back : json.from_json raw ≡ some s.inner

  -- How `persist_inner` ends: the new account is saved, or the file is as it was.
  abbrev Ended : AuthFile → AuthStore → Disk → Result AnyError (Unit {0}) × Disk → Type 0
  Ended f s d (r, d') =
      ((r ≡ ok tt) × IsSaved (record s { inner = f }) d')
      ⊎ ((e : AnyError) × (r ≡ err e) × (contents d' s.path ≡ contents d s.path))

  persist-some :
      (f : AuthFile) (s : AuthStore) (d : Disk) (raw : Text)
      → json.to_json f ≡ some raw
      → persist_inner json c f s d ≡ replace_file (text "auth") raw s.path d
  unfolding persist_inner
  persist-some f s d raw e = rw (e, persist_inner)

  persist-none :
      (f : AuthFile) (s : AuthStore) (d : Disk)
      → json.to_json f ≡ none
      → persist_inner json c f s d ≡ (err (text "serialize auth"), d)
  unfolding persist_inner
  persist-none f s d e = rw (e, persist_inner)

  replaced :
      (laws : AuthLaws json c) (f : AuthFile) (s : AuthStore) (d : Disk) (raw : Text)
      (p : Result AnyError (Unit {0}) × Disk)
      → json.to_json f ≡ some raw
      → Replaced raw s.path d p
      → Ended f s d p
  replaced laws f s d raw p e (inl (done, new)) =
      inl (done, record { raw = raw; in_file = new; reads_back = laws.from-to f raw e })
  replaced laws f s d raw p e (inr failed) = inr failed

  persist_inner-Ended :
      (laws : AuthLaws json c) (f : AuthFile) (s : AuthStore) (d : Disk)
      → s.path ≢ tmp_name s.path
      → Ended f s d (persist_inner json c f s d)
  persist_inner-Ended laws f s d ne = elim (Option-cases (json.to_json f)) [
    | inl e ↦ rw (persist-none f s d e) (inr (_, refl, refl))
    | inr (raw, e) ↦ rw (persist-some f s d raw e) (
        replaced laws f s d raw (replace_file (text "auth") raw s.path d) e
          (replace_file-Replaced (text "auth") raw s.path d ne))
  ]

  load-IsSaved :
      (s : AuthStore) (d : Disk) (username password salt : Text)
      → IsSaved s d
      → load_or_seed json c s.path username password salt d ≡ (ok s, d)
  unfolding load_or_seed
  load-IsSaved s d username password salt v = ground (arith, v.in_file, v.reads_back)

  -- After a change of the password that succeeds, a restart reads the account with the new hash;
  -- after one that fails it reads the account as it was before, although the new password logs in
  -- until then. The new password can be hashed, the file holds the account at first, the second file
  -- has another name, and argon2 and `serde_json` do what `AuthLaws` says.
  pub load-change_password :
      (laws : AuthLaws json c) (password salt hash : Text) (s : AuthStore) (d : Disk)
      (admin first other : Text)
      → c.argon2_hash password salt ≡ some hash
      → s.path ≢ tmp_name s.path
      → IsSaved s d
      → let (r, t, d') = change_password json c password salt s d in
        ((r ≡ ok tt)
          × (verify c password t ≡ true)
          × (load_or_seed json c s.path admin first other d' ≡ (ok t, d')))
        ⊎ ((e : AnyError) × (r ≡ err e)
            × (verify c password t ≡ true)
            × (load_or_seed json c s.path admin first other d' ≡ (ok s, d')))
  unfolding change_password hash_password
  load-change_password laws password salt hash s d admin first other h ne v =
      rw (h, change_password) (restarted (persist_inner-Ended laws f s d ne))
    where
      f : AuthFile
      f = record s.inner { password_hash = hash }

      t : AuthStore
      t = record s { inner = f }

      passes : verify c password t ≡ true
      passes = unfold verify verify_password in laws.verifies password salt hash h

      restarted :
          Ended f s d (persist_inner json c f s d)
          → let (r, d') = persist_inner json c f s d in
            ((r ≡ ok tt)
              × (verify c password t ≡ true)
              × (load_or_seed json c s.path admin first other d' ≡ (ok t, d')))
            ⊎ ((e : AnyError) × (r ≡ err e)
                × (verify c password t ≡ true)
                × (load_or_seed json c s.path admin first other d' ≡ (ok s, d')))
      restarted (inl (done, saved)) = inl (done, passes, load-IsSaved t _ admin first other saved)
      restarted (inr (e, failed, old)) = inr (
        e,
        failed,
        passes,
        load-IsSaved s _ admin first other
            (record { raw = v.raw; in_file = old ∙ v.in_file; reads_back = v.reads_back }),
      )
