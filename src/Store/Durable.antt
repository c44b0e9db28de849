-- ===== src/Store/Durable.antt =====
-- What the file of the client store (src/state.rs) holds after a call.
use mini_mask.Common.{
  ◌≡◌, ◌≢◌, refl, Option-cases, ◌⊎◌, inl, inr, List, none, some, Text, text, Result, ok, err, arith,
}
use mini_mask.Util.{AnyError}
use mini_mask.Disk.{Disk, contents}
use mini_mask.Disk.Replace.{replace_file, tmp_name, Replaced, replace_file-Replaced}
use mini_mask.Store.Model.{Client, ClientStore, ClientJson}
use mini_mask.Store.Ops.{persist, load}

abbrev pub tmp_path : ClientStore → Text
tmp_path s = tmp_name s.path

module _ (json : ClientJson) where
  -- How `persist` ends.
  abbrev pub Persisted : ClientStore → Disk → Result AnyError (Unit {0}) × Disk → Type 0
  Persisted s d (r, d') =
      ((raw : Text) × (json.to_json s.list ≡ some raw)
        × (r ≡ ok tt)
        × (contents d' s.path ≡ some raw))
      ⊎ ((e : AnyError) × (r ≡ err e) × (contents d' s.path ≡ contents d s.path))

  persist-none :
      (s : ClientStore) (d : Disk)
      → json.to_json s.list ≡ none
      → persist json s d ≡ (err (text "serialize clients"), d)
  unfolding persist
  persist-none s d e = rw (e, persist)

  persist-some :
      (s : ClientStore) (d : Disk) (raw : Text)
      → json.to_json s.list ≡ some raw
      → persist json s d ≡ replace_file (text "clients") raw s.path d
  unfolding persist
  persist-some s d raw e = rw (e, persist)

  replaced :
      (s : ClientStore) (d : Disk) (raw : Text) (p : Result AnyError (Unit {0}) × Disk)
      → json.to_json s.list ≡ some raw
      → Replaced raw s.path d p
      → Persisted s d p
  replaced s d raw p e (inl (done, new)) = inl (raw, e, done, new)
  replaced s d raw p e (inr failed) = inr failed

  -- `persist` replaces the file by the whole new list and succeeds, or fails and leaves the file as it
  -- was, whichever of its steps fails; the second file must have another name.
  pub persist_atomic :
      (s : ClientStore) (d : Disk) → s.path ≢ tmp_path s → Persisted s d (persist json s d)
  persist_atomic s d ne = elim (Option-cases (json.to_json s.list)) [
    | inl e ↦ rw (persist-none s d e) (inr (_, refl, refl))
    | inr (raw, e) ↦ rw (persist-some s d raw e) (
        replaced s d raw (replace_file (text "clients") raw s.path d) e
          (replace_file-Replaced (text "clients") raw s.path d ne))
  ]

  -- The list is what a restart would read from the file.
  pub record IsSaved (s : ClientStore) (d : Disk) : Type 0 where
    pub raw : Text
    pub in_file : contents d s.path ≡ some raw
    pub reads_back : json.from_json raw ≡ some s.list

  -- What is assumed of `serde_json`: reading gives back what was written.
  pub record RoundTrips : Type 0 where
    pub from-to :
        (l : List Client) (raw : Text) → json.to_json l ≡ some raw → json.from_json raw ≡ some l

  pub load-IsSaved : (s : ClientStore) (d : Disk) → IsSaved s d → load json s.path d ≡ (ok s, d)
  unfolding load
  load-IsSaved s d v = ground (arith, v.in_file, v.reads_back)
