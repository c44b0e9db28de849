-- ===== src/Disk/Replace.antt =====
-- Replacing a file by way of a second one: the ends of `ClientStore::persist` and
-- `AuthStore::persist_inner` in src/state.rs.
use mini_mask.Common.{
  ◌≡◌, ◌≢◌, refl, ◌∙◌, Bool-cases, ◌⊎◌, inl, inr, List, [], ◌∷◌, ◌++◌, Option, none, some, Bool,
  true, false, Text, text, Result, ok, err, lookup, insert, remove, lookup-insert, if◌then◌else◌,
  arith,
}
use mini_mask.Disk.{Disk, contents, write, rename, try_move}
use mini_mask.Disk.Paths.{with_extension}

abbrev pub tmp_name : Text → Text
tmp_name path = with_extension path (text "json.tmp")

-- The new text goes to a second file, which then takes the first's name. `what` is `clients` or `auth`.
abbrev pub replace_file : (what raw path : Text) → Disk → Result Text (Unit {0}) × Disk
replace_file what raw path d =
    let tmp = tmp_name path in
    let (written, d₁) = write tmp raw d in
    let (renamed, d₂) = rename tmp path d₁ in
    if written
    then (if renamed then ok tt else err (text "rename " ++ what ++ text " to " ++ path), d₂)
    else (err (text "write " ++ what ++ text " tmp " ++ tmp), d₁)

-- What a write that may fail does to the other files, and to its own.
pub write-other :
    (path other bytes : Text) (d : Disk)
    → other ≢ path
    → contents (write path bytes d).1 other ≡ contents d other
write-other path other bytes d h = written d.files d.faults
  where
    written :
        (files : List (Text × Text)) (faults : List (Option Text))
        → contents (write path bytes (record { files = files; faults = faults })).1 other
          ≡ lookup other files
    written files [] = ground (arith, lookup-insert path other bytes files)
    written files (none ∷ later) = ground (arith, lookup-insert path other bytes files)
    written files (some left ∷ later) = ground (arith, lookup-insert path other left files)

pub write_done :
    (path bytes : Text) (d : Disk)
    → (write path bytes d).0 ≡ true
    → contents (write path bytes d).1 path ≡ some bytes
write_done path bytes d = written d.files d.faults
  where
    written :
        (files : List (Text × Text)) (faults : List (Option Text))
        → (write path bytes (record { files = files; faults = faults })).0 ≡ true
        → contents (write path bytes (record { files = files; faults = faults })).1 path
          ≡ some bytes
    written files [] h = ground (arith, lookup-insert path path bytes files)
    written files (none ∷ later) h = ground (arith, lookup-insert path path bytes files)
    written files (some left ∷ later) h = absurd (cc)

try_move-some :
    (from dest bytes : Text) (later : List (Option Text)) (d : Disk)
    → lookup from d.files ≡ some bytes
    → try_move from dest later d
      ≡ (true, record { files = insert dest bytes (remove from d.files); faults = later })
try_move-some from dest bytes later d h = ground arith

-- A rename moves the whole file, or leaves the target as it was.
abbrev Renamed : Text → Text → Disk → Bool × Disk → Type 0
Renamed dest bytes d (done, d') =
    ((done ≡ true) × (contents d' dest ≡ some bytes))
    ⊎ ((done ≡ false) × (contents d' dest ≡ contents d dest))

rename-Renamed :
    (from dest bytes : Text) (d : Disk)
    → contents d from ≡ some bytes
    → Renamed dest bytes d (rename from dest d)
rename-Renamed from dest bytes d h = renamed d.files d.faults h
  where
    moves :
        (files : List (Text × Text)) (later : List (Option Text)) (faults : List (Option Text))
        → lookup from files ≡ some bytes
        → Renamed dest bytes
            (record { files = files; faults = faults })
            (try_move from dest later (record { files = files; faults = faults }))
    moves files later faults e =
        rw (try_move-some from dest bytes later (record { files = files; faults = faults }) e)
          (inl (refl, ground (arith, lookup-insert dest dest bytes (remove from files))))

    renamed :
        (files : List (Text × Text)) (faults : List (Option Text))
        → lookup from files ≡ some bytes
        → Renamed dest bytes
            (record { files = files; faults = faults })
            (rename from dest (record { files = files; faults = faults }))
    renamed files [] e = moves files [] [] e
    renamed files (none ∷ later) e = moves files later (none ∷ later) e
    renamed files (some left ∷ later) e = inr (refl, refl)

-- The two ends of `replace_file`: the whole of the new text, or the file as it was.
abbrev pub Replaced : Text → Text → Disk → Result Text (Unit {0}) × Disk → Type 0
Replaced raw path d (r, d') =
    ((r ≡ ok tt) × (contents d' path ≡ some raw))
    ⊎ ((e : Text) × (r ≡ err e) × (contents d' path ≡ contents d path))

-- The second half of `replace_file`, once the new text is in the other file.
after_write :
    (raw path failure : Text) (d d₁ : Disk) (p : Bool × Disk)
    → contents d₁ path ≡ contents d path
    → Renamed path raw d₁ p
    → Replaced raw path d ((if p.0 then ok tt else err failure), p.1)
after_write raw path failure d d₁ p same (inl (done, new)) = rw done (inl (refl, new))
after_write raw path failure d d₁ p same (inr (failed, old)) = rw failed (inr (_, refl, old ∙ same))

pub replace_file-Replaced :
    (what raw path : Text) (d : Disk)
    → path ≢ tmp_name path
    → Replaced raw path d (replace_file what raw path d)
replace_file-Replaced what raw path d ne =
    let tmp = tmp_name path in
    let w = write tmp raw d in
    elim (Bool-cases w.0) [
      | inl done ↦ rw done (
          after_write raw path (text "rename " ++ what ++ text " to " ++ path) d w.1
            (rename tmp path w.1) (write-other tmp path raw d ne)
            (rename-Renamed tmp path raw w.1 (write_done tmp raw d done)))
      | inr failed ↦ rw failed (inr (_, refl, write-other tmp path raw d ne))
    ]
