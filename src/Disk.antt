-- ===== src/Disk.antt =====
-- The file system, as far as the stores of src/state.rs and the start of src/server.rs use it.
-- Directories are not modelled: the program creates them and ignores the outcome.
pub mod Paths
pub mod Replace
use mini_mask.Common.{
  List, [], ◌∷◌, ◌++◌, Option, none, some, Bool, true, false, Text, Result, ok, err, lookup, insert,
  remove,
}

-- The contents of the files, and what becomes of each write and rename to come. `some left` is a
-- failure; a failed write leaves `left` in the file, a failed rename changes nothing. Past the end of
-- the list every call succeeds.
pub record Disk : Type 0 where
  pub files : List (Text × Text)
  pub faults : List (Option Text)

abbrev pub contents : Disk → Text → Option Text
contents d path = lookup path d.files

-- `fs::write`: true if it succeeded.
abbrev pub write : Text → Text → Disk → Bool × Disk
write path bytes d = elim d.faults [
  | [] ↦ (true, record d { files = insert path bytes d.files })
  | none ∷ later ↦ (true, record { files = insert path bytes d.files; faults = later })
  | some left ∷ later ↦ (false, record { files = insert path left d.files; faults = later })
]

-- The files after a rename that succeeds; there must be a file to rename.
abbrev pub moved : Text → Text → List (Text × Text) → Option (List (Text × Text))
moved from dest files = elim (lookup from files) [
  | none ↦ none
  | some bytes ↦ some (insert dest bytes (remove from files))
]

abbrev pub try_move : Text → Text → List (Option Text) → Disk → Bool × Disk
try_move from dest later d = elim (moved from dest d.files) [
  | none ↦ (false, record d { faults = later })
  | some files ↦ (true, record { files = files; faults = later })
]

-- `fs::rename`.
abbrev pub rename : Text → Text → Disk → Bool × Disk
rename from dest d = elim d.faults [
  | [] ↦ try_move from dest [] d
  | none ∷ later ↦ try_move from dest later d
  | some _ ∷ later ↦ (false, record d { faults = later })
]

abbrev pub content_or_empty : Disk → Text → Text
content_or_empty d path = elim (contents d path) [ none ↦ [] | some bytes ↦ bytes ]

-- Opening a file to append, creating it if need be, and writing to it. A failed call leaves `left`
-- behind what was there.
abbrev pub append_to : Text → Text → Disk → Bool × Disk
append_to path bytes d =
    let old = content_or_empty d path in
    elim d.faults [
      | [] ↦ (true, record d { files = insert path (old ++ bytes) d.files })
      | none ∷ later ↦ (true, record { files = insert path (old ++ bytes) d.files; faults = later })
      | some left ∷ later ↦
          (false, record { files = insert path (old ++ left) d.files; faults = later })
    ]
