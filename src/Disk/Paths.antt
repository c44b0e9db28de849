-- ===== src/Disk/Paths.antt =====
-- Paths: `Path::with_extension`.
use mini_mask.Common.{ℕ, [], ◌∷◌, ◌++◌, Option, none, some, Text, ◌==◌, if◌then◌else◌}

-- The text up to the last `c`, and what follows it.
abbrev split_last : ℕ → Text → Option (Text × Text)
split_last c [] = none
split_last c (b ∷ s) = elim (split_last c s) [
  | some (front, back) ↦ some (b ∷ front, back)
  | none ↦ if b == c then some ([], s) else none
]

-- The stem of a file name: a dot in first place starts no extension.
file_stem : Text → Text
file_stem name = elim (split_last b'.' name) [
  | none ↦ name
  | some ([], back) ↦ name
  | some (b ∷ front, back) ↦ b ∷ front
]

unfoldable pub with_extension : Text → Text → Text
unfolding file_stem
with_extension path ext = elim (split_last b'/' path) [
  | none ↦ file_stem path ++ b'.' ∷ ext
  | some (dir, name) ↦ dir ++ b'/' ∷ (file_stem name ++ b'.' ∷ ext)
]
