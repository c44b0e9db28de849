-- ===== src/Web/Trim.antt =====
-- `str::trim` on UTF-8 bytes.
use mini_mask.Common.{
  ℕ, zero, suc, [], ◌∷◌, Bool, ◌&&◌, ◌||◌, Text, length, drop, leb, ◌==◌, if◌then◌else◌,
}

abbrev between : ℕ → ℕ → ℕ → Bool
between lo hi b = leb lo b && leb b hi

-- White space of one byte, of two and of three.
abbrev space_1 : ℕ → Bool
space_1 b = b == 0x20 || between 0x9 0xd b

abbrev space_2 : ℕ → ℕ → Bool
space_2 a b = a == 0xc2 && (b == 0x85 || b == 0xa0)

abbrev space_3 : ℕ → ℕ → ℕ → Bool
space_3 a b c =
    a == 0xe1 && b == 0x9a && c == 0x80
    || a == 0xe2 && b == 0x80 && (between 0x80 0x8a c || c == 0xa8 || c == 0xa9 || c == 0xaf)
    || a == 0xe2 && b == 0x81 && c == 0x9f
    || a == 0xe3 && b == 0x80 && c == 0x80

-- How many bytes the white space in front takes; none is 0.
abbrev first_space : Text → ℕ
first_space [] = 0
first_space (a ∷ []) = if space_1 a then 1 else 0
first_space (a ∷ b ∷ []) = if space_1 a then 1 else if space_2 a b then 2 else 0
first_space (a ∷ b ∷ c ∷ s) =
    if space_1 a then 1 else if space_2 a b then 2 else if space_3 a b c then 3 else 0

-- The same for a text whose bytes are reversed.
abbrev last_space : Text → ℕ
last_space [] = 0
last_space (a ∷ []) = if space_1 a then 1 else 0
last_space (a ∷ b ∷ []) = if space_1 a then 1 else if space_2 b a then 2 else 0
last_space (a ∷ b ∷ c ∷ s) =
    if space_1 a then 1 else if space_2 b a then 2 else if space_3 c b a then 3 else 0

-- Drops white space from the front; there is no more of it than there are bytes.
trim_by : (Text → ℕ) → ℕ → Text → Text
trim_by space zero s = s
trim_by space (suc n) s =
    let rest = trim_by space n (drop (space s) s) in if space s == 0 then s else rest

abbrev reverse_onto : Text → Text → Text
reverse_onto [] acc = acc
reverse_onto (b ∷ s) acc = reverse_onto s (b ∷ acc)

unfoldable pub trim : Text → Text
unfolding trim_by
trim s =
    let front = trim_by first_space (length s) s in
    let back = reverse_onto front [] in reverse_onto (trim_by last_space (length back) back) []
