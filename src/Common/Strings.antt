-- ===== src/Common/Strings.antt =====
-- Rust strings: the bytes of their UTF-8 encoding.
use Prim.Native.Nat.{ℕ, zero, suc, ◌+◌, ◌/◌, ◌%◌}
use Prim.Native.Char.{code}
use Prim.Native.String.{String}
use mathlib.Core.Path.{◌≡◌}
use native.Mathlib.Omega.{arith}
use mathlib.Core.Bool.{Bool, true, false, ◌&&◌}
use mathlib.Core.Option.{Option, none, some}
use mathlib.Core.List.{List, [], ◌∷◌, ◌++◌}
use native.Mathlib.Decide.{ℕ_discrete}
use mini_mask.Common.Tests.{ltb, leb, ◌==◌, if◌then◌else◌}

abbrev pub Text : Type 0
Text = List ℕ

-- The bytes that encode a character.
abbrev pub encode_char : ℕ → List ℕ
encode_char c =
    if ltb c 0x80
    then c ∷ []
    else if ltb c 0x800
    then (0xc0 + c / 0x40) ∷ (0x80 + c % 0x40) ∷ []
    else if ltb c 0x1_0000
    then (0xe0 + c / 0x1000) ∷ (0x80 + c / 0x40 % 0x40) ∷ (0x80 + c % 0x40) ∷ []
    else (0xf0 + c / 0x4_0000)
      ∷ (0x80 + c / 0x1000 % 0x40)
      ∷ (0x80 + c / 0x40 % 0x40)
      ∷ (0x80 + c % 0x40)
      ∷ []

-- A literal of the source.
unfoldable pub text : String → Text
text String.[] = []
text (String.◌∷◌ c s) = encode_char (code c) ++ text s

unfoldable pub text_discrete : Discrete Text
text_discrete = hlevel ℕ_discrete

-- `a == b` of two strings.
abbrev pub text_eq : Text → Text → Bool
text_eq s t = elim (text_discrete s t) [ yes _ ↦ true | no _ ↦ false ]

pub text_eq_refl : (s : Text) → text_eq s s ≡ true
text_eq_refl s = ground arith

-- What a first byte of a character asks for: how many more bytes, and the range of the next one.
abbrev pub lead_byte : ℕ → Option (ℕ × ℕ × ℕ)
lead_byte b =
    if ltb b 0x80
    then some (0, 0x80, 0xbf)
    else if ltb b 0xc2
    then none
    else if ltb b 0xe0
    then some (1, 0x80, 0xbf)
    else if ltb b 0xf0
    then some (2, (if b == 0xe0 then 0xa0 else 0x80), (if b == 0xed then 0x9f else 0xbf))
    else if ltb b 0xf5
    then some (3, (if b == 0xf0 then 0x90 else 0x80), (if b == 0xf4 then 0x8f else 0xbf))
    else none

-- `more` bytes of a character are missing, and the next lies in `lo..=hi`.
scan_utf8 : (more lo hi : ℕ) → List ℕ → Bool
scan_utf8 zero lo hi [] = true
scan_utf8 (suc more) lo hi [] = false
scan_utf8 zero lo hi (b ∷ bs) = elim (lead_byte b) [
  | none ↦ false
  | some (more, l, h) ↦ scan_utf8 more l h bs
]
scan_utf8 (suc more) lo hi (b ∷ bs) = leb lo b && leb b hi && scan_utf8 more 0x80 0xbf bs

-- The test of `String::from_utf8`.
unfoldable pub is_utf8 : List ℕ → Bool
unfolding scan_utf8
is_utf8 bs = scan_utf8 0 0x80 0xbf bs

-- `{}` of an unsigned number: its digits, of which there are at most `fuel`.
digits : (fuel : ℕ) → ℕ → Text → Text
digits zero n acc = acc
digits (suc fuel) n acc =
    let more = digits fuel (n / 10) ((b'0' + n % 10) ∷ acc) in if n == 0 then acc else more

-- Up to 20 digits, as a `u64` has.
unfoldable pub decimal : ℕ → Text
unfolding digits
decimal n = if n == 0 then b'0' ∷ [] else digits 20 n []
