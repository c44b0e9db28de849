-- ===== src/Tunnel/Wire.antt =====
-- The byte streams of the protocol: the type parameters `W` and `R` of src/tunnel/protocol.rs.
pub mod Emits
use mini_mask.Common.{
  ℕ, ◌<◌, ◌≡◌, List, [], ◌∷◌, ◌++◌, Option, none, some, Result, ok, err, length, take, drop, leb,
  if◌then◌else◌, arith, take-append_length, drop-append_length, length-append,
}

pub data Error : Type 0 where
  broken_pipe unexpected_eof invalid_magic invalid_utf8 : Error
  unsupported_version string_too_long : ℕ → Error

-- A stream to write to: what the peer will see, and what becomes of each call to come.
-- `some k` is a call that fails after `k` bytes; past the end of the list every call succeeds.
pub record Writer : Type 0 where
  pub out : List ℕ
  pub faults : List (Option ℕ)

abbrev pub Write : Type 0 → Type 0
Write A = Writer → Result Error A × Writer

-- What follows a call: the next one, or the error.
abbrev pub resume :
    {A B : Type 0} → Result Error A × Writer → (A → Write B) → Result Error B × Writer
resume (ok a, w) f = f a w
resume (err e, w) f = (err e, w)

infixl 5 ◌>>=◌ ◌>>◌
abbrev pub ◌>>=◌ : {A B : Type 0} → Write A → (A → Write B) → Write B
◌>>=◌ m f w = resume (m w) f

abbrev pub ◌>>◌ : {B : Type 0} → Write (Unit {0}) → Write B → Write B
m >> k = m >>= λ _. k

abbrev pub fail : {A : Type 0} → Error → Write A
fail e w = (err e, w)

-- `write_all`; a flush is a write of no bytes.
unfoldable pub write_all : List ℕ → Write (Unit {0})
write_all bs w = elim w.faults [
  | [] ↦ (ok tt, record w { out = w.out ++ bs })
  | none ∷ later ↦ (ok tt, record { out = w.out ++ bs; faults = later })
  | some k ∷ later ↦ (err broken_pipe, record { out = w.out ++ take k bs; faults = later })
]

abbrev pub flush : Write (Unit {0})
flush = write_all []

-- A stream to read from is what the peer sends before it closes its side.
abbrev pub Read : Type 0 → Type 0
Read A = List ℕ → Result Error (A × List ℕ)

unfoldable pub read_exact : ℕ → Read (List ℕ)
read_exact n r = if leb n (length r) then ok (take n r, drop n r) else err unexpected_eof

pub read_exact-append : (s rest : List ℕ) → read_exact (length s) (s ++ rest) ≡ ok (s, rest)
unfolding read_exact
read_exact-append s rest =
    ground (arith, length-append s rest, take-append_length s rest, drop-append_length s rest)
