-- ===== src/Common/Lists.antt =====
-- Lists measured by native numbers, and the iterator methods that the program calls.
use Prim.Native.Nat.{ℕ, zero, suc, ◌+◌, ◌-◌, ◌≤◌, ◌<◌}
use mathlib.Core.Path.{◌≡◌, refl, ap, sym, ◌∙◌}
use mathlib.Core.Bool.{Bool, false, ◌||◌}
use mathlib.Core.Logic.{inl, inr}
use mathlib.Core.List.{List, [], ◌∷◌, ◌++◌}
use mathlib.Core.Option.{Option, none, some}
use native.Mathlib.Omega.{arith}
use mini_mask.Common.Tests.{leb, Bool-cases, if◌then◌else◌}

module _ {ℓ} {A : Type ℓ} where
  abbrev pub length : List A → ℕ
  length [] = 0
  length (x ∷ xs) = suc (length xs)

  abbrev pub take : ℕ → List A → List A
  take zero xs = []
  take (suc n) [] = []
  take (suc n) (x ∷ xs) = x ∷ take n xs

  abbrev pub drop : ℕ → List A → List A
  drop zero xs = xs
  drop (suc n) [] = []
  drop (suc n) (x ∷ xs) = drop n xs

  -- `Vec::retain`.
  abbrev pub retain : (A → Bool) → List A → List A
  retain p [] = []
  retain p (x ∷ xs) = if p x then x ∷ retain p xs else retain p xs

  -- `iter().find(p)`.
  abbrev pub find : (A → Bool) → List A → Option A
  find p [] = none
  find p (x ∷ xs) = if p x then some x else find p xs

  -- `iter().any(p)`.
  abbrev pub any : (A → Bool) → List A → Bool
  any p [] = false
  any p (x ∷ xs) = p x || any p xs

  -- `iter().filter(p).count()`.
  abbrev pub count_by : (A → Bool) → List A → ℕ
  count_by p [] = 0
  count_by p (x ∷ xs) = if p x then suc (count_by p xs) else count_by p xs

  -- An assignment through `iter_mut().find(p)`: the first element that passes is changed.
  abbrev pub update_first : (A → Bool) → (A → A) → List A → List A
  update_first p f [] = []
  update_first p f (x ∷ xs) = if p x then f x ∷ xs else x ∷ update_first p f xs

  abbrev pub All {κ} : (A → Type κ) → List A → Type κ
  All P [] = Unit {κ}
  All P (x ∷ xs) = P x × All P xs

module _ {ℓ} {A : Type ℓ} where
  pub length-append : (xs ys : List A) → length (xs ++ ys) ≡ length xs + length ys
  length-append [] ys = omega arith
  length-append (x ∷ xs) ys = omega (arith, length-append xs ys)

  pub length-drop : (n : ℕ) (xs : List A) → length (drop n xs) ≡ length xs - n
  length-drop zero xs = omega arith
  length-drop (suc n) [] = omega arith
  length-drop (suc n) (x ∷ xs) = omega (arith, length-drop n xs)

  pub take-append_length : (xs ys : List A) → take (length xs) (xs ++ ys) ≡ xs
  take-append_length [] ys = refl
  take-append_length (x ∷ xs) ys = ap (◌∷◌ x) (take-append_length xs ys)

  pub drop-append_length : (xs ys : List A) → drop (length xs) (xs ++ ys) ≡ ys
  drop-append_length [] ys = refl
  drop-append_length (x ∷ xs) ys = drop-append_length xs ys

  -- Dropping from a list that is dropped from already.
  pub drop-append : (n : ℕ) (xs ys : List A) → n ≤ length xs → drop n (xs ++ ys) ≡ drop n xs ++ ys
  drop-append zero xs ys h = refl
  drop-append (suc n) [] ys h = elim h [ ]
  drop-append (suc n) (x ∷ xs) ys h = drop-append n xs ys (omega arith)

  drop-nil : (n : ℕ) → drop {A = A} n [] ≡ []
  drop-nil zero = refl
  drop-nil (suc n) = refl

  pub drop-drop : (m n : ℕ) (xs : List A) → drop m (drop n xs) ≡ drop (n + m) xs
  drop-drop m zero xs = ap (λ (k : ℕ). drop k xs) (omega arith)
  drop-drop m (suc n) [] = drop-nil m ∙ sym (drop-nil (suc n + m))
  drop-drop m (suc n) (x ∷ xs) =
      drop-drop m n xs
      ∙ ap (λ (k : ℕ). drop k (x ∷ xs)) {x = suc (n + m)} {y = suc n + m} (omega arith)

  pub length-retain-le : (p : A → Bool) (xs : List A) → length (retain p xs) ≤ length xs
  length-retain-le p [] = omega arith
  length-retain-le p (x ∷ xs) = ground (arith, length-retain-le p xs)

  pub update_first-none :
      (p : A → Bool) (f : A → A) (xs : List A) → find p xs ≡ none → update_first p f xs ≡ xs
  update_first-none p f [] h = refl
  update_first-none p f (x ∷ xs) h = ground (arith, update_first-none p f xs)

module _ {ℓ} {A : Type ℓ} (p : A → Bool) where
  pub count_by-append : (xs ys : List A) → count_by p (xs ++ ys) ≡ count_by p xs + count_by p ys
  count_by-append [] ys = omega arith
  count_by-append (x ∷ xs) ys = ground (arith, count_by-append xs ys)

  pub count_by-retain-le : (q : A → Bool) (xs : List A) → count_by p (retain q xs) ≤ count_by p xs
  count_by-retain-le q [] = omega arith
  count_by-retain-le q (x ∷ xs) = ground (arith, count_by-retain-le q xs)

  pub count_by-update_first :
      (q : A → Bool) (f : A → A)
      → ((x : A) → p (f x) ≡ p x)
      → (xs : List A) → count_by p (update_first q f xs) ≡ count_by p xs
  count_by-update_first q f h [] = refl
  count_by-update_first q f h (x ∷ xs) = ground (arith, h x, count_by-update_first q f h xs)

-- The last `n` elements.
module _ {ℓ} {A : Type ℓ} where
  abbrev pub last_n : ℕ → List A → List A
  last_n n xs = drop (length xs - n) xs

  pub last_n_short : (n : ℕ) (xs : List A) → length xs ≤ n → last_n n xs ≡ xs
  last_n_short n xs h = ap (λ (k : ℕ). drop k xs) {y = zero} (omega arith)

  last_n_full : (n : ℕ) (xs : List A) → length xs ≡ suc n → last_n n xs ≡ drop 1 xs
  last_n_full n xs l = ap (λ (k : ℕ). drop k xs) {y = 1} (omega (arith, l))

  pub length-last_n : (n : ℕ) (xs : List A) → length (last_n n xs) ≤ n
  length-last_n n xs = omega (arith, length-drop (length xs - n) xs)

  -- What is dropped early is not missed later.
  pub last_n-append : (n : ℕ) (xs ys : List A) → last_n n (last_n n xs ++ ys) ≡ last_n n (xs ++ ys)
  last_n-append n xs ys =
      let k : ℕ = length xs - n in
      let m : ℕ = length (drop k xs ++ ys) - n in
      let l : length (drop k xs ++ ys) ≡ (length xs - k) + length ys =
        omega (arith, length-append (drop k xs) ys, length-drop k xs) in
      ap (drop m) (sym (drop-append k xs ys (omega arith)))
      ∙ drop-drop m k (xs ++ ys)
      ∙ ap (λ (j : ℕ). drop j (xs ++ ys)) (omega (arith, length-append xs ys, l))

  -- A ring buffer for `n` elements: the first one goes when it is full.
  pub last_n-push :
      (n : ℕ) (x : A) (xs : List A)
      → 0 < n
      → length xs ≤ n
      → (if leb n (length xs) then drop 1 xs else xs) ++ x ∷ [] ≡ last_n n (xs ++ x ∷ [])
  last_n-push n x xs pos h = elim (Bool-cases (leb n (length xs))) [
    | inl full ↦ rw full (
        sym (drop-append 1 xs (x ∷ []) (ground (arith, full)))
        ∙ sym (last_n_full n (xs ++ x ∷ []) (ground (arith, full, length-append xs (x ∷ [])))))
    | inr room ↦
        rw room
          (sym (last_n_short n (xs ++ x ∷ []) (ground (arith, room, length-append xs (x ∷ [])))))
  ]
