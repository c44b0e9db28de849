-- ===== src/Tunnel/Protocol/Accepts.antt =====
-- Which inputs the readers of src/tunnel/protocol.rs accept.
use mathlib.Core.List.{append_assoc}
use mini_mask.Common.{
  ℕ, ◌≤◌, ◌<◌, ◌≡◌, refl, sym, ap, ◌∙◌, List, [], ◌∷◌, ◌++◌, Bool, true, false, Text, text_eq,
  is_utf8, Result, ok, err, length, arith, All, take, drop, ◌>>=◌, ◌>>◌, guard, ◌==◌, zero, suc,
  if◌then◌else◌,
}
use mini_mask.Tunnel.Wire.{Error, invalid_utf8, Read, read_exact}
use mini_mask.Tunnel.Protocol.Send.{magic, proto_version, u16_be_bytes}
use mini_mask.Tunnel.Protocol.Receive.{read_lp_str, u16_from_be_bytes, first_byte, read_handshake}
use mini_mask.Tunnel.Protocol.RoundTrip.{IsSendable, lp_str, handshake_bytes}

abbrev pub IsByte : ℕ → Type 0
IsByte b = b < 256

take-append-drop : (n : ℕ) (s : List ℕ) → s ≡ take n s ++ drop n s
take-append-drop zero s = refl
take-append-drop (suc n) [] = refl
take-append-drop (suc n) (b ∷ s) = ap (◌∷◌ b) (take-append-drop n s)

length-take_le : (n : ℕ) (s : List ℕ) → n ≤ length s → length (take n s) ≡ n
length-take_le zero s h = refl
length-take_le (suc n) [] h = elim h [ ]
length-take_le (suc n) (b ∷ s) h = omega (arith, length-take_le n s (omega arith))

read_exact-eq-ok :
    (n : ℕ) (s a r : List ℕ) → read_exact n s ≡ ok (a, r) → (s ≡ a ++ r) × (length a ≡ n)
unfolding read_exact
read_exact-eq-ok n s a r h = ground (arith, take-append-drop n s, length-take_le n s)

-- Inversion of `?`.
bind-eq-ok {ℓ κ} :
    {A : Type ℓ} {B : Type κ} (m : Result Error A) (f : A → Result Error B) (b : B)
    → (m >>= f) ≡ ok b
    → (a : A) × (m ≡ ok a) × (f a ≡ ok b)
bind-eq-ok (ok a) f b h = (a, refl, h)
bind-eq-ok (err e) f b h = cc

All-append {κ} : (P : ℕ → Type κ) (s t : List ℕ) → All P (s ++ t) → All P s × All P t
All-append P [] t h = (tt, h)
All-append P (b ∷ s) t h = let (p, q) = All-append P s t h.1 in ((h.0, p), q)

two_bytes :
    (a : List ℕ)
    → length a ≡ 2
    → All IsByte a
    → (u16_be_bytes (u16_from_be_bytes a) ≡ a) × (u16_from_be_bytes a ≤ 65535)
two_bytes [] h b = absurd (omega arith)
two_bytes (x ∷ []) h b = absurd (omega arith)
two_bytes (x ∷ y ∷ []) h b = ground arith
two_bytes (x ∷ y ∷ z ∷ a) h b = absurd (omega arith)

-- What the length prefix stands before.
accepted_utf8 :
    (buf t r₂ r : List ℕ)
    → ◌≡◌ {A = Result Error (Text × List ℕ)}
        (if is_utf8 buf then ok (buf, r₂) else err invalid_utf8)
        (ok (t, r))
    → (is_utf8 buf ≡ true) × (buf ≡ t) × (r₂ ≡ r)
accepted_utf8 buf t r₂ r e = ground arith

-- A string is accepted only in the form in which it is sent.
read_lp_str-eq-ok :
    (s t r : List ℕ)
    → All IsByte s
    → read_lp_str s ≡ ok (t, r)
    → (s ≡ lp_str t ++ r) × IsSendable t × All IsByte r
unfolding read_lp_str
read_lp_str-eq-ok s t r b h =
    let ((a, r₁), e₁, h₁) = bind-eq-ok (read_exact 2 s) _ _ h in
    let ((buf, r₂), e₂, h₂) = bind-eq-ok (read_exact (u16_from_be_bytes a) r₁) _ _ h₁ in
    let (split₁, la) = read_exact-eq-ok 2 s a r₁ e₁ in
    let (split₂, lb) = read_exact-eq-ok (u16_from_be_bytes a) r₁ buf r₂ e₂ in
    let (ba, b₁) = All-append IsByte a r₁ (rw split₁ at b) in
    let (bb, b₂) = All-append IsByte buf r₂ (rw split₂ at b₁) in
    let (back, small) = two_bytes a la ba in
    let (valid, same, rest) = accepted_utf8 buf t r₂ r h₂ in
    rw (← same) (
      rw (← rest) (
        split₁
            ∙ ap (◌++◌ a) split₂
            ∙ sym (append_assoc a buf r₂)
            ∙ ap (λ (x : List ℕ). (x ++ buf) ++ r₂) (sym (ap u16_be_bytes lb ∙ back)),
        record { fits = omega (arith, lb); valid = valid },
        b₂,
      ))

guard-eq-ok {ℓ} :
    {A : Type ℓ} (test : Bool) (e : Error) (k : Result Error A) (a : A)
    → (guard test e >> k) ≡ ok a
    → (test ≡ true) × (k ≡ ok a)
guard-eq-ok true e k a h = (refl, h)
guard-eq-ok false e k a h = cc

text_eq→eq : (s t : Text) → text_eq s t ≡ true → s ≡ t
text_eq→eq s t h = ground arith

one_byte : (a : List ℕ) (b : ℕ) → length a ≡ 1 → (first_byte a == b) ≡ true → a ≡ b ∷ []
one_byte [] b l h = absurd (omega arith)
one_byte (x ∷ []) b l h = ground arith
one_byte (x ∷ y ∷ a) b l h = absurd (omega arith)

-- The end of `read_handshake`, behind the version.
abbrev read_names : Read (Text × Text)
read_names r = do
  (client_id, r₁) ← read_lp_str r
  (token, r₂) ← read_lp_str r₁
  ok ((client_id, token), r₂)

read_names-eq-ok :
    (s client_id token rest : List ℕ)
    → All IsByte s
    → read_names s ≡ ok ((client_id, token), rest)
    → (s ≡ (lp_str client_id ++ lp_str token) ++ rest) × IsSendable client_id × IsSendable token
read_names-eq-ok s client_id token rest b h =
    let ((c, r₁), e₁, h₁) = bind-eq-ok (read_lp_str s) _ _ h in
    let ((t, r₂), e₂, h₂) = bind-eq-ok (read_lp_str r₁) _ _ h₁ in joined c r₁ t r₂ e₁ e₂ h₂
  where
    joined :
        (c r₁ t r₂ : List ℕ)
        → read_lp_str s ≡ ok (c, r₁)
        → read_lp_str r₁ ≡ ok (t, r₂)
        → ◌≡◌ {A = Result Error ((Text × Text) × List ℕ)}
            (ok ((c, t), r₂))
            (ok ((client_id, token), rest))
        → (s ≡ (lp_str client_id ++ lp_str token) ++ rest) × IsSendable client_id × IsSendable token
    joined c r₁ t r₂ e₁ e₂ h₂ =
        let (split₁, sc, b₁) = read_lp_str-eq-ok s client_id r₁ b (ground (arith, e₁, h₂)) in
        let (split₂, st, b₂) = read_lp_str-eq-ok r₁ token rest b₁ (ground (arith, e₂, h₂)) in
        (
          split₁
              ∙ ap (◌++◌ (lp_str client_id)) split₂
              ∙ sym (append_assoc (lp_str client_id) (lp_str token) rest),
          sc,
          st,
        )

-- A first piece of `n` bytes that passes a test, and the rest.
read_tagged-eq-ok {κ} :
    {A : Type κ} (n : ℕ) (s : List ℕ) (test : List ℕ → Bool) (e : List ℕ → Error)
    (k : List ℕ → Result Error A) (a : A)
    → All IsByte s
    → (read_exact n s >>= λ p. guard (test p.0) (e p.0) >> k p.1) ≡ ok a
    → (tag : List ℕ) × (r : List ℕ) × (s ≡ tag ++ r)
      × (length tag ≡ n)
      × (test tag ≡ true)
      × All IsByte r
      × (k r ≡ ok a)
read_tagged-eq-ok n s test e k a b h =
    let ((tag, r), e₁, h₁) = bind-eq-ok (read_exact n s) _ a h in
    let (passed, h₂) = guard-eq-ok (test tag) (e tag) (k r) a h₁ in
    let (split, l) = read_exact-eq-ok n s tag r e₁ in
    (tag, r, split, l, passed, (All-append IsByte tag r (rw split at b)).1, h₂)

-- The server accepts an input of bytes only if it begins with the handshake of the client id and the
-- token that it returns, and leaves exactly what follows; both then are UTF-8 of at most 65535 bytes.
pub read_handshake-eq-ok :
    (s client_id token rest : List ℕ)
    → All IsByte s
    → read_handshake s ≡ ok ((client_id, token), rest)
    → (s ≡ handshake_bytes client_id token ++ rest) × IsSendable client_id × IsSendable token
unfolding read_handshake
read_handshake-eq-ok s client_id token rest b h =
    let (m, r₁, split₁, l₁, is_magic, b₁, h₁) =
      read_tagged-eq-ok 4 s (λ x. text_eq x magic) _ _ _ b h in
    let (v, r₂, split₂, l₂, is_version, b₂, h₂) =
      read_tagged-eq-ok 1 r₁ (λ x. first_byte x == proto_version) _ read_names _ b₁ h₁ in
    let (split₃, sc, st) = read_names-eq-ok r₂ client_id token rest b₂ h₂ in
    (
      split₁
          ∙ ap (λ (x : List ℕ). x ++ r₁) (text_eq→eq m magic is_magic)
          ∙ ap (◌++◌ magic) (
              split₂
              ∙ ap (λ (x : List ℕ). x ++ r₂) (one_byte v proto_version l₂ is_version)
              ∙ ap (◌∷◌ proto_version) split₃)
          ∙ sym (
              append_assoc magic ((proto_version ∷ []) ++ (lp_str client_id ++ lp_str token)) rest),
      sc,
      st,
    )
