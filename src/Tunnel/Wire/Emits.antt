-- ===== src/Tunnel/Wire/Emits.antt =====
-- What a sequence of writes leaves on a stream of src/tunnel/protocol.rs, whatever fails on the way.
use mathlib.Core.List.{append_assoc, append-nil}
use mathlib.Core.Path.{subst}
use mini_mask.Common.{
  ℕ, zero, suc, ◌+◌, ◌≡◌, refl, sym, ap, ◌∙◌, List, [], ◌∷◌, ◌++◌, Option, none, some, Result, ok,
  err, length, take, arith,
}
use mini_mask.Tunnel.Wire.{Writer, Write, Error, ◌>>◌, resume, write_all, flush}

abbrev pub sent : List ℕ → Writer → Writer
sent bs w = record { out = w.out ++ bs; faults = [] }

-- The call succeeds with all of `bs` written, or fails with a front part of it written; with no
-- fault ahead it succeeds.
pub record Emits (m : Write (Unit {0})) (bs : List ℕ) : Type 0 where
  pub clean : (w : Writer) → w.faults ≡ [] → m w ≡ (ok tt, sent bs w)
  pub whole : (w : Writer) → (m w).0 ≡ ok tt → (m w).1.out ≡ w.out ++ bs
  pub part :
      (w : Writer) (e : Error) → (m w).0 ≡ err e → (k : ℕ) × ((m w).1.out ≡ w.out ++ take k bs)

take-append_left : (xs ys : List ℕ) (k : ℕ) → (j : ℕ) × (take j (xs ++ ys) ≡ take k xs)
take-append_left [] ys zero = (0, refl)
take-append_left [] ys (suc k) = (0, refl)
take-append_left (x ∷ xs) ys zero = (0, refl)
take-append_left (x ∷ xs) ys (suc k) =
    let (j, e) = take-append_left xs ys k in (suc j, ap (◌∷◌ x) e)

take-append_right : (xs ys : List ℕ) (k : ℕ) → take (length xs + k) (xs ++ ys) ≡ xs ++ take k ys
take-append_right [] ys k = ap (λ (n : ℕ). take n ys) {x = zero + k} (omega arith)
take-append_right (x ∷ xs) ys k =
    ap (λ (n : ℕ). take n (x ∷ xs ++ ys)) {x = suc (length xs) + k} {y = suc (length xs + k)}
      (omega arith)
    ∙ ap (◌∷◌ x) (take-append_right xs ys k)

pub write_all-Emits : (bs : List ℕ) → Emits (write_all bs) bs
unfolding write_all
write_all-Emits bs = record {
  clean = λ w h. ground arith;
  whole = λ w h. ground arith;
  part = λ w e h. failed w.out w.faults e h;
}
  where
    failed :
        (out : List ℕ) (faults : List (Option ℕ)) (e : Error)
        → (write_all bs (record { out = out; faults = faults })).0 ≡ err e
        → (k : ℕ) × ((write_all bs (record { out = out; faults = faults })).1.out
            ≡ out ++ take k bs)
    failed out [] e h = absurd (cc)
    failed out (none ∷ later) e h = absurd (cc)
    failed out (some k ∷ later) e h = (k, refl)

module _ {k : Write (Unit {0})} {cs : List ℕ} (q : Emits k cs) where
  resume_whole :
      (r : Result Error (Unit {0})) (w : Writer) (out bs : List ℕ)
      → (r ≡ ok tt → w.out ≡ out ++ bs)
      → (resume (r, w) (λ _. k)).0 ≡ ok tt
      → (resume (r, w) (λ _. k)).1.out ≡ out ++ (bs ++ cs)
  resume_whole (ok tt) w out bs p h =
      q.whole w h ∙ ap (λ (t : List ℕ). t ++ cs) (p refl) ∙ append_assoc out bs cs
  resume_whole (err e) w out bs p h = absurd (cc)

  resume_part :
      (r : Result Error (Unit {0})) (w : Writer) (out bs : List ℕ) (e : Error)
      → (r ≡ ok tt → w.out ≡ out ++ bs)
      → ((e : Error) → r ≡ err e → (n : ℕ) × (w.out ≡ out ++ take n bs))
      → (resume (r, w) (λ _. k)).0 ≡ err e
      → (n : ℕ) × ((resume (r, w) (λ _. k)).1.out ≡ out ++ take n (bs ++ cs))
  resume_part (ok tt) w out bs e p f h =
      let (n, g) = q.part w e h in
      (
        length bs + n,
        g
            ∙ ap (λ (t : List ℕ). t ++ take n cs) (p refl)
            ∙ append_assoc out bs (take n cs)
            ∙ sym (ap (◌++◌ out) (take-append_right bs cs n)),
      )
  resume_part (err d) w out bs e p f h =
      let (n, g) = f d refl in
      let (j, l) = take-append_left bs cs n in (j, g ∙ sym (ap (◌++◌ out) l))

  pub >>-Emits : {m : Write (Unit {0})} {bs : List ℕ} → Emits m bs → Emits (m >> k) (bs ++ cs)
  >>-Emits {m = m} {bs = bs} p = record {
    clean = λ w h.
        ap (λ r. resume r (λ _. k)) (p.clean w h)
        ∙ q.clean (sent bs w) refl
        ∙ ap (λ (t : List ℕ). (ok tt, record { out = t; faults = [] })) (append_assoc w.out bs cs);
    whole = λ w h. resume_whole (m w).0 (m w).1 w.out bs (p.whole w) h;
    part = λ w e h. resume_part (m w).0 (m w).1 w.out bs e (p.whole w) (p.part w) h;
  }

pub flush-Emits : {m : Write (Unit {0})} {bs : List ℕ} → Emits m bs → Emits (m >> flush) bs
flush-Emits {m = m} {bs = bs} p =
    subst (Emits (m >> flush)) (append-nil bs) (>>-Emits (write_all-Emits []) p)
