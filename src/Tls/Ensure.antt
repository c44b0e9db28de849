-- ===== src/Tls/Ensure.antt =====
-- What `ensure_ca_and_server_cert` of src/util.rs leaves in the four files.
use mini_mask.Common.{
  ℕ, ◌≡◌, ◌≢◌, refl, ap, ◌∙◌, ◌⊎◌, inl, inr, List, some, Bool, true, false, Text, text, Result, ok,
  err, arith, if◌then◌else◌,
}
use mini_mask.Util.{AnyError}
use mini_mask.Disk.{Disk, contents, write}
use mini_mask.Disk.Replace.{write-other, write_done}
use mini_mask.Tls.{
  Rcgen, Issue, CertPaths, gen_ca_and_server_cert, all_exist, put, done, write_issue, write_if,
  ensure_ca_and_server_cert,
}

-- No two of the four files are one.
pub record AreDistinct (p : CertPaths) : Type 0 where
  pub ca_ca_key : p.ca ≢ p.ca_key
  pub ca_cert : p.ca ≢ p.cert
  pub ca_key : p.ca ≢ p.key
  pub ca_key_cert : p.ca_key ≢ p.cert
  pub ca_key_key : p.ca_key ≢ p.key
  pub cert_key : p.cert ≢ p.key

-- The four files hold one issue.
pub record Holds (p : CertPaths) (i : Issue) (d : Disk) : Type 0 where
  pub ca : contents d p.ca ≡ some i.ca_cert
  pub ca_key : contents d p.ca_key ≡ some i.ca_key
  pub cert : contents d p.cert ≡ some i.cert
  pub key : contents d p.key ≡ some i.key

pub Holds-all_exist : (p : CertPaths) (i : Issue) (d : Disk) → Holds p i d → all_exist p d ≡ true
Holds-all_exist p i d h = ground (arith, h.ca, h.ca_key, h.cert, h.key)

-- A write of a chain that succeeds.
module _ (what : Text) (rest : Disk → Result AnyError (Unit {0}) × Disk) where
  abbrev onward : Bool × Disk → Result AnyError (Unit {0}) × Disk
  onward w = if w.0 then rest w.1 else (err what, w.1)

  onward-ok :
      (w : Bool × Disk)
      → (onward w).0 ≡ ok tt
      → (w.0 ≡ true) × ((rest w.1).0 ≡ ok tt) × ((onward w).1 ≡ (rest w.1).1)
  onward-ok (true, d) h = (refl, h, refl)
  onward-ok (false, d) h = absurd (cc)

module _ (p : CertPaths) (i : Issue) where
  write_issue-Holds :
      (d : Disk) → AreDistinct p → (write_issue p i d).0 ≡ ok tt → Holds p i (write_issue p i d).1
  write_issue-Holds d ne h =
      let after_cert = put (text "write key.pem") p.key i.key done in
      let after_ca_key = put (text "write cert.pem") p.cert i.cert after_cert in
      let after_ca = put (text "write ca_key.pem") p.ca_key i.ca_key after_ca_key in
      let w₁ = write p.ca i.ca_cert d in
      let (ok₁, h₁, e₁) = onward-ok (text "write ca.pem") after_ca w₁ h in
      let w₂ = write p.ca_key i.ca_key w₁.1 in
      let (ok₂, h₂, e₂) = onward-ok (text "write ca_key.pem") after_ca_key w₂ h₁ in
      let w₃ = write p.cert i.cert w₂.1 in
      let (ok₃, h₃, e₃) = onward-ok (text "write cert.pem") after_cert w₃ h₂ in
      let w₄ = write p.key i.key w₃.1 in
      let (ok₄, h₄, e₄) = onward-ok (text "write key.pem") done w₄ h₃ in
      let end : (write_issue p i d).1 ≡ w₄.1 = e₁ ∙ e₂ ∙ e₃ ∙ e₄ in
      record {
        ca =
            ap (λ x. contents x p.ca) end
            ∙ write-other p.key p.ca i.key w₃.1 ne.ca_key
            ∙ write-other p.cert p.ca i.cert w₂.1 ne.ca_cert
            ∙ write-other p.ca_key p.ca i.ca_key w₁.1 ne.ca_ca_key
            ∙ write_done p.ca i.ca_cert d ok₁;
        ca_key =
            ap (λ x. contents x p.ca_key) end
            ∙ write-other p.key p.ca_key i.key w₃.1 ne.ca_key_key
            ∙ write-other p.cert p.ca_key i.cert w₂.1 ne.ca_key_cert
            ∙ write_done p.ca_key i.ca_key w₁.1 ok₂;
        cert =
            ap (λ x. contents x p.cert) end
            ∙ write-other p.key p.cert i.key w₃.1 ne.cert_key
            ∙ write_done p.cert i.cert w₂.1 ok₃;
        key = ap (λ x. contents x p.key) end ∙ write_done p.key i.key w₃.1 ok₄;
      }

-- What a call leaves behind if it succeeds.
abbrev pub Ensured : CertPaths → Result AnyError Issue → (before after : Disk) → Type 0
Ensured p made d d' =
    ((all_exist p d ≡ true) × (d' ≡ d)) ⊎ ((i : Issue) × (made ≡ ok i) × Holds p i d')

Ensured-write_if :
    (p : CertPaths) (made : Result AnyError Issue) (d : Disk)
    → AreDistinct p
    → (write_if p made d).0 ≡ ok tt
    → Ensured p made d (write_if p made d).1
Ensured-write_if p (ok i) d ne h = inr (i, refl, write_issue-Holds p i d ne h)
Ensured-write_if p (err e) d ne h = absurd (cc)

Ensured-all_exist :
    (p : CertPaths) (made : Result AnyError Issue) (d d' : Disk)
    → Ensured p made d d'
    → all_exist p d' ≡ true
Ensured-all_exist p made d d' (inl (e, same)) = rw same e
Ensured-all_exist p made d d' (inr (i, e, holds)) = Holds-all_exist p i d' holds

ensured :
    (p : CertPaths) (made : Result AnyError Issue) (d : Disk) (b : Bool)
    → all_exist p d ≡ b
    → AreDistinct p
    → (if b then (ok tt, d) else write_if p made d).0 ≡ ok tt
    → Ensured p made d (if b then (ok tt, d) else write_if p made d).1
ensured p made d true e ne h = inl (e, refl)
ensured p made d false e ne h = Ensured-write_if p made d ne h

again :
    (p : CertPaths) (made : Result AnyError Issue) (d : Disk) (b : Bool)
    → b ≡ true
    → (if b then (ok tt, d) else write_if p made d) ≡ (ok tt, d)
again p made d true e = refl
again p made d false e = absurd (cc)

pub ensure_ca_and_server_cert_lem :
    {Key Cert : Type 0} (r : Rcgen Key Cert) (p : CertPaths) (san san' : List Text)
    (ca_random random ca_random' random' : List ℕ) (d : Disk)
    → AreDistinct p
    → let (result, d') = ensure_ca_and_server_cert r p san ca_random random d in
      result ≡ ok tt
      → Ensured p (gen_ca_and_server_cert r san ca_random random) d d'
        × (ensure_ca_and_server_cert r p san' ca_random' random' d' ≡ (ok tt, d'))
unfolding ensure_ca_and_server_cert
ensure_ca_and_server_cert_lem r p san san' ca_random random ca_random' random' d ne h =
    let made = gen_ca_and_server_cert r san ca_random random in
    let left = ensured p made d (all_exist p d) refl ne h in
    let d' = (ensure_ca_and_server_cert r p san ca_random random d).1 in
    let full = Ensured-all_exist p made d d' left in
    (left, again p (gen_ca_and_server_cert r san' ca_random' random') d' (all_exist p d') full)
