-- ===== src/Tls/Pinning.antt =====
-- The server's certificate and the client's trust, from the files of src/util.rs.
use mini_mask.Common.{
  ℕ, ◌≡◌, refl, ap, ◌∙◌, inl, inr, List, [], ◌∷◌, Option, none, some, true, false, Text, Result, ok,
  ◌>>=◌, arith,
}
use mini_mask.Util.{AnyError}
use mini_mask.Disk.{Disk, contents}
use mini_mask.Tls.{
  CertificateParams, Rcgen, Issue, CertPaths, Rustls, pinned, or_error, names_or_local, ca_params,
  server_params, gen_ca_and_server_cert, all_exist, ensure_ca_and_server_cert, load_certs, load_key,
  build_tls_acceptor, add_roots, build_tls_connector_with_ca,
}
use mini_mask.Tls.Ensure.{AreDistinct, Holds, Ensured, ensure_ca_and_server_cert_lem}

-- What rustls reads back of rcgen's PEM: a file has the one certificate, or the one key, that was
-- written; it takes a signed certificate with the key that it was made for, and a CA as a root.
pub record PemLaws {Key Cert : Type 0} (r : Rcgen Key Cert) (t : Rustls) : Type 0 where
  pub der : Cert → List ℕ
  pub key_der : Key → List ℕ
  pub certs-cert_pem : (c : Cert) → t.certs (r.cert_pem c) ≡ some (der c ∷ [])
  pub private_key-key_pem : (k : Key) → t.private_key (r.key_pem k) ≡ some (some (key_der k))
  pub fits-signed_by :
      (ps : CertificateParams) (k ca_key : Key) (ca c : Cert)
      → r.signed_by ps k ca ca_key ≡ some c
      → t.fits (der c ∷ []) (key_der k) ≡ true
  pub is_root-self_signed :
      (ps : CertificateParams) (k : Key) (c : Cert)
      → r.self_signed ps k ≡ some c
      → t.is_root (der c) ≡ true

-- One issue: a CA and a certificate that it signed.
pub record Signed {Key Cert : Type 0} (r : Rcgen Key Cert) (san : List Text) (i : Issue)
    : Type 0 where
  pub ca_key : Key
  pub ca : Cert
  pub params : CertificateParams
  pub key : Key
  pub cert : Cert
  pub ca_lem : r.self_signed (ca_params r) ca_key ≡ some ca
  pub params_lem : r.new_params (names_or_local san) ≡ some params
  pub cert_lem : r.signed_by (server_params r params) key ca ca_key ≡ some cert
  pub issue : i ≡ record {
    ca_cert = r.cert_pem ca;
    ca_key = r.key_pem ca_key;
    cert = r.cert_pem cert;
    key = r.key_pem key;
  }

and_then {ℓ κ} :
    {A : Type ℓ} {B : Type κ} (what : Text) (o : Option A) (f : A → Result AnyError B) (b : B)
    → (or_error what o >>= f) ≡ ok b
    → (a : A) × (o ≡ some a) × (f a ≡ ok b)
and_then what (some a) f b h = (a, refl, h)
and_then what none f b h = absurd (cc)

module _ (t : Rustls) where
  build_tls_acceptor_lem :
      (cert_path key_path : Text) (d : Disk) {cert_pem key_pem : Text} {c k : List ℕ}
      → contents d cert_path ≡ some cert_pem
      → contents d key_path ≡ some key_pem
      → t.certs cert_pem ≡ some (c ∷ [])
      → t.private_key key_pem ≡ some (some k)
      → t.fits (c ∷ []) k ≡ true
      → build_tls_acceptor t cert_path key_path d ≡ ok (record { certs = c ∷ []; key = k })
  unfolding build_tls_acceptor load_certs load_key
  build_tls_acceptor_lem cert_path key_path d e₁ e₂ e₃ e₄ e₅ = ground arith

  build_tls_connector_with_ca_lem :
      (path : Text) (d : Disk) {pem : Text} {c : List ℕ}
      → contents d path ≡ some pem
      → t.certs pem ≡ some (c ∷ [])
      → t.is_root c ≡ true
      → build_tls_connector_with_ca t path d ≡ ok (pinned (c ∷ []))
  unfolding build_tls_connector_with_ca add_roots
  build_tls_connector_with_ca_lem path d e₁ e₂ e₃ = ground arith

module _ {Key Cert : Type 0} (r : Rcgen Key Cert) where
  gen_ca_and_server_cert-Signed :
      (san : List Text) (ca_random random : List ℕ) (i : Issue)
      → gen_ca_and_server_cert r san ca_random random ≡ ok i
      → Signed r san i
  unfolding gen_ca_and_server_cert
  gen_ca_and_server_cert-Signed san ca_random random i h =
      let (ca_key, e₁, h₁) = and_then _ (r.generate_key ca_random) _ i h in
      let (ca, e₂, h₂) = and_then _ (r.self_signed (ca_params r) ca_key) _ i h₁ in
      let (ps, e₃, h₃) = and_then _ (r.new_params (names_or_local san)) _ i h₂ in
      let (key, e₄, h₄) = and_then _ (r.generate_key random) _ i h₃ in
      let (cert, e₅, h₅) = and_then _ (r.signed_by (server_params r ps) key ca ca_key) _ i h₄ in
      record {
        ca_key = ca_key;
        ca = ca;
        params = ps;
        key = key;
        cert = cert;
        ca_lem = e₂;
        params_lem = e₃;
        cert_lem = e₅;
        issue = ground (arith, h₅);
      }

  module _ (t : Rustls) (laws : PemLaws r t) (p : CertPaths) (san : List Text) where
    -- The server presents the certificate and the client trusts the CA.
    abbrev pub Trusts : Disk → Type 0
    Trusts d =
        (i : Issue) × (s : Signed r san i) × (build_tls_acceptor t p.cert p.key d
          ≡ ok (record { certs = laws.der s.cert ∷ []; key = laws.key_der s.key }))
        × (build_tls_connector_with_ca t p.ca d ≡ ok (pinned (laws.der s.ca ∷ [])))

    Trusts-Holds : (i : Issue) (d : Disk) → Signed r san i → Holds p i d → Trusts d
    Trusts-Holds i d s h = (
      i,
      s,
      build_tls_acceptor_lem t p.cert p.key d (h.cert ∙ ap (λ j. some j.cert) s.issue)
          (h.key ∙ ap (λ j. some j.key) s.issue) (laws.certs-cert_pem s.cert)
          (laws.private_key-key_pem s.key)
          (laws.fits-signed_by _ s.key s.ca_key s.ca s.cert s.cert_lem),
      build_tls_connector_with_ca_lem t p.ca d (h.ca ∙ ap (λ j. some j.ca_cert) s.issue)
          (laws.certs-cert_pem s.ca) (laws.is_root-self_signed _ s.ca_key s.ca s.ca_lem),
    )

    Trusts-Ensured :
        (ca_random random : List ℕ) (d d' : Disk)
        → all_exist p d ≡ false
        → Ensured p (gen_ca_and_server_cert r san ca_random random) d d'
        → Trusts d'
    Trusts-Ensured ca_random random d d' new (inl (full, _)) = absurd (cc)
    Trusts-Ensured ca_random random d d' new (inr (i, e, h)) =
        Trusts-Holds i d' (gen_ca_and_server_cert-Signed san ca_random random i e) h

-- When a file is missing and `ensure_ca_and_server_cert` succeeds, the server's acceptor is built
-- from the files and has the certificate that the CA has signed and its key, and a client with the
-- file of the CA trusts this CA and nothing else. The four paths are distinct, and rustls reads back
-- what rcgen has printed.
pub ensure_ca_and_server_cert-Trusts :
    {Key Cert : Type 0} (r : Rcgen Key Cert) (t : Rustls) (laws : PemLaws r t) (p : CertPaths)
    (san : List Text) (ca_random random : List ℕ) (d : Disk)
    → AreDistinct p
    → all_exist p d ≡ false
    → (ensure_ca_and_server_cert r p san ca_random random d).0 ≡ ok tt
    → Trusts r t laws p san (ensure_ca_and_server_cert r p san ca_random random d).1
ensure_ca_and_server_cert-Trusts r t laws p san ca_random random d ne new h =
    Trusts-Ensured r t laws p san ca_random random d
      (ensure_ca_and_server_cert r p san ca_random random d).1 new
      (ensure_ca_and_server_cert_lem r p san san ca_random random ca_random random d ne h).0
