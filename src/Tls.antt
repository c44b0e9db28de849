-- ===== src/Tls.antt =====
-- The certificates of src/util.rs, and the acceptor and the connectors that are built from them.
pub mod Ensure
pub mod Pinning
use mini_mask.Common.{
  ℕ, List, [], ◌∷◌, ◌++◌, Option, none, some, Bool, true, false, ◌&&◌, Text, text, Result, ok, err,
  ◌>>=◌, ◌>>◌, guard, if◌then◌else◌,
}
use mini_mask.Util.{AnyError}
use mini_mask.Disk.{Disk, contents, write}

pub data KeyUsage : Type 0 where
  key_cert_sign crl_sign : KeyUsage

pub data ExtendedKeyUsage : Type 0 where
  server_auth : ExtendedKeyUsage

-- `CertificateParams`, as far as the program sets it. `is_ca` holds the number of CAs that may follow.
pub record CertificateParams : Type 0 where
  pub is_ca : Option ℕ
  pub key_usages : List KeyUsage
  pub extended_key_usages : List ExtendedKeyUsage
  pub common_name : Text
  pub subject_alt_names : List Text

-- rcgen, over its types of keys and certificates; a random choice is an argument, none is an error.
pub record Rcgen (Key Cert : Type 0) : Type 0 where
  pub default_params : CertificateParams
  pub new_params : List Text → Option CertificateParams
  pub generate_key : List ℕ → Option Key
  pub self_signed : CertificateParams → Key → Option Cert
  pub signed_by : CertificateParams → Key → (issuer : Cert) → (issuer_key : Key) → Option Cert
  pub simple_self_signed : List Text → List ℕ → Option (Cert × Key)
  pub cert_pem : Cert → Text
  pub key_pem : Key → Text

abbrev pub or_error {ℓ} : {A : Type ℓ} → Text → Option A → Result AnyError A
or_error what none = err what
or_error what (some a) = ok a

-- The names of the certificate; without any, those of the local machine.
abbrev pub names_or_local : List Text → List Text
names_or_local [] = text "localhost" ∷ text "127.0.0.1" ∷ []
names_or_local (n ∷ ns) = n ∷ ns

-- The four texts in PEM.
pub record Issue : Type 0 where
  pub ca_cert : Text
  pub ca_key : Text
  pub cert : Text
  pub key : Text

pub record CertPaths : Type 0 where
  pub ca : Text
  pub ca_key : Text
  pub cert : Text
  pub key : Text

module _ {Key Cert : Type 0} (r : Rcgen Key Cert) where
  unfoldable pub gen_self_signed_cert : List Text → List ℕ → Result AnyError (Text × Text)
  gen_self_signed_cert san random = do
    made ← or_error (text "rcgen generate") (r.simple_self_signed (names_or_local san) random)
    ok (r.cert_pem made.0, r.key_pem made.1)

  abbrev pub ca_params : CertificateParams
  ca_params = record r.default_params {
    is_ca = some 0;
    key_usages = key_cert_sign ∷ crl_sign ∷ [];
    common_name = text "MiniMask CA";
  }

  abbrev pub server_params : CertificateParams → CertificateParams
  server_params p = record p {
    extended_key_usages = server_auth ∷ [];
    common_name = text "MiniMask Server";
  }

  -- The two lists are what the keys of the CA and of the server are drawn from.
  unfoldable pub gen_ca_and_server_cert : List Text → List ℕ → List ℕ → Result AnyError Issue
  gen_ca_and_server_cert san ca_random random = do
    ca_key ← or_error (text "generate CA key") (r.generate_key ca_random)
    ca_cert ← or_error (text "self-sign CA") (r.self_signed ca_params ca_key)
    params ← or_error (text "build server cert params") (r.new_params (names_or_local san))
    key ← or_error (text "generate server key") (r.generate_key random)
    cert ←
        or_error (text "sign server cert") (r.signed_by (server_params params) key ca_cert ca_key)
    ok (record {
      ca_cert = r.cert_pem ca_cert;
      ca_key = r.key_pem ca_key;
      cert = r.cert_pem cert;
      key = r.key_pem key;
    })

abbrev pub exists : Disk → Text → Bool
exists d path = elim (contents d path) [ none ↦ false | some _ ↦ true ]

abbrev pub all_exist : CertPaths → Disk → Bool
all_exist p d = exists d p.ca && exists d p.ca_key && exists d p.cert && exists d p.key

-- A write, and what is done if it succeeds.
abbrev pub put :
    (what path bytes : Text)
    → (Disk → Result AnyError (Unit {0}) × Disk)
    → Disk
    → Result AnyError (Unit {0}) × Disk
put what path bytes rest d =
    let (written, d') = write path bytes d in if written then rest d' else (err what, d')

abbrev pub done : Disk → Result AnyError (Unit {0}) × Disk
done d = (ok tt, d)

abbrev pub write_issue : CertPaths → Issue → Disk → Result AnyError (Unit {0}) × Disk
write_issue p i = put (text "write ca.pem") p.ca i.ca_cert (
    put (text "write ca_key.pem") p.ca_key i.ca_key
      (put (text "write cert.pem") p.cert i.cert (put (text "write key.pem") p.key i.key done)))

abbrev pub write_if : CertPaths → Result AnyError Issue → Disk → Result AnyError (Unit {0}) × Disk
write_if p (err e) d = (err (text "generate CA + server certificate"), d)
write_if p (ok i) d = write_issue p i d

unfoldable pub ensure_ca_and_server_cert :
    {Key Cert : Type 0}
    → Rcgen Key Cert
    → CertPaths
    → List Text
    → List ℕ
    → List ℕ
    → Disk
    → Result AnyError (Unit {0}) × Disk
ensure_ca_and_server_cert r p san ca_random random d =
    if all_exist p d
    then (ok tt, d)
    else write_if p (gen_ca_and_server_cert r san ca_random random) d

-- rustls and rustls_pemfile, on certificates and keys as bytes. None is an error; a file with no
-- private key is no error of the parse.
pub record Rustls : Type 0 where
  pub certs : Text → Option (List (List ℕ))
  pub private_key : Text → Option (Option (List ℕ))
  pub fits : List (List ℕ) → List ℕ → Bool
  pub is_root : List ℕ → Bool

pub record TlsAcceptor : Type 0 where
  pub certs : List (List ℕ)
  pub key : List ℕ

-- What a client trusts: the certificates of some roots, or everything (`NoVerifier`).
pub data TlsConnector : Type 0 where
  pinned : (roots : List (List ℕ)) → TlsConnector
  dangerous : TlsConnector

module _ (t : Rustls) where
  unfoldable pub load_certs : Text → Disk → Result AnyError (List (List ℕ))
  load_certs path d = do
    pem ← or_error (text "read cert " ++ path) (contents d path)
    or_error (text "parse certs") (t.certs pem)

  unfoldable pub load_key : Text → Disk → Result AnyError (List ℕ)
  load_key path d = do
    pem ← or_error (text "read key " ++ path) (contents d path)
    found ← or_error (text "parse key") (t.private_key pem)
    or_error (text "no private key in " ++ path) found

  unfoldable pub build_tls_acceptor :
      (cert_path key_path : Text) → Disk → Result AnyError TlsAcceptor
  build_tls_acceptor cert_path key_path d = do
    certs ← load_certs cert_path d
    key ← load_key key_path d
    guard (t.fits certs key) (text "build server TLS config")
    ok (record { certs = certs; key = key })

  -- The first that is refused ends the loop.
  unfoldable pub add_roots : List (List ℕ) → List (List ℕ) → Result AnyError (List (List ℕ))
  add_roots roots [] = ok roots
  add_roots roots (c ∷ cs) =
      let rest = add_roots (roots ++ c ∷ []) cs in
      if t.is_root c then rest else err (text "add CA cert to root store")

  abbrev pub pin : (path : Text) → List (List ℕ) → Result AnyError TlsConnector
  pin path [] = err (text "no certificates found in CA file " ++ path)
  pin path (c ∷ cs) = do roots ← add_roots [] (c ∷ cs); ok (pinned roots)

  unfoldable pub build_tls_connector_with_ca : Text → Disk → Result AnyError TlsConnector
  build_tls_connector_with_ca path d = do
    pem ← or_error (text "read CA cert " ++ path) (contents d path)
    certs ← or_error (text "parse CA certs") (t.certs pem)
    pin path certs

unfoldable pub build_dangerous_tls_connector : Result AnyError TlsConnector
build_dangerous_tls_connector = ok dangerous
