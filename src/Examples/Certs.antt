-- ===== src/Examples/Certs.antt =====
-- The theorems about the certificates of src/util.rs, and about a start of src/server.rs, at work.
use mini_mask.Common.{
  ℕ, ◌≡◌, refl, List, [], ◌∷◌, none, some, true, Text, ok, arith, text_discrete, ℕ_discrete,
}
use mini_mask.Disk.{Disk}
use mini_mask.Tls.{
  CertificateParams, Rcgen, Rustls, CertPaths, gen_ca_and_server_cert, ensure_ca_and_server_cert,
}
use mini_mask.Tls.Ensure.{AreDistinct}
use mini_mask.Tls.Pinning.{PemLaws, Trusts, ensure_ca_and_server_cert-Trusts}
use mini_mask.Examples.Given.{no_files}

-- A key is its random bytes, a certificate its name and its key; PEM is the bytes behind a letter.
abbrev pub no_params : CertificateParams
no_params = record {
  is_ca = none;
  key_usages = [];
  extended_key_usages = [];
  common_name = [];
  subject_alt_names = [];
}

abbrev pub plain_rcgen : Rcgen (List ℕ) (List ℕ)
plain_rcgen = record {
  default_params = no_params;
  new_params = λ names. some (record no_params { subject_alt_names = names });
  generate_key = λ random. some random;
  self_signed = λ ps k. some k;
  signed_by = λ ps k ca ca_key. some k;
  simple_self_signed = λ names random. some (random, random);
  cert_pem = λ c. b'C' ∷ c;
  key_pem = λ k. b'K' ∷ k;
}

abbrev pub unlabelled : Text → Text
unlabelled [] = []
unlabelled (b ∷ s) = s

abbrev pub plain_rustls : Rustls
plain_rustls = record {
  certs = λ pem. some (unlabelled pem ∷ []);
  private_key = λ pem. some (some (unlabelled pem));
  fits = λ certs key. true;
  is_root = λ c. true;
}

plain-PemLaws : PemLaws plain_rcgen plain_rustls
plain-PemLaws = record {
  der = λ c. c;
  key_der = λ k. k;
  certs-cert_pem = λ c. refl;
  private_key-key_pem = λ k. refl;
  fits-signed_by = λ ps k ca_key ca c h. refl;
  is_root-self_signed = λ ps k c h. refl;
}

abbrev paths : CertPaths
paths = record { ca = b'a' ∷ []; ca_key = b'b' ∷ []; cert = b'c' ∷ []; key = b'd' ∷ [] }

paths-AreDistinct : AreDistinct paths
paths-AreDistinct = record {
  ca_ca_key = λ h. ground arith;
  ca_cert = λ h. ground arith;
  ca_key = λ h. ground arith;
  ca_key_cert = λ h. ground arith;
  ca_key_key = λ h. ground arith;
  cert_key = λ h. ground arith;
}

abbrev issued : Disk
issued = (ensure_ca_and_server_cert plain_rcgen paths [] (1 ∷ []) (2 ∷ []) no_files).1

succeeds : (ensure_ca_and_server_cert plain_rcgen paths [] (1 ∷ []) (2 ∷ []) no_files).0 ≡ ok tt
unfolding ensure_ca_and_server_cert gen_ca_and_server_cert text_discrete ℕ_discrete
succeeds = refl

pinning_example : Trusts plain_rcgen plain_rustls plain-PemLaws paths [] issued
pinning_example =
    ensure_ca_and_server_cert-Trusts plain_rcgen plain_rustls plain-PemLaws paths [] (1 ∷ [])
      (2 ∷ []) no_files paths-AreDistinct refl succeeds
