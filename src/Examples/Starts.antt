-- ===== src/Examples/Starts.antt =====
-- The theorems about the start of src/server.rs at work.
use mini_mask.Common.{◌≡◌, refl, [], ◌∷◌, some, true, ok, Text, text_discrete, ℕ_discrete}
use mini_mask.Util.{gen_jwt_secret, sha256_hex_with_pepper}
use mini_mask.Config.{default_config}
use mini_mask.Store.Model.{verify_token}
use mini_mask.Web.Trim.{trim}
use mini_mask.Startup.{ensure_pepper, ensure_secret}
use mini_mask.Startup.Secrets.{verify_token-ensure_pepper}
use mini_mask.Examples.Given.{plain_crates, two_clients, no_files}

-- The first start draws the pepper `p`, the second one would draw `q`.
pepper_example :
    let d = (ensure_pepper plain_crates (b'p' ∷ []) default_config no_files).1 in
    (later : Text) × (ensure_pepper plain_crates (b'q' ∷ []) default_config d ≡ (ok later, d))
    × (verify_token plain_crates (b't' ∷ []) later two_clients ≡ some (b'a' ∷ [], true))
pepper_example =
    verify_token-ensure_pepper plain_crates default_config (b'p' ∷ []) (b't' ∷ []) (b'p' ∷ [])
      (b'q' ∷ []) no_files two_clients (b'a' ∷ [], true)
      (unfold trim gen_jwt_secret plain_crates in refl)
      (unfold ensure_pepper ensure_secret gen_jwt_secret plain_crates in refl)
      (unfold verify_token sha256_hex_with_pepper plain_crates text_discrete ℕ_discrete in refl)
