-- ===== src/Startup/Secrets.antt =====
-- A restart of src/server.rs finds the secrets of the first start.
use mini_mask.Common.{ℕ, ◌≡◌, List, some, Bool, Text, ok, arith, Option-cases, Bool-cases, inl, inr}
use mini_mask.Util.{Crates, gen_jwt_secret}
use mini_mask.Config.{Config}
use mini_mask.Store.Model.{ClientStore, verify_token}
use mini_mask.Disk.{Disk, contents, write}
use mini_mask.Disk.Replace.{write_done}
use mini_mask.Web.Trim.{trim}
use mini_mask.Startup.{ensure_secret, ensure_pepper}

ensure_secret-again :
    (c : Crates) (path secret : Text) (random other : List ℕ) (d : Disk)
    → trim (gen_jwt_secret c random) ≡ gen_jwt_secret c random
    → (ensure_secret c path random d).0 ≡ ok secret
    → let d' = (ensure_secret c path random d).1 in ensure_secret c path other d' ≡ (ok secret, d')
unfolding ensure_secret
ensure_secret-again c path secret random other d plain h = elim (Option-cases (contents d path)) [
  | inr (raw, e) ↦ ground (arith, e, h)
  | inl e ↦
      let made = gen_jwt_secret c random in
      elim (Bool-cases (write path made d).0) [
        | inl w ↦ ground (arith, e, h, w, plain, write_done path made d w)
        | inr w ↦ absurd (ground (arith, e, h, w))
      ]
]

-- A token that is accepted with the pepper of one start is accepted after the next one, whatever that
-- would have drawn: both use one pepper, if what is drawn has no white space at its ends.
pub verify_token-ensure_pepper :
    (c : Crates) (cfg : Config) (pepper token : Text) (random other : List ℕ) (d : Disk)
    (s : ClientStore) (found : Text × Bool)
    → trim (gen_jwt_secret c random) ≡ gen_jwt_secret c random
    → (ensure_pepper c random cfg d).0 ≡ ok pepper
    → verify_token c token pepper s ≡ some found
    → let d' = (ensure_pepper c random cfg d).1 in
      (later : Text) × (ensure_pepper c other cfg d' ≡ (ok later, d'))
      × (verify_token c token later s ≡ some found)
unfolding ensure_pepper
verify_token-ensure_pepper c cfg pepper token random other d s found plain h accepted =
    (pepper, ensure_secret-again c _ pepper random other d plain h, accepted)
