-- ===== src/Web/Refusals.antt =====
-- A request that src/web/routes.rs refuses changes nothing.
use mini_mask.Common.{◌<◌, ◌≡◌, err}
use mini_mask.Disk.{Disk}
use mini_mask.Auth as Account
use mini_mask.Store.Ops as Ops
use mini_mask.Store.Ops.{Draw}
use mini_mask.State.{AppState}
use mini_mask.Web.Errors.{AppError, status_code, Response}

-- If the response is an error below 500, its state is `s`.
record IsClean {A : Type 0} (s : AppState) (r : Response A) : Type 0 where
  clean : (e : AppError) (t : AppState) → r ≡ (err e, t) → status_code e < 500 → t ≡ s
