-- ===== src/Web/Errors.antt =====
-- The error type of the API: src/error.rs.
use mini_mask.Common.{ℕ, Text, text, ◌++◌, Result, ok, err}
use mini_mask.Util.{AnyError}
use mini_mask.Disk.{Disk}
use mini_mask.Store.Model.{ClientStore}
use mini_mask.State.{AppState}

pub data AppError : Type 0 where
  not_found unauthorized forbidden : AppError
  bad_request conflict internal : Text → AppError

-- The status of the response, and the message in its body.
unfoldable pub status_code : AppError → ℕ
status_code not_found = 404
status_code unauthorized = 401
status_code forbidden = 403
status_code (bad_request _) = 400
status_code (conflict _) = 409
status_code (internal _) = 500

unfoldable pub message : AppError → Text
message not_found = text "not found"
message unauthorized = text "unauthorized"
message forbidden = text "forbidden"
message (bad_request m) = m
message (conflict m) = m
message (internal m) = text "internal error: " ++ m

abbrev pub Response : Type 0 → Type 0
Response A = Result AppError A × AppState

-- `From<anyhow::Error>`, for `?`.
abbrev pub lift {ℓ} : {A : Type ℓ} → Result AnyError A → Result AppError A
lift (ok a) = ok a
lift (err e) = err (internal e)

-- A call of the client store under its write lock.
abbrev pub with_clients :
    {A : Type 0} → Result AnyError A × ClientStore × Disk → AppState → Response A
with_clients (r, store, disk) s = (lift r, record s { clients = store; disk = disk })
