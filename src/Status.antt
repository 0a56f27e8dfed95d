-- ===== src/Status.antt =====
-- gRPC errors as the driver builds them, with `status.Error` and `status.Errorf`.
use csi_driver_rclone.Prelude.{Result, ok, err, ◌++◌}
use csi_driver_rclone.Text.{Text}

-- The codes that the driver uses; `unknown` is what gRPC makes of an error without a code.
pub data Code : Type 0 where
  invalid_argument internal aborted unavailable unimplemented unknown : Code

pub record Status : Type 0 where
  pub code : Code
  pub message : Text

-- `status.Error(code, message)`
abbrev pub error : Code → Text → Status
error c m = record { code = c; message = m }

-- The response of a handler, or its error.
abbrev pub Reply {ℓ} : Type ℓ → Type ℓ
Reply A = Result Status A

-- `if err != nil { return status.Errorf(c, prefix + "%v", err) }`; with the code `unknown` it is
-- `fmt.Errorf`.
abbrev pub with_code {ℓ} : {A : Type ℓ} → Code → Text → Result Text A → Reply A
with_code c prefix (ok a) = ok a
with_code c prefix (err e) = err (error c (prefix ++ e))
