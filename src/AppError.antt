-- ===== src/AppError.antt =====
-- backend/internal/apperror/errors.go. Errors of the database driver are `DbError`; only a duplicate
-- key is told apart by the code.
use task_flow_alisha_sharma.Common.{ℕ, String, Option, none, some, Bool, true, false}
use task_flow_alisha_sharma.Common.Dict.{Dict}
use task_flow_alisha_sharma.Common.Text.{◌<>◌}

-- An error that a statement returns. The message of `duplicate_key` contains "duplicate key" and
-- "unique constraint"; those of the others contain neither.
pub data DbError : Type 0 where
  duplicate_key foreign_key invalid_input too_long out_of_range unavailable : DbError

-- strings.Contains(err.Error(), "duplicate key")
abbrev pub is_duplicate : DbError → Bool
is_duplicate duplicate_key = true
is_duplicate _ = false

-- What a Go `error` can hold below an `AppError`: a driver's error, or one of a library.
pub data Cause : Type 0 where
  db : DbError → Cause
  library : String → Cause

pub record AppError : Type 0 where
  pub code : ℕ
  pub msg : String
  pub fields : Option (Dict String)
  pub inner : Option Cause

abbrev plain : ℕ → String → AppError
plain code msg = record { code = code; msg = msg; fields = none; inner = none }

abbrev pub validation : Dict String → AppError
validation fields = record {
  code = 400;
  msg = "validation failed";
  fields = some fields;
  inner = none;
}

abbrev pub bad_request : String → AppError
bad_request msg = plain 400 msg

abbrev pub unauthorized : String → AppError
unauthorized msg = plain 401 msg

abbrev pub forbidden : String → AppError
forbidden msg = plain 403 msg

abbrev pub not_found : String → AppError
not_found msg = plain 404 msg

abbrev pub conflict : String → AppError
conflict msg = plain 409 msg

abbrev pub too_many_requests : String → AppError
too_many_requests msg = plain 429 msg

abbrev pub internal : Cause → AppError
internal inner = record {
  code = 500;
  msg = "internal server error";
  fields = none;
  inner = some inner;
}

-- `Error` and `Unwrap`; `text` is the text of the error below.
unfoldable pub error_text : (Cause → String) → AppError → String
error_text text e = elim e.inner [ none ↦ e.msg | some c ↦ e.msg <> ": " <> text c ]

unfoldable pub unwrap : AppError → Option Cause
unwrap e = e.inner

-- An error that reaches the error handler: one of the application or of the framework, one that
-- `fmt.Errorf` has wrapped with %w, or another.
pub data GoError : Type 0 where
  of_app : AppError → GoError
  of_fiber : ℕ → String → GoError
  wrapped : String → GoError → GoError
  other : String → GoError

-- `errors.As` takes the first application error of the chain.
unfoldable pub as_app_error : GoError → Option AppError
as_app_error (of_app e) = some e
as_app_error (of_fiber code msg) = none
as_app_error (wrapped context e) = as_app_error e
as_app_error (other msg) = none
