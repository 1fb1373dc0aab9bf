-- ===== src/Errors.antt =====
-- api/src/lib/errors.ts: the error classes and `sendError`. `AppError` is the class and its subclasses
-- with the arguments of their constructors; any other `Error` is `plain` with its message.
use Prim.Native.String.{◌++◌}
use codehive.Prelude.{ℕ, String, Option, none, List}

-- what zod's `flatten()` returns: the messages of each field. An object, so it is never falsy.
abbrev pub Details : Type 0
Details = List (String × List String)

pub data AppError : Type 0 where
  app_error : ℕ → String → String → AppError
  validation_error : String → Option Details → AppError
  not_found_error : String → String → AppError

pub data Error : Type 0 where
  plain : String → Error
  app : AppError → Error

-- the fields that the constructors hand to `super(…)`
abbrev pub status_code : AppError → ℕ
status_code (app_error n c m) = n
status_code (validation_error m d) = 400
status_code (not_found_error r i) = 404

abbrev pub error_code : AppError → String
error_code (app_error n c m) = c
error_code (validation_error m d) = "ValidationError"
error_code (not_found_error r i) = r ++ "NotFound"

abbrev pub message : AppError → String
message (app_error n c m) = m
message (validation_error m d) = m
message (not_found_error r i) = (r ++ " ") ++ (i ++ " not found")

-- `err instanceof ValidationError && err.details`
abbrev pub error_details : AppError → Option Details
error_details (app_error n c m) = none
error_details (validation_error m d) = d
error_details (not_found_error r i) = none

-- the JSON of an error reply
pub record ErrorBody : Type 0 where
  pub error : String
  pub message : String
  pub details : Option Details

-- The status code and the body of the reply.
unfoldable pub send_error : Error → ℕ × ErrorBody
send_error (app err) = (
  status_code err,
  record { error = error_code err; message = message err; details = error_details err },
)
send_error (plain m) =
    (500, record { error = "InternalError"; message = "Internal server error"; details = none })
