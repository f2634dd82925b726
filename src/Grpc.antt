-- ===== src/Grpc.antt =====
-- What the code uses of google.golang.org/grpc/{codes,status} and genproto errdetails: the
-- constants and message shapes that it names, and the status package as an interface whose laws
-- are its documentation. An instance for the examples is in `Grpc.Example`.
pub mod Example
use enterprise_middleware_go.Prelude.{
  ℕ, String, ◌≡◌, ◌≢◌, Bool, true, List, [], ◌++◌, Option, none, some,
}

-- codes.Code: the constants, and any other uint32.
pub data GrpcCode : Type 0 where
  success canceled unknown invalid_argument deadline_exceeded not_found : GrpcCode
  already_exists permission_denied resource_exhausted failed_precondition aborted : GrpcCode
  out_of_range unimplemented internal unavailable data_loss unauthenticated : GrpcCode
  unlisted : ℕ → GrpcCode

-- errdetails.BadRequest_FieldViolation; the repository's own FieldViolation has the same fields.
pub record FieldViolation : Type 0 where
  pub field : String
  pub description : String

-- The detail messages that the code attaches or reads; `any_other` is a message of another type.
pub data Detail : Type 0 where
  request_info : String → Detail
  error_info : String → String → List (String × String) → Detail
  bad_request : List FieldViolation → Detail
  retry_info : ℕ → Detail
  resource_info : String → String → Detail
  any_other : Detail

-- `Error` is Go's `error`, without nil: a function that returns an `error` returns an `Option`.
pub record StatusLib : Type 1 where
  pub Status : Type 0
  pub Error : Type 0
  pub new : GrpcCode → String → Status
  pub code : Status → GrpcCode
  pub message : Status → String
  pub details : Status → List Detail
  pub with_details : Status → List Detail → Option Status
  pub err : Status → Option Error
  pub from_error : Error → Status × Bool
  pub error_text : Error → String
  pub code-new : (c : GrpcCode) (m : String) → code (new c m) ≡ c
  pub message-new : (c : GrpcCode) (m : String) → message (new c m) ≡ m
  pub details-new : (c : GrpcCode) (m : String) → details (new c m) ≡ []
  -- WithDetails returns a copy with the details appended, or an error.
  pub with_details_lem :
      (s : Status) (ds : List Detail) (t : Status)
      → with_details s ds ≡ some t
      → (code t ≡ code s) × (message t ≡ message s) × (details t ≡ details s ++ ds)
  -- Err is nil exactly for OK, and FromError gets the status back.
  pub err-success : (s : Status) → code s ≡ GrpcCode.success → err s ≡ none
  pub err_lem :
      (s : Status)
      → code s ≢ GrpcCode.success
      → (e : Error) × (err s ≡ some e) × (from_error e ≡ (s, true))
