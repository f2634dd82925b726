-- ===== src/Errors.antt =====
-- pkg/errors: codes.go, messages.go and status.go. The proofs are in the modules below, and http.go
-- is in `Errors.Http`.
pub mod Http
pub mod Extraction
pub mod RoundTrip
pub mod Mapping
pub mod Answers
mod Tests
use enterprise_middleware_go.Prelude.{
  ℕ, String, ◌≡◌, Bool, true, false, List, [], ◌∷◌, ◌++◌, map, Option, none, some, not, ◌&&◌, ◌||◌,
  ◌==◌, if◌then◌else◌,
}
use enterprise_middleware_go.Dict.{Dict, empty, get, put}
use enterprise_middleware_go.Grpc.{
  GrpcCode, FieldViolation, Detail, StatusLib, request_info, error_info, bad_request, retry_info,
  resource_info,
}

-- type Code string
abbrev pub Code : Type 0
Code = String

abbrev pub err_internal : Code
err_internal = "internal_error"

abbrev pub err_validation : Code
err_validation = "validation_error"

abbrev pub err_not_found : Code
err_not_found = "not_found"

abbrev pub err_rate_limited : Code
err_rate_limited = "rate_limited"

abbrev pub err_email_in_use : Code
err_email_in_use = "email_in_use"

abbrev pub err_invalid_credentials : Code
err_invalid_credentials = "invalid_credentials"

abbrev pub err_weak_password : Code
err_weak_password = "weak_password"

unfoldable pub messages : Dict String
unfolding put empty
messages =
    put
      (put
        (put
          (put
            (put (put (put empty err_internal internal) err_validation validation) err_email_in_use
              email_in_use)
            err_invalid_credentials invalid_credentials)
          err_weak_password weak_password)
        err_rate_limited rate_limited)
      err_not_found not_found
  where
    internal : String
    internal = "Something went wrong on our side. Please try again."

    validation : String
    validation = "Invalid input. Please check your request and try again."

    email_in_use : String
    email_in_use = "That email is already registered. Try signing in."

    invalid_credentials : String
    invalid_credentials = "We couldn’t verify your email or password."

    weak_password : String
    weak_password = "Your password needs at least 12 characters with a mix of letters and numbers."

    rate_limited : String
    rate_limited = "Too many attempts. Please wait a moment and try again."

    not_found : String
    not_found = "The requested resource was not found."

-- A missing key of a Go map reads as "".
or_zero : Option String → String
or_zero none = ""
or_zero (some s) = s

-- Message
unfoldable pub message : Code → String
unfolding messages get or_zero
message code = elim (get messages code) [
  | some msg ↦ msg
  | none ↦ or_zero (get messages err_internal)
]

-- HTTPStatus
unfoldable pub http_status : Code → ℕ
http_status code =
    if code == err_validation
    then 400
    else if code == err_email_in_use
    then 409
    else if code == err_not_found
    then 404
    else if code == err_invalid_credentials
    then 401
    else if code == err_rate_limited
    then 429
    else 500

-- fallbackCodeFromGRPC
unfoldable pub fallback_code_from_grpc : GrpcCode → Code
fallback_code_from_grpc GrpcCode.invalid_argument = err_validation
fallback_code_from_grpc GrpcCode.already_exists = err_email_in_use
fallback_code_from_grpc GrpcCode.not_found = err_not_found
fallback_code_from_grpc GrpcCode.unauthenticated = err_invalid_credentials
fallback_code_from_grpc GrpcCode.resource_exhausted = err_rate_limited
fallback_code_from_grpc _ = err_internal

-- m[k] on the metadata of an ErrorInfo.
metadata_at : String → List (String × String) → String
metadata_at k [] = ""
metadata_at k ((j, v) ∷ m) = if j == k then v else metadata_at k m

-- if id != "" && requestID == "" { requestID = id }
first_id : String → String → String
first_id id request_id = if not (id == "") && (request_id == "") then id else request_id

-- The body of the loop of extractCodeAndRequestID, on the variables (code, requestID).
unfoldable pub extract_detail : Detail → Code × String → Code × String
unfolding first_id metadata_at
extract_detail (error_info reason domain metadata) (code, request_id) = (
  if not (reason == "") then reason else code,
  first_id (metadata_at "request_id" metadata) request_id,
)
extract_detail (request_info id) (code, request_id) = (code, first_id id request_id)
extract_detail _ acc = acc

unfoldable pub extract_details : List Detail → Code × String → Code × String
unfolding extract_detail
extract_details [] acc = acc
extract_details (d ∷ ds) acc = extract_details ds (extract_detail d acc)

module _ (G : StatusLib) where
  open G use {Status, Error, new, with_details, err, from_error}

  unfoldable pub base_status : Code → Status
  base_status code =
      if code == err_email_in_use
      then new GrpcCode.already_exists (message code)
      else if code == err_invalid_credentials
      then new GrpcCode.unauthenticated (message code)
      else if (code == err_weak_password) || (code == err_validation)
      then new GrpcCode.invalid_argument (message code)
      else if code == err_rate_limited
      then new GrpcCode.resource_exhausted (message code)
      else if code == err_not_found
      then new GrpcCode.not_found (message code)
      else new GrpcCode.internal (message err_internal)

  -- The details that withCommonDetails attaches.
  abbrev pub common_details : String → Code → List Detail → List Detail
  common_details request_id code extra =
      request_info request_id ∷ error_info code "user-platform" [] ∷ extra

  unfoldable pub with_common_details : Status → String → Code → List Detail → Status
  with_common_details st request_id code extra =
      elim (with_details st (common_details request_id code extra)) [ some st2 ↦ st2 | none ↦ st ]

  unfoldable pub status_from_code : Code → String → Option Error
  status_from_code code request_id = err (with_common_details (base_status code) request_id code [])

  -- Validation
  unfoldable pub validation_error : String → List FieldViolation → Option Error
  validation_error request_id violations = err (
      with_common_details (base_status err_validation) request_id err_validation
        (bad_request violations ∷ []))

  -- EmailAlreadyInUse
  unfoldable pub email_already_in_use : String → String → Option Error
  email_already_in_use request_id email = err (
      with_common_details (base_status err_email_in_use) request_id err_email_in_use
        (bad_request (record { field = "email"; description = "already registered" } ∷ []) ∷ []))

  -- WeakPassword
  unfoldable pub weak_password_error : String → String → Option Error
  weak_password_error request_id description = validation_error request_id (
      record {
        field = "password";
        description = if description == "" then "must be at least 12 characters" else description;
      }
      ∷ [])

  -- RateLimited
  unfoldable pub rate_limited_error : String → ℕ → Option Error
  rate_limited_error request_id retry_after = err (
      with_common_details (base_status err_rate_limited) request_id err_rate_limited
        (retry_info retry_after ∷ []))

  -- NotFound
  unfoldable pub not_found_error : String → String → Option Error
  not_found_error request_id resource = err (
      with_common_details (base_status err_not_found) request_id err_not_found
        (if not (resource == "") then resource_info "resource" resource ∷ [] else []))

  -- Internal
  unfoldable pub internal_error : String → Option Error
  internal_error request_id =
      err (with_common_details (base_status err_internal) request_id err_internal [])

  -- extractCodeAndRequestID
  unfoldable pub extract_code_and_request_id : Status → Code × String
  unfolding extract_details
  extract_code_and_request_id st = extract_details (G.details st) (err_internal, "")

  -- The end of Parse: no reason set, so map from the gRPC code.
  or_fallback : GrpcCode → Code × String → Code × String × GrpcCode
  or_fallback grpc_code (code, request_id) = (
    if code == err_internal then fallback_code_from_grpc grpc_code else code,
    request_id,
    grpc_code,
  )

  parse_status : Status × Bool → Code × String × GrpcCode
  unfolding or_fallback
  parse_status (st, false) = (err_internal, "", GrpcCode.internal)
  parse_status (st, true) = or_fallback (G.code st) (extract_code_and_request_id st)

  -- Parse
  unfoldable pub parse : Error → Code × String × GrpcCode
  unfolding parse_status
  parse e = parse_status (from_error e)
