-- ===== src/Errors/Http.antt =====
-- pkg/errors/http.go: the JSON envelopes that the gateway answers with. A `gin.Context` is used for
-- its request id and for the one response that is written to it, so a handler returns the response.
use enterprise_middleware_go.Prelude.{
  ℕ, String, Bool, true, false, List, [], ◌∷◌, Option, none, some, eqb, if◌then◌else◌,
}
use enterprise_middleware_go.Grpc.{GrpcCode, FieldViolation, Detail, StatusLib, bad_request}

-- The `details` of an error: one violation is an object, several are a list.
pub data ErrorDetails : Type 0 where
  one_violation : String → String → ErrorDetails
  violations : List (String × String) → ErrorDetails

pub record ErrorPayload : Type 0 where
  pub code : ℕ
  pub message : String
  pub details : Option ErrorDetails
  pub request_id : String
  pub timestamp : String

-- `D` is the type of the payloads and of `meta`.
pub record SuccessEnvelope (D : Type 0) : Type 0 where
  pub status : String
  pub code : ℕ
  pub message : String
  pub data_part : D
  pub timestamp : String
  pub meta : Option D
  pub request_id : String

pub record ErrorEnvelope (D : Type 0) : Type 0 where
  pub error : ErrorPayload
  pub meta : Option D

pub data Body (D : Type 0) : Type 0 where
  success_body : SuccessEnvelope D → Body D
  error_body : ErrorEnvelope D → Body D
  empty_body : Body D

-- c.JSON(status, body)
pub record Response (D : Type 0) : Type 0 where
  pub status : ℕ
  pub body : Body D

-- What a handler reads of its context: the request id, and the time of the answer in RFC 3339.
pub record GinContext : Type 0 where
  pub request_id : String
  pub now_rfc3339 : String

first_meta : {D : Type 0} → List D → Option D
first_meta [] = none
first_meta (m ∷ _) = some m

module _ {D : Type 0} where
  -- JSONSuccess
  unfoldable pub json_success : GinContext → ℕ → String → D → List D → Response D
  unfolding first_meta
  json_success c http_code message payload meta = record {
    status = http_code;
    body = success_body (record {
      status = "success";
      code = http_code;
      message = message;
      data_part = payload;
      timestamp = c.now_rfc3339;
      meta = first_meta meta;
      request_id = c.request_id;
    });
  }

  -- writeError
  unfoldable pub write_error :
      GinContext → ℕ → String → Option ErrorDetails → String → List D → Response D
  unfolding first_meta
  write_error c http_code message details request_id meta = record {
    status = http_code;
    body = error_body (record {
      error = record {
        code = http_code;
        message = message;
        details = details;
        request_id = request_id;
        timestamp = c.now_rfc3339;
      };
      meta = first_meta meta;
    });
  }

-- grpcToHTTP
unfoldable pub grpc_to_http : GrpcCode → ℕ
grpc_to_http GrpcCode.invalid_argument = 400
grpc_to_http GrpcCode.already_exists = 409
grpc_to_http GrpcCode.not_found = 404
grpc_to_http GrpcCode.unauthenticated = 401
grpc_to_http GrpcCode.permission_denied = 403
grpc_to_http GrpcCode.resource_exhausted = 429
grpc_to_http GrpcCode.unavailable = 503
grpc_to_http GrpcCode.deadline_exceeded = 504
grpc_to_http GrpcCode.failed_precondition = 412
grpc_to_http GrpcCode.aborted = 409
grpc_to_http GrpcCode.unimplemented = 501
grpc_to_http GrpcCode.canceled = 400
grpc_to_http GrpcCode.internal = 500
grpc_to_http GrpcCode.data_loss = 500
grpc_to_http GrpcCode.unknown = 500
grpc_to_http _ = 0

-- The loop that copies the violations.
unfoldable pub copy_violations : List FieldViolation → List (String × String)
copy_violations [] = []
copy_violations (fv ∷ fvs) = (fv.field, fv.description) ∷ copy_violations fvs

-- One round of the loop over the details, on the variable `details`.
unfoldable pub read_detail : Detail → Option ErrorDetails → Option ErrorDetails
unfolding copy_violations
read_detail (bad_request []) details = details
read_detail (bad_request (fv ∷ [])) details = some (one_violation fv.field fv.description)
read_detail (bad_request (fv ∷ gv ∷ fvs)) details =
    some (violations (copy_violations (fv ∷ gv ∷ fvs)))
read_detail _ details = details

unfoldable pub read_details : List Detail → Option ErrorDetails → Option ErrorDetails
unfolding read_detail
read_details [] details = details
read_details (d ∷ ds) details = read_details ds (read_detail d details)

-- `default_http` stands in for a code that grpcToHTTP does not map.
unfoldable pub http_code_or : ℕ → GrpcCode → ℕ
http_code_or default_http code =
    let http_code = grpc_to_http code in if eqb http_code 0 then default_http else http_code

module _ (G : StatusLib) {D : Type 0} where
  open G use {Status, Error, from_error, error_text}

  answer_status : GinContext → ℕ → Error → List D → Status × Bool → Response D
  answer_status c default_http e meta (st, false) =
      write_error c default_http (error_text e) none c.request_id meta
  answer_status c default_http e meta (st, true) =
      write_error c (http_code_or default_http (G.code st)) (G.message st)
        (read_details (G.details st) none) c.request_id meta

  -- HTTPError
  unfoldable pub http_error : GinContext → ℕ → Error → List D → Response D
  unfolding answer_status http_code_or
  http_error c default_http e meta = answer_status c default_http e meta (from_error e)
