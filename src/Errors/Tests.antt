-- ===== src/Errors/Tests.antt =====
-- The errors of pkg/errors over the status package of the examples.
use enterprise_middleware_go.Prelude.{
  String, ◌≡◌, ◌≢◌, ◌↔◌, refl, true, arith, List, [], ◌∷◌, ◌++◌, Option, none, some,
}
use enterprise_middleware_go.Grpc.{
  GrpcCode, FieldViolation, Detail, StatusLib, bad_request, retry_info, resource_info,
}
use enterprise_middleware_go.Grpc.Example.{plain, all_marshal, PlainStatus, PlainError}
use enterprise_middleware_go.Errors.{
  Code, err_email_in_use, err_not_found, err_weak_password, http_status, base_status,
  common_details, message, status_from_code, parse, err_validation, fallback_code_from_grpc,
  rate_limited_error, err_rate_limited, validation_error,
}
use enterprise_middleware_go.Errors.Http.{
  GinContext, http_error, violations, write_error, grpc_to_http,
}
use enterprise_middleware_go.Errors.Mapping.{
  ne_literal, http_status-base_status, grpc_code, known_message,
}
use enterprise_middleware_go.Errors.RoundTrip.{
  parse-status_from_code, parse_unattached, parse-helpers, Attaches,
}
use enterprise_middleware_go.Errors.Answers.{
  http_error-status_from_code, http_error-validation_error,
}

-- A status package that refuses every detail.
refuses :
    (s t : PlainStatus) (ds : List Detail)
    → ◌≡◌ {A = Option PlainStatus} none (some t)
    → (t.code ≡ s.code) × (t.message ≡ s.message) × (t.details ≡ s.details ++ ds)
refuses s t ds h = absurd (cc h)

abbrev refusing : StatusLib
refusing = record plain {
  with_details = λ _ _. none;
  with_details_lem = λ s ds t h. refuses s t ds h;
}

abbrev two_violations : List FieldViolation
two_violations =
    record { field = "email"; description = "must be a valid email" }
    ∷ record { field = "password"; description = "is required" }
    ∷ []

abbrev context : GinContext
context = record { request_id = "r-2"; now_rfc3339 = "2024-01-01T00:00:00Z" }

abbrev no_meta : List (Unit {0})
no_meta = []

runs : Unit {0}
unfolding base_status message status_from_code http_status
runs = tt

http_status_weak : http_status err_weak_password ≡ 500
unfolding http_status
http_status_weak = refl

attached :
    (c : Code) (request_id : String) (extra : List Detail)
    → all_marshal extra ≡ true
    → Attaches plain c request_id extra
attached c request_id extra h =
    let st = base_status plain c in
    let ds = common_details plain request_id c extra in
    (record st { details = st.details ++ ds }, ground (arith, h))

parse-status_from_code_example :
    (e : PlainError) × (status_from_code plain err_email_in_use "r-1" ≡ some e)
    × (parse plain e ≡ (err_email_in_use, "r-1", GrpcCode.already_exists))
unfolding grpc_code
parse-status_from_code_example =
    parse-status_from_code plain err_email_in_use "r-1" (ne_literal _ _ refl)
      (attached err_email_in_use "r-1" [] refl)

-- The code weak_password and the request id are lost: validation_failed is read back.
parse_unattached_run :
    (e : PlainError) × (status_from_code refusing err_weak_password "r-1" ≡ some e)
    × (parse refusing e ≡ (err_validation, "", GrpcCode.invalid_argument))
unfolding grpc_code fallback_code_from_grpc
parse_unattached_run = parse_unattached refusing err_weak_password "r-1" refl

parse-helpers_run :
    (e : PlainError) × (rate_limited_error plain "r-1" 30 ≡ some e)
    × (parse plain e ≡ (err_rate_limited, "r-1", GrpcCode.resource_exhausted))
parse-helpers_run =
    (parse-helpers plain "r-1" "user" two_violations 30
      (attached err_validation "r-1" (bad_request two_violations ∷ []) refl)
      (attached err_rate_limited "r-1" (retry_info 30 ∷ []) refl)
      (attached err_not_found "r-1" (resource_info "resource" "user" ∷ []) refl)
      (ne_literal _ _ refl)).1

http_error-status_from_code_run :
    (e : PlainError) × (status_from_code plain err_not_found "r-1" ≡ some e)
    × (http_error plain context 500 e no_meta
        ≡ write_error context 404 (message err_not_found) none "r-2" no_meta)
unfolding grpc_code known_message grpc_to_http
http_error-status_from_code_run =
    http_error-status_from_code plain context 500 no_meta "r-1" err_not_found
      (attached err_not_found "r-1" [] refl)

http_error-validation_error_run :
    (e : PlainError) × (validation_error plain "r-1" two_violations ≡ some e)
    × (http_error plain context 500 e no_meta
        ≡ write_error context 400
            (message err_validation)
            (some
              (violations (("email", "must be a valid email") ∷ ("password", "is required") ∷ [])))
            "r-2"
            no_meta)
http_error-validation_error_run =
    http_error-validation_error plain context 500 no_meta "r-1" two_violations
      (attached err_validation "r-1" (bad_request two_violations ∷ []) refl)

http_status-base_status_example :
    (http_status err_weak_password
      ≡ grpc_to_http (plain.code (base_status plain err_weak_password)))
    ↔ (err_weak_password ≢ err_weak_password)
http_status-base_status_example = http_status-base_status plain err_weak_password
