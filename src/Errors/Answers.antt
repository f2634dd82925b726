-- ===== src/Errors/Answers.antt =====
-- What the gateway answers to a client for an error that the services made.
use enterprise_middleware_go.Prelude.{
  ℕ, String, ◌≡◌, refl, sym, ap, ◌∙◌, List, [], ◌∷◌, map, true, Option, none, some, arith,
}
use enterprise_middleware_go.Grpc.{GrpcCode, FieldViolation, Detail, StatusLib, bad_request}
use enterprise_middleware_go.Errors.{
  Code, err_validation, message, common_details, with_common_details, base_status, status_from_code,
  validation_error,
}
use enterprise_middleware_go.Errors.Mapping.{
  grpc_code, code-base_status, details-base_status, message-base_status, grpc_code-ne-success,
  known_message,
}
use enterprise_middleware_go.Errors.RoundTrip.{Attaches}
use enterprise_middleware_go.Errors.Http.{
  GinContext, ErrorDetails, one_violation, violations, copy_violations, http_error, write_error,
  grpc_to_http, http_code_or, read_details,
}

-- Every code that the services use has its own HTTP status, so the handler's default is not used.
mapped :
    (c : Code) (default_http : ℕ)
    → http_code_or default_http (grpc_code c) ≡ grpc_to_http (grpc_code c)
unfolding http_code_or grpc_to_http grpc_code
mapped c default_http = ground arith

-- The JSON details of a list of violations.
abbrev pub violation_details : List FieldViolation → Option ErrorDetails
violation_details [] = none
violation_details (fv ∷ []) = some (one_violation fv.field fv.description)
violation_details (fv ∷ gv ∷ fvs) =
    some (violations (map (λ v. (v.field, v.description)) (fv ∷ gv ∷ fvs)))

copy_violations-map :
    (fvs : List FieldViolation) → copy_violations fvs ≡ map (λ v. (v.field, v.description)) fvs
unfolding copy_violations
copy_violations-map [] = refl
copy_violations-map (fv ∷ fvs) = rw (copy_violations-map fvs)

read_details-bad_request :
    (fvs : List FieldViolation) → read_details (bad_request fvs ∷ []) none ≡ violation_details fvs
unfolding read_details
read_details-bad_request [] = refl
read_details-bad_request (fv ∷ []) = refl
read_details-bad_request (fv ∷ gv ∷ fvs) =
    ap (λ vs. some (violations vs)) (copy_violations-map (fv ∷ gv ∷ fvs))

module _ (G : StatusLib) {D : Type 0} where
  http_error_known :
      (ctx : GinContext) (default_http : ℕ) (e : G.Error) (meta : List D) (t : G.Status)
      {code : GrpcCode} {m : String} {ds : List Detail}
      → G.from_error e ≡ (t, true)
      → G.code t ≡ code
      → G.message t ≡ m
      → G.details t ≡ ds
      → http_error G ctx default_http e meta
        ≡ write_error ctx
            (http_code_or default_http code)
            m
            (read_details ds none)
            ctx.request_id
            meta
  unfolding http_error
  http_error_known ctx default_http e meta t back h k l = rw (back, http_error) (rw (h, k, l))

  answer :
      (c : Code) (request_id : String) (extra : List Detail) (ctx : GinContext) (default_http : ℕ)
      (meta : List D)
      → Attaches G c request_id extra
      → (e : G.Error) × (G.err (with_common_details G (base_status G c) request_id c extra)
          ≡ some e)
        × (http_error G ctx default_http e meta
            ≡ write_error ctx
                (grpc_to_http (grpc_code c))
                (known_message c)
                (read_details extra none)
                ctx.request_id
                meta)
  unfolding with_common_details http_error read_details
  answer c request_id extra ctx default_http meta (t, attached) =
      let (same_code, same_message, all_details) = G.with_details_lem _ _ t attached in
      let base : G.code t ≡ grpc_code c = same_code ∙ code-base_status G c in
      let (e, made, back) = G.err_lem t (λ z. grpc_code-ne-success c (sym base ∙ z)) in
      (
        e,
        rw (attached, with_common_details) made,
        http_error_known ctx default_http e meta t {ds = common_details G request_id c extra} back
              base (same_message ∙ message-base_status G c)
              (all_details ∙ rw (details-base_status G c))
            ∙ rw (mapped c default_http) refl,
      )

  -- The gateway answers an error from StatusFromCode, whose details WithDetails accepted, with the
  -- HTTP status of the code's gRPC code, the message of the code and no details, whatever default
  -- its handler names.
  pub http_error-status_from_code :
      (ctx : GinContext) (default_http : ℕ) (meta : List D) (request_id : String) (c : Code)
      → Attaches G c request_id []
      → (e : G.Error) × (status_from_code G c request_id ≡ some e)
        × (http_error G ctx default_http e meta
            ≡ write_error ctx
                (grpc_to_http (grpc_code c))
                (known_message c)
                none
                ctx.request_id
                meta)
  unfolding status_from_code read_details
  http_error-status_from_code ctx default_http meta request_id c a =
      answer c request_id [] ctx default_http meta a

  -- The gateway answers an error from Validation, whose details WithDetails accepted, with 400, the
  -- message of the code and every violation, in order: one violation is shown by its field and
  -- reason, several as a list.
  pub http_error-validation_error :
      (ctx : GinContext) (default_http : ℕ) (meta : List D) (request_id : String)
      (fvs : List FieldViolation)
      → Attaches G err_validation request_id (bad_request fvs ∷ [])
      → (e : G.Error) × (validation_error G request_id fvs ≡ some e)
        × (http_error G ctx default_http e meta
            ≡ write_error ctx 400
                (message err_validation)
                (violation_details fvs)
                ctx.request_id
                meta)
  unfolding validation_error
  http_error-validation_error ctx default_http meta request_id fvs a =
      let (e, made, shown) =
        answer err_validation request_id (bad_request fvs ∷ []) ctx default_http meta a in
      (
        e,
        made,
        shown
            ∙ rw (read_details-bad_request fvs)
                (unfold grpc_to_http grpc_code known_message in refl),
      )
