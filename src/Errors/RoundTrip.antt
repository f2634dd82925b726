-- ===== src/Errors/RoundTrip.antt =====
-- Parse reads back what the constructors of status.go wrote.
use enterprise_middleware_go.Prelude.{
  ℕ, eq_of_ne, inl, inr, Option-cases, String, ◌≡◌, ◌≢◌, refl, sym, ap, ◌∙◌, List, [], ◌∷◌, none,
  some, arith, ◌==◌, eq_iff, All, if◌then◌else◌,
}
use enterprise_middleware_go.Grpc.{
  GrpcCode, FieldViolation, bad_request, retry_info, resource_info, Detail, StatusLib,
}
use enterprise_middleware_go.Errors.{
  Code, err_validation, err_rate_limited, err_not_found, validation_error, rate_limited_error,
  not_found_error, err_internal, common_details, with_common_details, base_status, parse,
  status_from_code, fallback_code_from_grpc, extract_code_and_request_id, extract_details,
}
use enterprise_middleware_go.Errors.Mapping.{
  grpc_code, code-base_status, details-base_status, grpc_code-ne-success, fallback-grpc_code,
  ne_literal,
}
use enterprise_middleware_go.Errors.Extraction.{IsSilent, extract_details-common}

parsed :
    (c : Code) (request_id : String) (code : GrpcCode)
    → code ≡ grpc_code c
    → ◌≡◌ {A = Code × String × GrpcCode}
        (if c == err_internal then fallback_code_from_grpc code else c, request_id, code)
        (c, request_id, grpc_code c)
parsed c request_id code h = ground (arith, eq_iff c err_internal, fallback-grpc_code)

module _ (G : StatusLib) where
  -- The details that `with_common_details` attaches are accepted.
  abbrev pub Attaches : Code → String → List Detail → Type 0
  Attaches c request_id extra =
      (t : G.Status) × (G.with_details (base_status G c) (common_details G request_id c extra)
        ≡ some t)

  parse_err :
      (st : G.Status) (c : Code) (request_id : String)
      → G.code st ≢ GrpcCode.success
      → extract_details (G.details st) (err_internal, "") ≡ (c, request_id)
      → (e : G.Error) × (G.err st ≡ some e)
        × (parse G e ≡ (
          if c == err_internal then fallback_code_from_grpc (G.code st) else c,
          request_id,
          G.code st,
        ))
  unfolding parse extract_code_and_request_id
  parse_err st c request_id h x = let (e, made, back) = G.err_lem st h in (e, made, rw (back, x))

  made_attached :
      (c : Code) (request_id : String) (extra : List Detail)
      → Attaches c request_id extra
      → (e : G.Error) × (G.err (with_common_details G (base_status G c) request_id c extra)
          ≡ some e)
  unfolding with_common_details
  made_attached c request_id extra (t, attached) =
      let (same_code, _, _) = G.with_details_lem _ _ t attached in
      let base : G.code t ≡ grpc_code c = same_code ∙ code-base_status G c in
      let (e, made, _) = G.err_lem t (λ z. grpc_code-ne-success c (sym base ∙ z)) in
      (e, rw (attached, with_common_details) made)

  -- A status whose details were attached.
  parse_attached :
      (c : Code) (request_id : String) (extra : List Detail)
      → c ≢ ""
      → All IsSilent extra
      → Attaches c request_id extra
      → (e : G.Error) × (G.err (with_common_details G (base_status G c) request_id c extra)
          ≡ some e)
        × (parse G e ≡ (c, request_id, grpc_code c))
  unfolding with_common_details
  parse_attached c request_id extra h silent (t, attached) =
      let (same_code, _, all_details) = G.with_details_lem _ _ t attached in
      let base : G.code t ≡ grpc_code c = same_code ∙ code-base_status G c in
      let (e, made, back) =
        parse_err t c request_id (λ z. grpc_code-ne-success c (sym base ∙ z))
          (rw (all_details, details-base_status G c)
            (extract_details-common request_id c extra h silent)) in
      (e, rw (attached, with_common_details) made, back ∙ parsed c request_id (G.code t) base)

  -- Parse of the error that StatusFromCode makes returns the code, the request id and the gRPC
  -- code of the code: for every code but "", where WithDetails accepts the two details.
  pub parse-status_from_code :
      (c : Code) (request_id : String)
      → c ≢ ""
      → Attaches c request_id []
      → (e : G.Error) × (status_from_code G c request_id ≡ some e)
        × (parse G e ≡ (c, request_id, grpc_code c))
  unfolding status_from_code
  parse-status_from_code c request_id h a = parse_attached c request_id [] h tt a

  with_common_details-refused :
      (st : G.Status) (c : Code) (request_id : String) (extra : List Detail)
      → G.with_details st (common_details G request_id c extra) ≡ none
      → with_common_details G st request_id c extra ≡ st
  unfolding with_common_details
  with_common_details-refused st c request_id extra h = rw (h, with_common_details)

  -- Where WithDetails refuses the details, the error still exists, and Parse falls back on the
  -- gRPC code: the request id is lost, and so is every code that shares its gRPC code with another.
  pub parse_unattached :
      (c : Code) (request_id : String)
      → G.with_details (base_status G c) (common_details G request_id c []) ≡ none
      → (e : G.Error) × (status_from_code G c request_id ≡ some e)
        × (parse G e ≡ (fallback_code_from_grpc (grpc_code c), "", grpc_code c))
  unfolding status_from_code
  parse_unattached c request_id refused =
      let base = code-base_status G c in
      let (e, made, back) =
        parse_err (base_status G c) err_internal "" (λ z. grpc_code-ne-success c (sym base ∙ z))
          (rw (details-base_status G c) (unfold extract_details in refl)) in
      (
        e,
        ap G.err (with_common_details-refused (base_status G c) c request_id [] refused) ∙ made,
        back ∙ rw base,
      )

  -- Each error of Validation, RateLimited and NotFound, the last for a resource that is named,
  -- parses to its own code, the request id and the gRPC code, where WithDetails accepts the details.
  pub parse-helpers :
      (request_id resource : String) (violations : List FieldViolation) (retry_after : ℕ)
      → Attaches err_validation request_id (bad_request violations ∷ [])
      → Attaches err_rate_limited request_id (retry_info retry_after ∷ [])
      → Attaches err_not_found request_id (resource_info "resource" resource ∷ [])
      → resource ≢ ""
      → ((e : G.Error) × (validation_error G request_id violations ≡ some e)
          × (parse G e ≡ (err_validation, request_id, GrpcCode.invalid_argument)))
        × ((e : G.Error) × (rate_limited_error G request_id retry_after ≡ some e)
            × (parse G e ≡ (err_rate_limited, request_id, GrpcCode.resource_exhausted)))
        × ((e : G.Error) × (not_found_error G request_id resource ≡ some e)
            × (parse G e ≡ (err_not_found, request_id, GrpcCode.not_found)))
  unfolding validation_error rate_limited_error not_found_error grpc_code
  parse-helpers request_id resource violations retry_after a b d h = (
    parse_attached err_validation request_id _ (ne_literal _ _ refl) (tt, tt) a,
    parse_attached err_rate_limited request_id _ (ne_literal _ _ refl) (tt, tt) b,
    rw (eq_of_ne resource "" h, not_found_error)
        (parse_attached err_not_found request_id _ (ne_literal _ _ refl) (tt, tt) d),
  )

  -- StatusFromCode never makes a nil error, attached or not.
  pub status_from_code-ne-none :
      (c : Code) (request_id : String) → status_from_code G c request_id ≢ none
  status_from_code-ne-none c request_id h =
      elim (Option-cases (G.with_details (base_status G c) (common_details G request_id c []))) [
        | inl e ↦ let (x, made, _) = parse_unattached c request_id e in cc
        | inr (t, e) ↦
            let (x, made) = made_attached c request_id [] (t, e) in
            let h' : G.err (with_common_details G (base_status G c) request_id c []) ≡ none =
              unfold status_from_code in h in
            cc
      ]
