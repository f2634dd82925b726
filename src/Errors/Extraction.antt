-- ===== src/Errors/Extraction.antt =====
-- What extractCodeAndRequestID reads out of the details that withCommonDetails attaches.
use enterprise_middleware_go.Prelude.{String, ◌≡◌, ◌≢◌, refl, List, [], ◌∷◌, arith, eq_iff, All}
use enterprise_middleware_go.Grpc.{Detail, request_info, error_info}
use enterprise_middleware_go.Errors.{Code, err_internal, extract_detail, extract_details}

-- A detail that names neither a reason nor a request.
abbrev pub IsSilent : Detail → Type 0
IsSilent (request_info _) = ⊥
IsSilent (error_info _ _ _) = ⊥
IsSilent _ = Unit

extract_detail-silent : (d : Detail) (acc : Code × String) → IsSilent d → extract_detail d acc ≡ acc
unfolding extract_detail
extract_detail-silent (request_info id) acc h = absurd h
extract_detail-silent (error_info r d m) acc h = absurd h
extract_detail-silent _ acc h = refl

extract_details-silent :
    (ds : List Detail) (acc : Code × String) → All IsSilent ds → extract_details ds acc ≡ acc
unfolding extract_details
extract_details-silent [] acc h = refl
extract_details-silent (d ∷ ds) acc h =
    rw (extract_detail-silent d acc h.0) (extract_details-silent ds acc h.1)

-- The code and the request id come back from any list of details that starts with the common ones.
pub extract_details-common :
    (request_id : String) (c : Code) (extra : List Detail)
    → c ≢ ""
    → All IsSilent extra
    → extract_details
        (request_info request_id ∷ error_info c "user-platform" [] ∷ extra)
        (err_internal, "")
      ≡ (c, request_id)
unfolding extract_details
extract_details-common request_id c extra h silent =
    ground (
      arith,
      eq_iff request_id "",
      eq_iff c "",
      extract_details-silent extra (c, request_id) silent,
    )
