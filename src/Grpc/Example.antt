-- ===== src/Grpc/Example.antt =====
-- A status package for the examples: a status is its three parts, an error is a status or a plain
-- text, and details are refused where one is of an unknown type.
use enterprise_middleware_go.Prelude.{
  String, ◌≡◌, ◌≢◌, refl, Bool, true, false, List, [], ◌∷◌, ◌++◌, Option, none, some, arith,
}
use enterprise_middleware_go.Grpc.{GrpcCode, Detail, StatusLib, any_other}

pub record PlainStatus : Type 0 where
  pub code : GrpcCode
  pub message : String
  pub details : List Detail

pub data PlainError : Type 0 where
  of_status : PlainStatus → PlainError
  of_text : String → PlainError

abbrev pub marshals : Detail → Bool
marshals any_other = false
marshals _ = true

abbrev pub all_marshal : List Detail → Bool
all_marshal [] = true
all_marshal (d ∷ ds) = elim (marshals d) [ true ↦ all_marshal ds | false ↦ false ]

abbrev pub add_details : Bool → PlainStatus → List Detail → Option PlainStatus
add_details true s ds = some (record s { details = s.details ++ ds })
add_details false s ds = none

abbrev pub err_at : GrpcCode → PlainStatus → Option PlainError
err_at GrpcCode.success s = none
err_at _ s = some (of_status s)

abbrev pub status_of : PlainError → PlainStatus × Bool
status_of (of_status s) = (s, true)
status_of (of_text m) = (record { code = GrpcCode.unknown; message = m; details = [] }, false)

abbrev pub text_of : PlainError → String
text_of (of_status s) = s.message
text_of (of_text m) = m

pub add_details_lem :
    (b : Bool) (s : PlainStatus) (ds : List Detail) (t : PlainStatus)
    → add_details b s ds ≡ some t
    → (t.code ≡ s.code) × (t.message ≡ s.message) × (t.details ≡ s.details ++ ds)
add_details_lem b s ds t h = ground arith

pub err_at_lem :
    (c : GrpcCode) (s : PlainStatus)
    → c ≢ GrpcCode.success
    → (e : PlainError) × (err_at c s ≡ some e) × (status_of e ≡ (s, true))
err_at_lem GrpcCode.success s h = absurd (h refl)
err_at_lem _ s h = (of_status s, refl, refl)

pub err_at-success : (c : GrpcCode) (s : PlainStatus) → c ≡ GrpcCode.success → err_at c s ≡ none
err_at-success c s h = ground arith

abbrev pub plain : StatusLib
plain = record {
  Status = PlainStatus;
  Error = PlainError;
  new = λ c m. record { code = c; message = m; details = [] };
  code = λ s. s.code;
  message = λ s. s.message;
  details = λ s. s.details;
  with_details = λ s ds. add_details (all_marshal ds) s ds;
  err = λ s. err_at s.code s;
  from_error = status_of;
  error_text = text_of;
  code-new = λ c m. refl;
  message-new = λ c m. refl;
  details-new = λ c m. refl;
  with_details_lem = λ s ds t h. add_details_lem (all_marshal ds) s ds t h;
  err-success = λ s h. err_at-success s.code s h;
  err_lem = λ s h. err_at_lem s.code s h;
}
