-- ===== src/Errors/Mapping.antt =====
-- The statuses that pkg/errors builds: their gRPC codes, and the two maps to HTTP.
use enterprise_middleware_go.Prelude.{
  [], String, ◌≡◌, ◌≢◌, ◌↔◌, false, arith, ◌==◌, eq_iff, ◌||◌, refl, sym, inl, inr, Bool-cases,
  if◌then◌else◌,
}
use mathlib.Core.Path.{subst}
use enterprise_middleware_go.Grpc.{GrpcCode, StatusLib}
use enterprise_middleware_go.Errors.{
  Code, err_internal, err_validation, err_not_found, err_rate_limited, err_email_in_use,
  err_invalid_credentials, err_weak_password, http_status, fallback_code_from_grpc, message,
  base_status,
}
use enterprise_middleware_go.Errors.Http.{grpc_to_http}

-- The gRPC code of each internal code.
unfoldable pub grpc_code : Code → GrpcCode
grpc_code code =
    if code == err_email_in_use
    then GrpcCode.already_exists
    else if code == err_invalid_credentials
    then GrpcCode.unauthenticated
    else if (code == err_weak_password) || (code == err_validation)
    then GrpcCode.invalid_argument
    else if code == err_rate_limited
    then GrpcCode.resource_exhausted
    else if code == err_not_found
    then GrpcCode.not_found
    else GrpcCode.internal

-- Induction on a code: the seven constants, and a text that is none of them.
record IsUnlisted (c : Code) : Type 0 where
  email : (c == err_email_in_use) ≡ false
  credentials : (c == err_invalid_credentials) ≡ false
  weak : (c == err_weak_password) ≡ false
  validation : (c == err_validation) ≡ false
  rate : (c == err_rate_limited) ≡ false
  missing : (c == err_not_found) ≡ false

split_code {ℓ} : (P : Code → Type ℓ) (k : Code) → P k → (c : Code) → ((c == k) ≡ false → P c) → P c
split_code P k at_k c other = elim (Bool-cases (c == k)) [
  | inl e ↦ subst P (sym ((eq_iff c k).0 e)) at_k
  | inr e ↦ other e
]

by_code {ℓ} :
    (P : Code → Type ℓ)
    → P err_email_in_use
    → P err_invalid_credentials
    → P err_weak_password
    → P err_validation
    → P err_rate_limited
    → P err_not_found
    → ((c : Code) → IsUnlisted c → P c)
    → (c : Code) → P c
by_code P email credentials weak validation rate missing other c =
    split_code P err_email_in_use email c λ h₁.
      split_code P err_invalid_credentials credentials c λ h₂.
        split_code P err_weak_password weak c λ h₃. split_code P err_validation validation c λ h₄.
          split_code P err_rate_limited rate c λ h₅. split_code P err_not_found missing c λ h₆.
            other c (record {
              email = h₁;
              credentials = h₂;
              weak = h₃;
              validation = h₄;
              rate = h₅;
              missing = h₆;
            })

grpc_code_unlisted : (c : Code) → IsUnlisted c → grpc_code c ≡ GrpcCode.internal
unfolding grpc_code
grpc_code_unlisted c u = rw (u.email, u.credentials, u.weak, u.validation, u.rate, u.missing)

http_status_unlisted : (c : Code) → IsUnlisted c → http_status c ≡ 500
unfolding http_status
http_status_unlisted c u = rw (u.email, u.credentials, u.validation, u.rate, u.missing)

-- No internal code maps to OK, so none becomes a nil error.
pub grpc_code-ne-success : (c : Code) → grpc_code c ≢ GrpcCode.success
unfolding grpc_code
grpc_code-ne-success c = ground arith

-- What Parse finds for a status that carries no reason.
pub fallback-grpc_code : fallback_code_from_grpc (grpc_code err_internal) ≡ err_internal
unfolding fallback_code_from_grpc grpc_code
fallback-grpc_code = refl

pub ne_literal : (s t : String) → (s == t) ≡ false → s ≢ t
ne_literal s t e h = ground (arith, eq_iff s t)

http_status-grpc_code :
    (c : Code) → (http_status c ≡ grpc_to_http (grpc_code c)) ↔ (c ≢ err_weak_password)
unfolding http_status grpc_code grpc_to_http
http_status-grpc_code =
    by_code (λ c. (http_status c ≡ grpc_to_http (grpc_code c)) ↔ (c ≢ err_weak_password))
      (λ _. ne_literal _ _ refl, λ _. refl) (λ _. ne_literal _ _ refl, λ _. refl)
      (λ e. absurd (omega arith), λ h. absurd (h refl)) (λ _. ne_literal _ _ refl, λ _. refl)
      (λ _. ne_literal _ _ refl, λ _. refl) (λ _. ne_literal _ _ refl, λ _. refl)
      λ c u.
        (λ _. ne_literal c _ u.weak, λ _. rw (http_status_unlisted c u, grpc_code_unlisted c u))

-- The message of a listed code, and the message of internal_error for any other text.
unfoldable pub known_message : Code → String
known_message c = elim (grpc_code c) [ GrpcCode.internal ↦ message err_internal | _ ↦ message c ]

module _ (G : StatusLib) where
  pub code-base_status : (c : Code) → G.code (base_status G c) ≡ grpc_code c
  unfolding base_status grpc_code
  code-base_status c = ground (
    arith,
    G.code-new GrpcCode.already_exists (message c),
    G.code-new GrpcCode.unauthenticated (message c),
    G.code-new GrpcCode.invalid_argument (message c),
    G.code-new GrpcCode.resource_exhausted (message c),
    G.code-new GrpcCode.not_found (message c),
    G.code-new GrpcCode.internal (message err_internal),
  )

  pub details-base_status : (c : Code) → G.details (base_status G c) ≡ []
  unfolding base_status
  details-base_status c = ground (
    arith,
    G.details-new GrpcCode.already_exists (message c),
    G.details-new GrpcCode.unauthenticated (message c),
    G.details-new GrpcCode.invalid_argument (message c),
    G.details-new GrpcCode.resource_exhausted (message c),
    G.details-new GrpcCode.not_found (message c),
    G.details-new GrpcCode.internal (message err_internal),
  )

  pub message-base_status : (c : Code) → G.message (base_status G c) ≡ known_message c
  unfolding base_status known_message grpc_code
  message-base_status c = ground (
    arith,
    G.message-new GrpcCode.already_exists (message c),
    G.message-new GrpcCode.unauthenticated (message c),
    G.message-new GrpcCode.invalid_argument (message c),
    G.message-new GrpcCode.resource_exhausted (message c),
    G.message-new GrpcCode.not_found (message c),
    G.message-new GrpcCode.internal (message err_internal),
  )

  -- The two maps to HTTP, HTTPStatus on the code and grpcToHTTP on the status that is built for
  -- it, agree on a code exactly when the code is not weak_password (500 against 400).
  pub http_status-base_status :
      (c : Code)
      → (http_status c ≡ grpc_to_http (G.code (base_status G c))) ↔ (c ≢ err_weak_password)
  http_status-base_status c = rw (code-base_status c) (http_status-grpc_code c)
