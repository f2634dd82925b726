-- ===== src/Gateway/Answers.antt =====
-- What a client of the gateway is answered, end to end: the handlers of handlers.go over the user
-- service, its repository and pkg/errors.
pub mod Invalid
pub mod Login
pub mod Profile
pub mod Register
pub mod Sessions
use enterprise_middleware_go.Prelude.{
  ℕ, String, ◌≡◌, refl, ap, ◌∙◌, inl, inr, true, false, List, [], ◌∷◌, Option, none, some, arith,
  Option-cases, Bool-cases, if◌then◌else◌,
}
use enterprise_middleware_go.Repo.{User, zero_user, RepoResult, RepoResult-cases, ok, err}
use enterprise_middleware_go.Errors.{
  Code, err_internal, err_invalid_credentials, err_rate_limited, err_validation, err_not_found,
  err_email_in_use, status_from_code, message,
}
use enterprise_middleware_go.Errors.Http.{
  GinContext, Response, json_success, http_error, write_error, grpc_to_http, http_code_or,
}
use enterprise_middleware_go.Errors.Mapping.{grpc_code, known_message}
use enterprise_middleware_go.Errors.RoundTrip.{Attaches}
use enterprise_middleware_go.Errors.RoundTrip.{status_from_code-ne-none}
use enterprise_middleware_go.Errors.Answers.{http_error-status_from_code}
use enterprise_middleware_go.Auth.Passwords.{hash_password, compare_password}
use enterprise_middleware_go.Service.Deps.{Deps, State, Readings}
use enterprise_middleware_go.Service.Register.{refusal, new_user, register}
use enterprise_middleware_go.Service.Register.Outcome.{register-expected}
use enterprise_middleware_go.Service.Sessions.{logout}
use enterprise_middleware_go.Service.Login.{login, allow_login}
use enterprise_middleware_go.Service.Login.Outcome.{login-expected, tokens_for, stored, found}
use enterprise_middleware_go.Service.Getters.{
  get_user_by_id, cached_view, load_user_by_id, cache_under,
}
use enterprise_middleware_go.Service.Getters.Coherence.{IsCoherent}
use enterprise_middleware_go.Service.Profile.{
  GetProfileResponse, profile_response, get_profile, serve_get_profile,
}
use enterprise_middleware_go.Service.Profile.Transparency.{serve_get_profile-cached}
use enterprise_middleware_go.Service.Server.{
  LoginRequest, LoginResponse, RegisterRequest, RegisterResponse, register_response, serve_register,
  serve_logout, logout_response, login_response, serve_login,
}
use enterprise_middleware_go.Grpc.{GrpcCode, StatusLib}
use enterprise_middleware_go.Gateway.{
  Carriage, delivered, lost_request, lost_reply, Bound, unreadable, Payload, text, flag,
  register_handler, logout_handler, register_payload, body, user_client, reply, login_payload,
  tokens_payload, user_payload, login_handler, profile_handler, profile_payload,
}

abbrev pub no_meta : List Payload
no_meta = []

module _ (G : StatusLib) (ctx : GinContext) (default_http : ℕ) where
  -- The answer to a request: 400 for a body that does not bind, the error of a call that gRPC does
  -- not carry, and the service's own answer otherwise.
  abbrev pub answered :
      {B : Type 0} → Carriage G.Error → Bound G.Error B → (B → Response Payload) → Response Payload
  answered carried (unreadable e) own = http_error G ctx 400 e no_meta
  answered delivered (body b) own = own b
  answered (lost_request e) (body b) own = http_error G ctx default_http e no_meta
  answered (lost_reply e) (body b) own = http_error G ctx default_http e no_meta

  -- A call that gRPC gives up for its deadline or for want of a connection is answered with 504 or
  -- 503, whatever the handler's default.
  http_error-not_carried :
      (e : G.Error) (st : G.Status)
      → G.from_error e ≡ (st, true)
      → (G.code st ≡ GrpcCode.deadline_exceeded
          → (http_error G ctx default_http e no_meta).status ≡ 504)
        × (G.code st ≡ GrpcCode.unavailable
            → (http_error G ctx default_http e no_meta).status ≡ 503)
  unfolding http_error http_code_or write_error grpc_to_http
  http_error-not_carried e st at = (λ h. rw (at, h) refl, λ h. rw (at, h) refl)

module _ (D : Deps) (accepts : (c : Code) → Attaches D.grpc c "" []) (ctx : GinContext) where
  -- The answer for an error of the service with that HTTP status and message.
  abbrev pub denied : ℕ → Code → Response Payload
  denied http_code c = write_error ctx http_code (message c) none ctx.request_id []

  refused :
      {R : Type 0} (default_http : ℕ) (said : String) (payload : Option R → Payload)
      (resp : Option R) (c : Code)
      → reply D.grpc ctx default_http said payload (resp, refusal D c)
        ≡ write_error ctx (grpc_to_http (grpc_code c)) (known_message c) none ctx.request_id []
  unfolding reply
  refused default_http said payload resp c =
      let (e, made, shown) =
        http_error-status_from_code D.grpc ctx default_http no_meta "" c (accepts c) in
      rw made shown

  pub reply-denied :
      {R : Type 0} (default_http http_code : ℕ) (said : String) (payload : Option R → Payload)
      (resp : Option R) (c : Code)
      → grpc_to_http (grpc_code c) ≡ http_code
      → known_message c ≡ message c
      → reply D.grpc ctx default_http said payload (resp, refusal D c) ≡ denied http_code c
  reply-denied default_http http_code said payload resp c h k =
      refused default_http said payload resp c ∙ cc (h, k)
