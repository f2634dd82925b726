-- ===== src/Gateway/Answers/Invalid.antt =====
-- The answers of POST /v1/register to an input that pkg/validation refuses.
use enterprise_middleware_go.Prelude.{◌≡◌, ap, ◌∙◌, List, [], ◌∷◌}
use enterprise_middleware_go.Grpc.{FieldViolation, bad_request}
use enterprise_middleware_go.Errors.{err_validation, message}
use enterprise_middleware_go.Errors.Http.{GinContext, write_error}
use enterprise_middleware_go.Errors.RoundTrip.{Attaches}
use enterprise_middleware_go.Errors.Answers.{violation_details, http_error-validation_error}
use enterprise_middleware_go.Validation.{ValidatorLib, validate_register}
use enterprise_middleware_go.Validation.Rules.{
  refused_for, register_violations, validate_register-refused_for,
}
use enterprise_middleware_go.Service.Deps.{Deps, State, Readings}
use enterprise_middleware_go.Service.Register.{register}
use enterprise_middleware_go.Service.Server.{RegisterRequest, register_response, serve_register}
use enterprise_middleware_go.Gateway.{
  register_handler, body, user_client, delivered, reply, register_payload,
}
use enterprise_middleware_go.Gateway.Answers.{no_meta}

-- POST /v1/register, carried by gRPC, with a body that binds but breaks a rule of ValidateRegister,
-- whose details WithDetails accepts, is answered with 400, the message of the validation code and every
-- violation, in the order of the fields, and changes nothing.
pub register_handler-validate_register :
    (D : Deps) (V : ValidatorLib) (ctx : GinContext) (s : State D) (r : Readings)
    (req : RegisterRequest) (v : FieldViolation) (vs : List FieldViolation)
    → D.validate_register "" req.email req.username req.password
      ≡ validate_register D.grpc V "" req.email req.username req.password
    → register_violations V.is_email req.email req.username req.password ≡ v ∷ vs
    → Attaches D.grpc err_validation "" (bad_request (v ∷ vs) ∷ [])
    → register_handler D.grpc (user_client D r delivered) ctx s (body req) ≡ (
      write_error ctx 400
          (message err_validation)
          (violation_details (v ∷ vs))
          ctx.request_id
          no_meta,
      s,
    )
unfolding user_client register_handler reply register_payload serve_register register_response
    register
register_handler-validate_register D V ctx s r req v vs same broken accepted =
    let (e, made, shown) =
      http_error-validation_error D.grpc ctx 409 no_meta "" (v ∷ vs) accepted in
    let refused =
      same
      ∙ validate_register-refused_for D.grpc V "" req.email req.username req.password
      ∙ ap (refused_for D.grpc "") broken
      ∙ made in
    rw (refused, register) (ap (λ a. (a, s)) shown)
