-- ===== src/Gateway/Tests.antt =====
-- The gateway before the example platform's first call.
use enterprise_middleware_go.Prelude.{◌≡◌, refl, true, [], ◌∷◌, ◌++◌}
use enterprise_middleware_go.Clock.{to_unix, from_unix}
use enterprise_middleware_go.Dict.{empty, get, put, remove, retain, size}
use enterprise_middleware_go.Grpc.Example.{plain}
use enterprise_middleware_go.Repo.Memory.{
  new_in_memory_repo, create_user, uuid_string, get_user_by_id as memory_id,
  get_user_by_email as memory_email, get_session_by_token_hash as memory_session,
}
use enterprise_middleware_go.Limiter.{new_limiter_pool, pool_get, write_back}
use enterprise_middleware_go.Errors.{Code, err_validation, message, base_status, common_details}
use enterprise_middleware_go.Errors.Http.{GinContext, json_success, write_error}
use enterprise_middleware_go.Errors.RoundTrip.{Attaches}
use enterprise_middleware_go.Auth.Passwords.{hash_password}
use enterprise_middleware_go.Auth.Tokens.{generate, verify}
use enterprise_middleware_go.Service.Example.{platform}
use enterprise_middleware_go.Service.Example.Start.{start, at_zero}
use enterprise_middleware_go.Service.Register.{new_user}
use enterprise_middleware_go.Service.Login.{allow_login}
use enterprise_middleware_go.Validation.{validate_register, password_rule, tag_message}
use enterprise_middleware_go.Validation.Example.{library}
use enterprise_middleware_go.Validation.Rules.{wrong}
use enterprise_middleware_go.Service.Deps.{Deps, State}
use enterprise_middleware_go.Gateway.Answers.Invalid.{register_handler-validate_register}
use enterprise_middleware_go.Errors.Answers.{violation_details}
use enterprise_middleware_go.Gateway.{
  text, flag, body, delivered, user_client, register_handler, logout_handler,
}
use enterprise_middleware_go.Gateway.Answers.{no_meta}
use enterprise_middleware_go.Gateway.Answers.Register.{register_handler-answer}
use enterprise_middleware_go.Gateway.Answers.Sessions.{logout_handler-answer}

abbrev context : GinContext
context = record { request_id = "r-1"; now_rfc3339 = "2024-01-01T00:00:00Z" }

accepts : (c : Code) → Attaches plain c "" []
accepts c =
    let st = base_status plain c in
    (record st { details = st.details ++ common_details plain "" c [] }, refl)

runs : Unit {0}
unfolding user_client allow_login new_limiter_pool pool_get write_back memory_email memory_id
    memory_session get put empty new_in_memory_repo create_user hash_password generate verify
    to_unix from_unix remove retain size new_user uuid_string
runs = tt

register_handler-answer_example :
    (register_handler plain
      (user_client platform (at_zero 1) delivered)
      context
      start
      (body (record { email = "alice@example.com"; username = "alice"; password = "secret" }))).0
    ≡ json_success context 200 "User registered successfully" (("user_id", text "|") ∷ []) no_meta
unfolding runs
register_handler-answer_example =
    register_handler-answer platform accepts context start (at_zero 1) delivered
      (body (record { email = "alice@example.com"; username = "alice"; password = "secret" }))

-- The platform with the rules of pkg/validation.
abbrev guarded : Deps
guarded = record platform { validate_register = validate_register plain library }

abbrev start_guarded : State guarded
start_guarded = record {
  store = start.store;
  cached = start.cached;
  limiters = start.limiters;
  sinks = start.sinks;
}

register_handler-validate_register_example :
    register_handler plain
      (user_client guarded (at_zero 1) delivered)
      context
      start_guarded
      (body (record { email = "alice@example.com"; username = "al"; password = "secret" }))
    ≡ (
      write_error context 400
          (message err_validation)
          (violation_details (
            wrong "Username" "This value is too short."
            ∷ wrong "Password"
                "Password must be at least 12 characters and include uppercase, lowercase, a number, and a special character."
            ∷ []))
          "r-1"
          no_meta,
      start_guarded,
    )
unfolding runs password_rule tag_message
register_handler-validate_register_example =
    register_handler-validate_register guarded library context start_guarded (at_zero 1)
      (record { email = "alice@example.com"; username = "al"; password = "secret" })
      (wrong "Username" "This value is too short.")
      (wrong "Password"
          "Password must be at least 12 characters and include uppercase, lowercase, a number, and a special character."
        ∷ [])
      refl refl (_, refl)

logout_handler-answer_example :
    (logout_handler plain (user_client platform (at_zero 1) delivered) context start (body "R|")).0
    ≡ json_success context 200 "Logged out successfully" (("ok", flag true) ∷ []) no_meta
logout_handler-answer_example =
    logout_handler-answer platform context start (at_zero 1) delivered (body "R|")
