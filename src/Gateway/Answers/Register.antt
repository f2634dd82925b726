-- ===== src/Gateway/Answers/Register.antt =====
-- The answers of POST /v1/register.
use enterprise_middleware_go.Prelude.{
  ℕ, ◌≡◌, refl, inl, inr, [], ◌∷◌, none, some, arith, Option-cases,
}
use enterprise_middleware_go.Repo.{RepoResult-cases, ok, err}
use enterprise_middleware_go.Errors.{Code, err_internal, err_email_in_use, message}
use enterprise_middleware_go.Errors.Http.{GinContext, json_success, http_error, grpc_to_http}
use enterprise_middleware_go.Errors.Mapping.{grpc_code, known_message}
use enterprise_middleware_go.Errors.RoundTrip.{Attaches}
use enterprise_middleware_go.Errors.RoundTrip.{status_from_code-ne-none}
use enterprise_middleware_go.Auth.Passwords.{hash_password}
use enterprise_middleware_go.Service.Deps.{Deps, State, Readings}
use enterprise_middleware_go.Service.Register.{refusal, new_user, register}
use enterprise_middleware_go.Service.Register.Outcome.{register-expected}
use enterprise_middleware_go.Service.Server.{
  RegisterRequest, RegisterResponse, register_response, serve_register,
}
use enterprise_middleware_go.Gateway.{
  Carriage, delivered, lost_request, lost_reply, Bound, unreadable, text, register_handler,
  register_payload, body, user_client, reply,
}
use enterprise_middleware_go.Gateway.Answers.{answered, no_meta, denied, reply-denied}

module _ (D : Deps) (accepts : (c : Code) → Attaches D.grpc c "" []) (ctx : GinContext) where
  register_reply-denied :
      (http_code : ℕ) (c : Code)
      → grpc_to_http (grpc_code c) ≡ http_code
      → known_message c ≡ message c
      → reply D.grpc ctx 409 "User registered successfully" register_payload
          (register_response D ("", refusal D c))
        ≡ denied D accepts ctx http_code c
  unfolding register_response
  register_reply-denied http_code c h k = elim (Option-cases (refusal D c)) [
    | inl e ↦ absurd (status_from_code-ne-none D.grpc c "" e)
    | inr (e, made) ↦ ground (
      arith,
      reply-denied D accepts ctx {R = RegisterResponse} 409 http_code "User registered successfully"
          register_payload none c h k,
    )
  ]

  register_delivered :
      (s : State D) (r : Readings) (req : RegisterRequest)
      → D.validate_register "" req.email req.username req.password ≡ none
      → (register_handler D.grpc (user_client D r delivered) ctx s (body req)).0
        ≡ elim (hash_password D.bcrypt r.salt req.password) [
          | none ↦ denied D accepts ctx 500 err_internal
          | some hash ↦ elim (D.repo.get_user_by_email s.store req.email) [
            | ok _ ↦ denied D accepts ctx 409 err_email_in_use
            | err _ ↦
                elim (D.repo.create_user s.store (new_user D r req.email req.username hash)).0 [
                  | err _ ↦ denied D accepts ctx 500 err_internal
                  | ok _ ↦
                      json_success ctx 200 "User registered successfully"
                        (("user_id", text (D.uuids.to_string r.id)) ∷ [])
                        no_meta
                ]
          ]
        ]
  unfolding user_client register_handler serve_register reply register_response register_payload
      grpc_to_http grpc_code message known_message
  register_delivered s r req valid =
      let internal = register_reply-denied 500 err_internal refl refl in
      let expected = register-expected D s r req.email req.username req.password in
      elim (Option-cases (hash_password D.bcrypt r.salt req.password)) [
        | inl unhashed ↦ ground (arith, expected, internal)
        | inr (hash, hashed) ↦
            elim (RepoResult-cases (D.repo.get_user_by_email s.store req.email)) [
              | inr (u, taken) ↦
                  ground (arith, expected, register_reply-denied 409 err_email_in_use refl refl)
              | inl (z, free) ↦
                  elim (RepoResult-cases
                    (D.repo.create_user s.store (new_user D r req.email req.username hash)).0) [
                      | inl (z', failed) ↦ ground (arith, expected, internal)
                      | inr (v, made) ↦ ground (arith, expected)
                    ]
            ]
      ]

  -- POST /v1/register is answered with the error of HTTPError for a body that does not bind, with
  -- the default 400, and for a call that gRPC does not carry to the service or back, with the
  -- default 409, as for an input that ValidateRegister refuses. Otherwise the hash and the
  -- repository answer it: 409 if the e-mail has a user, 500 if the password cannot be hashed or the
  -- user not be created, and 200 with the text of the new id otherwise; each of these errors with
  -- the message of its code. The condition is that WithDetails accepts the details of every status
  -- that carries no others.
  pub register_handler-answer :
      (s : State D) (r : Readings) (carried : Carriage D.grpc.Error)
      (request : Bound D.grpc.Error RegisterRequest)
      → (register_handler D.grpc (user_client D r carried) ctx s request).0
        ≡ answered D.grpc ctx 409 carried request (λ req.
          elim (D.validate_register "" req.email req.username req.password) [
            | some e ↦ http_error D.grpc ctx 409 e no_meta
            | none ↦ elim (hash_password D.bcrypt r.salt req.password) [
              | none ↦ denied D accepts ctx 500 err_internal
              | some hash ↦ elim (D.repo.get_user_by_email s.store req.email) [
                | ok _ ↦ denied D accepts ctx 409 err_email_in_use
                | err _ ↦
                    elim (D.repo.create_user s.store (new_user D r req.email req.username hash)).0 [
                      | err _ ↦ denied D accepts ctx 500 err_internal
                      | ok _ ↦
                          json_success ctx 200 "User registered successfully"
                            (("user_id", text (D.uuids.to_string r.id)) ∷ [])
                            no_meta
                    ]
              ]
            ]
          ])
  unfolding user_client register_handler reply serve_register register_response register
  register_handler-answer s r carried (unreadable e) = refl
  register_handler-answer s r (lost_request e) (body req) = refl
  register_handler-answer s r (lost_reply e) (body req) = refl
  register_handler-answer s r delivered (body req) =
      elim (Option-cases (D.validate_register "" req.email req.username req.password)) [
        | inl valid ↦ rw valid (register_delivered s r req valid)
        | inr (e, refused) ↦ rw (refused, register) refl
      ]
