-- ===== src/Gateway/Answers/Sessions.antt =====
-- The answers of POST /v1/refresh and POST /v1/logout.
use enterprise_middleware_go.Prelude.{String, ◌≡◌, refl, inl, inr, true, [], ◌∷◌, arith}
use enterprise_middleware_go.Repo.{RepoResult-cases}
use enterprise_middleware_go.Errors.Http.{GinContext, json_success}
use enterprise_middleware_go.Service.Deps.{Deps, State, Readings}
use enterprise_middleware_go.Service.Sessions.{logout}
use enterprise_middleware_go.Service.Server.{serve_logout, logout_response}
use enterprise_middleware_go.Gateway.{
  Carriage, delivered, lost_request, lost_reply, Bound, unreadable, flag, logout_handler, body,
  user_client, reply,
}
use enterprise_middleware_go.Gateway.Answers.{answered, no_meta}

module _ (D : Deps) where
  logout_delivered :
      (ctx : GinContext) (s : State D) (r : Readings) (refresh_token : String)
      → (logout_handler D.grpc (user_client D r delivered) ctx s (body refresh_token)).0
        ≡ json_success ctx 200 "Logged out successfully" (("ok", flag true) ∷ []) no_meta
  unfolding user_client logout_handler serve_logout reply logout_response logout
  logout_delivered ctx s r refresh_token =
      elim (RepoResult-cases
        (D.repo.get_session_by_token_hash s.store (D.sha256_hex refresh_token))) [
          | inl (e, missing) ↦ ground arith
          | inr (session, at) ↦ ground arith
        ]

  -- POST /v1/logout is answered with the error of HTTPError for a body that does not bind, with the
  -- default 400, and for a call that gRPC does not carry to the service or back, with the default
  -- 401, and otherwise with 200 whatever the token is, and whether or not its session was found and
  -- revoked.
  pub logout_handler-answer :
      (ctx : GinContext) (s : State D) (r : Readings) (carried : Carriage D.grpc.Error)
      (request : Bound D.grpc.Error String)
      → (logout_handler D.grpc (user_client D r carried) ctx s request).0
        ≡ answered D.grpc ctx 401 carried request
            (λ _. json_success ctx 200 "Logged out successfully" (("ok", flag true) ∷ []) no_meta)
  unfolding user_client logout_handler reply
  logout_handler-answer ctx s r carried (unreadable e) = refl
  logout_handler-answer ctx s r delivered (body token) = logout_delivered ctx s r token
  logout_handler-answer ctx s r (lost_request e) (body token) = refl
  logout_handler-answer ctx s r (lost_reply e) (body token) = refl
