-- ===== src/Service/Server.antt =====
-- internal/user/grpc/server.go: the handlers of UserServer but for GetProfile, which is in
-- `Service.Profile`. A message of userpb is a record of its fields.
use enterprise_middleware_go.Prelude.{String, Option, none, some}
use enterprise_middleware_go.Service.Deps.{Deps, State, Readings}
use enterprise_middleware_go.Service.Register.{register}
use enterprise_middleware_go.Service.Login.{login}
use enterprise_middleware_go.Service.Sessions.{refresh_session, logout}

pub record RegisterRequest : Type 0 where
  pub email : String
  pub username : String
  pub password : String

pub record RegisterResponse : Type 0 where
  pub user_id : String

pub record LoginRequest : Type 0 where
  pub email : String
  pub password : String

pub record LoginResponse : Type 0 where
  pub access_token : String
  pub refresh_token : String

pub record RefreshSessionResponse : Type 0 where
  pub access_token : String
  pub refresh_token : String

pub record LogoutResponse : Type 0 where

module _ (D : Deps) where
  -- A nil response with an error, or the response.
  unfoldable pub register_response :
      String × Option D.grpc.Error → Option RegisterResponse × Option D.grpc.Error
  register_response (id, some e) = (none, some e)
  register_response (id, none) = (some (record { user_id = id }), none)

  unfoldable pub login_response :
      String × String × Option D.grpc.Error → Option LoginResponse × Option D.grpc.Error
  login_response (access, refresh, some e) = (none, some e)
  login_response (access, refresh, none) =
      (some (record { access_token = access; refresh_token = refresh }), none)

  unfoldable pub refresh_session_response :
      String × String × Option D.grpc.Error → Option RefreshSessionResponse × Option D.grpc.Error
  refresh_session_response (access, refresh, some e) = (none, some e)
  refresh_session_response (access, refresh, none) =
      (some (record { access_token = access; refresh_token = refresh }), none)

  unfoldable pub logout_response : Option D.grpc.Error → Option LogoutResponse × Option D.grpc.Error
  logout_response (some e) = (none, some e)
  logout_response none = (some (record {}), none)

  unfoldable pub serve_register :
      State D
      → Readings
      → RegisterRequest
      → (Option RegisterResponse × Option D.grpc.Error) × State D
  unfolding register_response
  serve_register s r req =
      let (result, s') = register D s r req.email req.username req.password in
      (register_response result, s')

  unfoldable pub serve_login :
      State D → Readings → LoginRequest → (Option LoginResponse × Option D.grpc.Error) × State D
  unfolding login_response
  serve_login s r req =
      let (result, s') = login D s r req.email req.password in (login_response result, s')

  unfoldable pub serve_refresh_session :
      State D → Readings → String → (Option RefreshSessionResponse × Option D.grpc.Error) × State D
  unfolding refresh_session_response
  serve_refresh_session s r refresh_token =
      let (result, s') = refresh_session D s r refresh_token in
      (refresh_session_response result, s')

  unfoldable pub serve_logout :
      State D → Readings → String → (Option LogoutResponse × Option D.grpc.Error) × State D
  unfolding logout_response
  serve_logout s r refresh_token =
      let (result, s') = logout D s r refresh_token in (logout_response result, s')
