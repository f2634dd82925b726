-- ===== src/Gateway.antt =====
-- internal/gateway/httpserver/handlers.go: the HTTP handlers, over a UserServiceClient. A request is
-- what gin makes of it: its context, and the bound JSON body or the error of ShouldBindJSON.
pub mod Answers
mod Tests
use enterprise_middleware_go.Prelude.{ℕ, String, Bool, true, List, [], ◌∷◌, Option, none, some}
use enterprise_middleware_go.Grpc.{StatusLib}
use enterprise_middleware_go.Errors.Http.{GinContext, Response, json_success, http_error}
use enterprise_middleware_go.Service.Deps.{Deps, State, Readings}
use enterprise_middleware_go.Service.Profile.{GetProfileResponse, serve_get_profile}
use enterprise_middleware_go.Service.Server.{
  RegisterRequest, RegisterResponse, LoginRequest, LoginResponse, RefreshSessionResponse,
  LogoutResponse, serve_register, serve_login, serve_refresh_session, serve_logout,
}

-- The values of a gin.H payload.
pub data JsonValue : Type 0 where
  text : String → JsonValue
  flag : Bool → JsonValue

abbrev pub Payload : Type 0
Payload = List (String × JsonValue)

-- The body that ShouldBindJSON read, or its error.
pub data Bound (E B : Type 0) : Type 0 where
  unreadable : E → Bound E B
  body : B → Bound E B

-- userpb.UserServiceClient, acting on the state W of the world behind it.
pub record UserServiceClient (E W : Type 0) : Type 0 where
  pub register : W → RegisterRequest → (Option RegisterResponse × Option E) × W
  pub login : W → LoginRequest → (Option LoginResponse × Option E) × W
  pub get_profile : W → String → (Option GetProfileResponse × Option E) × W
  pub refresh_session : W → String → (Option RefreshSessionResponse × Option E) × W
  pub logout : W → String → (Option LogoutResponse × Option E) × W

-- What becomes of a call on its way: the service is called and its answer comes back, an error
-- with its status unchanged; or the call fails, with the error that gRPC makes of a deadline, a
-- connection or a cancelled context, before the service is called or behind it.
pub data Carriage (E : Type 0) : Type 0 where
  delivered : Carriage E
  lost_request lost_reply : E → Carriage E

module _ {E W A R : Type 0} where
  -- One call of the client: a call that fails has a nil response and the error.
  unfoldable pub carry :
      Carriage E → (W → A → (Option R × Option E) × W) → W → A → (Option R × Option E) × W
  carry delivered call w a = call w a
  carry (lost_request e) call w a = ((none, some e), w)
  carry (lost_reply e) call w a = ((none, some e), (call w a).1)

-- A client of the user service, over gRPC.
unfoldable pub user_client :
    (D : Deps) → Readings → Carriage D.grpc.Error → UserServiceClient D.grpc.Error (State D)
unfolding carry
user_client D r carried = record {
  register = carry carried (λ s req. serve_register D s r req);
  login = carry carried (λ s req. serve_login D s r req);
  get_profile = carry carried (λ s id. serve_get_profile D s r id);
  refresh_session = carry carried (λ s token. serve_refresh_session D s r token);
  logout = carry carried (λ s token. serve_logout D s r token);
}

-- The payloads: the getters of a nil message return "".
register_payload : Option RegisterResponse → Payload
register_payload none = ("user_id", text "") ∷ []
register_payload (some resp) = ("user_id", text resp.user_id) ∷ []

unfoldable pub tokens_payload : String → String → Payload
tokens_payload access refresh = ("access_token", text access) ∷ ("refresh_token", text refresh) ∷ []

login_payload : Option LoginResponse → Payload
unfolding tokens_payload
login_payload none = tokens_payload "" ""
login_payload (some resp) = tokens_payload resp.access_token resp.refresh_token

refresh_payload : Option RefreshSessionResponse → Payload
unfolding tokens_payload
refresh_payload none = tokens_payload "" ""
refresh_payload (some resp) = tokens_payload resp.access_token resp.refresh_token

unfoldable pub user_payload : String → String → String → Payload
user_payload id username email =
    ("id", text id)
    ∷ ("name", text username)
    ∷ ("email", text email)
    ∷ ("username", text username)
    ∷ []

profile_payload : Option GetProfileResponse → Payload
unfolding user_payload
profile_payload none = user_payload "" "" ""
profile_payload (some resp) = user_payload resp.user_id resp.username resp.email

-- healthHandler
unfoldable pub health_handler : GinContext → Response Payload
health_handler c = json_success c 200 "OK" (("status", text "ok") ∷ []) []

module _ (G : StatusLib) where
  -- HTTPError with the handler's default if there was an error, the success envelope if not.
  unfoldable pub reply :
      {R : Type 0}
      → GinContext
      → ℕ
      → String
      → (Option R → Payload)
      → Option R × Option G.Error
      → Response Payload
  reply c default_http message payload (resp, some e) = http_error G c default_http e []
  reply c default_http message payload (resp, none) = json_success c 200 message (payload resp) []

module _ (G : StatusLib) {W : Type 0} (client : UserServiceClient G.Error W) where
  -- registerHandler
  unfoldable pub register_handler :
      GinContext → W → Bound G.Error RegisterRequest → Response Payload × W
  unfolding reply register_payload
  register_handler c w (unreadable e) = (http_error G c 400 e [], w)
  register_handler c w (body req) =
      let (result, w') = client.register w req in
      (reply G c 409 "User registered successfully" register_payload result, w')

  -- loginHandler
  unfoldable pub login_handler : GinContext → W → Bound G.Error LoginRequest → Response Payload × W
  unfolding reply login_payload
  login_handler c w (unreadable e) = (http_error G c 400 e [], w)
  login_handler c w (body req) =
      let (result, w') = client.login w req in
      (reply G c 401 "Login successful" login_payload result, w')

  -- profileHandler
  unfoldable pub profile_handler : GinContext → W → String → Response Payload × W
  unfolding reply profile_payload
  profile_handler c w id =
      let (result, w') = client.get_profile w id in
      (reply G c 404 "User retrieved successfully" profile_payload result, w')

  -- refreshHandler
  unfoldable pub refresh_handler : GinContext → W → Bound G.Error String → Response Payload × W
  unfolding reply refresh_payload
  refresh_handler c w (unreadable e) = (http_error G c 400 e [], w)
  refresh_handler c w (body refresh_token) =
      let (result, w') = client.refresh_session w refresh_token in
      (reply G c 401 "Token refreshed successfully" refresh_payload result, w')

  -- logoutHandler
  unfoldable pub logout_handler : GinContext → W → Bound G.Error String → Response Payload × W
  unfolding reply
  logout_handler c w (unreadable e) = (http_error G c 400 e [], w)
  logout_handler c w (body refresh_token) =
      let (result, w') = client.logout w refresh_token in
      (reply G c 401 "Logged out successfully" (λ _. ("ok", flag true) ∷ []) result, w')
