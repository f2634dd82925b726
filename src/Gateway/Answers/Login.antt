-- ===== src/Gateway/Answers/Login.antt =====
-- The answers of POST /v1/login.
use enterprise_middleware_go.Service.Deps.{Deps}
