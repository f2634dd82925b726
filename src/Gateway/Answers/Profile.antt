-- ===== src/Gateway/Answers/Profile.antt =====
-- The answers of GET /v1/profile/:id.
use enterprise_middleware_go.Service.Deps.{Deps}
