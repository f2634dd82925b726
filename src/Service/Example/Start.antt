-- ===== src/Service/Example/Start.antt =====
-- The example platform before its first call, and a call at time 0.
use enterprise_middleware_go.Prelude.{some, []}
use enterprise_middleware_go.Dict.{empty}
use enterprise_middleware_go.Repo.{Uuid}
use enterprise_middleware_go.Repo.Memory.{new_in_memory_repo}
use enterprise_middleware_go.Service.Deps.{State, Readings, new_user_service}
use enterprise_middleware_go.Service.Example.{platform}

abbrev pub start : State platform
start = new_user_service platform new_in_memory_repo (some empty) []

-- All clocks read 0; the new id is the argument.
abbrev pub at_zero : Uuid → Readings
at_zero id = record {
  limiter_now = 0;
  allow_now = 0;
  cache_now = 0;
  access_now = 0;
  refresh_now = 0;
  verify_now = 0;
  revoke_now = 0;
  expiry_now = 0;
  now = 0;
  salt = 0;
  id = id;
  stamp = record { event_id = "e"; now = 0 };
  correlation_id = "c";
}
