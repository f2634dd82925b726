-- ===== src/Service/Sessions/Tests.antt =====
-- A refresh over Postgres in the second of the login.

use enterprise_middleware_go.Prelude.{◌≡◌, refl, none, [], ◌∷◌}
use enterprise_middleware_go.Clock.{to_unix, from_unix}
use enterprise_middleware_go.Repo.{Session, pg_uuid, pg_time, null_time, ok}
use enterprise_middleware_go.Repo.Queries.{Citext, Tables, find, query_row}
use enterprise_middleware_go.Repo.Queries
use enterprise_middleware_go.Repo.Postgres.{get_session_by_token_hash}
use enterprise_middleware_go.Repo.Postgres.Example.{folding}
use enterprise_middleware_go.Errors.{err_internal}
use enterprise_middleware_go.Auth.Tokens.{generate, verify}
use enterprise_middleware_go.Service.Deps.{State}
use enterprise_middleware_go.Service.Example.{platform}
use enterprise_middleware_go.Service.Example.Start.{start, at_zero}
use enterprise_middleware_go.Service.Register.{refusal}
use enterprise_middleware_go.Service.Sessions.{is_dead, refresh_session}
use enterprise_middleware_go.Service.Sessions.Collision.{
  over_postgres, refresh_session-over_postgres,
}

abbrev live : Session
live = record {
  id = pg_uuid 2;
  user_id = pg_uuid 1;
  token_hash = "R|";
  expires_at = pg_time 9;
  created_at = pg_time 0;
  revoked_at = null_time;
}

abbrev logged_in : State (over_postgres folding platform)
logged_in = record {
  store = record { now = 0; users = []; sessions = live ∷ [] };
  cached = none;
  limiters = start.limiters;
  sinks = start.sinks;
}

runs : Unit {0}
unfolding to_unix from_unix generate verify get_session_by_token_hash
    Queries.get_session_by_token_hash find query_row is_dead
runs = tt

refresh_session-over_postgres_example :
    ((refresh_session (over_postgres folding platform) logged_in (at_zero 3) "R|").0
      ≡ ("", "", refusal platform err_internal))
    × (get_session_by_token_hash
          (refresh_session (over_postgres folding platform) logged_in (at_zero 3) "R|").1.store
          "R|"
        ≡ ok (record live { revoked_at = pg_time 0 }))
refresh_session-over_postgres_example =
    refresh_session-over_postgres folding platform logged_in (at_zero 3) "R|" "|" "A|" live
      (unfold runs in refl) (unfold runs in refl) (unfold runs in refl) (unfold runs in refl)
