-- ===== src/Repo/Memory/Tests.antt =====
-- The in-memory repository from empty: a user, a session of hers, its revocation.
use enterprise_middleware_go.Prelude.{refl, ◌==◌}
use enterprise_middleware_go.Dict.{empty, get, put}
use enterprise_middleware_go.Repo.{
  User, Session, pg_uuid, pg_time, null_time, UserCreated, SessionCreated, SessionRevoked,
}
use enterprise_middleware_go.Repo.Memory.{
  InMemoryRepo, memory, new_in_memory_repo, create_user, create_session, revoke_session,
  uuid_string,
}
use enterprise_middleware_go.Repo.Memory.Invariant.{
  IsIndexed, new_in_memory_repo-IsIndexed, create_user-IsIndexed, create_session-IsIndexed,
}
use enterprise_middleware_go.Repo.Memory.Laws.{
  create_user_step, create_session_step, revoke_session_step,
}
use enterprise_middleware_go.Service.Example.{stroke_uuids}

abbrev alice : User
alice = record {
  id = pg_uuid 1;
  email = "alice@example.com";
  username = "alice";
  password_hash = "hash";
  created_at = null_time;
  updated_at = null_time;
}

abbrev session : Session
session = record {
  id = pg_uuid 2;
  user_id = pg_uuid 1;
  token_hash = "token";
  expires_at = pg_time 7;
  revoked_at = null_time;
  created_at = null_time;
}

abbrev with_user : InMemoryRepo
with_user = (create_user stroke_uuids new_in_memory_repo alice).1

abbrev with_session : InMemoryRepo
with_session = (create_session stroke_uuids with_user session).1

abbrev revoked : InMemoryRepo
revoked = (revoke_session stroke_uuids with_session 5 2).1

runs : Unit {0}
unfolding new_in_memory_repo get empty put create_user create_session revoke_session uuid_string
runs = tt

create_user_step_run :
    IsIndexed stroke_uuids with_user
    × UserCreated (memory stroke_uuids) ◌==◌ alice alice new_in_memory_repo with_user
create_user_step_run =
    create_user_step stroke_uuids new_in_memory_repo with_user alice alice
      (new_in_memory_repo-IsIndexed stroke_uuids) (unfold runs in refl) (unfold runs in refl)

with_user-IsIndexed : IsIndexed stroke_uuids with_user
with_user-IsIndexed =
    create_user-IsIndexed stroke_uuids new_in_memory_repo alice
      (new_in_memory_repo-IsIndexed stroke_uuids) (unfold runs in refl)

create_session_step_run :
    IsIndexed stroke_uuids with_session
    × SessionCreated (memory stroke_uuids) session session with_user with_session
create_session_step_run =
    create_session_step stroke_uuids with_user with_session session session with_user-IsIndexed
      (unfold runs in refl) (unfold runs in refl)

with_session-IsIndexed : IsIndexed stroke_uuids with_session
with_session-IsIndexed =
    create_session-IsIndexed stroke_uuids with_user session with_user-IsIndexed
      (unfold runs in refl)

revoke_session_step_run :
    IsIndexed stroke_uuids revoked × SessionRevoked (memory stroke_uuids) 5 2 with_session revoked
revoke_session_step_run =
    revoke_session_step stroke_uuids with_session revoked 5 2 with_session-IsIndexed
      (unfold runs in refl)
