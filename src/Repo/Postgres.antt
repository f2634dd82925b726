-- ===== src/Repo/Postgres.antt =====
-- internal/user/repo/postgres.go: the repository over the queries.
pub mod Constraints
pub mod Example
pub mod Laws
pub mod Sessions
pub mod Instance
pub mod Statements
mod Tests
use enterprise_middleware_go.Prelude.{String}
use enterprise_middleware_go.Clock.{Time}
use enterprise_middleware_go.Repo.{Uuid, pg_uuid, User, Session, RepoResult, Repository}
use enterprise_middleware_go.Repo.Queries.{Tables, Citext, find, query_row}
use enterprise_middleware_go.Repo.Queries

module _ (C : Citext) where
  -- CreateUser
  unfoldable pub create_user : Tables → User → RepoResult User × Tables
  unfolding Queries.create_user
  create_user t u = Queries.create_user C t (record {
    id = u.id;
    email = u.email;
    username = u.username;
    password_hash = u.password_hash;
  })

  -- GetUserByEmail
  unfoldable pub get_user_by_email : Tables → String → RepoResult User
  unfolding Queries.get_user_by_email
  get_user_by_email = Queries.get_user_by_email C

-- GetUserByID
unfoldable pub get_user_by_id : Tables → Uuid → RepoResult User
unfolding Queries.get_user_by_id
get_user_by_id t id = Queries.get_user_by_id t (pg_uuid id)

-- CreateSession
unfoldable pub create_session : Tables → Session → RepoResult Session × Tables
unfolding Queries.create_session
create_session t s = Queries.create_session t (record {
  id = s.id;
  user_id = s.user_id;
  token_hash = s.token_hash;
  expires_at = s.expires_at;
})

-- RevokeSession, at the time that now() reads
unfoldable pub revoke_session : Tables → Time → Uuid → RepoResult (Unit {0}) × Tables
unfolding Queries.revoke_session_by_id
revoke_session t now id = Queries.revoke_session_by_id (record t { now = now }) (pg_uuid id)

-- GetSessionByTokenHash
unfoldable pub get_session_by_token_hash : Tables → String → RepoResult Session
unfolding Queries.get_session_by_token_hash
get_session_by_token_hash = Queries.get_session_by_token_hash

abbrev pub postgres : Citext → Repository Tables
postgres C = record {
  create_user = create_user C;
  get_user_by_email = get_user_by_email C;
  get_user_by_id = get_user_by_id;
  create_session = create_session;
  revoke_session = revoke_session;
  get_session_by_token_hash = get_session_by_token_hash;
}
