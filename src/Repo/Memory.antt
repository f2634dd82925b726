-- ===== src/Repo/Memory.antt =====
-- internal/user/repo/memory.go. Each method holds the lock for its whole body, so it is one step on
-- the four maps.
pub mod Invariant
pub mod Writes
pub mod Laws
mod Tests
use enterprise_middleware_go.Prelude.{String, ◌≡◌, Option, none, some}
use enterprise_middleware_go.Clock.{Time}
use enterprise_middleware_go.Dict.{Dict, empty, get, put}
use enterprise_middleware_go.Repo.{
  PgUuid, Uuid, UuidLib, User, Session, pg_time, zero_user, zero_session, err_not_found,
  err_email_exists, err_session_not_found, RepoResult, ok, err, Repository,
}

pub record InMemoryRepo : Type 0 where
  pub users : Dict User
  pub by_email : Dict String
  pub sessions : Dict Session
  pub by_token : Dict String

-- NewInMemoryRepo
unfoldable pub new_in_memory_repo : InMemoryRepo
unfolding empty
new_in_memory_repo = record { users = empty; by_email = empty; sessions = empty; by_token = empty }

-- m[k] for a key that may be missing: the zero value.
user_or_zero : Option User → User
user_or_zero none = zero_user
user_or_zero (some u) = u

session_or_zero : Option Session → Session
session_or_zero none = zero_session
session_or_zero (some s) = s

module _ (L : UuidLib) where
  unfoldable pub uuid_string : PgUuid → String
  uuid_string u = L.to_string u.bytes

  -- CreateUser
  unfoldable pub create_user : InMemoryRepo → User → RepoResult User × InMemoryRepo
  unfolding uuid_string
  create_user r user = elim (get r.by_email user.email) [
    | some _ ↦ (err err_email_exists, r)
    | none ↦
        let id = uuid_string user.id in
        (ok user, record r { users = put r.users id user; by_email = put r.by_email user.email id })
  ]

  -- GetUserByID
  unfoldable pub get_user_by_id : InMemoryRepo → Uuid → RepoResult User
  get_user_by_id r id = elim (get r.users (L.to_string id)) [
    | none ↦ err err_not_found
    | some usr ↦ ok usr
  ]

  -- CreateSession
  unfoldable pub create_session : InMemoryRepo → Session → RepoResult Session × InMemoryRepo
  unfolding uuid_string
  create_session r sess =
      let id = uuid_string sess.id in
      (
        ok sess,
        record r {
          sessions = put r.sessions id sess;
          by_token = put r.by_token sess.token_hash id;
        },
      )

  -- RevokeSession
  unfoldable pub revoke_session : InMemoryRepo → Time → Uuid → RepoResult (Unit {0}) × InMemoryRepo
  revoke_session r now id = elim (get r.sessions (L.to_string id)) [
    | none ↦ (err err_session_not_found, r)
    | some sess ↦ (
      ok tt,
      record r {
        sessions = put r.sessions (L.to_string id) (record sess { revoked_at = pg_time now });
      },
    )
  ]

-- GetUserByEmail
unfoldable pub get_user_by_email : InMemoryRepo → String → RepoResult User
unfolding user_or_zero
get_user_by_email r email = elim (get r.by_email email) [
  | none ↦ err err_not_found
  | some id ↦ ok (user_or_zero (get r.users id))
]

-- GetSessionByTokenHash
unfoldable pub get_session_by_token_hash : InMemoryRepo → String → RepoResult Session
unfolding session_or_zero
get_session_by_token_hash r token_hash = elim (get r.by_token token_hash) [
  | none ↦ err err_not_found
  | some id ↦ ok (session_or_zero (get r.sessions id))
]

abbrev pub memory : UuidLib → Repository InMemoryRepo
memory L = record {
  create_user = create_user L;
  get_user_by_email = get_user_by_email;
  get_user_by_id = get_user_by_id L;
  create_session = create_session L;
  revoke_session = revoke_session L;
  get_session_by_token_hash = get_session_by_token_hash;
}
