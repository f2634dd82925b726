-- ===== src/Repo/Queries.antt =====
-- The queries of internal/user/sqlc/gen/user.sql.go over the tables of
-- pkg/migrations/up/000001_users_.up.sql: a table is its rows in the order of their insertion, and
-- each statement is one transaction. A violated constraint is an error with the constraint's name.
-- Two texts are one citext where `same` says so.
pub mod Rows
pub mod Listing
pub mod Paging
pub mod Following
use Prim.Native.String
use enterprise_middleware_go.Prelude.{
  ℕ, ◌+◌, ◌*◌, String, ◌≡◌, Bool, true, false, not, ◌&&◌, ◌||◌, List, [], ◌∷◌, ◌++◌, map, Option,
  none, some, any, ltb, eqb, ◌==◌, if◌then◌else◌,
}
use enterprise_middleware_go.Clock.{Time, second}
use enterprise_middleware_go.Repo.{
  Uuid, PgUuid, Timestamptz, pg_time, null_time, User, Session, driver_error, RepoResult, ok, err,
}

-- The comparison of citext is an equivalence.
pub record Citext : Type 0 where
  pub same : String → String → Bool
  pub reflexive : (a : String) → same a a ≡ true
  pub symmetric : (a b : String) → same a b ≡ true → same b a ≡ true
  pub transitive : (a b c : String) → same a b ≡ true → same b c ≡ true → same a c ≡ true

-- The two tables, and what now() reads.
pub record Tables : Type 0 where
  pub now : Time
  pub users : List User
  pub sessions : List Session

-- The first row that satisfies the condition.
unfoldable pub find : {A : Type 0} → (A → Bool) → List A → Option A
find p [] = none
find p (x ∷ xs) = if p x then some x else find p xs

-- QueryRow and Scan.
unfoldable pub query_row : {A : Type 0} → Option A → RepoResult A
query_row none = err (driver_error "no rows in result set")
query_row (some a) = ok a

unfoldable pub filter : {A : Type 0} → (A → Bool) → List A → List A
filter p [] = []
filter p (x ∷ xs) = if p x then x ∷ filter p xs else filter p xs

-- The conditions of the WHERE clauses.
abbrev pub id_is : Uuid → User → Bool
id_is id u = eqb u.id.bytes id

abbrev pub session_id_is : Uuid → Session → Bool
session_id_is id s = eqb s.id.bytes id

abbrev pub hash_is : String → Session → Bool
hash_is token_hash s = s.token_hash == token_hash

pub record CreateUserParams : Type 0 where
  pub id : PgUuid
  pub email : String
  pub username : String
  pub password_hash : String

pub record CreateSessionParams : Type 0 where
  pub id : PgUuid
  pub user_id : PgUuid
  pub token_hash : String
  pub expires_at : Timestamptz

module _ (C : Citext) where
  abbrev pub email_is : String → User → Bool
  email_is email u = C.same u.email email

  abbrev pub username_is : String → User → Bool
  username_is username u = C.same u.username username

  -- The constraint of `users` that a row violates.
  unfoldable pub user_violation : Tables → CreateUserParams → Option String
  user_violation t arg =
      if not arg.id.valid
      then some "users_id_not_null"
      else if ltb (String.count arg.password_hash) 60 || ltb 200 (String.count arg.password_hash)
      then some "users_password_hash_check"
      else if any (id_is arg.id.bytes) t.users
      then some "users_pkey"
      else if any (email_is arg.email) t.users
      then some "users_email_key"
      else if any (username_is arg.username) t.users
      then some "users_username_key"
      else none

  -- CreateUser
  unfoldable pub create_user : Tables → CreateUserParams → RepoResult User × Tables
  create_user t arg = elim (user_violation t arg) [
    | some constraint ↦ (err (driver_error constraint), t)
    | none ↦
        let row : User = record {
          id = arg.id;
          email = arg.email;
          username = arg.username;
          password_hash = arg.password_hash;
          created_at = pg_time t.now;
          updated_at = pg_time t.now;
        } in
        (ok row, record t { users = t.users ++ row ∷ [] })
  ]

  -- GetUserByEmail
  unfoldable pub get_user_by_email : Tables → String → RepoResult User
  get_user_by_email t email = query_row (find (email_is email) t.users)

-- GetUserByID; NULL is equal to nothing
unfoldable pub get_user_by_id : Tables → PgUuid → RepoResult User
get_user_by_id t id = query_row (if id.valid then find (id_is id.bytes) t.users else none)

-- UpdatePassword, with the trigger on updated_at
unfoldable pub update_password : Tables → PgUuid → String → RepoResult (Unit {0}) × Tables
update_password t id password_hash =
    if ltb (String.count password_hash) 60 || ltb 200 (String.count password_hash)
    then if id.valid && any (id_is id.bytes) t.users
      then (err (driver_error "users_password_hash_check"), t)
      else (ok tt, t)
    else (
      ok tt,
      record t {
        users =
            map
              (λ u.
                if id.valid && id_is id.bytes u
                then record u { password_hash = password_hash; updated_at = pg_time t.now }
                else u)
              t.users;
      },
    )

-- The constraint of `sessions` that a row violates.
unfoldable pub session_violation : Tables → CreateSessionParams → Option String
session_violation t arg =
    if not (arg.id.valid && arg.user_id.valid && arg.expires_at.valid)
    then some "sessions_not_null"
    else if not (eqb (String.count arg.token_hash) 64)
    then some "sessions_token_hash_check"
    else if any (session_id_is arg.id.bytes) t.sessions
    then some "sessions_pkey"
    else if any (hash_is arg.token_hash) t.sessions
    then some "sessions_token_hash_uniq"
    else if any (id_is arg.user_id.bytes) t.users
    then none
    else some "sessions_user_id_fkey"

-- CreateSession
unfoldable pub create_session : Tables → CreateSessionParams → RepoResult Session × Tables
create_session t arg = elim (session_violation t arg) [
  | some constraint ↦ (err (driver_error constraint), t)
  | none ↦
      let row : Session = record {
        id = arg.id;
        user_id = arg.user_id;
        token_hash = arg.token_hash;
        expires_at = arg.expires_at;
        created_at = pg_time t.now;
        revoked_at = null_time;
      } in
      (ok row, record t { sessions = t.sessions ++ row ∷ [] })
]

-- GetSessionByTokenHash
unfoldable pub get_session_by_token_hash : Tables → String → RepoResult Session
get_session_by_token_hash t token_hash = query_row (find (hash_is token_hash) t.sessions)

-- RevokeSessionByID
unfoldable pub revoke_session_by_id : Tables → PgUuid → RepoResult (Unit {0}) × Tables
revoke_session_by_id t id = (
  ok tt,
  record t {
    sessions =
        map
          (λ s.
            if id.valid && session_id_is id.bytes s
            then record s { revoked_at = pg_time t.now }
            else s)
          t.sessions;
  },
)

-- CleanupOldSessions
unfoldable pub cleanup_old_sessions : Tables → RepoResult (Unit {0}) × Tables
cleanup_old_sessions t = (
  ok tt,
  record t {
    sessions =
        filter
          (λ s. not (s.revoked_at.valid && ltb (s.expires_at.time + 7 * 24 * 3600 * second) t.now))
          t.sessions;
  },
)
