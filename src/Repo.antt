-- ===== src/Repo.antt =====
-- The rows of internal/user/sqlc/gen/models.go, and the Repository interface of
-- internal/user/service/service.go with the errors of internal/user/repo. A UUID is the number that
-- its 16 bytes spell; its text form is google/uuid's, an interface.
pub mod Memory
pub mod Queries
pub mod Postgres
use enterprise_middleware_go.Prelude.{
  ℕ, String, ◌≡◌, ◌≢◌, Bool, true, false, Option, none, some, refl, ◌⊎◌, inl, inr, eqb, ◌==◌,
  if◌then◌else◌,
}
use enterprise_middleware_go.Clock.{Time}

abbrev pub Uuid : Type 0
Uuid = ℕ

-- google/uuid: String and Parse, which reads back what String wrote.
pub record UuidLib : Type 0 where
  pub to_string : Uuid → String
  pub parse : String → Option Uuid
  pub parse-to_string : (u : Uuid) → parse (to_string u) ≡ some u

-- pgtype.UUID and pgtype.Timestamptz; a NULL is not `valid`.
pub record PgUuid : Type 0 where
  pub bytes : Uuid
  pub valid : Bool

pub record Timestamptz : Type 0 where
  pub time : Time
  pub valid : Bool

-- pgUUID, pgTime
abbrev pub pg_uuid : Uuid → PgUuid
pg_uuid id = record { bytes = id; valid = true }

abbrev pub pg_time : Time → Timestamptz
pg_time t = record { time = t; valid = true }

abbrev pub null_time : Timestamptz
null_time = record { time = 0; valid = false }

pub record User : Type 0 where
  pub id : PgUuid
  pub email : String
  pub username : String
  pub password_hash : String
  pub created_at : Timestamptz
  pub updated_at : Timestamptz

pub record Session : Type 0 where
  pub id : PgUuid
  pub user_id : PgUuid
  pub token_hash : String
  pub expires_at : Timestamptz
  pub created_at : Timestamptz
  pub revoked_at : Timestamptz

-- db.User{} and db.Session{}
abbrev pub zero_user : User
zero_user = record {
  id = record { bytes = 0; valid = false };
  email = "";
  username = "";
  password_hash = "";
  created_at = null_time;
  updated_at = null_time;
}

abbrev pub zero_session : Session
zero_session = record {
  id = record { bytes = 0; valid = false };
  user_id = record { bytes = 0; valid = false };
  token_hash = "";
  expires_at = null_time;
  created_at = null_time;
  revoked_at = null_time;
}

-- The sentinel errors of the in-memory repository, and an error of a database driver.
pub data RepoError : Type 0 where
  err_not_found err_email_exists err_session_not_found : RepoError
  driver_error : String → RepoError

-- A Go result pair (value, error) whose value is used only where the error is nil.
pub data RepoResult (A : Type 0) : Type 0 where
  ok : A → RepoResult A
  err : RepoError → RepoResult A

pub RepoResult-cases :
    {A : Type 0} (o : RepoResult A) → ((e : RepoError) × (o ≡ err e)) ⊎ ((a : A) × (o ≡ ok a))
RepoResult-cases (ok a) = inr (a, refl)
RepoResult-cases (err e) = inl (e, refl)

-- The operations of a repository with state R. The time that RevokeSession reads is an argument.
pub record Repository (R : Type 0) : Type 0 where
  pub create_user : R → User → RepoResult User × R
  pub get_user_by_email : R → String → RepoResult User
  pub get_user_by_id : R → Uuid → RepoResult User
  pub create_session : R → Session → RepoResult Session × R
  pub revoke_session : R → Time → Uuid → RepoResult (Unit {0}) × R
  pub get_session_by_token_hash : R → String → RepoResult Session

-- What a revocation at time `now` makes of a lookup.
abbrev pub revoke_found : Time → Uuid → RepoResult Session → RepoResult Session
revoke_found now id (ok s) =
    ok (if eqb s.id.bytes id then record s { revoked_at = pg_time now } else s)
revoke_found now id (err e) = err e

module _ {R : Type 0} (repo : Repository R) where
  -- `r'` is `r` with the user `v` added for `u`; `same` is the repository's equality of e-mails.
  pub record UserCreated (same : String → String → Bool) (u v : User) (r r' : R) : Type 0 where
    pub same_id : v.id ≡ u.id
    pub same_email : v.email ≡ u.email
    pub same_username : v.username ≡ u.username
    pub same_hash : v.password_hash ≡ u.password_hash
    pub by_email :
        (e : String)
        → repo.get_user_by_email r' e
          ≡ (if same u.email e then ok v else repo.get_user_by_email r e)
    pub by_id :
        (i : Uuid)
        → repo.get_user_by_id r' i ≡ (if eqb u.id.bytes i then ok v else repo.get_user_by_id r i)
    pub same_sessions :
        (h : String) → repo.get_session_by_token_hash r' h ≡ repo.get_session_by_token_hash r h

  -- `r'` is `r` with the session `w` added for `s`.
  pub record SessionCreated (s w : Session) (r r' : R) : Type 0 where
    pub same_id : w.id ≡ s.id
    pub same_user : w.user_id ≡ s.user_id
    pub same_expiry : w.expires_at ≡ s.expires_at
    pub not_revoked : s.revoked_at.valid ≡ false → w.revoked_at.valid ≡ false
    pub by_hash :
        (h : String)
        → repo.get_session_by_token_hash r' h
          ≡ (if s.token_hash == h then ok w else repo.get_session_by_token_hash r h)
    pub same_emails : (e : String) → repo.get_user_by_email r' e ≡ repo.get_user_by_email r e
    pub same_ids : (i : Uuid) → repo.get_user_by_id r' i ≡ repo.get_user_by_id r i

  -- `r'` is `r` with the session of that id revoked.
  pub record SessionRevoked (now : Time) (id : Uuid) (r r' : R) : Type 0 where
    pub by_hash :
        (h : String)
        → repo.get_session_by_token_hash r' h
          ≡ revoke_found now id (repo.get_session_by_token_hash r h)
    pub same_emails : (e : String) → repo.get_user_by_email r' e ≡ repo.get_user_by_email r e
    pub same_ids : (i : Uuid) → repo.get_user_by_id r' i ≡ repo.get_user_by_id r i

  -- What the service relies on: an invariant of the states, and what a write does that succeeded
  -- or failed.
  pub record IsRepository : Type 1 where
    pub IsConsistent : R → Type 0
    pub IsFreshUser : R → Uuid → Type 0
    pub IsFreshSession : R → Uuid → Type 0
    -- The equality of e-mails: of texts, or up to their case.
    pub same_email : String → String → Bool
    pub same_email-refl : (e : String) → same_email e e ≡ true
    -- A user is stored under the id that the row has, and found by e-mail only if found by id.
    pub by_id-id :
        (r : R) (i : Uuid) (u : User)
        → IsConsistent r
        → repo.get_user_by_id r i ≡ ok u
        → u.id.bytes ≡ i
    pub by_email-by_id :
        (r : R) (e : String) (u : User)
        → IsConsistent r
        → repo.get_user_by_email r e ≡ ok u
        → (repo.get_user_by_id r u.id.bytes ≡ ok u) × (same_email u.email e ≡ true)
    pub create_user_lem :
        (r r' : R) (u v : User)
        → IsConsistent r
        → IsFreshUser r u.id.bytes
        → repo.create_user r u ≡ (ok v, r')
        → IsConsistent r' × UserCreated same_email u v r r'
    pub create_user_err :
        (r r' : R) (u : User) (e : RepoError) → repo.create_user r u ≡ (err e, r') → r' ≡ r
    pub create_session_lem :
        (r r' : R) (s w : Session)
        → IsConsistent r
        → IsFreshSession r s.id.bytes
        → repo.create_session r s ≡ (ok w, r')
        → IsConsistent r' × SessionCreated s w r r'
    pub create_session_err :
        (r r' : R) (s : Session) (e : RepoError) → repo.create_session r s ≡ (err e, r') → r' ≡ r
    pub revoke_session_lem :
        (r r' : R) (t : Time) (id : Uuid)
        → IsConsistent r
        → repo.revoke_session r t id ≡ (ok tt, r')
        → IsConsistent r' × SessionRevoked t id r r'
    pub revoke_session_err :
        (r r' : R) (t : Time) (id : Uuid) (e : RepoError)
        → repo.revoke_session r t id ≡ (err e, r')
        → r' ≡ r
    -- A revocation makes no id fresh or stale.
    pub fresh-revoke :
        (r r' : R) (t : Time) (id i : Uuid)
        → IsConsistent r
        → repo.revoke_session r t id ≡ (ok tt, r')
        → IsFreshSession r i
        → IsFreshSession r' i
