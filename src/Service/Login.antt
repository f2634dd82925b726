-- ===== src/Service/Login.antt =====
-- Login.
pub mod Outcome
pub mod AfterRegister
use enterprise_middleware_go.Prelude.{
  ℕ, String, ◌+◌, ◌*◌, Bool, true, false, Option, none, some, if◌then◌else◌,
}
use enterprise_middleware_go.Clock.{Duration, millisecond, hour}
use enterprise_middleware_go.Repo.{User, Session, RepoResult, ok, err, pg_uuid, pg_time, null_time}
use enterprise_middleware_go.Errors.{err_internal, err_invalid_credentials, err_rate_limited}
use enterprise_middleware_go.Auth.Passwords.{compare_password}
use enterprise_middleware_go.Auth.Tokens.{generate}
use enterprise_middleware_go.Limiter.{pool_get, write_back}
use enterprise_middleware_go.Service.Deps.{Deps, State, Readings}
use enterprise_middleware_go.Service.Getters.{get_user_by_email}
use enterprise_middleware_go.Service.Register.{refusal, audited}

-- rate.Every(200 ms), burst 10
abbrev login_every : Duration
login_every = 200 * millisecond

abbrev login_burst : ℕ
login_burst = 10

module _ (D : Deps) where
  -- The access and refresh tokens, the error, and the state.
  abbrev pub Tokens : Type 0
  Tokens = (String × String × Option D.grpc.Error) × State D

  abbrev pub no_tokens : State D → String → Tokens
  no_tokens s code = (("", "", refusal D code), s)

  -- s.limiterLRU.Get(email, ...) and lim.Allow()
  unfoldable pub allow_login : State D → Readings → String → Bool × State D
  allow_login s r email =
      let (lim, pool) = pool_get D.rate s.limiters r.limiter_now email login_every login_burst in
      let (allowed, lim') = D.rate.allow lim r.allow_now in
      (allowed, record s { limiters = write_back D.rate pool email lim' })

  -- The session of a refresh token.
  unfoldable pub new_session : Readings → User → String → Session
  new_session r user refresh = record {
    id = pg_uuid r.id;
    user_id = user.id;
    token_hash = D.sha256_hex refresh;
    expires_at = pg_time (r.now + 7 * (24 * hour));
    created_at = pg_time r.now;
    revoked_at = null_time;
  }

  -- From the stored session on.
  open_session : State D → Readings → User → String → String → Tokens
  unfolding new_session audited
  open_session s r user access refresh =
      let (created, store) = D.repo.create_session s.store (new_session r user refresh) in
      let s' = record s { store = store } in
      elim created [
        | err _ ↦ no_tokens s' err_internal
        | ok _ ↦ (
          (access, refresh, none),
          audited D s' r (D.uuids.to_string user.id.bytes) "user.login.succeeded" none,
        )
      ]

  issue : State D → Readings → User → Tokens
  unfolding open_session
  issue s r user =
      elim (generate D.jwt D.token_mng r.access_now r.refresh_now
        (D.uuids.to_string user.id.bytes)) [
          | none ↦ no_tokens s err_internal
          | some (access, refresh) ↦ open_session s r user access refresh
        ]

  authenticate : State D → Readings → String → String → Tokens
  unfolding issue
  authenticate s r email password =
      let (found, s') = get_user_by_email D s r.cache_now email in
      elim found [
        | err _ ↦ no_tokens s' err_invalid_credentials
        | ok user ↦
            if compare_password D.bcrypt user.password_hash password
            then issue s' r user
            else no_tokens s' err_invalid_credentials
      ]

  -- Login
  unfoldable pub login : State D → Readings → String → String → Tokens
  unfolding allow_login authenticate
  login s r email password =
      let (allowed, s') = allow_login s r email in
      if allowed then authenticate s' r email password else no_tokens s' err_rate_limited
