-- ===== src/Service/Sessions.antt =====
-- RefreshSession and Logout.
pub mod Rotation
pub mod Later
pub mod Replay
pub mod Collision
mod Tests
use enterprise_middleware_go.Prelude.{
  ℕ, String, ◌+◌, ◌*◌, ◌||◌, Bool, true, false, Option, none, some, ltb, if◌then◌else◌,
}
use enterprise_middleware_go.Clock.{hour}
use enterprise_middleware_go.Repo.{Session, RepoResult, ok, err, pg_uuid, pg_time, null_time}
use enterprise_middleware_go.Errors.{err_internal, err_invalid_credentials}
use enterprise_middleware_go.Auth.Tokens.{generate, verify}
use enterprise_middleware_go.Service.Deps.{Deps, State, Readings}
use enterprise_middleware_go.Service.Register.{audited}
use enterprise_middleware_go.Service.Login.{Tokens, no_tokens}

module _ (D : Deps) where
  -- The session of the new refresh token, for the user of the old one.
  unfoldable pub next_session : Readings → Session → String → Session
  next_session r session refresh = record {
    id = pg_uuid r.id;
    user_id = session.user_id;
    token_hash = D.sha256_hex refresh;
    expires_at = pg_time (r.now + 7 * (24 * hour));
    created_at = pg_time r.now;
    revoked_at = null_time;
  }

  -- session.RevokedAt.Valid || session.ExpiresAt.Time.Before(time.Now())
  unfoldable pub is_dead : Readings → Session → Bool
  is_dead r session = session.revoked_at.valid || ltb session.expires_at.time r.expiry_now

  store_next : State D → Readings → Session → String → String → Tokens D
  unfolding next_session audited
  store_next s r session access refresh =
      let (created, store) = D.repo.create_session s.store (next_session r session refresh) in
      let s' = record s { store = store } in
      elim created [
        | err _ ↦ no_tokens D s' err_internal
        | ok _ ↦ (
          (access, refresh, none),
          audited D s' r (D.uuids.to_string session.user_id.bytes) "user.session.refreshed" none,
        )
      ]

  issue_next : State D → Readings → Session → String → Tokens D
  unfolding store_next
  issue_next s r session user_id =
      elim (generate D.jwt D.token_mng r.access_now r.refresh_now user_id) [
        | none ↦ no_tokens D s err_internal
        | some (access, refresh) ↦ store_next s r session access refresh
      ]

  rotate : State D → Readings → Session → String → Tokens D
  unfolding issue_next
  rotate s r session user_id =
      let (revoked, store) = D.repo.revoke_session s.store r.revoke_now session.id.bytes in
      let s' = record s { store = store } in
      elim revoked [ err _ ↦ no_tokens D s' err_internal | ok _ ↦ issue_next s' r session user_id ]

  refresh_verified : State D → Readings → String → String → Tokens D
  unfolding is_dead rotate
  refresh_verified s r refresh_token user_id =
      elim (D.repo.get_session_by_token_hash s.store (D.sha256_hex refresh_token)) [
        | err _ ↦ no_tokens D s err_invalid_credentials
        | ok session ↦
            if is_dead r session
            then no_tokens D s err_invalid_credentials
            else rotate s r session user_id
      ]

  -- RefreshSession
  unfoldable pub refresh_session : State D → Readings → String → Tokens D
  unfolding refresh_verified
  refresh_session s r refresh_token = elim (verify D.jwt D.token_mng r.verify_now refresh_token) [
    | none ↦ no_tokens D s err_invalid_credentials
    | some user_id ↦ refresh_verified s r refresh_token user_id
  ]

  -- Logout; Verify is called and its results are dropped
  unfoldable pub logout : State D → Readings → String → Option D.grpc.Error × State D
  unfolding audited
  logout s r refresh_token =
      elim (D.repo.get_session_by_token_hash s.store (D.sha256_hex refresh_token)) [
        | err _ ↦ (none, s)
        | ok sess ↦
            let (_, store) = D.repo.revoke_session s.store r.revoke_now sess.id.bytes in
            (
              none,
              audited D (record s { store = store }) r (D.uuids.to_string sess.user_id.bytes)
                  "user.logout" none,
            )
      ]
