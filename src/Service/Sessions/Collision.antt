-- ===== src/Service/Sessions/Collision.antt =====
-- RefreshSession when the repository refuses the new session: over Postgres, in the second in which
-- the old refresh token was made.
use enterprise_middleware_go.Prelude.{String, ◌≡◌, ap, ◌∙◌, false, some, arith}
use enterprise_middleware_go.Repo.{Session, RepoError, RepoResult, ok, err, IsRepository, pg_time}
use enterprise_middleware_go.Repo.Queries.{Citext, Tables}
use enterprise_middleware_go.Repo.Postgres.{postgres, get_session_by_token_hash}
use enterprise_middleware_go.Repo.Postgres.Sessions.{
  create_session-taken, revoke_session-SessionRevoked,
}
use enterprise_middleware_go.Repo.Postgres.Instance.{postgres-IsRepository}
use enterprise_middleware_go.Errors.{err_internal}
use enterprise_middleware_go.Auth.Tokens.{generate, verify}
use enterprise_middleware_go.Service.Deps.{Deps, State, Readings}
use enterprise_middleware_go.Service.Register.{refusal}
use enterprise_middleware_go.Service.Sessions.{is_dead, refresh_session, next_session}
use enterprise_middleware_go.Service.Sessions.Rotation.{
  outcome, found, revoked, stored, next_tokens, refresh_session-expected,
}

module _ (D : Deps) (laws : IsRepository D.repo) (s : State D) (r : Readings) (token : String) where
  -- The old session is revoked when CreateSession fails, and stays so.
  unstored :
      (user_id access refresh : String) (session : Session) (e : RepoError)
      → verify D.jwt D.token_mng r.verify_now token ≡ some user_id
      → found D s r token ≡ ok session
      → is_dead D r session ≡ false
      → (revoked D s r token session).0 ≡ ok tt
      → next_tokens D s r token user_id ≡ some (access, refresh)
      → (stored D s r token session refresh).0 ≡ err e
      → ((outcome D s r token).0 ≡ ("", "", refusal D err_internal))
        × ((outcome D s r token).1.store ≡ (revoked D s r token session).1)
  unstored user_id access refresh session e known at alive gone made failed =
      let kept : (stored D s r token session refresh).1 ≡ (revoked D s r token session).1 =
        laws.create_session_err (revoked D s r token session).1
          (stored D s r token session refresh).1 (next_session D r session refresh) e
          (ground (arith, failed)) in
      (
        ground (arith, refresh_session-expected D s r token),
        ground (arith, refresh_session-expected D s r token),
      )

-- The service as the command builds it, over the Postgres repository.
abbrev pub over_postgres : Citext → Deps → Deps
over_postgres C D = record D { RepoState = Tables; repo = postgres C }

module _ (C : Citext) (D : Deps) (s : State (over_postgres C D)) (r : Readings)
    (token : String) where
  abbrev P : Deps
  P = over_postgres C D

  -- Over Postgres, a RefreshSession that would make the same refresh token again, as one in the
  -- second of the login does, answers with the internal error, and leaves the session of the token
  -- revoked: the user has to log in again. The token verifies, and its session is neither revoked
  -- nor expired.
  pub refresh_session-over_postgres :
      (user_id access : String) (session : Session)
      → verify D.jwt D.token_mng r.verify_now token ≡ some user_id
      → get_session_by_token_hash s.store (D.sha256_hex token) ≡ ok session
      → is_dead D r session ≡ false
      → generate D.jwt D.token_mng r.access_now r.refresh_now user_id ≡ some (access, token)
      → ((refresh_session P s r token).0 ≡ ("", "", refusal D err_internal))
        × (get_session_by_token_hash (refresh_session P s r token).1.store (D.sha256_hex token)
            ≡ ok (record session { revoked_at = pg_time r.revoke_now }))
  unfolding is_dead next_session
  refresh_session-over_postgres user_id access session known at alive made =
      let (t, did, off) = revoke_session-SessionRevoked C s.store r.revoke_now session.id.bytes in
      let after : (revoked P s r token session).1 ≡ t =
        ap (λ (p : RepoResult (Unit {0}) × Tables). p.1) did in
      let gone : (revoked P s r token session).0 ≡ ok tt =
        ap (λ (p : RepoResult (Unit {0}) × Tables). p.0) did in
      let hit : get_session_by_token_hash (revoked P s r token session).1 (D.sha256_hex token)
          ≡ ok (record session { revoked_at = pg_time r.revoke_now }) =
        rw after (off.by_hash (D.sha256_hex token) ∙ rw at (ground arith)) in
      let (e, failed) =
        create_session-taken C (revoked P s r token session).1 (next_session P r session token) _
          hit in
      let (answer, kept) =
        unstored P (postgres-IsRepository C) s r token user_id access token session e known at alive
          gone made failed in
      (answer, ap (λ t. get_session_by_token_hash t (D.sha256_hex token)) kept ∙ hit)
