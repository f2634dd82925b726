-- ===== src/Service/Sessions/Replay.antt =====
-- Presenting a refresh token again: after a refresh, and after a logout.
use mathlib.Core.Path.{subst}
use enterprise_middleware_go.Prelude.{
  String, ◌+◌, ◌*◌, ◌≡◌, ◌≢◌, refl, ◌∙◌, inr, true, false, none, arith, eq_self, eq_of_ne,
}
use enterprise_middleware_go.Repo.{
  Session, RepoResult, ok, IsRepository, revoke_found, pg_uuid, pg_time,
}
use enterprise_middleware_go.Clock.{hour}
use enterprise_middleware_go.Errors.{err_invalid_credentials}
use enterprise_middleware_go.Service.Deps.{Deps, State, Readings}
use enterprise_middleware_go.Service.Login.{no_tokens}
use enterprise_middleware_go.Service.Sessions.{is_dead, refresh_session, logout}
use enterprise_middleware_go.Service.Sessions.Later.{Later, IsSpent, Later-IsSpent}
use enterprise_middleware_go.Service.Sessions.Rotation.{
  refresh_session-refused, refresh_session-Rotated,
}

is_dead-revoked :
    (D : Deps) (r : Readings) (w : Session) → w.revoked_at.valid ≡ true → is_dead D r w ≡ true
unfolding is_dead
is_dead-revoked D r w h = ground arith

-- A revocation of a session's own id revokes it.
revoke_found_self :
    (r : Readings) (session : Session) (o : RepoResult Session)
    → o ≡ revoke_found r.revoke_now session.id.bytes (ok session)
    → o ≡ ok (record session { revoked_at = pg_time r.revoke_now })
revoke_found_self r session o h = h ∙ ground arith

module _ (D : Deps) (laws : IsRepository D.repo) where
  -- A token whose session is revoked is refused in every later repository.
  IsSpent-refused :
      (token : String) (before : D.RepoState) (t : State D) (later : Readings)
      → IsSpent D.repo laws (D.sha256_hex token) before
      → Later D.repo laws (D.sha256_hex token) before t.store
      → refresh_session D t later token ≡ no_tokens D t err_invalid_credentials
  IsSpent-refused token before t later x l =
      let y = Later-IsSpent D.repo laws (D.sha256_hex token) before t.store l x in
      refresh_session-refused D t later token
        (inr (inr (y.session, y.at_hash, is_dead-revoked D later y.session y.revoked)))

  module _ (s : State D) (r : Readings) (token : String) where
    -- After a successful RefreshSession whose new refresh token has another hash, the old token is
    -- refused with invalid_credentials at every later time, and refusing it changes nothing: in
    -- every repository that later writes lead to, of users, sessions and revocations, of which none
    -- stores a session under the hash of the old token. Before the refresh the repository, which
    -- satisfies its laws, is consistent, and no id of a new row is in use when it is stored.
    pub refresh_session_replayed :
        (access refresh : String) (t : State D) (later : Readings)
        → laws.IsConsistent s.store
        → laws.IsFreshSession s.store r.id
        → (refresh_session D s r token).0 ≡ (access, refresh, none)
        → D.sha256_hex refresh ≢ D.sha256_hex token
        → Later D.repo laws (D.sha256_hex token) (refresh_session D s r token).1.store t.store
        → refresh_session D t later token ≡ no_tokens D t err_invalid_credentials
    refresh_session_replayed access refresh t later good fresh h other l =
        let (user_id, session, w, _, at, _, _, _, _, good', turned) =
          refresh_session-Rotated D s r token laws access refresh good fresh h in
        let hit : D.repo.get_session_by_token_hash (refresh_session D s r token).1.store
              (D.sha256_hex token)
            ≡ revoke_found r.revoke_now session.id.bytes (ok session) =
          turned.by_hash (D.sha256_hex token) ∙ rw (eq_of_ne _ _ other, at) in
        IsSpent-refused token (refresh_session D s r token).1.store t later
          (record {
            consistent = good';
            session = record session { revoked_at = pg_time r.revoke_now };
            at_hash = revoke_found_self r session _ hit;
            revoked = refl;
          })
          l

    -- If the new refresh token is the old one, as two calls of Generate in one second make it, then
    -- the token leads to a new session that is not revoked and expires seven days after the time of
    -- the call, so that it is good for another refresh: the rotation took nothing away. The
    -- repository satisfies its laws and is consistent, and the new id is not in use in it.
    pub refresh_session_same_token :
        (access : String)
        → laws.IsConsistent s.store
        → laws.IsFreshSession s.store r.id
        → (refresh_session D s r token).0 ≡ (access, token, none)
        → (w : Session) × (D.repo.get_session_by_token_hash
              (refresh_session D s r token).1.store
              (D.sha256_hex token)
            ≡ ok w)
          × (w.id ≡ pg_uuid r.id)
          × (w.revoked_at.valid ≡ false)
          × (w.expires_at ≡ pg_time (r.now + 7 * (24 * hour)))
    refresh_session_same_token access good fresh h =
        let (_, _, w, _, _, _, _, _, _, _, turned) =
          refresh_session-Rotated D s r token laws access token good fresh h in
        (
          w,
          turned.by_hash (D.sha256_hex token) ∙ rw (eq_self (D.sha256_hex token)),
          turned.new_id,
          turned.live,
          turned.seven_days,
        )

    -- Logout never answers with an error. After a Logout whose revocation succeeded, RefreshSession
    -- refuses the token with invalid_credentials at every later time: in every repository that
    -- later writes lead to, of users, sessions and revocations, of which none stores a session under
    -- the hash of the token, as a Login that makes the same token again would. The repository
    -- satisfies its laws and is consistent, it finds the token's session, and no id of a new row is
    -- in use when it is stored.
    pub refresh_session-logout :
        (session : Session) (t : State D) (later : Readings)
        → laws.IsConsistent s.store
        → D.repo.get_session_by_token_hash s.store (D.sha256_hex token) ≡ ok session
        → (D.repo.revoke_session s.store r.revoke_now session.id.bytes).0 ≡ ok tt
        → Later D.repo laws (D.sha256_hex token) (logout D s r token).1.store t.store
        → ((logout D s r token).0 ≡ none)
          × (refresh_session D t later token ≡ no_tokens D t err_invalid_credentials)
    unfolding logout
    refresh_session-logout session t later good at gone l =
        let (good', off) =
          laws.revoke_session_lem s.store
            (D.repo.revoke_session s.store r.revoke_now session.id.bytes).1 r.revoke_now
            session.id.bytes good (ground arith) in
        let store : (D.repo.revoke_session s.store r.revoke_now session.id.bytes).1
            ≡ (logout D s r token).1.store =
          ground arith in
        let x : IsSpent D.repo laws (D.sha256_hex token)
            (D.repo.revoke_session s.store r.revoke_now session.id.bytes).1 =
          record {
            consistent = good';
            session = record session { revoked_at = pg_time r.revoke_now };
            at_hash = revoke_found_self r session _ (off.by_hash (D.sha256_hex token) ∙ rw at);
            revoked = refl;
          } in
        (
          ground arith,
          IsSpent-refused token (logout D s r token).1.store t later
              (subst (IsSpent D.repo laws (D.sha256_hex token)) store x) l,
        )
