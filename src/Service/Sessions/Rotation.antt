-- ===== src/Service/Sessions/Rotation.antt =====
-- Refresh tokens are good for one refresh, and for none after a logout.
use mathlib.Core.Path.{subst, subst₂}
use enterprise_middleware_go.Prelude.{
  refl, String, ◌+◌, ◌*◌, ◌≤◌, ◌≡◌, sym, ap, ◌∙◌, ◌⊎◌, inl, inr, true, false, Option, none, some,
  arith, ◌==◌, Option-cases, Bool-cases, if◌then◌else◌,
}
use enterprise_middleware_go.Clock.{hour}
use enterprise_middleware_go.Audit.{emit}
use enterprise_middleware_go.Repo.{
  Uuid, pg_uuid, pg_time, Session, RepoError, RepoResult, RepoResult-cases, ok, err, IsRepository,
  revoke_found,
}
use enterprise_middleware_go.Errors.{Code, err_internal, err_invalid_credentials}
use enterprise_middleware_go.Errors.RoundTrip.{status_from_code-ne-none}
use enterprise_middleware_go.Auth.Tokens.{generate, verify}
use enterprise_middleware_go.Service.Deps.{Deps, State, Readings}
use enterprise_middleware_go.Service.Register.{refusal}
use enterprise_middleware_go.Service.Login.{Tokens, no_tokens}
use enterprise_middleware_go.Service.Sessions.{next_session, is_dead, refresh_session}

module _ (D : Deps) (s : State D) (r : Readings) (token : String) where
  abbrev pub outcome : Tokens D
  outcome = refresh_session D s r token

  abbrev pub found : RepoResult Session
  found = D.repo.get_session_by_token_hash s.store (D.sha256_hex token)

  abbrev pub revoked : Session → RepoResult (Unit {0}) × D.RepoState
  revoked session = D.repo.revoke_session s.store r.revoke_now session.id.bytes

  abbrev pub next_tokens : String → Option (String × String)
  next_tokens user_id = generate D.jwt D.token_mng r.access_now r.refresh_now user_id

  abbrev pub stored : Session → String → RepoResult Session × D.RepoState
  stored session refresh =
      D.repo.create_session (revoked session).1 (next_session D r session refresh)

  -- The answer and the repository that RefreshSession leaves for a token of `user_id`.
  abbrev pub rotated : Session → String → (String × String × Option D.grpc.Error) × D.RepoState
  rotated session user_id = elim (revoked session).0 [
    | err _ ↦ (("", "", refusal D err_internal), (revoked session).1)
    | ok _ ↦ elim (next_tokens user_id) [
      | none ↦ (("", "", refusal D err_internal), (revoked session).1)
      | some (access, refresh) ↦ (
        elim (stored session refresh).0 [
          | err _ ↦ ("", "", refusal D err_internal)
          | ok _ ↦ (access, refresh, none)
        ],
        (stored session refresh).1,
      )
    ]
  ]

  abbrev pub expected : (String × String × Option D.grpc.Error) × D.RepoState
  expected = elim (verify D.jwt D.token_mng r.verify_now token) [
    | none ↦ (("", "", refusal D err_invalid_credentials), s.store)
    | some user_id ↦ elim found [
      | err _ ↦ (("", "", refusal D err_invalid_credentials), s.store)
      | ok session ↦
          if is_dead D r session
          then (("", "", refusal D err_invalid_credentials), s.store)
          else rotated session user_id
    ]
  ]

  pub refresh_session-expected :
      ◌≡◌ {A = (String × String × Option D.grpc.Error) × D.RepoState}
        (outcome.0, outcome.1.store)
        expected
  unfolding refresh_session
  refresh_session-expected = ground arith

  -- A token whose session is unknown, revoked or expired is refused with invalid_credentials, and
  -- so is a token that does not verify; the state does not change.
  pub refresh_session-refused :
      (verify D.jwt D.token_mng r.verify_now token ≡ none)
        ⊎ (((e : RepoError) × (found ≡ err e))
            ⊎ ((session : Session) × (found ≡ ok session) × (is_dead D r session ≡ true)))
      → outcome ≡ no_tokens D s err_invalid_credentials
  unfolding refresh_session
  refresh_session-refused (inl bad) = ground arith
  refresh_session-refused (inr (inl (e, missing))) =
      elim (Option-cases (verify D.jwt D.token_mng r.verify_now token)) [
        | inl bad ↦ ground arith
        | inr (u, good) ↦ ground arith
      ]
  refresh_session-refused (inr (inr (session, at, dead))) =
      elim (Option-cases (verify D.jwt D.token_mng r.verify_now token)) [
        | inl bad ↦ ground arith
        | inr (u, good) ↦ ground arith
      ]

  -- What a RefreshSession that went through leaves beside the repository: the audit event.
  abbrev pub reported : Session → State D
  reported session = record s {
    store = outcome.1.store;
    sinks =
        (emit D.audit r.stamp (D.uuids.to_string session.user_id.bytes) "user.session.refreshed"
          r.correlation_id none s.sinks).1;
  }

  refreshed-reported :
      (session w : Session) (user_id access refresh : String)
      → verify D.jwt D.token_mng r.verify_now token ≡ some user_id
      → found ≡ ok session
      → is_dead D r session ≡ false
      → (revoked session).0 ≡ ok tt
      → next_tokens user_id ≡ some (access, refresh)
      → (stored session refresh).0 ≡ ok w
      → outcome.1 ≡ reported session
  unfolding refresh_session
  refreshed-reported session w user_id access refresh known at alive gone made did = ground arith

  -- A session that is not dead is not revoked and not expired.
  alive_session :
      (session : Session)
      → is_dead D r session ≡ false
      → (session.revoked_at.valid ≡ false) × (r.expiry_now ≤ session.expires_at.time)
  unfolding is_dead
  alive_session session h = (ground arith, ground arith)

  module _ (laws : IsRepository D.repo) where
    -- The repository `st` after a rotation of `session` for the token `refresh`.
    pub record Rotated (session w : Session) (refresh : String) (st : D.RepoState) : Type 0 where
      pub new_id : w.id ≡ pg_uuid r.id
      pub same_user : w.user_id ≡ session.user_id
      pub seven_days : w.expires_at ≡ pg_time (r.now + 7 * (24 * hour))
      pub live : w.revoked_at.valid ≡ false
      -- The new token leads to the new session, and the old session is revoked.
      pub by_hash :
          (h : String)
          → D.repo.get_session_by_token_hash st h ≡ (
              if D.sha256_hex refresh == h
              then ok w
              else revoke_found r.revoke_now session.id.bytes
                  (D.repo.get_session_by_token_hash s.store h))
      -- The users are found as before.
      pub same_emails :
          (e : String) → D.repo.get_user_by_email st e ≡ D.repo.get_user_by_email s.store e
      pub same_ids : (i : Uuid) → D.repo.get_user_by_id st i ≡ D.repo.get_user_by_id s.store i

    stored-Rotated :
        (session w : Session) (refresh : String)
        → laws.IsConsistent s.store
        → laws.IsFreshSession s.store r.id
        → (revoked session).0 ≡ ok tt
        → (stored session refresh).0 ≡ ok w
        → laws.IsConsistent (stored session refresh).1
          × Rotated session w refresh (stored session refresh).1
    unfolding next_session
    stored-Rotated session w refresh good fresh gone did =
        let (good₁, off) =
          laws.revoke_session_lem s.store (revoked session).1 r.revoke_now session.id.bytes good
            (ground arith) in
        let fresh₁ =
          laws.fresh-revoke s.store (revoked session).1 r.revoke_now session.id.bytes r.id good
            (ground arith) fresh in
        let (good₂, added) =
          laws.create_session_lem (revoked session).1 (stored session refresh).1
            (next_session D r session refresh) w good₁ fresh₁ (ground arith) in
        (
          good₂,
          record {
            new_id = added.same_id;
            same_user = added.same_user;
            seven_days = added.same_expiry;
            live = added.not_revoked refl;
            by_hash = λ h. added.by_hash h ∙ rw (off.by_hash h);
            same_emails = λ e. added.same_emails e ∙ off.same_emails e;
            same_ids = λ i. added.same_ids i ∙ off.same_ids i;
          },
        )

    accepted :
        {access refresh : String}
        → outcome.0 ≡ (access, refresh, none)
        → (code : Code) → outcome.0.2 ≡ refusal D code
        → ⊥
    accepted h code e =
        status_from_code-ne-none D.grpc code ""
          (sym e ∙ ap (λ (o : String × String × Option D.grpc.Error). o.2) h)

    alive-Rotated :
        (access refresh user_id : String) (session : Session)
        → laws.IsConsistent s.store
        → laws.IsFreshSession s.store r.id
        → outcome.0 ≡ (access, refresh, none)
        → verify D.jwt D.token_mng r.verify_now token ≡ some user_id
        → found ≡ ok session
        → (w : Session) × (is_dead D r session ≡ false)
          × (next_tokens user_id ≡ some (access, refresh))
          × (outcome.1 ≡ reported session)
          × laws.IsConsistent outcome.1.store
          × Rotated session w refresh outcome.1.store
    alive-Rotated access refresh user_id session good fresh h known at =
        elim (Bool-cases (is_dead D r session)) [
          | inl dead ↦
              absurd (accepted h err_invalid_credentials (ground (arith, refresh_session-expected)))
          | inr alive ↦ elim (RepoResult-cases (revoked session).0) [
            | inl (e, kept) ↦
                absurd (accepted h err_internal (ground (arith, refresh_session-expected)))
            | inr (tt_, gone) ↦ elim (Option-cases (next_tokens user_id)) [
              | inl unsigned ↦
                  absurd (accepted h err_internal (ground (arith, refresh_session-expected)))
              | inr ((a, f), made) ↦ elim (RepoResult-cases (stored session f).0) [
                | inl (e, failed) ↦
                    absurd (accepted h err_internal (ground (arith, refresh_session-expected)))
                | inr (w, did) ↦
                    let (good', turned) = stored-Rotated session w f good fresh gone did in
                    let same : f ≡ refresh = ground (arith, refresh_session-expected) in
                    let after : (stored session f).1 ≡ outcome.1.store =
                      ground (arith, refresh_session-expected) in
                    (
                      w,
                      alive,
                      ground (arith, refresh_session-expected),
                      refreshed-reported session w user_id a f known at alive gone made did,
                      subst laws.IsConsistent after good',
                      subst₂ (Rotated session w) same after turned,
                    )
              ]
            ]
          ]
        ]

    -- A RefreshSession that answers with tokens verified the old token, found its session neither
    -- revoked nor expired, made the tokens for the user that the old one names, and left a
    -- repository in which that session is revoked and the new refresh token leads to a session of
    -- the same user that is not revoked and expires seven days after the time of the call; all
    -- other sessions and all users are found as before. Beside the repository it changed only the
    -- audit sinks, by the event of the refresh. The repository satisfies its laws and is
    -- consistent, and the new id is not in use in it.
    pub refresh_session-Rotated :
        (access refresh : String)
        → laws.IsConsistent s.store
        → laws.IsFreshSession s.store r.id
        → outcome.0 ≡ (access, refresh, none)
        → (user_id : String) × (session w : Session) × (verify D.jwt D.token_mng r.verify_now token
            ≡ some user_id)
          × (found ≡ ok session)
          × (session.revoked_at.valid ≡ false)
          × (r.expiry_now ≤ session.expires_at.time)
          × (next_tokens user_id ≡ some (access, refresh))
          × (outcome.1 ≡ reported session)
          × laws.IsConsistent outcome.1.store
          × Rotated session w refresh outcome.1.store
    refresh_session-Rotated access refresh good fresh h =
        elim (Option-cases (verify D.jwt D.token_mng r.verify_now token)) [
          | inl bad ↦
              absurd (accepted h err_invalid_credentials (ground (arith, refresh_session-expected)))
          | inr (user_id, known) ↦ elim (RepoResult-cases found) [
            | inl (e, missing) ↦
                absurd
                  (accepted h err_invalid_credentials (ground (arith, refresh_session-expected)))
            | inr (session, at) ↦
                let (w, alive, made, told, good', turned) =
                  alive-Rotated access refresh user_id session good fresh h known at in
                let (live, unexpired) = alive_session session alive in
                (user_id, session, w, known, at, live, unexpired, made, told, good', turned)
          ]
        ]
