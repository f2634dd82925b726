-- ===== src/Service/Login/Outcome.antt =====
-- What Login did, read off its results, and Login after Register.
use mathlib.Core.Path.{subst, subst₂}
use enterprise_middleware_go.Prelude.{
  String, ◌+◌, ◌*◌, ◌≡◌, refl, sym, ap, ◌∙◌, ◌⊎◌, inl, inr, true, false, Option, none, some, arith,
  Option-cases, Bool-cases, if◌then◌else◌,
}
use enterprise_middleware_go.Clock.{hour}
use enterprise_middleware_go.Repo.{
  pg_uuid, pg_time, null_time, User, Session, RepoError, RepoResult, RepoResult-cases, ok, err,
  IsRepository, SessionCreated,
}
use enterprise_middleware_go.Errors.{Code, err_internal, err_invalid_credentials, err_rate_limited}
use enterprise_middleware_go.Errors.RoundTrip.{status_from_code-ne-none}
use enterprise_middleware_go.Auth.Passwords.{compare_password}
use enterprise_middleware_go.Auth.Tokens.{generate}
use enterprise_middleware_go.Service.Deps.{Deps, State, Readings}
use enterprise_middleware_go.Service.Getters.Coherence.{
  get_user_by_email-result, store-get_user_by_email,
}
use enterprise_middleware_go.Service.Register.{refusal}
use enterprise_middleware_go.Service.Login.{Tokens, allow_login, new_session, login}

module _ (D : Deps) (s : State D) (r : Readings) (email password : String) where
  -- The answer to any wrong pair of e-mail and password.
  abbrev pub bad_credentials : String × String × Option D.grpc.Error
  bad_credentials = ("", "", refusal D err_invalid_credentials)

  abbrev pub outcome : Tokens D
  outcome = login D s r email password

  abbrev pub found : RepoResult User
  found = D.repo.get_user_by_email s.store email

  abbrev pub tokens_for : User → Option (String × String)
  tokens_for u =
      generate D.jwt D.token_mng r.access_now r.refresh_now (D.uuids.to_string u.id.bytes)

  abbrev pub stored : User → String → RepoResult Session × D.RepoState
  stored u refresh = D.repo.create_session s.store (new_session D r u refresh)

  -- Everything that decides the answer of Login, with the store that it leaves.
  abbrev pub expected : (String × String × Option D.grpc.Error) × D.RepoState
  expected =
      if (allow_login D s r email).0
      then elim found [
        | err _ ↦ (bad_credentials, s.store)
        | ok u ↦
            if compare_password D.bcrypt u.password_hash password
            then elim (tokens_for u) [
              | none ↦ (("", "", refusal D err_internal), s.store)
              | some (access, refresh) ↦ (
                elim (stored u refresh).0 [
                  | err _ ↦ ("", "", refusal D err_internal)
                  | ok _ ↦ (access, refresh, none)
                ],
                (stored u refresh).1,
              )
            ]
            else (bad_credentials, s.store)
      ]
      else (("", "", refusal D err_rate_limited), s.store)

  store-allow_login : (allow_login D s r email).1.store ≡ s.store
  unfolding allow_login
  store-allow_login = refl

  pub login-expected :
      ◌≡◌ {A = (String × String × Option D.grpc.Error) × D.RepoState}
        (outcome.0, outcome.1.store)
        expected
  unfolding login
  login-expected = ground (
    arith,
    get_user_by_email-result D (allow_login D s r email).1 r.cache_now email,
    store-get_user_by_email D (allow_login D s r email).1 r.cache_now email,
    store-allow_login,
  )

  -- An unknown e-mail and a wrong password for a known one get the same answer, the refusal with
  -- invalid_credentials, and neither changes the repository. (The rate limit has let the call in.)
  pub login_bad_credentials :
      (allow_login D s r email).0 ≡ true
      → ((z : RepoError) × (found ≡ err z))
        ⊎ ((u : User) × (found ≡ ok u)
            × (compare_password D.bcrypt u.password_hash password ≡ false))
      → (outcome.0 ≡ bad_credentials) × (outcome.1.store ≡ s.store)
  login_bad_credentials allowed (inl (z, e)) = ground (arith, login-expected)
  login_bad_credentials allowed (inr (u, e, wrong)) = ground (arith, login-expected)

  module _ (laws : IsRepository D.repo) where
    -- A Login that answers with an error leaves the repository, which satisfies its laws, as it was.
    pub login_error : (e : D.grpc.Error) → outcome.0.2 ≡ some e → outcome.1.store ≡ s.store
    login_error e h = elim (RepoResult-cases found) [
      | inl (z, missing) ↦ ground (arith, login-expected)
      | inr (u, known) ↦ elim (Option-cases (tokens_for u)) [
        | inl none_made ↦ ground (arith, login-expected)
        | inr ((access, refresh), made) ↦ elim (RepoResult-cases (stored u refresh).0) [
          | inl (z, failed) ↦ ground (
            arith,
            login-expected,
            laws.create_session_err s.store (stored u refresh).1 (new_session D r u refresh) z,
          )
          | inr (w, did) ↦ ground (arith, login-expected)
        ]
      ]
    ]

    accepted :
        {access refresh : String}
        → outcome.0 ≡ (access, refresh, none)
        → (code : Code) → outcome.0.2 ≡ refusal D code
        → ⊥
    accepted h code e =
        status_from_code-ne-none D.grpc code ""
          (sym e ∙ ap (λ (o : String × String × Option D.grpc.Error). o.2) h)

    known-session :
        (access refresh : String) (u : User)
        → laws.IsConsistent s.store
        → laws.IsFreshSession s.store r.id
        → outcome.0 ≡ (access, refresh, none)
        → (allow_login D s r email).0 ≡ true
        → found ≡ ok u
        → (w : Session) × (compare_password D.bcrypt u.password_hash password ≡ true)
          × (tokens_for u ≡ some (access, refresh))
          × laws.IsConsistent outcome.1.store
          × SessionCreated D.repo (new_session D r u refresh) w s.store outcome.1.store
    known-session access refresh u good fresh h allowed known =
        elim (Bool-cases (compare_password D.bcrypt u.password_hash password)) [
          | inr wrong ↦ absurd (accepted h err_invalid_credentials (ground (arith, login-expected)))
          | inl right ↦ elim (Option-cases (tokens_for u)) [
            | inl unsigned ↦ absurd (accepted h err_internal (ground (arith, login-expected)))
            | inr ((a, f), made) ↦ elim (RepoResult-cases (stored u f).0) [
              | inl (z, failed) ↦ absurd (accepted h err_internal (ground (arith, login-expected)))
              | inr (w, did) ↦
                  let same : f ≡ refresh = ground (arith, login-expected) in
                  let at : (stored u f).1 ≡ outcome.1.store = ground (arith, login-expected) in
                  let (good', created) =
                    laws.create_session_lem s.store (stored u f).1 (new_session D r u f) w good
                      (unfold new_session in fresh) (ground arith) in
                  (
                    w,
                    right,
                    ground (arith, login-expected),
                    subst laws.IsConsistent at good',
                    subst₂ (λ g st. SessionCreated D.repo (new_session D r u g) w s.store st) same
                        at created,
                  )
            ]
          ]
        ]

    -- A Login that answers with tokens was let in by the rate limit, found a user whose hash
    -- compares equal to the password, made the tokens for that user's id, and stored a session for
    -- the hash of the refresh token: it belongs to the user, is not revoked and expires seven days
    -- after the time of the call, and the other sessions and the users are found as before. The
    -- repository satisfies its laws and is consistent, and the new id is not in use in it.
    pub login-session :
        (access refresh : String)
        → laws.IsConsistent s.store
        → laws.IsFreshSession s.store r.id
        → outcome.0 ≡ (access, refresh, none)
        → (u : User) × (w : Session) × ((allow_login D s r email).0 ≡ true)
          × (found ≡ ok u)
          × (compare_password D.bcrypt u.password_hash password ≡ true)
          × (tokens_for u ≡ some (access, refresh))
          × laws.IsConsistent outcome.1.store
          × (w.revoked_at.valid ≡ false)
          × SessionCreated D.repo
              (record {
                id = pg_uuid r.id;
                user_id = u.id;
                token_hash = D.sha256_hex refresh;
                expires_at = pg_time (r.now + 7 * (24 * hour));
                created_at = pg_time r.now;
                revoked_at = null_time;
              })
              w
              s.store
              outcome.1.store
    unfolding new_session
    login-session access refresh good fresh h = elim (Bool-cases (allow_login D s r email).0) [
      | inr late ↦ absurd (accepted h err_rate_limited (ground (arith, login-expected)))
      | inl allowed ↦ elim (RepoResult-cases found) [
        | inl (z, missing) ↦
            absurd (accepted h err_invalid_credentials (ground (arith, login-expected)))
        | inr (u, known) ↦
            let (w, right, made, good', created) =
              known-session access refresh u good fresh h allowed known in
            (u, w, allowed, known, right, made, good', created.not_revoked refl, created)
      ]
    ]
