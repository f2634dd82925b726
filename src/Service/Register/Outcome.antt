-- ===== src/Service/Register/Outcome.antt =====
-- What Register did, read off its results.
use enterprise_middleware_go.Prelude.{
  String, ◌≡◌, ◌≢◌, sym, ap, ◌∙◌, inl, inr, Option, none, some, arith, Option-cases,
}
use mathlib.Core.Path.{subst}
use enterprise_middleware_go.Repo.{
  pg_uuid, pg_time, User, RepoError, RepoResult, RepoResult-cases, ok, err, IsRepository,
  UserCreated,
}
use enterprise_middleware_go.Errors.{err_internal, err_email_in_use}
use enterprise_middleware_go.Errors.RoundTrip.{status_from_code-ne-none}
use enterprise_middleware_go.Auth.Passwords.{hash_password}
use enterprise_middleware_go.Service.Deps.{Deps, State, Readings}
use enterprise_middleware_go.Service.Getters.Coherence.{
  get_user_by_email-result, store-get_user_by_email,
}
use enterprise_middleware_go.Service.Register.{refusal, register, new_user, check_and_create}

module _ (D : Deps) (s : State D) (r : Readings) (email username : String) where
  abbrev found : RepoResult User
  found = D.repo.get_user_by_email s.store email

  -- The repository after CreateUser, and its answer.
  abbrev stored : String → RepoResult User × D.RepoState
  stored hash = D.repo.create_user s.store (new_user D r email username hash)

  -- The four ways through Register after validation and hashing, by what the repository answers.
  check_and_create-taken :
      (u : User) (hash : String)
      → found ≡ ok u
      → ((check_and_create D s r email username hash).0 ≡ ("", refusal D err_email_in_use))
        × ((check_and_create D s r email username hash).1.store ≡ s.store)
        × ((check_and_create D s r email username hash).1.sinks ≡ s.sinks)
  unfolding check_and_create
  check_and_create-taken u hash e = ground (
    arith,
    get_user_by_email-result D s r.cache_now email,
    store-get_user_by_email D s r.cache_now email,
  )

  check_and_create-free :
      (z : RepoError) (hash : String)
      → found ≡ err z
      → ((check_and_create D s r email username hash).1.store ≡ (stored hash).1)
        × ((check_and_create D s r email username hash).0 ≡ elim (stored hash).0 [
          | err _ ↦ ("", refusal D err_internal)
          | ok _ ↦ (D.uuids.to_string r.id, none)
        ])
  unfolding check_and_create
  check_and_create-free z hash e = ground (
    arith,
    get_user_by_email-result D s r.cache_now email,
    store-get_user_by_email D s r.cache_now email,
  )

  check_and_create-failed :
      (z z' : RepoError) (hash : String)
      → found ≡ err z
      → (stored hash).0 ≡ err z'
      → (check_and_create D s r email username hash).1.sinks ≡ s.sinks
  unfolding check_and_create
  check_and_create-failed z z' hash e f = ground (
    arith,
    get_user_by_email-result D s r.cache_now email,
    store-get_user_by_email D s r.cache_now email,
  )

  module _ (password : String) where
    abbrev outcome : (String × Option D.grpc.Error) × State D
    outcome = register D s r email username password

    -- Register stops before it looks at the repository, or goes on with a hash of the password.
    data Admission : Type 0 where
      refused : (e : D.grpc.Error) → outcome ≡ (("", some e), s) → Admission
      admitted :
          (hash : String)
          → D.validate_register "" email username password ≡ none
          → hash_password D.bcrypt r.salt password ≡ some hash
          → outcome ≡ check_and_create D s r email username hash
          → Admission

    admission : Admission
    unfolding register
    admission = elim (Option-cases (D.validate_register "" email username password)) [
      | inr (e, h) ↦ refused e (ground arith)
      | inl h ↦ elim (Option-cases (hash_password D.bcrypt r.salt password)) [
        | inr (hash, k) ↦ admitted hash h k (ground arith)
        | inl k ↦ elim (Option-cases (refusal D err_internal)) [
          | inl z ↦ absurd (status_from_code-ne-none D.grpc err_internal "" z)
          | inr (e, z) ↦ refused e (ground arith)
        ]
      ]
    ]

    -- What decides the answer of Register.
    pub register-expected : outcome.0 ≡ elim (D.validate_register "" email username password) [
      | some e ↦ ("", some e)
      | none ↦ elim (hash_password D.bcrypt r.salt password) [
        | none ↦ ("", refusal D err_internal)
        | some hash ↦ elim found [
          | ok _ ↦ ("", refusal D err_email_in_use)
          | err _ ↦ elim (stored hash).0 [
            | err _ ↦ ("", refusal D err_internal)
            | ok _ ↦ (D.uuids.to_string r.id, none)
          ]
        ]
      ]
    ]
    unfolding register
    register-expected = elim (Option-cases (hash_password D.bcrypt r.salt password)) [
      | inl unhashed ↦ ground arith
      | inr (hash, hashed) ↦ elim (RepoResult-cases found) [
        | inl (z, free) ↦ ground (arith, check_and_create-free z hash free)
        | inr (u, taken) ↦ ground (arith, check_and_create-taken u hash taken)
      ]
    ]

    module _ (laws : IsRepository D.repo) where
      -- A successful Register answers with the text of the new id. The input was valid, the
      -- password was hashed, the e-mail was free, and the repository now has, beside what it had,
      -- the user with the new id, that e-mail, name and hash. The repository satisfies its laws and is
      -- consistent, and the new id is not in use in it.
      pub register-created :
          (id : String)
          → laws.IsConsistent s.store
          → laws.IsFreshUser s.store r.id
          → outcome.0 ≡ (id, none)
          → (hash : String) × (v : User) × (id ≡ D.uuids.to_string r.id)
            × (D.validate_register "" email username password ≡ none)
            × (hash_password D.bcrypt r.salt password ≡ some hash)
            × ((u : User) → found ≢ ok u)
            × laws.IsConsistent outcome.1.store
            × UserCreated D.repo laws.same_email
                (record {
                  id = pg_uuid r.id;
                  email = email;
                  username = username;
                  password_hash = hash;
                  created_at = pg_time r.now;
                  updated_at = pg_time r.now;
                })
                v
                s.store
                outcome.1.store
      unfolding new_user
      register-created id ok_store fresh h = elim admission [
        | refused e x ↦ absurd (ground (arith, x))
        | admitted hash valid hashed x ↦ elim (RepoResult-cases found) [
          | inr (u, taken) ↦
              let (result, _, _) = check_and_create-taken u hash taken in
              absurd (ground (arith, status_from_code-ne-none D.grpc err_email_in_use ""))
          | inl (z, free) ↦
              let (same_store, result) = check_and_create-free z hash free in
              elim (RepoResult-cases (stored hash).0) [
                | inl (z', failed) ↦
                    absurd (ground (arith, status_from_code-ne-none D.grpc err_internal ""))
                | inr (v, made) ↦
                    let (good, created) =
                      laws.create_user_lem s.store (stored hash).1
                        (new_user D r email username hash) v ok_store (unfold new_user in fresh)
                        (ground arith) in
                    let same : (stored hash).1 ≡ outcome.1.store = sym (
                      ap (λ (o : (String × Option D.grpc.Error) × State D). o.1.store) x
                      ∙ same_store) in
                    (
                      hash,
                      v,
                      ground arith,
                      valid,
                      hashed,
                      (λ u e. cc),
                      subst laws.IsConsistent same good,
                      subst
                          (UserCreated D.repo laws.same_email (new_user D r email username hash) v
                            s.store)
                          same created,
                    )
              ]
        ]
      ]

      -- A Register that answers with an error leaves the repository, which satisfies its laws, and
      -- the audit sinks as they were.
      pub register_error :
          (e : D.grpc.Error)
          → outcome.0.1 ≡ some e
          → (outcome.1.store ≡ s.store) × (outcome.1.sinks ≡ s.sinks)
      register_error e h = elim admission [
        | refused _ x ↦ ground (arith, x)
        | admitted hash valid hashed x ↦ elim (RepoResult-cases found) [
          | inr (u, taken) ↦ ground (arith, x, check_and_create-taken u hash taken)
          | inl (z, free) ↦ elim (RepoResult-cases (stored hash).0) [
            | inl (z', failed) ↦ ground (
              arith,
              x,
              check_and_create-free z hash free,
              check_and_create-failed z z' hash free failed,
              laws.create_user_err s.store (stored hash).1 (new_user D r email username hash) z',
            )
            | inr (v, made) ↦ absurd (ground (arith, x, check_and_create-free z hash free))
          ]
        ]
      ]
