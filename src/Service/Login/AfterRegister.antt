-- ===== src/Service/Login/AfterRegister.antt =====
-- A registered user can log in.
use enterprise_middleware_go.Prelude.{ℕ, String, ◌≡◌, sym, ap, ◌∙◌, true, none, some, arith}
use enterprise_middleware_go.Repo.{PgUuid, User, Session, ok, IsRepository}
use enterprise_middleware_go.Auth.Passwords.{hash_password, compare_password}
use enterprise_middleware_go.Auth.Tokens.{generate}
use enterprise_middleware_go.Service.Deps.{Deps, State, Readings}
use enterprise_middleware_go.Service.Register.{register, new_user}
use enterprise_middleware_go.Service.Register.Outcome.{register-created}
use enterprise_middleware_go.Service.Login.{allow_login, new_session, login}
use enterprise_middleware_go.Service.Login.Outcome.{login-expected}

compare-hash_password :
    (D : Deps) (salt : ℕ) (p h : String)
    → hash_password D.bcrypt salt p ≡ some h
    → compare_password D.bcrypt h p ≡ true
unfolding hash_password compare_password
compare-hash_password D salt p h e = D.bcrypt.compare-generate salt p h e

module _ (D : Deps) (laws : IsRepository D.repo) (s₀ : State D) (r₀ : Readings)
    (email username password id again : String) (spelled : laws.same_email email again ≡ true) where
  -- The repository after a successful Register finds the user, whose hash fits the password.
  registered-found :
      laws.IsConsistent s₀.store
      → laws.IsFreshUser s₀.store r₀.id
      → (register D s₀ r₀ email username password).0 ≡ (id, none)
      → (v : User) × (D.repo.get_user_by_email
            (register D s₀ r₀ email username password).1.store
            again
          ≡ ok v)
        × (D.uuids.to_string v.id.bytes ≡ id)
        × (compare_password D.bcrypt v.password_hash password ≡ true)
  unfolding new_user
  registered-found good fresh h =
      let (hash, v, same_id, _, hashed, _, _, created) =
        register-created D s₀ r₀ email username password laws id good fresh h in
      (
        v,
        created.by_email again ∙ ground (arith, spelled),
        ap (λ (i : PgUuid). D.uuids.to_string i.bytes) created.same_id ∙ sym same_id,
        ap (λ hash'. compare_password D.bcrypt hash' password) created.same_hash
            ∙ compare-hash_password D r₀.salt password hash hashed,
      )

  -- After a successful Register, a Login with the password and an e-mail that the repository takes
  -- for the same succeeds for the new user, in any state with that repository: it returns the
  -- tokens that are made for the id that Register answered. What is asked of the rest: the rate
  -- limit lets the call in, the tokens can be signed, and the repository stores the new session of
  -- the user whom it finds by that e-mail. The repository satisfies its laws and is consistent
  -- before Register, and the new user's id is not in use in it.
  pub login-register :
      (s : State D) (r : Readings) (access refresh : String)
      → laws.IsConsistent s₀.store
      → laws.IsFreshUser s₀.store r₀.id
      → (register D s₀ r₀ email username password).0 ≡ (id, none)
      → s.store ≡ (register D s₀ r₀ email username password).1.store
      → (allow_login D s r again).0 ≡ true
      → generate D.jwt D.token_mng r.access_now r.refresh_now id ≡ some (access, refresh)
      → ((u : User)
          → D.repo.get_user_by_email s.store again ≡ ok u
          → (w : Session) × ((D.repo.create_session s.store (new_session D r u refresh)).0 ≡ ok w))
      → (login D s r again password).0 ≡ (access, refresh, none)
  login-register s r access refresh good fresh h same allowed made storable =
      let (v, known, same_id, right) = registered-found good fresh h in
      let known' : D.repo.get_user_by_email s.store again ≡ ok v = rw same known in
      let (w, did) = storable v known' in
      let made' : generate D.jwt D.token_mng r.access_now r.refresh_now
            (D.uuids.to_string v.id.bytes)
          ≡ some (access, refresh) =
        rw same_id made in
      ground (arith, login-expected D s r again password)
