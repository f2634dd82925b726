-- ===== src/Repo/Postgres/Laws.antt =====
-- What CreateUser of the Postgres repository does to its lookups.
use enterprise_middleware_go.Prelude.{
  String, ◌≡◌, sym, refl, Bool, true, false, List, [], ◌∷◌, ◌++◌, none, some, any, eqb, arith,
  if◌then◌else◌, inl, inr, Bool-cases, Option-cases,
}
use mathlib.Core.Path.{subst}
use enterprise_middleware_go.Repo.{
  Uuid, User, RepoResult, ok, err, UserCreated, pg_time, driver_error,
}
use enterprise_middleware_go.Repo.Queries.{
  Citext, Tables, find, query_row, id_is, session_id_is, hash_is, email_is, user_violation,
  session_violation, CreateUserParams, CreateSessionParams,
}
use enterprise_middleware_go.Repo.Queries
use enterprise_middleware_go.Repo.Queries.Rows.{find-append, find-any}
use enterprise_middleware_go.Repo.Postgres.{
  postgres, create_user, get_user_by_email, get_user_by_id, get_session_by_token_hash,
}

-- A failed insertion changes nothing.
abbrev pub Inserted : {A : Type 0} → (A → Tables → Type 0) → Tables → RepoResult A × Tables → Type 0
Inserted R t (ok v, t') = R v t'
Inserted R t (err e, t') = t' ≡ t

pub found :
    {A : Type 0} (p : A → Bool) (xs : List A) (x : A)
    → (p x ≡ true → any p xs ≡ false)
    → query_row (find p (xs ++ x ∷ [])) ≡ (if p x then ok x else query_row (find p xs))
unfolding query_row
found p xs x fresh = elim (Bool-cases (p x)) [
  | inl h ↦ ground (arith, find-append p xs x, find-any p xs (fresh h))
  | inr h ↦ elim (Option-cases (find p xs)) [
    | inl e ↦ ground (arith, find-append p xs x)
    | inr (y, e) ↦ ground (arith, find-append p xs x)
  ]
]

no_such_id :
    (us : List User) (a i : Uuid)
    → any (id_is a) us ≡ false
    → eqb a i ≡ true
    → any (id_is i) us ≡ false
no_such_id us a i h same = let e : a ≡ i = ground arith in subst (λ j. any (id_is j) us ≡ false) e h

module _ (C : Citext) where
  -- A spelling of an e-mail that no row has.
  no_such_email :
      (us : List User) (a e : String)
      → any (email_is C a) us ≡ false
      → C.same a e ≡ true
      → any (email_is C e) us ≡ false
  no_such_email [] a e _ _ = refl
  no_such_email (u ∷ us) a e h same = elim (Bool-cases (C.same u.email e)) [
    | inl found ↦
        let other : C.same u.email a ≡ true =
          C.transitive u.email e a found (C.symmetric a e same) in
        absurd (ground arith)
    | inr missing ↦ ground (arith, no_such_email us a e)
  ]

  abbrev params : User → CreateUserParams
  params u = record {
    id = u.id;
    email = u.email;
    username = u.username;
    password_hash = u.password_hash;
  }

  checked_user :
      (t : Tables) (arg : CreateUserParams)
      → user_violation C t arg ≡ none
      → (any (id_is arg.id.bytes) t.users ≡ false) × (any (email_is C arg.email) t.users ≡ false)
  unfolding user_violation
  checked_user t arg h = elim (Bool-cases (any (id_is arg.id.bytes) t.users)) [
    | inl x ↦ absurd (ground arith)
    | inr x ↦ elim (Bool-cases (any (email_is C arg.email) t.users)) [
      | inl y ↦ absurd (ground arith)
      | inr y ↦ (x, y)
    ]
  ]

  abbrev user_row : Tables → User → User
  user_row t u = record u { created_at = pg_time t.now; updated_at = pg_time t.now }

  added :
      (t : Tables) (u : User)
      → user_violation C t (params u) ≡ none
      → create_user C t u ≡ (ok (user_row t u), record t { users = t.users ++ user_row t u ∷ [] })
  unfolding create_user Queries.create_user
  added t u e = rw (e, create_user, Queries.create_user) refl

  not_added :
      (t : Tables) (u : User) {constraint : String}
      → user_violation C t (params u) ≡ some constraint
      → create_user C t u ≡ (err (driver_error constraint), t)
  unfolding create_user Queries.create_user
  not_added t u e = rw (e, create_user, Queries.create_user) refl

  -- CreateUser of the Postgres repository either fails and changes nothing, or adds the user: any
  -- spelling of the e-mail finds the new row, as does the id, and every other lookup is as before.
  pub create_user-Inserted :
      (t : Tables) (u : User)
      → Inserted (λ v. UserCreated (postgres C) C.same u v t) t (create_user C t u)
  unfolding create_user Queries.create_user get_user_by_email get_user_by_id
      Queries.get_user_by_email Queries.get_user_by_id get_session_by_token_hash
  create_user-Inserted t u = elim (Option-cases (user_violation C t (params u))) [
    | inr (constraint, e) ↦
        subst (Inserted (λ v. UserCreated (postgres C) C.same u v t) t) (sym (not_added t u e)) refl
    | inl e ↦
        let (id_free, email_free) = checked_user t (params u) e in
        subst (Inserted (λ v. UserCreated (postgres C) C.same u v t) t) (sym (added t u e))
          (record {
            same_id = refl;
            same_email = refl;
            same_username = refl;
            same_hash = refl;
            by_email = λ e.
                found (email_is C e) t.users (user_row t u)
                  (no_such_email t.users u.email e email_free);
            by_id = λ i.
                found (id_is i) t.users (user_row t u) (no_such_id t.users u.id.bytes i id_free);
            same_sessions = λ h. refl;
          })
  ]
