-- ===== src/Repo/Postgres/Constraints.antt =====
-- Every query of the program keeps the constraints of the two tables.
use Prim.Native.String
use enterprise_middleware_go.Prelude.{
  String, ◌≡◌, ◌∙◌, refl, Bool, true, false, ◌&&◌, ◌||◌, List, [], ◌∷◌, ◌++◌, map, none, any, All,
  All-append, ltb, arith, inl, inr, Bool-cases, Option-cases,
}
use enterprise_middleware_go.Repo.{PgUuid, User, Session}
use enterprise_middleware_go.Repo.Queries.{
  Citext, Tables, id_is, session_id_is, hash_is, email_is, username_is, user_violation, filter,
  session_violation, CreateUserParams, CreateSessionParams, create_user, create_session,
  revoke_session_by_id, update_password, cleanup_old_sessions,
}
use enterprise_middleware_go.Repo.Queries.Rows.{
  Distinct, any-append, any-map, Distinct-append, Distinct-map, Distinct-filter,
}

-- A row of `users` that a session refers to.
abbrev pub HasOwner : List User → Session → Type 0
HasOwner us s = any (id_is s.user_id.bytes) us ≡ true

-- The keys are unique, e-mails and user names up to citext, and a session's user exists.
pub record IsConsistent (C : Citext) (t : Tables) : Type 0 where
  pub user_ids : Distinct (λ (u v : User). id_is v.id.bytes u) t.users
  pub emails : Distinct (λ (u v : User). email_is C v.email u) t.users
  pub usernames : Distinct (λ (u v : User). username_is C v.username u) t.users
  pub session_ids : Distinct (λ (s w : Session). session_id_is w.id.bytes s) t.sessions
  pub token_hashes : Distinct (λ (s w : Session). hash_is w.token_hash s) t.sessions
  pub owners : All (HasOwner t.users) t.sessions

module _ {A : Type 0} {P Q : A → Type 0} where
  All-imp : ((x : A) → P x → Q x) → (xs : List A) → All P xs → All Q xs
  All-imp f [] _ = tt
  All-imp f (x ∷ xs) (h, hs) = (f x h, All-imp f xs hs)

All-map :
    {A : Type 0} {P : A → Type 0} (f : A → A)
    → ((x : A) → P x → P (f x))
    → (xs : List A) → All P xs
    → All P (map f xs)
All-map f keeps [] _ = tt
All-map f keeps (x ∷ xs) (h, hs) = (keeps x h, All-map f keeps xs hs)

All-filter :
    {A : Type 0} (P : A → Type 0) (q : A → Bool) (xs : List A) → All P xs → All P (filter q xs)
unfolding filter
All-filter P q [] _ = tt
All-filter P q (x ∷ xs) (h, hs) = elim (Bool-cases (q x)) [
  | inl k ↦ rw (k, filter) (h, All-filter P q xs hs)
  | inr k ↦ rw (k, filter) (All-filter P q xs hs)
]

module _ (C : Citext) where
  user_free :
      (t : Tables) (arg : CreateUserParams)
      → user_violation C t arg ≡ none
      → (any (id_is arg.id.bytes) t.users ≡ false)
        × (any (email_is C arg.email) t.users ≡ false)
        × (any (username_is C arg.username) t.users ≡ false)
  unfolding user_violation
  user_free t arg h = elim (Bool-cases (any (id_is arg.id.bytes) t.users)) [
    | inl x ↦ absurd (ground arith)
    | inr x ↦ elim (Bool-cases (any (email_is C arg.email) t.users)) [
      | inl y ↦ absurd (ground arith)
      | inr y ↦ elim (Bool-cases (any (username_is C arg.username) t.users)) [
        | inl z ↦ absurd (ground arith)
        | inr z ↦ (x, y, z)
      ]
    ]
  ]

  with_user-IsConsistent :
      (t : Tables) (v : User)
      → IsConsistent C t
      → any (id_is v.id.bytes) t.users ≡ false
      → any (email_is C v.email) t.users ≡ false
      → any (username_is C v.username) t.users ≡ false
      → IsConsistent C (record t { users = t.users ++ v ∷ [] })
  with_user-IsConsistent t v x i e n = record {
    user_ids = Distinct-append _ t.users v x.user_ids i;
    emails = Distinct-append _ t.users v x.emails e;
    usernames = Distinct-append _ t.users v x.usernames n;
    session_ids = x.session_ids;
    token_hashes = x.token_hashes;
    owners =
        All-imp {P = HasOwner t.users}
          (λ s owned. ground (arith, any-append (id_is s.user_id.bytes) t.users v)) t.sessions
          x.owners;
  }

  pub create_user-IsConsistent :
      (t : Tables) (arg : CreateUserParams)
      → IsConsistent C t
      → IsConsistent C (create_user C t arg).1
  unfolding create_user
  create_user-IsConsistent t arg x = elim (Option-cases (user_violation C t arg)) [
    | inr (constraint, e) ↦ rw (e, create_user) x
    | inl e ↦
        let (i, m, n) = user_free t arg e in
        rw (e, create_user) (with_user-IsConsistent t _ x i m n)
  ]

  session_free :
      (t : Tables) (arg : CreateSessionParams)
      → session_violation t arg ≡ none
      → (any (session_id_is arg.id.bytes) t.sessions ≡ false)
        × (any (hash_is arg.token_hash) t.sessions ≡ false)
        × (any (id_is arg.user_id.bytes) t.users ≡ true)
  unfolding session_violation
  session_free t arg h = elim (Bool-cases (any (session_id_is arg.id.bytes) t.sessions)) [
    | inl x ↦ absurd (ground arith)
    | inr x ↦ elim (Bool-cases (any (hash_is arg.token_hash) t.sessions)) [
      | inl y ↦ absurd (ground arith)
      | inr y ↦ elim (Bool-cases (any (id_is arg.user_id.bytes) t.users)) [
        | inl z ↦ (x, y, z)
        | inr z ↦ absurd (ground arith)
      ]
    ]
  ]

  with_session-IsConsistent :
      (t : Tables) (w : Session)
      → IsConsistent C t
      → any (session_id_is w.id.bytes) t.sessions ≡ false
      → any (hash_is w.token_hash) t.sessions ≡ false
      → HasOwner t.users w
      → IsConsistent C (record t { sessions = t.sessions ++ w ∷ [] })
  with_session-IsConsistent t w x i h owned = record {
    user_ids = x.user_ids;
    emails = x.emails;
    usernames = x.usernames;
    session_ids = Distinct-append _ t.sessions w x.session_ids i;
    token_hashes = Distinct-append _ t.sessions w x.token_hashes h;
    owners = All-append (HasOwner t.users) t.sessions (w ∷ []) x.owners (owned, tt);
  }

  pub create_session-IsConsistent :
      (t : Tables) (arg : CreateSessionParams)
      → IsConsistent C t
      → IsConsistent C (create_session t arg).1
  unfolding create_session
  create_session-IsConsistent t arg x = elim (Option-cases (session_violation t arg)) [
    | inr (constraint, e) ↦ rw (e, create_session) x
    | inl e ↦
        let (i, h, o) = session_free t arg e in
        rw (e, create_session) (with_session-IsConsistent t _ x i h o)
  ]

  -- An update of users that keeps their keys.
  users_mapped :
      (t : Tables) (f : User → User)
      → ((u : User) → ((f u).id ≡ u.id) × ((f u).email ≡ u.email) × ((f u).username ≡ u.username))
      → IsConsistent C t
      → IsConsistent C (record t { users = map f t.users })
  users_mapped t f keeps x = record {
    user_ids = Distinct-map _ f (λ u v. rw ((keeps u).0, (keeps v).0) refl) t.users x.user_ids;
    emails = Distinct-map _ f (λ u v. rw ((keeps u).1, (keeps v).1) refl) t.users x.emails;
    usernames = Distinct-map _ f (λ u v. rw ((keeps u).2, (keeps v).2) refl) t.users x.usernames;
    session_ids = x.session_ids;
    token_hashes = x.token_hashes;
    owners =
        All-imp {P = HasOwner t.users}
          (λ s owned.
            any-map (id_is s.user_id.bytes) (id_is s.user_id.bytes) f (λ u. rw (keeps u).0 refl)
              t.users
            ∙ owned)
          t.sessions x.owners;
  }

  abbrev is_bad : String → Bool
  is_bad hash = ltb (String.count hash) 60 || ltb 200 (String.count hash)

  pub update_password-IsConsistent :
      (t : Tables) (id : PgUuid) (hash : String)
      → IsConsistent C t
      → IsConsistent C (update_password t id hash).1
  unfolding update_password
  update_password-IsConsistent t id hash x = elim (Bool-cases (is_bad hash)) [
    | inl bad ↦ elim (Bool-cases (id.valid && any (id_is id.bytes) t.users)) [
      | inl hit ↦ rw (bad, hit, update_password) x
      | inr miss ↦ rw (bad, miss, update_password) x
    ]
    | inr good ↦ rw (good, update_password) (users_mapped t _ (λ u. ground arith) x)
  ]

  -- An update of sessions that keeps their keys.
  pub revoke_session_by_id-IsConsistent :
      (t : Tables) (id : PgUuid) → IsConsistent C t → IsConsistent C (revoke_session_by_id t id).1
  unfolding revoke_session_by_id
  revoke_session_by_id-IsConsistent t id x = record {
    user_ids = x.user_ids;
    emails = x.emails;
    usernames = x.usernames;
    session_ids = Distinct-map _ _ (λ s w. ground arith) t.sessions x.session_ids;
    token_hashes = Distinct-map _ _ (λ s w. ground arith) t.sessions x.token_hashes;
    owners = All-map _ (λ s owned. ground arith) t.sessions x.owners;
  }

  pub cleanup_old_sessions-IsConsistent :
      (t : Tables) → IsConsistent C t → IsConsistent C (cleanup_old_sessions t).1
  unfolding cleanup_old_sessions
  cleanup_old_sessions-IsConsistent t x = record {
    user_ids = x.user_ids;
    emails = x.emails;
    usernames = x.usernames;
    session_ids = Distinct-filter _ _ t.sessions x.session_ids;
    token_hashes = Distinct-filter _ _ t.sessions x.token_hashes;
    owners = All-filter (HasOwner t.users) _ t.sessions x.owners;
  }
