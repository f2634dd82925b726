-- ===== src/Repo/Postgres/Instance.antt =====
-- The Postgres repository satisfies the laws that the service relies on, with e-mails up to citext.
use mathlib.Core.Path.{subst}
use enterprise_middleware_go.Prelude.{
  String, ◌≡◌, ◌∙◌, sym, ap, Bool, true, false, List, [], ◌∷◌, Option, none, some, any, eqb, arith,
  inl, inr, Bool-cases,
}
use enterprise_middleware_go.Clock.{Time}
use enterprise_middleware_go.Repo.{
  Uuid, pg_uuid, User, Session, RepoError, RepoResult, ok, err, IsRepository, UserCreated,
  SessionCreated, SessionRevoked,
}
use enterprise_middleware_go.Repo.Queries.{Citext, Tables, find, query_row, id_is, email_is}
use enterprise_middleware_go.Repo.Queries
use enterprise_middleware_go.Repo.Queries.Rows.{Distinct}
use enterprise_middleware_go.Repo.Postgres.{
  postgres, create_user, get_user_by_email, get_user_by_id, create_session, revoke_session,
}
use enterprise_middleware_go.Repo.Postgres.Constraints.{
  IsConsistent, create_user-IsConsistent, create_session-IsConsistent,
  revoke_session_by_id-IsConsistent,
}
use enterprise_middleware_go.Repo.Postgres.Laws.{Inserted, create_user-Inserted}
use enterprise_middleware_go.Repo.Postgres.Sessions.{
  create_session-Inserted, revoke_session-SessionRevoked,
}

found_holds : {A : Type 0} (p : A → Bool) (xs : List A) (x : A) → find p xs ≡ some x → p x ≡ true
unfolding find
found_holds p [] x h = absurd (ground (arith, h))
found_holds p (y ∷ xs) x h = elim (Bool-cases (p y)) [
  | inl k ↦ ground (arith, h)
  | inr k ↦ found_holds p xs x (ground (arith, h))
]

found_misses :
    {A : Type 0} (p q : A → Bool) (xs : List A) (x : A)
    → find p xs ≡ some x
    → any q xs ≡ false
    → q x ≡ false
unfolding find
found_misses p q [] x h _ = absurd (ground (arith, h))
found_misses p q (y ∷ xs) x h g = elim (Bool-cases (p y)) [
  | inl k ↦ ground (arith, h, g)
  | inr k ↦ found_misses p q xs x (ground (arith, h)) (ground (arith, g))
]

-- Where ids are unique, a row that some condition finds is the one that its id finds.
found_by_id :
    (p : User → Bool) (us : List User) (u : User)
    → Distinct (λ (u v : User). id_is v.id.bytes u) us
    → find p us ≡ some u
    → find (id_is u.id.bytes) us ≡ some u
unfolding find
found_by_id p [] u _ h = absurd (ground (arith, h))
found_by_id p (x ∷ us) u (d, ds) h = elim (Bool-cases (p x)) [
  | inl k ↦ ground (arith, h)
  | inr k ↦
      let rest : find p us ≡ some u = ground (arith, h) in
      let other : eqb x.id.bytes u.id.bytes ≡ false =
        found_misses p (λ (v : User). eqb x.id.bytes v.id.bytes) us u rest d in
      ground (arith, found_by_id p us u ds rest)
]

queried : {A : Type 0} (o : Option A) (a : A) → query_row o ≡ ok a → o ≡ some a
unfolding query_row
queried none a h = absurd (ground (arith, h))
queried (some b) a h = ground (arith, h)

module _ (C : Citext) where
  pub by_id-id : (t : Tables) (i : Uuid) (u : User) → get_user_by_id t i ≡ ok u → u.id.bytes ≡ i
  unfolding get_user_by_id Queries.get_user_by_id
  by_id-id t i u h =
      let found = queried (find (id_is i) t.users) u h in
      ground (arith, found_holds (id_is i) t.users u found)

  pub by_email-by_id :
      (t : Tables) (e : String) (u : User)
      → IsConsistent C t
      → get_user_by_email C t e ≡ ok u
      → (get_user_by_id t u.id.bytes ≡ ok u) × (C.same u.email e ≡ true)
  unfolding get_user_by_id Queries.get_user_by_id get_user_by_email Queries.get_user_by_email
      query_row
  by_email-by_id t e u x h =
      let found = queried (find (email_is C e) t.users) u h in
      (
        ap query_row (found_by_id (email_is C e) t.users u x.user_ids found),
        found_holds (email_is C e) t.users u found,
      )

  pub create_user_lem :
      (t t' : Tables) (u v : User)
      → IsConsistent C t
      → create_user C t u ≡ (ok v, t')
      → IsConsistent C t' × UserCreated (postgres C) C.same u v t t'
  unfolding create_user
  create_user_lem t t' u v x h = (
    subst (λ (p : RepoResult User × Tables). IsConsistent C p.1) h
        (create_user-IsConsistent C t _ x),
    subst (Inserted (λ v. UserCreated (postgres C) C.same u v t) t) h (create_user-Inserted C t u),
  )

  pub create_user_err :
      (t t' : Tables) (u : User) (e : RepoError) → create_user C t u ≡ (err e, t') → t' ≡ t
  create_user_err t t' u e h =
      subst (Inserted (λ v. UserCreated (postgres C) C.same u v t) t) h (create_user-Inserted C t u)

  pub create_session_lem :
      (t t' : Tables) (s w : Session)
      → IsConsistent C t
      → create_session t s ≡ (ok w, t')
      → IsConsistent C t' × SessionCreated (postgres C) s w t t'
  unfolding create_session
  create_session_lem t t' s w x h = (
    subst (λ (p : RepoResult Session × Tables). IsConsistent C p.1) h
        (create_session-IsConsistent C t _ x),
    subst (Inserted (λ w. SessionCreated (postgres C) s w t) t) h (create_session-Inserted C t s),
  )

  pub create_session_err :
      (t t' : Tables) (s : Session) (e : RepoError) → create_session t s ≡ (err e, t') → t' ≡ t
  create_session_err t t' s e h =
      subst (Inserted (λ w. SessionCreated (postgres C) s w t) t) h (create_session-Inserted C t s)

  pub revoke_session_lem :
      (t t' : Tables) (now : Time) (id : Uuid)
      → IsConsistent C t
      → revoke_session t now id ≡ (ok tt, t')
      → IsConsistent C t' × SessionRevoked (postgres C) now id t t'
  unfolding revoke_session
  revoke_session_lem t t' now id x h =
      let (t₁, did, off) = revoke_session-SessionRevoked C t now id in
      let same : t₁ ≡ t' = ap (λ (p : RepoResult (Unit {0}) × Tables). p.1) (sym did ∙ h) in
      (
        subst (λ (p : RepoResult (Unit {0}) × Tables). IsConsistent C p.1) h
            (revoke_session_by_id-IsConsistent C (record t { now = now }) (pg_uuid id)
              (record {
                user_ids = x.user_ids;
                emails = x.emails;
                usernames = x.usernames;
                session_ids = x.session_ids;
                token_hashes = x.token_hashes;
                owners = x.owners;
              })),
        subst (SessionRevoked (postgres C) now id t) same off,
      )

  pub revoke_session_err :
      (t t' : Tables) (now : Time) (id : Uuid) (e : RepoError)
      → revoke_session t now id ≡ (err e, t')
      → t' ≡ t
  revoke_session_err t t' now id e h =
      let (t₁, did, _) = revoke_session-SessionRevoked C t now id in
      let same : ◌≡◌ {A = RepoResult (Unit {0})} (ok tt) (err e) =
        ap (λ (p : RepoResult (Unit {0}) × Tables). p.0) (sym did ∙ h) in
      absurd (ground (arith, same))

  abbrev pub postgres-IsRepository : IsRepository (postgres C)
  postgres-IsRepository = record {
    IsConsistent = IsConsistent C;
    IsFreshUser = λ t id. Unit;
    IsFreshSession = λ t id. Unit;
    same_email = C.same;
    same_email-refl = C.reflexive;
    by_id-id = λ t i u _ h. by_id-id t i u h;
    by_email-by_id = by_email-by_id;
    create_user_lem = λ t t' u v x _ h. create_user_lem t t' u v x h;
    create_user_err = create_user_err;
    create_session_lem = λ t t' s w x _ h. create_session_lem t t' s w x h;
    create_session_err = create_session_err;
    revoke_session_lem = revoke_session_lem;
    revoke_session_err = revoke_session_err;
    fresh-revoke = λ t t' now id i _ _ _. tt;
  }
