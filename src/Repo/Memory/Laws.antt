-- ===== src/Repo/Memory/Laws.antt =====
-- The in-memory repository satisfies the laws that the service relies on.
use enterprise_middleware_go.Prelude.{
  ◌==◌, true, String, ◌≡◌, sym, ap, inl, inr, arith, eq_iff, eq_self, Option-cases,
}
use mathlib.Core.Path.{subst}
use enterprise_middleware_go.Clock.{Time}
use enterprise_middleware_go.Dict.{get, get-put}
use enterprise_middleware_go.Repo.{
  Uuid, UuidLib, User, Session, RepoError, RepoResult, ok, err, pg_time, IsRepository, UserCreated,
  SessionCreated, SessionRevoked,
}
use enterprise_middleware_go.Repo.Memory.{
  InMemoryRepo, memory, create_user, create_session, revoke_session, get_user_by_email,
  get_user_by_id,
}
use enterprise_middleware_go.Repo.Memory.Invariant.{
  IsIndexed, IsFreshUser, IsFreshSession, create_user-IsIndexed, create_session-IsIndexed,
  revoke_session-IsIndexed,
}
use enterprise_middleware_go.Repo.Memory.Writes.{
  to_string-injective, revoke_session_inv, create_user-created, create_session-created,
  revoke_session-revoked,
}

module _ (L : UuidLib) where
  pub by_id-id :
      (r : InMemoryRepo) (i : Uuid) (u : User)
      → IsIndexed L r
      → get_user_by_id L r i ≡ ok u
      → u.id.bytes ≡ i
  unfolding get_user_by_id
  by_id-id r i u x h =
      let (_, key) = x.user_to_email (L.to_string i) u (ground arith) in
      sym (to_string-injective L i u.id.bytes key)

  pub by_email-by_id :
      (r : InMemoryRepo) (e : String) (u : User)
      → IsIndexed L r
      → get_user_by_email r e ≡ ok u
      → (get_user_by_id L r u.id.bytes ≡ ok u) × ((u.email == e) ≡ true)
  unfolding get_user_by_id get_user_by_email
  by_email-by_id r e u x h = elim (Option-cases (get r.by_email e)) [
    | inl missing ↦ absurd (ground arith)
    | inr (k, at) ↦
        let (w, found, has) = x.email_to_user e k at in
        let (_, key) = x.user_to_email k w found in ground (arith, eq_iff u.email e)
  ]

  pub create_user_err :
      (r r' : InMemoryRepo) (u : User) (e : RepoError) → create_user L r u ≡ (err e, r') → r' ≡ r
  unfolding create_user
  create_user_err r r' u e h = ground arith

  pub create_session_err :
      (r r' : InMemoryRepo) (s : Session) (e : RepoError)
      → create_session L r s ≡ (err e, r')
      → r' ≡ r
  unfolding create_session
  create_session_err r r' s e h = ground arith

  pub revoke_session_err :
      (r r' : InMemoryRepo) (t : Time) (id : Uuid) (e : RepoError)
      → revoke_session L r t id ≡ (err e, r')
      → r' ≡ r
  unfolding revoke_session
  revoke_session_err r r' t id e h = ground arith

  pub fresh-revoke :
      (r r' : InMemoryRepo) (t : Time) (id i : Uuid)
      → revoke_session L r t id ≡ (ok tt, r')
      → IsFreshSession L r i
      → IsFreshSession L r' i
  fresh-revoke r r' t id i h f =
      let (s, found, e) = revoke_session_inv L r r' t id h in
      rw e (
        ground (
          arith,
          get-put r.sessions (L.to_string id) (L.to_string i) (record s { revoked_at = pg_time t }),
          eq_iff (L.to_string id) (L.to_string i),
        ))

  -- A CreateUser that succeeds, for an id that is not in use, keeps the four maps in step; after it
  -- the user is found by e-mail and by id, every other lookup of a user gives what it gave before,
  -- and so does every lookup of a session.
  pub create_user_step :
      (r r' : InMemoryRepo) (u v : User)
      → IsIndexed L r
      → IsFreshUser L r u.id.bytes
      → create_user L r u ≡ (ok v, r')
      → IsIndexed L r' × UserCreated (memory L) ◌==◌ u v r r'
  create_user_step r r' u v x fresh h = (
    subst (IsIndexed L) (ap (λ (p : RepoResult User × InMemoryRepo). p.1) h)
        (create_user-IsIndexed L r u x fresh),
    create_user-created L r r' u v x fresh h,
  )

  -- A CreateSession for an id that is not in use keeps the four maps in step; after it the session
  -- is found by its token hash, and every other lookup gives what it gave before.
  pub create_session_step :
      (r r' : InMemoryRepo) (s w : Session)
      → IsIndexed L r
      → IsFreshSession L r s.id.bytes
      → create_session L r s ≡ (ok w, r')
      → IsIndexed L r' × SessionCreated (memory L) s w r r'
  create_session_step r r' s w x fresh h = (
    subst (IsIndexed L) (ap (λ (p : RepoResult Session × InMemoryRepo). p.1) h)
        (create_session-IsIndexed L r s x fresh),
    create_session-created L r r' s w x fresh h,
  )

  -- A RevokeSession that succeeds keeps the four maps in step; after it every lookup by token hash
  -- gives what it gave before, with the time of revocation set in the session of that id and in no
  -- other, and lookups of users give what they gave before.
  pub revoke_session_step :
      (r r' : InMemoryRepo) (now : Time) (id : Uuid)
      → IsIndexed L r
      → revoke_session L r now id ≡ (ok tt, r')
      → IsIndexed L r' × SessionRevoked (memory L) now id r r'
  revoke_session_step r r' now id x h = (
    subst (IsIndexed L) (ap (λ (p : RepoResult Unit × InMemoryRepo). p.1) h)
        (revoke_session-IsIndexed L r now id x),
    revoke_session-revoked L r r' now id x h,
  )

  abbrev pub memory-IsRepository : IsRepository (memory L)
  memory-IsRepository = record {
    IsConsistent = IsIndexed L;
    IsFreshUser = IsFreshUser L;
    IsFreshSession = IsFreshSession L;
    same_email = ◌==◌;
    same_email-refl = eq_self;
    by_id-id = by_id-id;
    by_email-by_id = by_email-by_id;
    create_user_lem = create_user_step;
    create_user_err = create_user_err;
    create_session_lem = create_session_step;
    create_session_err = create_session_err;
    revoke_session_lem = revoke_session_step;
    revoke_session_err = revoke_session_err;
    fresh-revoke = λ r r' t id i x h f. fresh-revoke r r' t id i h f;
  }
