-- ===== src/Repo/Memory/Invariant.antt =====
-- The four maps of the in-memory repository agree with each other, and every method keeps it so.
use enterprise_middleware_go.Prelude.{
  String, ◌≡◌, inl, inr, none, some, arith, ◌==◌, eq_iff, Option-cases, Bool-cases,
}
use enterprise_middleware_go.Clock.{Time}
use enterprise_middleware_go.Dict.{get, put, get-empty, get-put}
use enterprise_middleware_go.Repo.{Uuid, UuidLib, User, Session, pg_time}
use enterprise_middleware_go.Repo.Memory.{
  InMemoryRepo, new_in_memory_repo, create_user, create_session, revoke_session,
}

module _ (L : UuidLib) where
  pub record IsIndexed (r : InMemoryRepo) : Type 0 where
    -- An e-mail leads to the user who has it, under the text of the user's id.
    pub email_to_user :
        (e k : String)
        → get r.by_email e ≡ some k
        → (u : User) × (get r.users k ≡ some u) × (u.email ≡ e)
    pub user_to_email :
        (k : String) (u : User)
        → get r.users k ≡ some u
        → (get r.by_email u.email ≡ some k) × (k ≡ L.to_string u.id.bytes)
    -- A token hash leads to the session that has it.
    pub token_to_session :
        (h k : String)
        → get r.by_token h ≡ some k
        → (s : Session) × (get r.sessions k ≡ some s) × (s.token_hash ≡ h)
    pub session_id :
        (k : String) (s : Session) → get r.sessions k ≡ some s → k ≡ L.to_string s.id.bytes

  abbrev pub IsFreshUser : InMemoryRepo → Uuid → Type 0
  IsFreshUser r id = get r.users (L.to_string id) ≡ none

  abbrev pub IsFreshSession : InMemoryRepo → Uuid → Type 0
  IsFreshSession r id = get r.sessions (L.to_string id) ≡ none

  pub new_in_memory_repo-IsIndexed : IsIndexed new_in_memory_repo
  unfolding new_in_memory_repo
  new_in_memory_repo-IsIndexed = record {
    email_to_user = λ e k h. cc (get-empty {V = String} e);
    user_to_email = λ k u h. cc (get-empty {V = User} k);
    token_to_session = λ e k h. cc (get-empty {V = String} e);
    session_id = λ k u h. cc (get-empty {V = Session} k);
  }

  -- A user is added under a new e-mail and a new id.
  module _ (r : InMemoryRepo) (u : User) (v : IsIndexed r) (fresh : IsFreshUser r u.id.bytes)
      (unused : get r.by_email u.email ≡ none) where
    abbrev with_user : InMemoryRepo
    with_user =
        let id = L.to_string u.id.bytes in
        record r { users = put r.users id u; by_email = put r.by_email u.email id }

    with_user-email :
        (e k : String)
        → get with_user.by_email e ≡ some k
        → (w : User) × (get with_user.users k ≡ some w) × (w.email ≡ e)
    with_user-email e k h = elim (Bool-cases (u.email == e)) [
      | inl same ↦ (
        u,
        ground (
          arith,
          get-put r.by_email u.email e (L.to_string u.id.bytes),
          get-put r.users (L.to_string u.id.bytes) k u,
          eq_iff u.email e,
          eq_iff (L.to_string u.id.bytes) k,
        ),
        (eq_iff u.email e).0 same,
      )
      | inr other ↦
          let (w, found, has) = v.email_to_user e k (
            ground
              (arith, get-put r.by_email u.email e (L.to_string u.id.bytes), eq_iff u.email e)) in
          (
            w,
            ground (
              arith,
              get-put r.by_email u.email e (L.to_string u.id.bytes),
              get-put r.users (L.to_string u.id.bytes) k u,
              eq_iff u.email e,
              eq_iff (L.to_string u.id.bytes) k,
            ),
            has,
          )
    ]

    with_user-IsIndexed : IsIndexed with_user
    with_user-IsIndexed = record {
      email_to_user = with_user-email;
      user_to_email = λ k w h. ground (
        arith,
        get-put r.users (L.to_string u.id.bytes) k u,
        get-put r.by_email u.email w.email (L.to_string u.id.bytes),
        v.user_to_email k w,
        eq_iff (L.to_string u.id.bytes) k,
        eq_iff u.email w.email,
      );
      token_to_session = v.token_to_session;
      session_id = v.session_id;
    }

  pub create_user-IsIndexed :
      (r : InMemoryRepo) (u : User)
      → IsIndexed r
      → IsFreshUser r u.id.bytes
      → IsIndexed (create_user L r u).1
  unfolding create_user
  create_user-IsIndexed r u v fresh = elim (Option-cases (get r.by_email u.email)) [
    | inl e ↦ rw (e, create_user) (with_user-IsIndexed r u v fresh e)
    | inr (k, e) ↦ rw (e, create_user) v
  ]

  -- A session is added under a new id; an older session may have the same token hash.
  module _ (r : InMemoryRepo) (s : Session) (v : IsIndexed r)
      (fresh : IsFreshSession r s.id.bytes) where
    abbrev with_session : InMemoryRepo
    with_session =
        let id = L.to_string s.id.bytes in
        record r { sessions = put r.sessions id s; by_token = put r.by_token s.token_hash id }

    with_session-token :
        (h k : String)
        → get with_session.by_token h ≡ some k
        → (w : Session) × (get with_session.sessions k ≡ some w) × (w.token_hash ≡ h)
    with_session-token h k e = elim (Bool-cases (s.token_hash == h)) [
      | inl same ↦ (
        s,
        ground (
          arith,
          get-put r.by_token s.token_hash h (L.to_string s.id.bytes),
          get-put r.sessions (L.to_string s.id.bytes) k s,
          eq_iff (L.to_string s.id.bytes) k,
        ),
        (eq_iff s.token_hash h).0 same,
      )
      | inr other ↦
          let (w, found, has) =
            v.token_to_session h k
              (ground (arith, get-put r.by_token s.token_hash h (L.to_string s.id.bytes))) in
          (
            w,
            ground (
              arith,
              get-put r.sessions (L.to_string s.id.bytes) k s,
              eq_iff (L.to_string s.id.bytes) k,
            ),
            has,
          )
    ]

    with_session-IsIndexed : IsIndexed with_session
    with_session-IsIndexed = record {
      email_to_user = v.email_to_user;
      user_to_email = v.user_to_email;
      token_to_session = with_session-token;
      session_id = λ k w h. ground (
        arith,
        get-put r.sessions (L.to_string s.id.bytes) k s,
        v.session_id k w,
        eq_iff (L.to_string s.id.bytes) k,
      );
    }

  pub create_session-IsIndexed :
      (r : InMemoryRepo) (s : Session)
      → IsIndexed r
      → IsFreshSession r s.id.bytes
      → IsIndexed (create_session L r s).1
  unfolding create_session
  create_session-IsIndexed r s v fresh = with_session-IsIndexed r s v fresh

  -- A session is revoked in place.
  module _ (r : InMemoryRepo) (now : Time) (k : String) (s : Session) (v : IsIndexed r)
      (found : get r.sessions k ≡ some s) where
    abbrev with_revoked : InMemoryRepo
    with_revoked = record r { sessions = put r.sessions k (record s { revoked_at = pg_time now }) }

    with_revoked-token :
        (h j : String)
        → get with_revoked.by_token h ≡ some j
        → (w : Session) × (get with_revoked.sessions j ≡ some w) × (w.token_hash ≡ h)
    with_revoked-token h j e =
        let (w, at, has) = v.token_to_session h j e in
        elim (Bool-cases (k == j)) [
          | inl same ↦ (
            record s { revoked_at = pg_time now },
            ground (arith, get-put r.sessions k j (record s { revoked_at = pg_time now })),
            ground (arith, eq_iff k j),
          )
          | inr other ↦ (
            w,
            ground (arith, get-put r.sessions k j (record s { revoked_at = pg_time now })),
            has,
          )
        ]

    with_revoked-IsIndexed : IsIndexed with_revoked
    with_revoked-IsIndexed = record {
      email_to_user = v.email_to_user;
      user_to_email = v.user_to_email;
      token_to_session = with_revoked-token;
      session_id = λ j w h. ground (
        arith,
        get-put r.sessions k j (record s { revoked_at = pg_time now }),
        v.session_id j w,
        v.session_id k s,
        eq_iff k j,
      );
    }

  pub revoke_session-IsIndexed :
      (r : InMemoryRepo) (now : Time) (id : Uuid)
      → IsIndexed r
      → IsIndexed (revoke_session L r now id).1
  unfolding revoke_session
  revoke_session-IsIndexed r now id v = elim (Option-cases (get r.sessions (L.to_string id))) [
    | inl e ↦ rw (e, revoke_session) v
    | inr (s, e) ↦ rw (e, revoke_session) (with_revoked-IsIndexed r now (L.to_string id) s v e)
  ]
