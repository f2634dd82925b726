-- ===== src/Repo/Memory/Writes.antt =====
-- What the methods of the in-memory repository write, and every lookup after it.
use enterprise_middleware_go.Prelude.{
  ◌==◌, String, ◌≡◌, refl, ap, inl, inr, some, arith, eq_iff, eq_self, Option-cases,
}
use enterprise_middleware_go.Clock.{Time}
use enterprise_middleware_go.Dict.{get, put, get-put}
use enterprise_middleware_go.Repo.{
  Uuid, UuidLib, User, Session, RepoResult, ok, err, pg_time, revoke_found, UserCreated,
  SessionCreated, SessionRevoked,
}
use enterprise_middleware_go.Repo.Memory.{
  InMemoryRepo, memory, create_user, create_session, revoke_session, get_user_by_email,
  get_user_by_id, get_session_by_token_hash,
}
use enterprise_middleware_go.Repo.Memory.Invariant.{IsIndexed, IsFreshUser, IsFreshSession}

module _ (L : UuidLib) where
  pub to_string-injective : (i j : Uuid) → L.to_string i ≡ L.to_string j → i ≡ j
  to_string-injective i j h = cc (L.parse-to_string i, L.parse-to_string j, ap L.parse h)

  to_string_cong : (i j : Uuid) → i ≡ j → L.to_string i ≡ L.to_string j
  to_string_cong i j h = ap L.to_string h

  pub create_user-created :
      (r r' : InMemoryRepo) (u v : User)
      → IsIndexed L r
      → IsFreshUser L r u.id.bytes
      → create_user L r u ≡ (ok v, r')
      → UserCreated (memory L) ◌==◌ u v r r'
  unfolding create_user get_user_by_email get_user_by_id get_session_by_token_hash
  create_user-created r r' u v x fresh h =
      let u_id = L.to_string u.id.bytes in
      record {
        same_id = ground arith;
        same_email = ground arith;
        same_username = ground arith;
        same_hash = ground arith;
        by_email = λ e. elim (Option-cases (get r.by_email e)) [
          | inl missing ↦ ground (
            arith,
            get-put r.by_email u.email e (L.to_string u.id.bytes),
            eq_self u_id,
            get-put r.users u_id u_id u,
          )
          | inr (k, at) ↦
              let (w, found, _) = x.email_to_user e k at in
              ground (
                arith,
                get-put r.by_email u.email e (L.to_string u.id.bytes),
                eq_iff u.email e,
                get-put r.users u_id k u,
                get-put r.users u_id u_id u,
                eq_iff u_id k,
                eq_self u_id,
              )
        ];
        by_id = λ i. ground (
          arith,
          get-put r.users u_id (L.to_string i) u,
          eq_iff u_id (L.to_string i),
          to_string-injective u.id.bytes i,
          to_string_cong u.id.bytes i,
        );
        same_sessions = λ h'. ground arith;
      }

  pub create_session-created :
      (r r' : InMemoryRepo) (s w : Session)
      → IsIndexed L r
      → IsFreshSession L r s.id.bytes
      → create_session L r s ≡ (ok w, r')
      → SessionCreated (memory L) s w r r'
  unfolding create_session get_user_by_email get_user_by_id get_session_by_token_hash
  create_session-created r r' s w x fresh h =
      let s_id = L.to_string s.id.bytes in
      record {
        same_id = ground arith;
        same_user = ground arith;
        same_expiry = ground arith;
        not_revoked = λ live. ground (arith, live);
        by_hash = λ e. elim (Option-cases (get r.by_token e)) [
          | inl missing ↦ ground (
            arith,
            get-put r.by_token s.token_hash e s_id,
            get-put r.sessions s_id s_id s,
            eq_self s_id,
          )
          | inr (k, at) ↦
              let (w', found, _) = x.token_to_session e k at in
              ground (
                arith,
                get-put r.by_token s.token_hash e s_id,
                eq_iff s.token_hash e,
                get-put r.sessions s_id k s,
                get-put r.sessions s_id s_id s,
                eq_iff s_id k,
                eq_self s_id,
              )
        ];
        same_emails = λ e. ground arith;
        same_ids = λ i. ground arith;
      }

  -- The token hash leads to a session that is stored under the text of its id.
  session_at :
      (r : InMemoryRepo) (h : String) (s : Session)
      → IsIndexed L r
      → get_session_by_token_hash r h ≡ ok s
      → (get r.by_token h ≡ some (L.to_string s.id.bytes))
        × (get r.sessions (L.to_string s.id.bytes) ≡ some s)
  unfolding get_session_by_token_hash
  session_at r h s x e = elim (Option-cases (get r.by_token h)) [
    | inl missing ↦ ground arith
    | inr (k, at) ↦
        let (w, found, _) = x.token_to_session h k at in ground (arith, x.session_id k w found)
  ]

  -- A successful revocation wrote the time into the session that is stored under the id.
  pub revoke_session_inv :
      (r r' : InMemoryRepo) (now : Time) (id : Uuid)
      → revoke_session L r now id ≡ (ok tt, r')
      → (s : Session) × (get r.sessions (L.to_string id) ≡ some s)
        × (r' ≡ record r {
          sessions = put r.sessions (L.to_string id) (record s { revoked_at = pg_time now });
        })
  unfolding revoke_session
  revoke_session_inv r r' now id h = elim (Option-cases (get r.sessions (L.to_string id))) [
    | inl e ↦ absurd (ground arith)
    | inr (s, e) ↦ (s, e, ground arith)
  ]

  lookup_revoked :
      (r : InMemoryRepo) (now : Time) (id : Uuid) (s : Session) (h : String)
      (o : RepoResult Session)
      → IsIndexed L r
      → get r.sessions (L.to_string id) ≡ some s
      → get_session_by_token_hash r h ≡ o
      → get_session_by_token_hash
          (record r {
            sessions = put r.sessions (L.to_string id) (record s { revoked_at = pg_time now });
          })
          h
        ≡ revoke_found now id o
  unfolding get_session_by_token_hash
  lookup_revoked r now id s h (err z) x found e = ground arith
  lookup_revoked r now id s h (ok w) x found e = ground (
    arith,
    session_at r h w x e,
    eq_iff (L.to_string id) (L.to_string w.id.bytes),
    get-put r.sessions (L.to_string id) (L.to_string w.id.bytes)
        (record s { revoked_at = pg_time now }),
    to_string-injective id w.id.bytes,
    to_string_cong w.id.bytes id,
  )

  pub revoke_session-revoked :
      (r r' : InMemoryRepo) (now : Time) (id : Uuid)
      → IsIndexed L r
      → revoke_session L r now id ≡ (ok tt, r')
      → SessionRevoked (memory L) now id r r'
  unfolding get_user_by_email get_user_by_id
  revoke_session-revoked r r' now id x h =
      let (s, found, e) = revoke_session_inv r r' now id h in
      record {
        by_hash = λ h'. rw e (lookup_revoked r now id s h' _ x found refl);
        same_emails = λ e'. rw e;
        same_ids = λ i. rw e;
      }
