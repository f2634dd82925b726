-- ===== src/Service/Sessions/Later.antt =====
-- The repositories that later writes lead to, whoever makes them, and what becomes of a session that
-- is revoked.
use enterprise_middleware_go.Prelude.{
  String, ◌≡◌, ◌≢◌, refl, sym, ap, ◌∙◌, true, inl, inr, arith, eqb, eq_of_ne, Bool-cases,
}
use mathlib.Core.Path.{subst}
use enterprise_middleware_go.Clock.{Time}
use enterprise_middleware_go.Repo.{
  Uuid, User, Session, RepoResult-cases, ok, Repository, IsRepository, revoke_found, pg_time,
}

module _ {R : Type 0} (repo : Repository R) (laws : IsRepository repo) (hash : String) where
  -- What a sequence of writes leads to, each answered in any way, of which none stores a session
  -- under that token hash, and each new row has an id that is not in use.
  pub data Later (before : R) : R → Type 0 where
    unchanged : Later before before
    user_created :
        (r : R) (u : User)
        → Later before r
        → laws.IsFreshUser r u.id.bytes
        → Later before (repo.create_user r u).1
    session_created :
        (r : R) (s : Session)
        → Later before r
        → laws.IsFreshSession r s.id.bytes
        → s.token_hash ≢ hash
        → Later before (repo.create_session r s).1
    session_revoked :
        (r : R) (now : Time) (id : Uuid)
        → Later before r
        → Later before (repo.revoke_session r now id).1

  -- The repository is consistent, and the hash leads to a session that is revoked: its token is spent.
  pub record IsSpent (r : R) : Type 0 where
    pub consistent : laws.IsConsistent r
    pub session : Session
    pub at_hash : repo.get_session_by_token_hash r hash ≡ ok session
    pub revoked : session.revoked_at.valid ≡ true

  user_created-IsSpent :
      (r : R) (u : User)
      → IsSpent r
      → laws.IsFreshUser r u.id.bytes
      → IsSpent (repo.create_user r u).1
  user_created-IsSpent r u x fresh = elim (RepoResult-cases (repo.create_user r u).0) [
    | inl (e, failed) ↦
        let same : (repo.create_user r u).1 ≡ r =
          laws.create_user_err r (repo.create_user r u).1 u e (ground (arith, failed)) in
        subst IsSpent (sym same) x
    | inr (v, did) ↦
        let (good, added) =
          laws.create_user_lem r (repo.create_user r u).1 u v x.consistent fresh
            (ground (arith, did)) in
        record {
          consistent = good;
          session = x.session;
          at_hash = added.same_sessions hash ∙ x.at_hash;
          revoked = x.revoked;
        }
  ]

  session_created-IsSpent :
      (r : R) (s : Session)
      → IsSpent r
      → laws.IsFreshSession r s.id.bytes
      → s.token_hash ≢ hash
      → IsSpent (repo.create_session r s).1
  session_created-IsSpent r s x fresh other = elim (RepoResult-cases (repo.create_session r s).0) [
    | inl (e, failed) ↦
        let same : (repo.create_session r s).1 ≡ r =
          laws.create_session_err r (repo.create_session r s).1 s e (ground (arith, failed)) in
        subst IsSpent (sym same) x
    | inr (w, did) ↦
        let (good, added) =
          laws.create_session_lem r (repo.create_session r s).1 s w x.consistent fresh
            (ground (arith, did)) in
        record {
          consistent = good;
          session = x.session;
          at_hash = added.by_hash hash ∙ rw (eq_of_ne _ _ other) x.at_hash;
          revoked = x.revoked;
        }
  ]

  -- A revocation leaves a revoked session revoked.
  revoke_found-revoked :
      (now : Time) (id : Uuid) (session : Session)
      → session.revoked_at.valid ≡ true
      → (w : Session) × (revoke_found now id (ok session) ≡ ok w) × (w.revoked_at.valid ≡ true)
  revoke_found-revoked now id session h = elim (Bool-cases (eqb session.id.bytes id)) [
    | inl here ↦ (record session { revoked_at = pg_time now }, rw here refl, refl)
    | inr other ↦ (session, rw other refl, h)
  ]

  session_revoked-IsSpent :
      (r : R) (now : Time) (id : Uuid) → IsSpent r → IsSpent (repo.revoke_session r now id).1
  session_revoked-IsSpent r now id x = elim (RepoResult-cases (repo.revoke_session r now id).0) [
    | inl (e, failed) ↦
        let same : (repo.revoke_session r now id).1 ≡ r =
          laws.revoke_session_err r (repo.revoke_session r now id).1 now id e
            (ground (arith, failed)) in
        subst IsSpent (sym same) x
    | inr (_, did) ↦
        let (good, off) =
          laws.revoke_session_lem r (repo.revoke_session r now id).1 now id x.consistent
            (ground (arith, did)) in
        let (w, at, dead) = revoke_found-revoked now id x.session x.revoked in
        record {
          consistent = good;
          session = w;
          at_hash = off.by_hash hash ∙ ap (revoke_found now id) x.at_hash ∙ at;
          revoked = dead;
        }
  ]

  -- A session that is revoked stays revoked.
  pub Later-IsSpent : (before r : R) → Later before r → IsSpent before → IsSpent r
  Later-IsSpent before _ unchanged x = x
  Later-IsSpent before _ (user_created r u l fresh) x =
      user_created-IsSpent r u (Later-IsSpent before r l x) fresh
  Later-IsSpent before _ (session_created r s l fresh other) x =
      session_created-IsSpent r s (Later-IsSpent before r l x) fresh other
  Later-IsSpent before _ (session_revoked r now id l) x =
      session_revoked-IsSpent r now id (Later-IsSpent before r l x)
