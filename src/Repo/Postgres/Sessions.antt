-- ===== src/Repo/Postgres/Sessions.antt =====
-- What the Postgres repository makes of a session that is stored or revoked.
use enterprise_middleware_go.Prelude.{
  String, ◌≡◌, ◌∙◌, sym, ap, refl, true, false, List, [], ◌∷◌, ◌++◌, Option, none, some, any, ◌==◌,
  eq_iff, arith, if◌then◌else◌, inl, inr, Bool-cases, Option-cases,
}
use mathlib.Core.Path.{subst}
use enterprise_middleware_go.Clock.{Time}
use enterprise_middleware_go.Repo.{
  Uuid, Session, RepoError, RepoResult, ok, err, SessionCreated, SessionRevoked, revoke_found,
  pg_time, null_time, driver_error,
}
use enterprise_middleware_go.Repo.Queries.{
  Citext, Tables, find, query_row, id_is, session_id_is, hash_is, email_is, user_violation,
  session_violation, CreateUserParams, CreateSessionParams,
}
use enterprise_middleware_go.Repo.Queries
use enterprise_middleware_go.Repo.Queries.Rows.{find-any, find-map, map_option}
use enterprise_middleware_go.Repo.Postgres.{
  postgres, get_user_by_email, get_user_by_id, create_session, revoke_session,
  get_session_by_token_hash,
}
use enterprise_middleware_go.Repo.Postgres.Laws.{Inserted, found}

no_such_hash :
    (ss : List Session) (a h : String)
    → any (hash_is a) ss ≡ false
    → (a == h) ≡ true
    → any (hash_is h) ss ≡ false
no_such_hash ss a h free same = subst (λ j. any (hash_is j) ss ≡ false) ((eq_iff a h).0 same) free

module _ (C : Citext) where
  checked_session :
      (t : Tables) (arg : CreateSessionParams)
      → session_violation t arg ≡ none
      → any (hash_is arg.token_hash) t.sessions ≡ false
  unfolding session_violation
  checked_session t arg h = elim (Bool-cases (any (hash_is arg.token_hash) t.sessions)) [
    | inl x ↦ absurd (ground arith)
    | inr x ↦ x
  ]

  abbrev session_params : Session → CreateSessionParams
  session_params s = record {
    id = s.id;
    user_id = s.user_id;
    token_hash = s.token_hash;
    expires_at = s.expires_at;
  }

  abbrev session_row : Tables → Session → Session
  session_row t s = record s { created_at = pg_time t.now; revoked_at = null_time }

  stored :
      (t : Tables) (s : Session)
      → session_violation t (session_params s) ≡ none
      → create_session t s
        ≡ (ok (session_row t s), record t { sessions = t.sessions ++ session_row t s ∷ [] })
  unfolding create_session Queries.create_session
  stored t s e = rw (e, create_session, Queries.create_session) refl

  not_stored :
      (t : Tables) (s : Session) {constraint : String}
      → session_violation t (session_params s) ≡ some constraint
      → create_session t s ≡ (err (driver_error constraint), t)
  unfolding create_session Queries.create_session
  not_stored t s e = rw (e, create_session, Queries.create_session) refl

  -- CreateSession of the Postgres repository either fails and
  -- changes nothing, or adds the session: its token hash finds the new row, and every other lookup
  -- is as before.
  pub create_session-Inserted :
      (t : Tables) (s : Session)
      → Inserted (λ w. SessionCreated (postgres C) s w t) t (create_session t s)
  unfolding create_session Queries.create_session get_session_by_token_hash get_user_by_email
      get_user_by_id Queries.get_session_by_token_hash Queries.get_user_by_email
      Queries.get_user_by_id
  create_session-Inserted t s = elim (Option-cases (session_violation t (session_params s))) [
    | inr (constraint, e) ↦
        subst (Inserted (λ w. SessionCreated (postgres C) s w t) t) (sym (not_stored t s e)) refl
    | inl e ↦
        let free = checked_session t (session_params s) e in
        subst (Inserted (λ w. SessionCreated (postgres C) s w t) t) (sym (stored t s e)) (record {
          same_id = refl;
          same_user = refl;
          same_expiry = refl;
          not_revoked = λ _. refl;
          by_hash = λ h.
              found (hash_is h) t.sessions (session_row t s)
                (no_such_hash t.sessions s.token_hash h free);
          same_emails = λ e. refl;
          same_ids = λ i. refl;
        })
  ]

  abbrev revoke_row : Time → Uuid → Session → Session
  revoke_row now id s = if session_id_is id s then record s { revoked_at = pg_time now } else s

  hash-revoke_row :
      (now : Time) (id : Uuid) (h : String) (s : Session)
      → hash_is h (revoke_row now id s) ≡ hash_is h s
  hash-revoke_row now id h s = ground arith

  query_row-map_option :
      (now : Time) (id : Uuid) (o : Option Session)
      → query_row (map_option (revoke_row now id) o) ≡ revoke_found now id (query_row o)
  unfolding query_row
  query_row-map_option now id none = refl
  query_row-map_option now id (some s) = refl

  -- CreateSession refuses a token hash that a session has, revoked or not.
  pub create_session-taken :
      (t : Tables) (s w : Session)
      → get_session_by_token_hash t s.token_hash ≡ ok w
      → (e : RepoError) × ((create_session t s).0 ≡ err e)
  unfolding get_session_by_token_hash Queries.get_session_by_token_hash query_row
  create_session-taken t s w h = elim (Option-cases (session_violation t (session_params s))) [
    | inr (constraint, e) ↦
        (driver_error constraint, ap (λ (p : RepoResult Session × Tables). p.0) (not_stored t s e))
    | inl e ↦
        let free = checked_session t (session_params s) e in
        absurd (ground (arith, h, find-any (hash_is s.token_hash) t.sessions free))
  ]

  -- RevokeSession of the Postgres repository succeeds for any id, and revokes exactly the sessions
  -- that have it, at the time of the database.
  pub revoke_session-SessionRevoked :
      (t : Tables) (now : Time) (id : Uuid)
      → (t' : Tables) × (revoke_session t now id ≡ (ok tt, t'))
        × SessionRevoked (postgres C) now id t t'
  unfolding revoke_session Queries.revoke_session_by_id get_session_by_token_hash get_user_by_email
      get_user_by_id Queries.get_session_by_token_hash Queries.get_user_by_email
      Queries.get_user_by_id query_row
  revoke_session-SessionRevoked t now id = (
    _,
    refl,
    record {
      by_hash = λ h.
          ap query_row
            (find-map (hash_is h) (revoke_row now id) (hash-revoke_row now id h) t.sessions)
          ∙ query_row-map_option now id (find (hash_is h) t.sessions);
      same_emails = λ e. refl;
      same_ids = λ i. refl;
    },
  )
