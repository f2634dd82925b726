-- ===== src/Service/Register.antt =====
-- Register. A method returns Go's results, where a nil error is `none`, and the new state.
pub mod Outcome
use enterprise_middleware_go.Prelude.{String, List, [], ◌∷◌, Option, none, some}
use enterprise_middleware_go.Repo.{User, RepoResult, ok, err, pg_uuid, pg_time}
use enterprise_middleware_go.Errors.{Code, err_internal, err_email_in_use, status_from_code}
use enterprise_middleware_go.Auth.Passwords.{hash_password}
use enterprise_middleware_go.Audit.{Payload, emit}
use enterprise_middleware_go.Service.Deps.{Deps, State, Readings}
use enterprise_middleware_go.Service.Views.{key_by_email, key_by_id}
use enterprise_middleware_go.Service.Getters.{get_user_by_email}

module _ (D : Deps) where
  -- StatusFromCode(code, reqID), with reqID := ""
  abbrev pub refusal : Code → Option D.grpc.Error
  refusal code = status_from_code D.grpc code ""

  -- _ = s.Audit.Emit(...)
  unfoldable pub audited : State D → Readings → String → String → Option Payload → State D
  audited s r user_id event_type payload = record s {
    sinks = (emit D.audit r.stamp user_id event_type r.correlation_id payload s.sinks).1;
  }

  -- The user that Register creates.
  unfoldable pub new_user : Readings → String → String → String → User
  new_user r email username hash = record {
    id = pg_uuid r.id;
    email = email;
    username = username;
    password_hash = hash;
    created_at = pg_time r.now;
    updated_at = pg_time r.now;
  }

  -- if s.Cache != nil { _ = s.Cache.Del(...) }
  unfoldable pub invalidate : State D → Readings → String → State D
  invalidate s r email = elim s.cached [
    | none ↦ s
    | some c ↦ record s {
      cached = some (D.cache.del c r.cache_now (key_by_email email ∷ key_by_id D.uuids r.id ∷ []));
    }
  ]

  -- After CreateUser succeeded.
  registered : State D → Readings → String → (String × Option D.grpc.Error) × State D
  unfolding audited invalidate
  registered s r email =
      let id = D.uuids.to_string r.id in
      (
        (id, none),
        audited (invalidate s r email) r id "user.registered" (some (("email", email) ∷ [])),
      )

  -- The steps from the existence check on, with the hashed password.
  create : State D → Readings → String → String → String → (String × Option D.grpc.Error) × State D
  unfolding registered new_user
  create s r email username hash =
      let (created, store) = D.repo.create_user s.store (new_user r email username hash) in
      elim created [
        | err _ ↦ (("", refusal err_internal), record s { store = store })
        | ok _ ↦ registered (record s { store = store }) r email
      ]

  check_and_create :
      State D → Readings → String → String → String → (String × Option D.grpc.Error) × State D
  unfolding create
  check_and_create s r email username hash =
      let (found, s') = get_user_by_email D s r.cache_now email in
      elim found [
        | ok _ ↦ (("", refusal err_email_in_use), s')
        | err _ ↦ create s' r email username hash
      ]

  -- Register
  unfoldable pub register :
      State D → Readings → String → String → String → (String × Option D.grpc.Error) × State D
  unfolding check_and_create
  register s r email username password = elim (D.validate_register "" email username password) [
    | some e ↦ (("", some e), s)
    | none ↦ elim (hash_password D.bcrypt r.salt password) [
      | none ↦ (("", refusal err_internal), s)
      | some hash ↦ check_and_create s r email username hash
    ]
  ]
