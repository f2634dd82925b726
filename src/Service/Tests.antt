-- ===== src/Service/Tests.antt =====
-- The service on the example platform: Alice registers, logs in, refreshes and logs out.
use enterprise_middleware_go.Prelude.{
  ◌*◌, ◌+◌, String, ◌≡◌, refl, inl, false, none, some, arith, eq_iff,
}
use enterprise_middleware_go.Clock.{hour, to_unix, from_unix}
use enterprise_middleware_go.Dict.{empty, get, get-empty, put, remove, size, retain}
use enterprise_middleware_go.Repo.{
  Session, pg_uuid, pg_time, null_time, ok, err_not_found, IsRepository,
}
use enterprise_middleware_go.Repo.Memory.{
  new_in_memory_repo, create_user, create_session, revoke_session, uuid_string,
  get_user_by_email as memory_email, get_session_by_token_hash as memory_session,
}
use enterprise_middleware_go.Repo.Memory.Invariant.{
  new_in_memory_repo-IsIndexed, create_session-IsIndexed,
}
use enterprise_middleware_go.Repo.Memory.Laws.{memory-IsRepository}
use enterprise_middleware_go.Limiter.{new_limiter_pool, pool_get, write_back}
use enterprise_middleware_go.Errors.{
  err_invalid_credentials, status_from_code, with_common_details, base_status, message,
}
use enterprise_middleware_go.Auth.Passwords.{hash_password, compare_password}
use enterprise_middleware_go.Auth.Tokens.{generate, verify}
use enterprise_middleware_go.Audit.{emit}
use enterprise_middleware_go.Service.Views.{to_view, to_user_row, key_by_email, key_by_id}
use enterprise_middleware_go.Service.Getters.{
  cache_under, get_user_by_email, get_user_by_id, cached_view,
}
use enterprise_middleware_go.Service.Sessions.{refresh_session, logout, is_dead, next_session}
use enterprise_middleware_go.Service.Deps.{State}
use enterprise_middleware_go.Service.Example.{
  platform, alice_view, dict_cache-IsCache, stroke_uuids,
}
use enterprise_middleware_go.Service.Example.Start.{start, at_zero}
use enterprise_middleware_go.Service.Register.{register, new_user}
use enterprise_middleware_go.Service.Register.Outcome.{register-created, register_error}
use enterprise_middleware_go.Service.Sessions.Rotation.{
  refresh_session-refused, refresh_session-Rotated,
}
use enterprise_middleware_go.Service.Sessions.Later.{unchanged, session_revoked}
use enterprise_middleware_go.Service.Sessions.Replay.{
  refresh_session_replayed, refresh_session_same_token, refresh_session-logout,
}
use enterprise_middleware_go.Service.Getters.Coherence.{
  IsCoherent, get_user_by_id-IsCoherent, get_user_by_email-IsCoherent,
}
use enterprise_middleware_go.Service.Profile.{serve_get_profile}
use enterprise_middleware_go.Service.Profile.Transparency.{serve_get_profile-cached}
use enterprise_middleware_go.Service.Login.Outcome.{
  login_bad_credentials, login_error, login-session,
}
use enterprise_middleware_go.Service.Login.AfterRegister.{login-register}
use enterprise_middleware_go.Service.Login.{login, new_session, no_tokens}

abbrev laws : IsRepository platform.repo
laws = memory-IsRepository stroke_uuids

-- Named on an `unfolding` line, this opens what the examples run.
runs : Unit {0}
unfolding register login refresh_session logout hash_password compare_password get_user_by_email
    cache_under create_user create_session revoke_session memory_email memory_session get put empty
    remove new_in_memory_repo generate verify pool_get write_back new_limiter_pool emit to_view
    to_user_row key_by_email key_by_id to_unix from_unix status_from_code with_common_details
    base_status message uuid_string size new_user next_session new_session is_dead retain
runs = tt

abbrev email : String
email = "alice@example.com"

abbrev password : String
password = "Secret-Secret-1"

alice_registers : (register platform start (at_zero 1) email "alice" password).0 ≡ ("|", none)
unfolding runs
alice_registers = refl

abbrev with_alice : State platform
with_alice = (register platform start (at_zero 1) email "alice" password).1

with_alice-IsIndexed : laws.IsConsistent with_alice.store
with_alice-IsIndexed =
    (register-created platform start (at_zero 1) email "alice" password laws "|"
      (new_in_memory_repo-IsIndexed stroke_uuids) (unfold runs in refl) alice_registers).6

register-created_example : laws.IsConsistent with_alice.store
register-created_example =
    (register-created platform start (at_zero 1) email "alice" password laws "|"
      (new_in_memory_repo-IsIndexed stroke_uuids) (unfold runs in refl) alice_registers).6

-- The same e-mail a second time.
register_error_run :
    (register platform with_alice (at_zero 2) email "mallory" password).1.store ≡ with_alice.store
unfolding runs
register_error_run =
    (register_error platform with_alice (at_zero 2) email "mallory" password laws _ refl).0

login_bad_credentials_example :
    (login platform start (at_zero 2) email password).1.store ≡ start.store
login_bad_credentials_example =
    (login_bad_credentials platform start (at_zero 2) email password (unfold runs in refl)
      (inl (err_not_found, unfold runs in refl))).1

login_error_run : (login platform with_alice (at_zero 2) email "wrong").1.store ≡ with_alice.store
unfolding runs
login_error_run = login_error platform with_alice (at_zero 2) email "wrong" laws _ refl

-- The tokens of the example platform, made in the first second.
alice_logs_in : (login platform with_alice (at_zero 2) email password).0 ≡ ("A|", "R|", none)
unfolding runs
alice_logs_in = refl

login-session_example :
    laws.IsConsistent (login platform with_alice (at_zero 2) email password).1.store
login-session_example =
    (login-session platform with_alice (at_zero 2) email password laws "A|" "R|"
      with_alice-IsIndexed (unfold runs in refl) alice_logs_in).6

login-register_example :
    (login platform with_alice (at_zero 2) email password).0 ≡ ("A|", "R|", none)
login-register_example =
    login-register platform laws start (at_zero 1) email "alice" password "|" email refl with_alice
      (at_zero 2) "A|" "R|" (new_in_memory_repo-IsIndexed stroke_uuids) (unfold runs in refl)
      alice_registers refl (unfold runs in refl) (unfold runs in refl)
      (λ u known. (new_session platform (at_zero 2) u "R|", unfold create_session in refl))

abbrev logged_in : State platform
logged_in = (login platform with_alice (at_zero 2) email password).1

logged_in-IsIndexed : laws.IsConsistent logged_in.store
logged_in-IsIndexed =
    (login-session platform with_alice (at_zero 2) email password laws "A|" "R|"
      with_alice-IsIndexed (unfold runs in refl) alice_logs_in).6

-- Within the second of the login, a refresh makes the same tokens again.
alice_refreshes : (refresh_session platform logged_in (at_zero 3) "R|").0 ≡ ("A|", "R|", none)
unfolding runs
alice_refreshes = refl

refresh_session_same_token_example :
    (w : Session) × (platform.repo.get_session_by_token_hash
        (refresh_session platform logged_in (at_zero 3) "R|").1.store
        (platform.sha256_hex "R|")
      ≡ ok w)
    × (w.id ≡ pg_uuid 3)
    × (w.revoked_at.valid ≡ false)
    × (w.expires_at ≡ pg_time ((at_zero 3).now + 7 * (24 * hour)))
refresh_session_same_token_example =
    refresh_session_same_token platform laws logged_in (at_zero 3) "R|" "A|" logged_in-IsIndexed
      (unfold runs in refl) alice_refreshes

refresh_session-Rotated_example :
    laws.IsConsistent (refresh_session platform logged_in (at_zero 3) "R|").1.store
refresh_session-Rotated_example =
    (refresh_session-Rotated platform logged_in (at_zero 3) "R|" laws "A|" "R|" logged_in-IsIndexed
      (unfold runs in refl) alice_refreshes).9

refresh_session-refused_run :
    refresh_session platform logged_in (at_zero 3) "X|"
    ≡ no_tokens platform logged_in err_invalid_credentials
refresh_session-refused_run =
    refresh_session-refused platform logged_in (at_zero 3) "X|" (inl (unfold runs in refl))

abbrev logged_out : State platform
logged_out = (logout platform logged_in (at_zero 3) "R|").1

-- Alice's session, as the repository has it.
abbrev alice_session : Session
alice_session = record {
  id = pg_uuid 2;
  user_id = pg_uuid 1;
  token_hash = "R|";
  expires_at = pg_time (7 * (24 * hour));
  created_at = pg_time 0;
  revoked_at = null_time;
}

-- Behind the logout, an attempt to revoke another session, which may change the repository.
abbrev long_logged_out : State platform
long_logged_out = record logged_out {
  store = (platform.repo.revoke_session logged_out.store 9 9).1;
}

refresh_session-logout_example :
    refresh_session platform long_logged_out (at_zero 4) "R|"
    ≡ no_tokens platform long_logged_out err_invalid_credentials
refresh_session-logout_example =
    (refresh_session-logout platform laws logged_in (at_zero 3) "R|" alice_session long_logged_out
      (at_zero 4) logged_in-IsIndexed (unfold runs in refl) (unfold runs in refl)
      (session_revoked logged_out.store 9 9 unchanged)).1

-- A session that is kept under the access token: its refresh makes another token.
abbrev other_session : Session
other_session = record alice_session { id = pg_uuid 5; token_hash = "A|" }

abbrev with_other : State platform
with_other = record logged_in {
  store = (create_session stroke_uuids logged_in.store other_session).1;
}

with_other-IsIndexed : laws.IsConsistent with_other.store
with_other-IsIndexed =
    create_session-IsIndexed stroke_uuids logged_in.store other_session logged_in-IsIndexed
      (unfold runs in refl)

other_refreshes : (refresh_session platform with_other (at_zero 6) "A|").0 ≡ ("A|", "R|", none)
unfolding runs
other_refreshes = refl

abbrev refreshed : State platform
refreshed = (refresh_session platform with_other (at_zero 6) "A|").1

refresh_session_replayed_example :
    refresh_session platform refreshed (at_zero 7) "A|"
    ≡ no_tokens platform refreshed err_invalid_credentials
refresh_session_replayed_example =
    refresh_session_replayed platform laws with_other (at_zero 6) "A|" "A|" "R|" refreshed
      (at_zero 7) with_other-IsIndexed (unfold runs in refl) other_refreshes
      (ground (arith, eq_iff "R|" "A|")) unchanged

-- Alice is stored, and the cache is empty or holds her.
abbrev uncached : State platform
uncached = record with_alice { cached = some empty }

uncached-IsCoherent : IsCoherent platform uncached
uncached-IsCoherent = record {
  cached_user = λ c now id raw v e shown reads.
      absurd (ground (arith, get-empty {V = String} (key_by_id stroke_uuids id)));
}

get_user_by_id-IsCoherent_example : IsCoherent platform (get_user_by_id platform uncached 0 1).1
get_user_by_id-IsCoherent_example =
    get_user_by_id-IsCoherent platform dict_cache-IsCache laws uncached 0 1 with_alice-IsIndexed
      uncached-IsCoherent

abbrev warm : State platform
warm = (get_user_by_email platform uncached 0 email).1

warm_hit : cached_view platform warm.cached 0 1 ≡ some alice_view
unfolding runs cached_view
warm_hit = refl

get_user_by_email-IsCoherent_run : IsCoherent platform warm
get_user_by_email-IsCoherent_run =
    get_user_by_email-IsCoherent platform dict_cache-IsCache laws uncached 0 email
      with_alice-IsIndexed uncached-IsCoherent

serve_get_profile-cached_example :
    (serve_get_profile platform warm (at_zero 7) "|").0
    ≡ (serve_get_profile platform (record warm { cached = none }) (at_zero 7) "|").0
serve_get_profile-cached_example = serve_get_profile-cached platform warm (at_zero 7) "|" (
    get_user_by_email-IsCoherent platform dict_cache-IsCache laws uncached 0 email
      with_alice-IsIndexed uncached-IsCoherent)
