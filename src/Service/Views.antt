-- ===== src/Service/Views.antt =====
-- The cached projection of a user, its keys and their times to live.
pub mod Projection
use enterprise_middleware_go.Prelude.{String, ◌*◌}
use Prim.Native.String.{◌++◌}
use enterprise_middleware_go.Clock.{Duration, minute, to_unix, from_unix}
use enterprise_middleware_go.Repo.{Uuid, UuidLib, User, pg_uuid, pg_time}
use enterprise_middleware_go.Service.Deps.{UserCacheView}

-- toView
unfoldable pub to_view : User → UserCacheView
unfolding to_unix
to_view u = record {
  id = u.id.bytes;
  email = u.email;
  username = u.username;
  created_at = to_unix u.created_at.time;
  updated_at = to_unix u.updated_at.time;
}

-- toUserRow
unfoldable pub to_user_row : UserCacheView → User
unfolding from_unix
to_user_row v = record {
  id = pg_uuid v.id;
  email = v.email;
  username = v.username;
  password_hash = "";
  created_at = pg_time (from_unix v.created_at);
  updated_at = pg_time (from_unix v.updated_at);
}

abbrev pub cache_ttl_user_hot : Duration
cache_ttl_user_hot = 2 * minute

abbrev pub cache_ttl_user_warm : Duration
cache_ttl_user_warm = 10 * minute

-- keyByEmail, keyByID
unfoldable pub key_by_email : String → String
key_by_email email = "user:email:" ++ email

unfoldable pub key_by_id : UuidLib → Uuid → String
key_by_id uuids id = "user:id:" ++ uuids.to_string id
