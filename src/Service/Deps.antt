-- ===== src/Service/Deps.antt =====
-- What a UserService is built over (its fields and the libraries that it calls), and its state.
use enterprise_middleware_go.Prelude.{ℕ, ◌*◌, String, ◌≡◌, Option, some, List}
use enterprise_middleware_go.Prelude.Int.{ℤ}
use enterprise_middleware_go.Clock.{Time, Duration, minute}
use enterprise_middleware_go.Grpc.{StatusLib}
use enterprise_middleware_go.Repo.{Uuid, UuidLib, Repository}
use enterprise_middleware_go.Auth.Passwords.{BcryptLib}
use enterprise_middleware_go.Auth.Tokens.{JwtLib, TokenManager}
use enterprise_middleware_go.Limiter.{RateLib, LimiterPool, new_limiter_pool}
use enterprise_middleware_go.Audit.{AuditService, EventStamp}

-- userCacheView
pub record UserCacheView : Type 0 where
  pub id : Uuid
  pub email : String
  pub username : String
  pub created_at : ℤ
  pub updated_at : ℤ

-- encoding/json on a userCacheView: Unmarshal reads back what Marshal wrote.
pub record ViewCodec : Type 0 where
  pub marshal : UserCacheView → Option String
  pub unmarshal : String → Option UserCacheView
  pub unmarshal-marshal :
      (v : UserCacheView) (b : String) → marshal v ≡ some b → unmarshal b ≡ some v

-- The three results of Cache.Get: (value, true, nil), ("", false, nil) and an error.
pub data CacheReply : Type 0 where
  hit : String → CacheReply
  miss failed : CacheReply

-- The Cache interface over a state C. The service drops the errors of Set and Del.
pub record Cache (C : Type 0) : Type 0 where
  pub get_reply : C → Time → String → CacheReply
  pub set_value : C → Time → String → String → Duration → C
  pub del : C → Time → List String → C

pub record Deps : Type 1 where
  pub grpc : StatusLib
  pub uuids : UuidLib
  pub bcrypt : BcryptLib
  pub jwt : JwtLib
  pub token_mng : TokenManager jwt
  pub rate : RateLib
  pub codec : ViewCodec
  -- Validator.ValidateRegister
  pub validate_register : String → String → String → String → Option grpc.Error
  -- hex(sha256(token))
  pub sha256_hex : String → String
  pub RepoState : Type 0
  pub repo : Repository RepoState
  pub CacheState : Type 0
  pub cache : Cache CacheState
  pub SinkState : Type 0
  pub audit : AuditService SinkState grpc.Error

-- The mutable parts: `cached` is none where the service's Cache is nil.
pub record State (D : Deps) : Type 0 where
  pub store : D.RepoState
  pub cached : Option D.CacheState
  pub limiters : LimiterPool D.rate
  pub sinks : D.SinkState

-- NewUserService: 10 minutes, and 100,000 keys before a sweep
abbrev pub new_user_service : (D : Deps) → D.RepoState → Option D.CacheState → D.SinkState → State D
new_user_service D repo cache audit = record {
  store = repo;
  cached = cache;
  limiters = new_limiter_pool D.rate (10 * minute) 100_000;
  sinks = audit;
}

-- What one call of a method draws from the clock, the UUID generator and the random sources, each
-- reading under the name of its place in the code.
pub record Readings : Type 0 where
  pub limiter_now : Time
  pub allow_now : Time
  pub cache_now : Time
  pub access_now : Time
  pub refresh_now : Time
  pub verify_now : Time
  pub revoke_now : Time
  pub expiry_now : Time
  pub now : Time
  pub salt : ℕ
  pub id : Uuid
  pub stamp : EventStamp
  pub correlation_id : String
