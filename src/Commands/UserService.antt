-- ===== src/Commands/UserService.antt =====
-- main of cmd/user-service/main.go, until it serves. Connections to the other services are answered
-- by the environment; both ways in which serving ends lead to the end of main.
use Prim.Native.String.{◌++◌}
use enterprise_middleware_go.Prelude.{
  String, Bool, true, false, not, ◌&&◌, inl, inr, List, [], ◌∷◌, Option, none, some, ◌==◌,
  if◌then◌else◌,
}
use enterprise_middleware_go.Text.{contains}
use enterprise_middleware_go.Auth.Tokens.{JwtLib, TokenManager}
use enterprise_middleware_go.Config.{AppConfig, Vault, dsn, kafka_broker_list, cassandra_host_list}
use enterprise_middleware_go.Commands.Process.{
  postgres_pool, cassandra_session, kafka_producer, redis_client, removal, Main, fatal, running,
  ◌>>=◌, ◌>>◌, done, require, acquire,
}
use enterprise_middleware_go.Commands.Files.{TempFiles, normalize_pem, write_temp_pem}
use enterprise_middleware_go.Commands.Keys.{KeyParsers, new_token_manager}
use enterprise_middleware_go.Commands.VaultConfig.{vault_config}
use enterprise_middleware_go.Commands.Listen.{normalize_listen_addr}

-- What the process meets, by the call's arguments.
pub record UserEnv (E : Type 0) (J : JwtLib) : Type 0 where
  pub vault_client : Bool
  pub vault : Vault E
  pub os : TempFiles
  pub parsers : KeyParsers J
  pub dsn_parses : String → Bool
  pub pool_starts : String → Bool
  pub pool_pings : String → Bool
  pub cassandra_connects : List String → String → Bool
  pub redis_pings : String → Bool
  pub listens : String → Bool

-- What the service is put together from: the sessions that are nil are absent.
pub record Serving (J : JwtLib) : Type 0 where
  pub token_mng : TokenManager J
  pub brokers : List String
  pub cassandra : Bool
  pub cache_addr : Option String
  pub listen_addr : String

-- The address of Redis.
unfoldable pub redis_addr : AppConfig → String
unfolding contains
redis_addr cfg =
    if not (cfg.redis_port == "") && not (contains cfg.redis_host ":")
    then cfg.redis_host ++ (":" ++ cfg.redis_port)
    else cfg.redis_host

module _ {E : Type 0} {J : JwtLib} (env : UserEnv E J) where
  -- A key is written to a file, whose removal is deferred.
  unfoldable pub temp_key : String → String → String → Main String
  unfolding write_temp_pem normalize_pem
  temp_key prefix pem msg p =
      let (path, files) = write_temp_pem env.os prefix (normalize_pem pem) p.files in
      elim path [
        | none ↦ (fatal msg, record p { files = files })
        | some path ↦
            (running path, record p { files = files; deferred = removal path ∷ p.deferred })
      ]

  unfoldable pub token_manager : String → String → Main (TokenManager J)
  unfolding new_token_manager
  token_manager priv_path pub_path p =
      elim (new_token_manager env.parsers priv_path pub_path p.files) [
        | inl _ ↦ (fatal "failed to init token manager", p)
        | inr tm ↦ (running tm, p)
      ]

  unfoldable pub user_postgres : AppConfig → Main (Unit {0})
  user_postgres cfg = do
    require (env.dsn_parses (dsn cfg)) "invalid postgres DSN"
    require (env.pool_starts (dsn cfg)) "failed to create postgres pool"
    acquire postgres_pool
    require (env.pool_pings (dsn cfg)) "unable to ping postgres"

  unfoldable pub user_cassandra : AppConfig → Main Bool
  user_cassandra cfg = elim (cassandra_host_list cfg) [
    | [] ↦ done false
    | host ∷ hosts ↦
        require (env.cassandra_connects (host ∷ hosts) cfg.cassandra_keyspace)
          "failed to connect to cassandra"
        >> (acquire cassandra_session >> done true)
  ]

  -- A Redis that does not answer is closed at once, and main goes on without it.
  unfoldable pub user_cache : AppConfig → Main (Option String)
  unfolding redis_addr
  user_cache cfg =
      if cfg.redis_host == ""
      then done none
      else if env.redis_pings (redis_addr cfg)
      then acquire redis_client >> done (some (redis_addr cfg))
      else done none

  unfoldable pub user_listen : AppConfig → Main String
  unfolding normalize_listen_addr
  user_listen cfg =
      let addr = normalize_listen_addr cfg.user_service_addr ":50051" in
      require (env.listens addr) "failed to listen" >> done addr

  -- main behind the configuration and the file of the private key
  unfoldable pub user_serving : AppConfig → String → Main (Serving J)
  unfolding temp_key token_manager user_postgres user_cassandra user_cache user_listen
  user_serving cfg priv_path = do
    pub_path ← temp_key "jwt-pub" cfg.jwt_public_key_pem "write public pem"
    tm ← token_manager priv_path pub_path
    user_postgres cfg
    cass ← user_cassandra cfg
    acquire kafka_producer
    cache_addr ← user_cache cfg
    addr ← user_listen cfg
    done (record {
      token_mng = tm;
      brokers = kafka_broker_list cfg;
      cassandra = cass;
      cache_addr = cache_addr;
      listen_addr = addr;
    })

  unfoldable pub user_main : Main (Serving J)
  unfolding temp_key user_serving
  user_main = do
    cfg ← vault_config env.vault_client env.vault
    priv_path ← temp_key "jwt-priv" cfg.jwt_private_key_pem "write private pem"
    user_serving cfg priv_path
