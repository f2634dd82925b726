-- ===== src/Commands/Started.antt =====
-- What main of user-service keeps, for any property of the process that its steps keep.
use enterprise_middleware_go.Prelude.{
  String, Bool, true, false, inl, inr, List, [], ◌∷◌, ◌==◌, ◌⊎◌, Bool-cases,
}
use enterprise_middleware_go.Auth.Tokens.{JwtLib, TokenManager}
use enterprise_middleware_go.Config.{AppConfig, cassandra_host_list, kafka_broker_list, dsn}
use enterprise_middleware_go.Commands.Process.{
  Process, fatal, ◌>>◌, Resource, postgres_pool, cassandra_session, kafka_producer, redis_client,
  running, done, require, acquire,
}
use enterprise_middleware_go.Commands.Keys.{KeyError, new_token_manager}
use enterprise_middleware_go.Commands.Listen.{normalize_listen_addr}
use enterprise_middleware_go.Commands.Triples.{Keeps, Ends, bind-Keeps, require-Keeps}
use enterprise_middleware_go.Commands.UserService.{
  UserEnv, temp_key, token_manager, user_postgres, user_cassandra, user_cache, redis_addr,
  user_listen, user_serving,
}

module _ {E : Type 0} {J : JwtLib} (env : UserEnv E J) (I F : Process → Type 0)
    (fails : (p : Process) → I p → F p) (opens : (r : Resource) → Keeps I F (acquire r))
    (writes : (prefix pem msg : String) → Keeps I F (temp_key env prefix pem msg)) where
  done-Keeps : {A : Type 0} (a : A) → Keeps I F (done a)
  unfolding Keeps
  done-Keeps a p h = h

  token_manager-Keeps :
      (priv_path pub_path : String) → Keeps I F (token_manager env priv_path pub_path)
  unfolding token_manager Keeps
  token_manager-Keeps priv_path pub_path p h =
      go (new_token_manager env.parsers priv_path pub_path p.files)
    where
      go :
          (created : KeyError ⊎ TokenManager J)
          → Ends {A = TokenManager J} I F (elim created [
            | inl _ ↦ (fatal "failed to init token manager", p)
            | inr tm ↦ (running tm, p)
          ])
      go (inl _) = fails p h
      go (inr _) = h

  user_postgres-Keeps : (cfg : AppConfig) → Keeps I F (user_postgres env cfg)
  unfolding user_postgres
  user_postgres-Keeps cfg =
      bind-Keeps I F _ _ (require-Keeps I F fails (env.dsn_parses (dsn cfg)) _) (λ _.
        bind-Keeps I F _ _ (require-Keeps I F fails (env.pool_starts (dsn cfg)) _) (λ _.
          bind-Keeps I F _ _ (opens postgres_pool)
            (λ _. require-Keeps I F fails (env.pool_pings (dsn cfg)) "unable to ping postgres")))

  connected-Keeps :
      (connects : Bool)
      → Keeps I F (
          require connects "failed to connect to cassandra"
          >> (acquire cassandra_session >> done true))
  connected-Keeps connects =
      bind-Keeps I F _ _ (require-Keeps I F fails connects "failed to connect to cassandra")
        (λ _. bind-Keeps I F _ _ (opens cassandra_session) (λ _. done-Keeps true))

  user_cassandra-Keeps : (cfg : AppConfig) → Keeps I F (user_cassandra env cfg)
  unfolding user_cassandra Keeps
  user_cassandra-Keeps cfg = go (cassandra_host_list cfg)
    where
      go :
          (hosts : List String)
          → Keeps {A = Bool} I F (elim hosts [
            | [] ↦ done false
            | host ∷ hosts ↦
                require
                  (env.cassandra_connects (host ∷ hosts) cfg.cassandra_keyspace)
                  "failed to connect to cassandra"
                >> (acquire cassandra_session >> done true)
          ])
      go [] = done-Keeps false
      go (host ∷ hosts) =
          connected-Keeps (env.cassandra_connects (host ∷ hosts) cfg.cassandra_keyspace)

  user_cache-Keeps : (cfg : AppConfig) → Keeps I F (user_cache env cfg)
  unfolding user_cache Keeps
  user_cache-Keeps cfg p h = elim (Bool-cases (cfg.redis_host == "")) [
    | inl e ↦ rw (e, user_cache) h
    | inr e ↦ elim (Bool-cases (env.redis_pings (redis_addr cfg))) [
      | inl q ↦ rw (e, q, user_cache) (opens redis_client p h)
      | inr q ↦ rw (e, q, user_cache) h
    ]
  ]

  user_listen-Keeps : (cfg : AppConfig) → Keeps I F (user_listen env cfg)
  unfolding user_listen
  user_listen-Keeps cfg =
      bind-Keeps I F _ _
        (require-Keeps I F fails
          (env.listens (normalize_listen_addr cfg.user_service_addr ":50051")) _)
        (λ _. done-Keeps _)

  pub user_serving-Keeps :
      (cfg : AppConfig) (priv_path : String) → Keeps I F (user_serving env cfg priv_path)
  unfolding user_serving
  user_serving-Keeps cfg priv_path =
      bind-Keeps I F _ _ (writes "jwt-pub" cfg.jwt_public_key_pem "write public pem") (λ pub_path.
        bind-Keeps I F _ _ (token_manager-Keeps priv_path pub_path) (λ tm.
          bind-Keeps I F _ _ (user_postgres-Keeps cfg) (λ _.
            bind-Keeps I F _ _ (user_cassandra-Keeps cfg) (λ cass.
              bind-Keeps I F _ _ (opens kafka_producer) (λ _.
                bind-Keeps I F _ _ (user_cache-Keeps cfg) (λ cache_addr.
                  bind-Keeps I F _ _ (user_listen-Keeps cfg) (λ addr. done-Keeps (record {
                    token_mng = tm;
                    brokers = kafka_broker_list cfg;
                    cassandra = cass;
                    cache_addr = cache_addr;
                    listen_addr = addr;
                  }))))))))
