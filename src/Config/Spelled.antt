-- ===== src/Config/Spelled.antt =====
-- The configuration that six secrets spell.
use mathlib.Core.Path.{subst}
use enterprise_middleware_go.Prelude.{String, ◌≡◌, refl, Option, none, some, arith}
use enterprise_middleware_go.Dict.{get}
use enterprise_middleware_go.Config.{
  AppConfig, KvPaths, Secret, SecretValue, text, other_value, Loading, loaded, failed, panicked,
  must_string, assemble, ◌>>=◌,
}

-- Each field has the text that is stored under its key.
pub record IsSpelled (paths : KvPaths) (pg kfk jwt svc cass redis : Secret) (cfg : AppConfig)
    : Type 0 where
  pub postgres_host : get pg paths.pg_keys.host ≡ some (text cfg.postgres_host)
  pub postgres_port : get pg paths.pg_keys.port ≡ some (text cfg.postgres_port)
  pub postgres_db : get pg paths.pg_keys.db ≡ some (text cfg.postgres_db)
  pub postgres_user : get pg paths.pg_keys.user ≡ some (text cfg.postgres_user)
  pub postgres_pass : get pg paths.pg_keys.pass ≡ some (text cfg.postgres_pass)
  pub kafka_brokers : get kfk paths.kafka_brokers_key ≡ some (text cfg.kafka_brokers)
  pub jwt_private_key_pem : get jwt paths.jwt_keys.private_pem ≡ some (text cfg.jwt_private_key_pem)
  pub jwt_public_key_pem : get jwt paths.jwt_keys.public_pem ≡ some (text cfg.jwt_public_key_pem)
  pub user_service_addr : get svc paths.svc_keys.user_addr ≡ some (text cfg.user_service_addr)
  pub logger_service_addr : get svc paths.svc_keys.logger_addr ≡ some (text cfg.logger_service_addr)
  pub cassandra_hosts : get cass paths.cass_keys.hosts ≡ some (text cfg.cassandra_hosts)
  pub cassandra_keyspace : get cass paths.cass_keys.keyspace ≡ some (text cfg.cassandra_keyspace)
  pub redis_host : get redis paths.redis_keys.host ≡ some (text cfg.redis_host)
  pub redis_port : get redis paths.redis_keys.port ≡ some (text cfg.redis_port)
  pub redis_pass : get redis paths.redis_keys.pass ≡ some (text cfg.redis_pass)

module _ {E : Type 0} where
  pub bind_inv :
      {A B : Type 0} (m : Loading E A) (k : A → Loading E B) (b : B)
      → (m >>= k) ≡ loaded b
      → (a : A) × (m ≡ loaded a) × (k a ≡ loaded b)
  bind_inv (loaded a) k b h = (a, refl, h)
  bind_inv (failed e) k b h = cc
  bind_inv panicked k b h = cc

  loaded_inj : {A : Type 0} (a b : A) → ◌≡◌ {A = Loading E A} (loaded a) (loaded b) → a ≡ b
  loaded_inj a b h = cc h

  must_string_inv :
      (m : Secret) (key s : String)
      → must_string {E = E} m key ≡ loaded s
      → get m key ≡ some (text s)
  unfolding must_string
  must_string_inv m key s h = go (get m key) refl
    where
      go : (o : Option SecretValue) → get m key ≡ o → get m key ≡ some (text s)
      go none e = absurd (ground (arith, e))
      go (some other_value) e = absurd (ground (arith, e))
      go (some (text t)) e = ground (arith, e)

  must_string_text :
      (m : Secret) (key s : String)
      → get m key ≡ some (text s)
      → must_string {E = E} m key ≡ loaded s
  unfolding must_string
  must_string_text m key s h = rw (h, must_string) refl

  module _ (paths : KvPaths) (pg kfk jwt svc cass redis : Secret) (cfg : AppConfig) where
    pub assemble-IsSpelled :
        assemble {E = E} paths pg kfk jwt svc cass redis ≡ loaded cfg
        → IsSpelled paths pg kfk jwt svc cass redis cfg
    unfolding assemble
    assemble-IsSpelled h =
        let (v0, e0, h0) = bind_inv (must_string pg paths.pg_keys.host) _ cfg h in
        let (v1, e1, h1) = bind_inv (must_string pg paths.pg_keys.port) _ cfg h0 in
        let (v2, e2, h2) = bind_inv (must_string pg paths.pg_keys.db) _ cfg h1 in
        let (v3, e3, h3) = bind_inv (must_string pg paths.pg_keys.user) _ cfg h2 in
        let (v4, e4, h4) = bind_inv (must_string pg paths.pg_keys.pass) _ cfg h3 in
        let (v5, e5, h5) = bind_inv (must_string kfk paths.kafka_brokers_key) _ cfg h4 in
        let (v6, e6, h6) = bind_inv (must_string jwt paths.jwt_keys.private_pem) _ cfg h5 in
        let (v7, e7, h7) = bind_inv (must_string jwt paths.jwt_keys.public_pem) _ cfg h6 in
        let (v8, e8, h8) = bind_inv (must_string svc paths.svc_keys.user_addr) _ cfg h7 in
        let (v9, e9, h9) = bind_inv (must_string svc paths.svc_keys.logger_addr) _ cfg h8 in
        let (v10, e10, h10) = bind_inv (must_string cass paths.cass_keys.hosts) _ cfg h9 in
        let (v11, e11, h11) = bind_inv (must_string cass paths.cass_keys.keyspace) _ cfg h10 in
        let (v12, e12, h12) = bind_inv (must_string redis paths.redis_keys.host) _ cfg h11 in
        let (v13, e13, h13) = bind_inv (must_string redis paths.redis_keys.port) _ cfg h12 in
        let (v14, e14, h14) = bind_inv (must_string redis paths.redis_keys.pass) _ cfg h13 in
        let made : AppConfig = record {
          postgres_host = v0;
          postgres_port = v1;
          postgres_db = v2;
          postgres_user = v3;
          postgres_pass = v4;
          kafka_brokers = v5;
          jwt_private_key_pem = v6;
          jwt_public_key_pem = v7;
          user_service_addr = v8;
          logger_service_addr = v9;
          cassandra_hosts = v10;
          cassandra_keyspace = v11;
          redis_host = v12;
          redis_port = v13;
          redis_pass = v14;
        } in
        let same = loaded_inj made cfg h14 in
        subst (IsSpelled paths pg kfk jwt svc cass redis) same (record {
          postgres_host = must_string_inv pg paths.pg_keys.host v0 e0;
          postgres_port = must_string_inv pg paths.pg_keys.port v1 e1;
          postgres_db = must_string_inv pg paths.pg_keys.db v2 e2;
          postgres_user = must_string_inv pg paths.pg_keys.user v3 e3;
          postgres_pass = must_string_inv pg paths.pg_keys.pass v4 e4;
          kafka_brokers = must_string_inv kfk paths.kafka_brokers_key v5 e5;
          jwt_private_key_pem = must_string_inv jwt paths.jwt_keys.private_pem v6 e6;
          jwt_public_key_pem = must_string_inv jwt paths.jwt_keys.public_pem v7 e7;
          user_service_addr = must_string_inv svc paths.svc_keys.user_addr v8 e8;
          logger_service_addr = must_string_inv svc paths.svc_keys.logger_addr v9 e9;
          cassandra_hosts = must_string_inv cass paths.cass_keys.hosts v10 e10;
          cassandra_keyspace = must_string_inv cass paths.cass_keys.keyspace v11 e11;
          redis_host = must_string_inv redis paths.redis_keys.host v12 e12;
          redis_port = must_string_inv redis paths.redis_keys.port v13 e13;
          redis_pass = must_string_inv redis paths.redis_keys.pass v14 e14;
        })

    pub assemble_of_IsSpelled :
        IsSpelled paths pg kfk jwt svc cass redis cfg
        → assemble {E = E} paths pg kfk jwt svc cass redis ≡ loaded cfg
    unfolding assemble
    assemble_of_IsSpelled x =
        rw
          (
            must_string_text pg paths.pg_keys.host cfg.postgres_host x.postgres_host,
            must_string_text pg paths.pg_keys.port cfg.postgres_port x.postgres_port,
            must_string_text pg paths.pg_keys.db cfg.postgres_db x.postgres_db,
            must_string_text pg paths.pg_keys.user cfg.postgres_user x.postgres_user,
            must_string_text pg paths.pg_keys.pass cfg.postgres_pass x.postgres_pass,
            must_string_text kfk paths.kafka_brokers_key cfg.kafka_brokers x.kafka_brokers,
            must_string_text jwt paths.jwt_keys.private_pem cfg.jwt_private_key_pem
                x.jwt_private_key_pem,
            must_string_text jwt paths.jwt_keys.public_pem cfg.jwt_public_key_pem
                x.jwt_public_key_pem,
            must_string_text svc paths.svc_keys.user_addr cfg.user_service_addr x.user_service_addr,
            must_string_text svc paths.svc_keys.logger_addr cfg.logger_service_addr
                x.logger_service_addr,
            must_string_text cass paths.cass_keys.hosts cfg.cassandra_hosts x.cassandra_hosts,
            must_string_text cass paths.cass_keys.keyspace cfg.cassandra_keyspace
                x.cassandra_keyspace,
            must_string_text redis paths.redis_keys.host cfg.redis_host x.redis_host,
            must_string_text redis paths.redis_keys.port cfg.redis_port x.redis_port,
            must_string_text redis paths.redis_keys.pass cfg.redis_pass x.redis_pass,
            assemble,
          )
          refl
