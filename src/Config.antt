-- ===== src/Config.antt =====
-- pkg/config/vault.go: the configuration and its assembly from the secrets in Vault. The Vault
-- client is a function from a mount and a path to the data of a secret or an error.
pub mod Lists
pub mod Spelled
pub mod Load
pub mod Example
mod Tests
use Prim.Native.String.{◌++◌}
use enterprise_middleware_go.Prelude.{
  String, Bool, true, false, not, ◌||◌, ◌&&◌, ◌⊎◌, inl, inr, List, [], ◌∷◌, Option, none, some,
  ◌==◌, if◌then◌else◌,
}
use enterprise_middleware_go.Dict.{Dict, get}
use enterprise_middleware_go.Text.{trim_space, split, after, has_prefix, contains}

pub record AppConfig : Type 0 where
  pub postgres_host : String
  pub postgres_port : String
  pub postgres_db : String
  pub postgres_user : String
  pub postgres_pass : String
  pub kafka_brokers : String
  pub jwt_private_key_pem : String
  pub jwt_public_key_pem : String
  pub user_service_addr : String
  pub logger_service_addr : String
  pub cassandra_hosts : String
  pub cassandra_keyspace : String
  pub redis_host : String
  pub redis_port : String
  pub redis_pass : String

-- DSN
unfoldable pub dsn : AppConfig → String
dsn c =
    "postgres://"
    ++ (c.postgres_user
        ++ (":"
            ++ (c.postgres_pass
                ++ ("@"
                    ++ (c.postgres_host
                        ++ (":"
                            ++ (c.postgres_port
                                ++ ("/" ++ (c.postgres_db ++ "?sslmode=disable")))))))))

-- The loop of splitCommaList over the parts.
unfoldable pub trimmed_parts : List String → List String
trimmed_parts [] = []
trimmed_parts (p ∷ parts) =
    let out = trimmed_parts parts in let t = trim_space p in if t == "" then out else t ∷ out

-- splitCommaList
unfoldable pub split_comma_list : String → List String
unfolding trimmed_parts
split_comma_list s = if trim_space s == "" then [] else trimmed_parts (split b',' s)

unfoldable pub kafka_broker_list : AppConfig → List String
unfolding split_comma_list
kafka_broker_list c = split_comma_list c.kafka_brokers

unfoldable pub cassandra_host_list : AppConfig → List String
unfolding split_comma_list
cassandra_host_list c = split_comma_list c.cassandra_hosts

-- KVPaths, its anonymous structs of key names as records
pub record PgKeys : Type 0 where
  pub host : String
  pub port : String
  pub db : String
  pub user : String
  pub pass : String

pub record JwtKeys : Type 0 where
  pub private_pem : String
  pub public_pem : String

pub record SvcKeys : Type 0 where
  pub user_addr : String
  pub logger_addr : String

pub record CassKeys : Type 0 where
  pub hosts : String
  pub keyspace : String

pub record RedisKeys : Type 0 where
  pub host : String
  pub port : String
  pub pass : String

pub record KvPaths : Type 0 where
  pub pg_path : String
  pub pg_keys : PgKeys
  pub kafka_path : String
  pub kafka_brokers_key : String
  pub jwt_path : String
  pub jwt_keys : JwtKeys
  pub svc_path : String
  pub svc_keys : SvcKeys
  pub cass_path : String
  pub cass_keys : CassKeys
  pub redis_path : String
  pub redis_keys : RedisKeys

-- DefaultKVPaths
abbrev pub default_kv_paths : KvPaths
default_kv_paths = record {
  pg_path = "kv/data/app/postgres";
  pg_keys = record { host = "host"; port = "port"; db = "db"; user = "user"; pass = "password" };
  kafka_path = "kv/data/app/kafka";
  kafka_brokers_key = "brokers";
  jwt_path = "kv/data/app/jwt";
  jwt_keys = record { private_pem = "private_pem"; public_pem = "public_pem" };
  svc_path = "kv/data/app/services";
  svc_keys = record { user_addr = "user_service_addr"; logger_addr = "logger_service_addr" };
  cass_path = "kv/data/app/cassandra";
  cass_keys = record { hosts = "hosts"; keyspace = "keyspace" };
  redis_path = "kv/data/app/redis";
  redis_keys = record { host = "host"; port = "port"; pass = "password" };
}

-- extractMount; a split has a part, so the test of its length never holds
unfoldable pub extract_mount : String → String
extract_mount v2_path = elim (split b'/' v2_path) [ [] ↦ v2_path | p ∷ _ ↦ p ]

-- trimKVDataPrefix
unfoldable pub trim_kv_data_prefix : String → String
trim_kv_data_prefix v2_path = elim (after "/data/" v2_path) [ some rest ↦ rest | none ↦ v2_path ]

-- looksLikePEM
unfoldable pub looks_like_pem : String → Bool
looks_like_pem s = let t = trim_space s in has_prefix t "-----BEGIN " && contains t "-----END "

-- A value of a secret: a text, or of another type.
pub data SecretValue : Type 0 where
  text : String → SecretValue
  other_value : SecretValue

abbrev pub Secret : Type 0
Secret = Dict SecretValue

-- A call returns a value, returns an error, or panics.
pub data Loading (E A : Type 0) : Type 0 where
  loaded : A → Loading E A
  failed : E → Loading E A
  panicked : Loading E A

infixl 5 ◌>>=◌
abbrev pub ◌>>=◌ : {E A B : Type 0} → Loading E A → (A → Loading E B) → Loading E B
loaded a >>= k = k a
failed e >>= k = failed e
panicked >>= k = panicked

-- mustString
unfoldable pub must_string : {E : Type 0} → Secret → String → Loading E String
must_string m key = elim (get m key) [
  | some (text s) ↦ loaded s
  | some other_value ↦ panicked
  | none ↦ panicked
]

-- KVv2(mount).Get(ctx, path), and the two errors that the code makes.
pub record Vault (E : Type 0) : Type 0 where
  pub get_secret : String → String → E ⊎ Secret
  pub read_error : String → E → E
  pub not_pem : E

module _ {E : Type 0} where
  -- The AppConfig literal, from the six secrets.
  unfoldable pub assemble : KvPaths → (pg kfk jwt svc cass redis : Secret) → Loading E AppConfig
  assemble paths pg kfk jwt svc cass redis = do
    loaded (record {
      postgres_host = (← must_string pg paths.pg_keys.host);
      postgres_port = (← must_string pg paths.pg_keys.port);
      postgres_db = (← must_string pg paths.pg_keys.db);
      postgres_user = (← must_string pg paths.pg_keys.user);
      postgres_pass = (← must_string pg paths.pg_keys.pass);
      kafka_brokers = (← must_string kfk paths.kafka_brokers_key);
      jwt_private_key_pem = (← must_string jwt paths.jwt_keys.private_pem);
      jwt_public_key_pem = (← must_string jwt paths.jwt_keys.public_pem);
      user_service_addr = (← must_string svc paths.svc_keys.user_addr);
      logger_service_addr = (← must_string svc paths.svc_keys.logger_addr);
      cassandra_hosts = (← must_string cass paths.cass_keys.hosts);
      cassandra_keyspace = (← must_string cass paths.cass_keys.keyspace);
      redis_host = (← must_string redis paths.redis_keys.host);
      redis_port = (← must_string redis paths.redis_keys.port);
      redis_pass = (← must_string redis paths.redis_keys.pass);
    })

module _ {E : Type 0} (cli : Vault E) where
  unfoldable pub read_kv : String → Loading E Secret
  unfolding extract_mount trim_kv_data_prefix
  read_kv path = elim (cli.get_secret (extract_mount path) (trim_kv_data_prefix path)) [
    | inl e ↦ failed (cli.read_error path e)
    | inr secret ↦ loaded secret
  ]

  -- The sanity check of the JWT keys.
  unfoldable pub checked_pem : AppConfig → Loading E AppConfig
  checked_pem cfg =
      if not (looks_like_pem cfg.jwt_private_key_pem) || not (looks_like_pem cfg.jwt_public_key_pem)
      then failed cli.not_pem
      else loaded cfg

  -- LoadConfigFromVault
  unfoldable pub load_config_from_vault : KvPaths → Loading E AppConfig
  unfolding read_kv checked_pem assemble
  load_config_from_vault paths = do
    pg ← read_kv paths.pg_path
    kfk ← read_kv paths.kafka_path
    jwt ← read_kv paths.jwt_path
    svc ← read_kv paths.svc_path
    cass ← read_kv paths.cass_path
    redis ← read_kv paths.redis_path
    cfg ← assemble paths pg kfk jwt svc cass redis
    checked_pem cfg
