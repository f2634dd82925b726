-- ===== src/Config/Tests.antt =====
-- A Vault with one secret for every path.
use enterprise_middleware_go.Prelude.{◌≡◌, refl, [], ◌∷◌}
use enterprise_middleware_go.Dict.{get}
use enterprise_middleware_go.Text.{trim_space, split, after, has_prefix, contains}
use enterprise_middleware_go.Config.{
  AppConfig, default_kv_paths, must_string, looks_like_pem, load_config_from_vault,
  split_comma_list, extract_mount, trim_kv_data_prefix, dsn,
}
use enterprise_middleware_go.Config.Example.{pem, secret, one_secret}
use enterprise_middleware_go.Config.Lists.{kv_path}
use enterprise_middleware_go.Config.Load.{IsLoaded, load_config_iff}

spaces : split_comma_list " kafka-1:9092, ,kafka-2:9092 ," ≡ "kafka-1:9092" ∷ "kafka-2:9092" ∷ []
unfolding split_comma_list trim_space split
spaces = refl

kv_path_run :
    (extract_mount "kv/data/app/jwt" ≡ "kv") × (trim_kv_data_prefix "kv/data/app/jwt" ≡ "app/jwt")
kv_path_run = kv_path "kv" "app/jwt" (refl, (refl, tt))

abbrev config : AppConfig
config = record {
  postgres_host = "db";
  postgres_port = "5432";
  postgres_db = "app";
  postgres_user = "u";
  postgres_pass = "p";
  kafka_brokers = "kafka:9092";
  jwt_private_key_pem = pem;
  jwt_public_key_pem = pem;
  user_service_addr = ":50051";
  logger_service_addr = ":50052";
  cassandra_hosts = "c:9042";
  cassandra_keyspace = "audit";
  redis_host = "db";
  redis_port = "5432";
  redis_pass = "p";
}

load_config_iff_example : IsLoaded one_secret default_kv_paths config
unfolding load_config_from_vault must_string secret get looks_like_pem trim_space has_prefix
    contains after split
load_config_iff_example = (load_config_iff one_secret default_kv_paths config).0 refl

dsn_example : dsn config ≡ "postgres://u:p@db:5432/app?sslmode=disable"
unfolding dsn
dsn_example = refl
