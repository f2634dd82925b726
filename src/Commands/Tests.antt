-- ===== src/Commands/Tests.antt =====
-- Addresses, keys and settings of the programs.
use Prim.Native.String.{◌++◌}
use enterprise_middleware_go.Prelude.{◌≡◌, refl, true, false, [], ◌∷◌, none, some}
use enterprise_middleware_go.Text.{has_prefix, trim_space, contains, after, split}
use enterprise_middleware_go.Commands.Addresses.{join_host_port, listen_addr-join_host_port}
use enterprise_middleware_go.Commands.Usable.{IsAddress, listen_addr-IsAddress}
use enterprise_middleware_go.Commands.Listen.{
  split_host_port, normalize_listen_addr, logger_listen_addr,
}
use enterprise_middleware_go.Commands.Process.{
  run_main, fatal, closing, removal, postgres_pool, kafka_producer, cassandra_session, read_file,
}
use enterprise_middleware_go.Commands.VaultConfig.{vault_config}
use enterprise_middleware_go.Commands.Files.{normalize_pem}
use enterprise_middleware_go.Config.{
  split_comma_list, load_config_from_vault, must_string, looks_like_pem, read_kv,
  cassandra_host_list,
}
use enterprise_middleware_go.Config.Example.{pem, secret, one_secret}
use enterprise_middleware_go.Dict.{get, empty}
use enterprise_middleware_go.Commands.GatewaySettings.{Flags, get_env, load_config}
use enterprise_middleware_go.Commands.Brokers.{list_or, last_or, load_config-brokers}
use enterprise_middleware_go.Commands.LoggerService.{logger_main}
use enterprise_middleware_go.Commands.UserService.{user_main}
use enterprise_middleware_go.Commands.Ends.{begun, Leaves, user_main-Leaves}
use enterprise_middleware_go.Commands.Example.{no_postgres}

split_host_port_runs :
    (split_host_port "a:1" ≡ some ("a", "1"))
    × (split_host_port "[::1]:80" ≡ some ("::1", "80"))
    × (split_host_port "::1" ≡ none)
    × (split_host_port "a[:1" ≡ none)
    × (split_host_port "[a]" ≡ none)
    × (split_host_port "[a]b:1" ≡ none)
    × (split_host_port ":" ≡ some ("", ""))
unfolding split_host_port
split_host_port_runs = (refl, refl, refl, refl, refl, refl, refl)

listen_runs :
    (normalize_listen_addr "50051" ":1" ≡ ":50051")
    × (normalize_listen_addr "0.0.0.0:50051" ":1" ≡ "0.0.0.0:50051")
    × (logger_listen_addr "127.0.0.1:50052" ≡ ":50052")
    × (logger_listen_addr "h:" ≡ ":50052")
    × (normalize_listen_addr "a:b:c" ":1" ≡ ":1")
unfolding normalize_listen_addr logger_listen_addr
listen_runs = (refl, refl, refl, refl, refl)

listen_addr-join_host_port_example :
    (normalize_listen_addr (join_host_port "h" "1") ":1" ≡ join_host_port "h" "1")
    × (logger_listen_addr (join_host_port "h" "1") ≡ ":" ++ "1")
listen_addr-join_host_port_example =
    listen_addr-join_host_port "h" "1" ":1" ((refl, tt), (refl, tt), (refl, tt))
      ((refl, tt), (refl, tt), (refl, tt)) refl

listen_addr-IsAddress_run :
    IsAddress (normalize_listen_addr ":80" ":1") × IsAddress (logger_listen_addr ":80")
unfolding split_host_port has_prefix
listen_addr-IsAddress_run =
    listen_addr-IsAddress ":80" ":1" refl (refl, (refl, (refl, tt))) (refl, (refl, (refl, tt)))
      (λ (_ : has_prefix ":80" ":" ≡ true). refl)

-- The process ends because Postgres does not answer, and the key stays.
user_main-Leaves_example : Leaves no_postgres [] [] (run_main (user_main no_postgres) (begun [] []))
user_main-Leaves_example = user_main-Leaves no_postgres [] []

user_main_run : run_main (user_main no_postgres) (begun [] []) ≡ (
  fatal "unable to ping postgres",
  record {
    files = ("jwt-pub", normalize_pem pem) ∷ ("jwt-priv", normalize_pem pem) ∷ [];
    opened = postgres_pool ∷ [];
    deferred = closing postgres_pool ∷ removal "jwt-pub" ∷ removal "jwt-priv" ∷ [];
  },
)
unfolding run_main user_main vault_config load_config_from_vault must_string secret get
    looks_like_pem trim_space has_prefix contains after split read_file read_kv
user_main_run = refl

abbrev no_flags : Flags
no_flags = record {
  http = none;
  user_grpc = none;
  logger_grpc = none;
  brokers = " k:1 , " ∷ " " ∷ [];
}

load_config-brokers_example :
    (load_config empty no_flags).brokers
    ≡ list_or
        (split_comma_list
          (last_or "" (get_env empty "KAFKA_BROKERS" "kafka:9092") no_flags.brokers))
        (split_comma_list (get_env empty "KAFKA_BROKERS" "kafka:9092"))
load_config-brokers_example = load_config-brokers empty no_flags

load_config_run : (load_config empty no_flags).brokers ≡ "kafka:9092" ∷ []
unfolding load_config get empty trim_space split
load_config_run = refl

logger_main_run :
    run_main
      (logger_main (record {
        vault_client = true;
        vault = one_secret;
        reaches = λ hosts. true;
        connects = λ hosts keyspace. true;
        executes = λ statement. true;
        listens = λ addr. true;
        serves = false;
      }))
      (begun [] [])
    ≡ (
      fatal "grpc server exited with error",
      record {
        files = [];
        opened = kafka_producer ∷ cassandra_session ∷ [];
        deferred = closing kafka_producer ∷ closing cassandra_session ∷ [];
      },
    )
unfolding run_main logger_main vault_config load_config_from_vault must_string secret get
    looks_like_pem trim_space has_prefix contains after split read_kv cassandra_host_list
logger_main_run = refl
