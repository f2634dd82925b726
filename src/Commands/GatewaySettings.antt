-- ===== src/Commands/GatewaySettings.antt =====
-- loadConfig of cmd/gateway/main.go: the flags of the command line before the environment, and that
-- before the defaults.
use enterprise_middleware_go.Prelude.{
  String, List, [], ◌∷◌, Option, none, some, ◌==◌, if◌then◌else◌,
}
use enterprise_middleware_go.Dict.{Dict, get}
use enterprise_middleware_go.Text.{trim_space, split}

pub record GatewayConfig : Type 0 where
  pub http_addr : String
  pub user_grpc : String
  pub logger_grpc : String
  pub brokers : List String

-- The values of the flags, of brokers in the order of the command line.
pub record Flags : Type 0 where
  pub http : Option String
  pub user_grpc : Option String
  pub logger_grpc : Option String
  pub brokers : List String

-- getEnv
unfoldable pub get_env : Dict String → String → String → String
get_env environ k def = elim (get environ k) [ none ↦ def | some v ↦ if v == "" then def else v ]

-- The loop of splitAndTrimOrDefault; the capacity that outPool gives the slice changes nothing.
unfoldable pub nonblank_parts : List String → List String
nonblank_parts [] = []
nonblank_parts (p ∷ parts) =
    let out = nonblank_parts parts in let v = trim_space p in if v == "" then out else v ∷ out

-- splitAndTrimOrDefault
unfoldable pub split_and_trim_or_default : String → String → List String
unfolding nonblank_parts
split_and_trim_or_default input def =
    if trim_space input == ""
    then nonblank_parts (split b',' def)
    else nonblank_parts (split b',' input)

abbrev pub given_or : Option String → String → String
given_or none def = def
given_or (some v) def = v

-- cfg.brokers after flag.Parse, which calls the function for each -brokers.
unfoldable pub parse_brokers : List String → String → List String → List String
unfolding split_and_trim_or_default
parse_brokers brokers def [] = brokers
parse_brokers brokers def (s ∷ later) = parse_brokers (split_and_trim_or_default s def) def later

-- The default for no brokers at all.
unfoldable pub brokers_or_default : List String → String → List String
unfolding split_and_trim_or_default
brokers_or_default [] def = split_and_trim_or_default def def
brokers_or_default (b ∷ brokers) def = b ∷ brokers

-- loadConfig
unfoldable pub load_config : Dict String → Flags → GatewayConfig
unfolding get_env parse_brokers brokers_or_default
load_config environ flags =
    let brokers_default = get_env environ "KAFKA_BROKERS" "kafka:9092" in
    record {
      http_addr = given_or flags.http (get_env environ "HTTP_ADDR" ":8080");
      user_grpc =
          given_or flags.user_grpc (get_env environ "USER_SERVICE_ADDR" "user-service:50051");
      logger_grpc =
          given_or flags.logger_grpc (get_env environ "LOGGER_SERVICE_ADDR" "logger-service:9092");
      brokers = brokers_or_default (parse_brokers [] brokers_default flags.brokers) brokers_default;
    }
