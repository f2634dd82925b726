-- ===== src/Commands/LoggerService.antt =====
-- main of cmd/logger-service/main.go: its Cassandra session, its producer and its listener, until the
-- server ends.
use Prim.Native.String.{◌++◌}
use enterprise_middleware_go.Prelude.{String, Bool, true, false, ◌&&◌, List, [], ◌∷◌}
use enterprise_middleware_go.Config.{AppConfig, Vault, kafka_broker_list, cassandra_host_list}
use enterprise_middleware_go.Commands.Process.{
  cassandra_session, kafka_producer, Main, ◌>>=◌, ◌>>◌, done, require, acquire,
}
use enterprise_middleware_go.Commands.VaultConfig.{vault_config}
use enterprise_middleware_go.Commands.Listen.{logger_listen_addr}

-- What the process meets: reaches is a session without a keyspace, executes is whether a statement
-- succeeds, and serves is whether the server ends by the signal.
pub record LoggerEnv (E : Type 0) : Type 0 where
  pub vault_client : Bool
  pub vault : Vault E
  pub reaches : List String → Bool
  pub connects : List String → String → Bool
  pub executes : String → Bool
  pub listens : String → Bool
  pub serves : Bool

pub record Logging : Type 0 where
  pub brokers : List String
  pub cassandra : Bool
  pub listen_addr : String

-- The two statements, with a space for each run of white space.
unfoldable pub create_keyspace : String → String
create_keyspace keyspace =
    "CREATE KEYSPACE IF NOT EXISTS "
    ++ (keyspace ++ " WITH replication = {'class':'SimpleStrategy','replication_factor':1}")

abbrev pub create_audit_logs : String
create_audit_logs =
    "CREATE TABLE IF NOT EXISTS audit_logs ( id text, ts timestamp, user_id text, event_type text, correlation_id text, payload_json text, created_at timestamp, PRIMARY KEY (id) )"

module _ {E : Type 0} (env : LoggerEnv E) where
  -- ensureKeyspace; its own session is closed whatever the statement does
  unfoldable pub ensure_keyspace : List String → String → Bool
  unfolding create_keyspace
  ensure_keyspace hosts keyspace = env.reaches hosts && env.executes (create_keyspace keyspace)

  -- ensureAuditSchema
  unfoldable pub ensure_audit_schema : Bool
  ensure_audit_schema = env.executes create_audit_logs

  -- setupCassandra, and the schema of the session that it returns
  unfoldable pub setup_cassandra : List String → String → Main Bool
  unfolding ensure_keyspace ensure_audit_schema
  setup_cassandra [] keyspace = done false
  setup_cassandra (host ∷ hosts) keyspace = do
    require (ensure_keyspace (host ∷ hosts) keyspace) "cassandra setup failed"
    require (env.connects (host ∷ hosts) keyspace) "cassandra setup failed"
    acquire cassandra_session
    require ensure_audit_schema "ensuring audit schema failed"
    done true

  unfoldable pub logger_serving : AppConfig → Main Logging
  unfolding setup_cassandra logger_listen_addr
  logger_serving cfg = do
    cass ← setup_cassandra (cassandra_host_list cfg) cfg.cassandra_keyspace
    acquire kafka_producer
    require (env.listens (logger_listen_addr cfg.logger_service_addr)) "failed to listen"
    require env.serves "grpc server exited with error"
    done (record {
      brokers = kafka_broker_list cfg;
      cassandra = cass;
      listen_addr = logger_listen_addr cfg.logger_service_addr;
    })

  unfoldable pub logger_main : Main Logging
  unfolding logger_serving
  logger_main = do cfg ← vault_config env.vault_client env.vault; logger_serving cfg
