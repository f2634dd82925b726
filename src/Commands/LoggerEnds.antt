-- ===== src/Commands/LoggerEnds.antt =====
-- The ends of main of logger-service.
use enterprise_middleware_go.Prelude.{String, ◌≡◌, refl, Bool, true, false, List, [], ◌∷◌}
use enterprise_middleware_go.Config.{AppConfig, kafka_broker_list, cassandra_host_list}
use enterprise_middleware_go.Commands.Process.{
  FileSystem, Process, Resource, cassandra_session, kafka_producer, Exited, fatal, panicked,
  running, acquire, require, done, run_main, run_deferred, left_behind,
}
use enterprise_middleware_go.Commands.Triples.{Ends, Keeps, bind-Keeps, require-Keeps}
use enterprise_middleware_go.Commands.Listen.{logger_listen_addr}
use enterprise_middleware_go.Commands.Cleanup.{Restores, acquire-Restores, vault_config-Keeps}
use enterprise_middleware_go.Commands.Ends.{begun}
use enterprise_middleware_go.Commands.LoggerService.{
  LoggerEnv, Logging, ensure_keyspace, ensure_audit_schema, setup_cassandra, logger_serving,
  logger_main,
}

-- The files are those that main began with.
SameFiles : FileSystem → Process → Type 0
SameFiles files p = p.files ≡ files

-- The deferred calls lead back to the beginning, and no file is touched.
Untouched : FileSystem → List Resource → Process → Type 0
Untouched files opened p = Restores (begun files opened) p × (p.files ≡ files)

acquire-Untouched :
    (files : FileSystem) (opened : List Resource) (r : Resource)
    → Keeps (Untouched files opened) (SameFiles files) (acquire r)
unfolding Untouched Keeps
acquire-Untouched files opened r p (h, same) = (acquire-Restores (begun files opened) r p h, same)

module _ {E : Type 0} (env : LoggerEnv E) (files : FileSystem) (opened : List Resource) where
  fails : (p : Process) → Untouched files opened p → SameFiles files p
  unfolding Untouched SameFiles
  fails p (_, same) = same

  done-Untouched : {A : Type 0} (a : A) → Keeps (Untouched files opened) (SameFiles files) (done a)
  unfolding Keeps
  done-Untouched a p h = h

  require-Untouched :
      (test : Bool) (msg : String)
      → Keeps (Untouched files opened) (SameFiles files) (require test msg)
  require-Untouched test msg =
      require-Keeps (Untouched files opened) (SameFiles files) fails test msg

  setup_cassandra-Untouched :
      (hosts : List String) (keyspace : String)
      → Keeps (Untouched files opened) (SameFiles files) (setup_cassandra env hosts keyspace)
  unfolding setup_cassandra
  setup_cassandra-Untouched [] keyspace = done-Untouched false
  setup_cassandra-Untouched (host ∷ hosts) keyspace =
      bind-Keeps (Untouched files opened) (SameFiles files) _ _
        (require-Untouched (ensure_keyspace env (host ∷ hosts) keyspace) "cassandra setup failed")
        (λ _.
          bind-Keeps (Untouched files opened) (SameFiles files) _ _
            (require-Untouched (env.connects (host ∷ hosts) keyspace) "cassandra setup failed")
            (λ _.
              bind-Keeps (Untouched files opened) (SameFiles files) _ _
                (acquire-Untouched files opened cassandra_session)
                (λ _.
                  bind-Keeps (Untouched files opened) (SameFiles files) _ _
                    (require-Untouched (ensure_audit_schema env) "ensuring audit schema failed")
                    (λ _. done-Untouched true))))

  logger_serving-Untouched :
      (cfg : AppConfig) → Keeps (Untouched files opened) (SameFiles files) (logger_serving env cfg)
  unfolding logger_serving
  logger_serving-Untouched cfg =
      bind-Keeps (Untouched files opened) (SameFiles files) _ _
        (setup_cassandra-Untouched (cassandra_host_list cfg) cfg.cassandra_keyspace)
        (λ cass.
          bind-Keeps (Untouched files opened) (SameFiles files) _ _
            (acquire-Untouched files opened kafka_producer)
            (λ _.
              bind-Keeps (Untouched files opened) (SameFiles files) _ _
                (require-Untouched (env.listens (logger_listen_addr cfg.logger_service_addr))
                  "failed to listen")
                (λ _.
                  bind-Keeps (Untouched files opened) (SameFiles files) _ _
                    (require-Untouched env.serves "grpc server exited with error")
                    (λ _. done-Untouched (record {
                      brokers = kafka_broker_list cfg;
                      cassandra = cass;
                      listen_addr = logger_listen_addr cfg.logger_service_addr;
                    })))))

  logger_main-Untouched : Keeps (Untouched files opened) (SameFiles files) (logger_main env)
  unfolding logger_main
  logger_main-Untouched =
      bind-Keeps (Untouched files opened) (SameFiles files) _ _
        (vault_config-Keeps env.vault_client env.vault (Untouched files opened) (SameFiles files)
          fails)
        logger_serving-Untouched

  -- What main leaves of a process that it began with these files and resources.
  abbrev pub LeavesClosed : Exited Logging × Process → Type 0
  LeavesClosed (fatal _, p') = p'.files ≡ files
  LeavesClosed (panicked, p') = p' ≡ begun files opened
  LeavesClosed (running _, p') = p' ≡ begun files opened

  left_behind-LeavesClosed :
      (x : Exited Logging × Process)
      → Ends (Untouched files opened) (SameFiles files) x
      → LeavesClosed (x.0, left_behind x.0 x.1)
  unfolding Untouched Restores SameFiles
  left_behind-LeavesClosed (fatal _, p) same = same
  left_behind-LeavesClosed (panicked, p) (h, _) = h
  left_behind-LeavesClosed (running _, p) (h, _) = h

  -- When main of logger-service returns, and when it panics, everything that it opened is closed; no
  -- end of it leaves another file on the disk.
  pub logger_main-LeavesClosed : LeavesClosed (run_main (logger_main env) (begun files opened))
  unfolding run_main Keeps Untouched Restores run_deferred
  logger_main-LeavesClosed =
      left_behind-LeavesClosed (logger_main env (begun files opened))
        (logger_main-Untouched (begun files opened) (refl, refl))
