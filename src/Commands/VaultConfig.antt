-- ===== src/Commands/VaultConfig.antt =====
-- The configuration with which main of user-service and of logger-service begin, in the same words.
use enterprise_middleware_go.Prelude.{Bool, if◌then◌else◌}
use enterprise_middleware_go.Config
use enterprise_middleware_go.Config.{
  AppConfig, Loading, Vault, load_config_from_vault, default_kv_paths,
}
use enterprise_middleware_go.Commands.Process.{Main, fatal, panicked, running, exit}

abbrev pub loaded_or_exit : {E : Type 0} → Loading E AppConfig → Main AppConfig
loaded_or_exit (Config.loaded cfg) p = (running cfg, p)
loaded_or_exit (Config.failed _) p = (fatal "failed to load config from vault", p)
loaded_or_exit Config.panicked p = (panicked, p)

unfoldable pub vault_config : {E : Type 0} → Bool → Vault E → Main AppConfig
vault_config vault_client vault =
    if vault_client
    then loaded_or_exit (load_config_from_vault vault default_kv_paths)
    else exit "vault client init failed"
