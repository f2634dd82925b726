-- ===== src/Commands/Cleanup.antt =====
-- What main of user-service leaves behind on each of its ends.
use enterprise_middleware_go.Prelude.{
  String, ◌≡◌, ap, ◌∙◌, Bool, inl, inr, ◌∷◌, Option, none, some, Bool-cases,
}
use enterprise_middleware_go.Auth.Tokens.{JwtLib}
use enterprise_middleware_go.Config
use enterprise_middleware_go.Config.{
  AppConfig, load_config_from_vault, default_kv_paths, Loading, Vault,
}
use enterprise_middleware_go.Commands.Process.{
  FileSystem, read_file, Process, Resource, postgres_pool, cassandra_session, kafka_producer,
  redis_client, fatal, running, acquire, run_deferred, close_resource, removal, returned,
}
use enterprise_middleware_go.Commands.Files.{write_temp_pem, normalize_pem}
use enterprise_middleware_go.Commands.Written.{Written, write_temp_pem-Written, remove-made}
use enterprise_middleware_go.Commands.Triples.{Ends, Keeps, bind-Keeps}
use enterprise_middleware_go.Commands.VaultConfig.{loaded_or_exit, vault_config}
use enterprise_middleware_go.Commands.UserService.{UserEnv, temp_key, user_main}
use enterprise_middleware_go.Commands.Started.{user_serving-Keeps}

-- The deferred calls lead to this process.
unfoldable pub Restores : Process → Process → Type 0
Restores base p = returned p ≡ base

unfoldable pub Anything : Process → Type 0
Anything _ = Unit {0}

pub acquire-Restores : (base : Process) (r : Resource) → Keeps (Restores base) Anything (acquire r)
unfolding Keeps Restores run_deferred close_resource
acquire-Restores base postgres_pool p h = h
acquire-Restores base cassandra_session p h = h
acquire-Restores base kafka_producer p h = h
acquire-Restores base redis_client p h = h

-- The configuration is read before anything is written or opened.
pub vault_config-Keeps :
    {E : Type 0} (vault_client : Bool) (vault : Vault E) (I F : Process → Type 0)
    → ((p : Process) → I p → F p)
    → Keeps I F (vault_config vault_client vault)
unfolding vault_config Keeps
vault_config-Keeps {E} vault_client vault I F fails p h = elim (Bool-cases vault_client) [
  | inr e ↦ rw e (fails p h)
  | inl e ↦ rw e (loaded_or_exit-Ends (load_config_from_vault vault default_kv_paths))
]
  where
    loaded_or_exit-Ends : (l : Loading E AppConfig) → Ends I F (loaded_or_exit l p)
    loaded_or_exit-Ends (Config.loaded _) = h
    loaded_or_exit-Ends (Config.failed _) = fails p h
    loaded_or_exit-Ends Config.panicked = h

module _ {E : Type 0} {J : JwtLib} (env : UserEnv E J) where
  -- A property that a failed write keeps for Fatal, and that a written file and its deferred removal
  -- keep.
  pub temp_key-Keeps :
      (I F : Process → Type 0) (prefix pem msg : String)
      → ((p : Process) → I p → F p)
      → ((path : String) (p : Process)
          → read_file path p.files ≡ none
          → I p
          → I (record p {
            files = (path, normalize_pem pem) ∷ p.files;
            deferred = removal path ∷ p.deferred;
          }))
      → Keeps I F (temp_key env prefix pem msg)
  unfolding Keeps temp_key
  temp_key-Keeps I F prefix pem msg fails writes p h =
      go (write_temp_pem env.os prefix (normalize_pem pem) p.files)
        (write_temp_pem-Written env.os prefix (normalize_pem pem) p.files)
    where
      go :
          (w : Option String × FileSystem)
          → Written (normalize_pem pem) p.files w
          → Ends {A = String} I F (elim w.0 [
            | none ↦ (fatal msg, record p { files = w.1 })
            | some path ↦
                (running path, record p { files = w.1; deferred = removal path ∷ p.deferred })
          ])
      go (none, files) e = rw e (fails p h)
      go (some path, files) (e, fresh) = rw e (writes path p fresh h)

  temp_key-Restores :
      (base : Process) (prefix pem msg : String)
      → Keeps (Restores base) Anything (temp_key env prefix pem msg)
  unfolding Restores run_deferred Anything
  temp_key-Restores base prefix pem msg =
      temp_key-Keeps (Restores base) Anything prefix pem msg (λ _ _. tt)
        (λ (path : String) (p : Process) (_ : read_file path p.files ≡ none) (h : Restores base p).
          ap (λ files. run_deferred p.deferred files p.opened)
            (remove-made path (normalize_pem pem) p.files)
          ∙ h)

  pub user_main-Restores : (base : Process) → Keeps (Restores base) Anything (user_main env)
  unfolding user_main Anything
  user_main-Restores base =
      bind-Keeps (Restores base) Anything _ _
        (vault_config-Keeps env.vault_client env.vault (Restores base) Anything (λ _ _. tt))
        (λ cfg.
          bind-Keeps (Restores base) Anything _ _
            (temp_key-Restores base "jwt-priv" cfg.jwt_private_key_pem "write private pem")
            (λ priv_path.
              user_serving-Keeps env (Restores base) Anything (λ _ _. tt) (acquire-Restores base)
                (temp_key-Restores base) cfg priv_path))
