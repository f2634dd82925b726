-- ===== src/Commands/Ends.antt =====
-- The three ends of main of user-service.
use enterprise_middleware_go.Prelude.{
  String, ◌≡◌, refl, ◌∙◌, ◌⊎◌, inl, inr, List, [], ◌∷◌, Option, none, some, ◌==◌, eq_iff,
  Bool-cases,
}
use enterprise_middleware_go.Auth.Tokens.{JwtLib}
use enterprise_middleware_go.Config
use enterprise_middleware_go.Config.{AppConfig, load_config_from_vault, default_kv_paths, Loading}
use enterprise_middleware_go.Commands.Process.{
  FileSystem, read_file, Process, Resource, Exited, fatal, panicked, running, ◌>>=◌, resume,
  acquire, run_deferred, removal, run_main, left_behind,
}
use enterprise_middleware_go.Commands.Files.{write_temp_pem, normalize_pem}
use enterprise_middleware_go.Commands.Written.{
  Written, write_temp_pem-Written, read-made, read-behind,
}
use enterprise_middleware_go.Commands.Triples.{Ends, Keeps}
use enterprise_middleware_go.Commands.VaultConfig.{loaded_or_exit, vault_config}
use enterprise_middleware_go.Commands.UserService.{
  UserEnv, Serving, temp_key, user_serving, user_main,
}
use enterprise_middleware_go.Commands.Started.{user_serving-Keeps}
use enterprise_middleware_go.Commands.Cleanup.{
  Restores, Anything, user_main-Restores, temp_key-Keeps,
}

-- A process that main begins with: nothing is deferred.
abbrev pub begun : FileSystem → List Resource → Process
begun files opened = record { files = files; opened = opened; deferred = [] }

-- The file at the path holds the text.
HoldsText : String → String → Process → Type 0
HoldsText path text p = read_file path p.files ≡ some text

acquire-HoldsText :
    (path text : String) (r : Resource)
    → Keeps (HoldsText path text) (HoldsText path text) (acquire r)
unfolding Keeps HoldsText
acquire-HoldsText path text r p h = h

HoldsText-made :
    (path text made new : String) (p : Process)
    → read_file made p.files ≡ none
    → HoldsText path text p
    → HoldsText path text
        (record p { files = (made, new) ∷ p.files; deferred = removal made ∷ p.deferred })
unfolding HoldsText
HoldsText-made path text made new p fresh h = elim (Bool-cases (made == path)) [
  | inr other ↦ read-behind path made new p.files other ∙ h
  | inl same ↦ let e : made ≡ path = (eq_iff made path).0 same in cc (fresh, h, e)
]

module _ {E : Type 0} {J : JwtLib} (env : UserEnv E J) where
  serving-HoldsText :
      (cfg : AppConfig) (path text : String)
      → Keeps (HoldsText path text) (HoldsText path text) (user_serving env cfg path)
  serving-HoldsText cfg path text =
      user_serving-Keeps env (HoldsText path text) (HoldsText path text) (λ _ h. h)
        (acquire-HoldsText path text)
        (λ prefix pem msg.
          temp_key-Keeps env (HoldsText path text) (HoldsText path text) prefix pem msg (λ _ h. h)
            (λ (made : String) (p : Process) (fresh : read_file made p.files ≡ none)
                (h : HoldsText path text p).
              HoldsText-made path text made (normalize_pem pem) p fresh h))
        cfg path

  -- Nothing was written or opened, or the private key stands in a new file.
  abbrev pub Leaks : FileSystem → List Resource → Process → Type 0
  Leaks files opened p' =
      (p' ≡ begun files opened)
      ⊎ ((cfg : AppConfig) × (path : String) × (load_config_from_vault env.vault default_kv_paths
            ≡ Config.loaded cfg)
          × (read_file path files ≡ none)
          × (read_file path p'.files ≡ some (normalize_pem cfg.jwt_private_key_pem)))

  -- What main leaves of a process that it began with these files and resources.
  abbrev pub Leaves : FileSystem → List Resource → Exited (Serving J) × Process → Type 0
  Leaves files opened (fatal _, p') = Leaks files opened p'
  Leaves files opened (panicked, p') = p' ≡ begun files opened
  Leaves files opened (running _, p') = p' ≡ begun files opened

  abbrev LeaksFatal : FileSystem → List Resource → Exited (Serving J) × Process → Type 0
  LeaksFatal files opened (fatal _, p') = Leaks files opened p'
  LeaksFatal files opened (panicked, p') = Unit
  LeaksFatal files opened (running _, p') = Unit

  module _ (files : FileSystem) (opened : List Resource) (cfg : AppConfig)
      (e : load_config_from_vault env.vault default_kv_paths ≡ Config.loaded cfg) where
    serving-LeaksFatal :
        (path : String) (x : Exited (Serving J) × Process)
        → read_file path files ≡ none
        → Ends
            (HoldsText path (normalize_pem cfg.jwt_private_key_pem))
            (HoldsText path (normalize_pem cfg.jwt_private_key_pem))
            x
        → LeaksFatal files opened x
    unfolding HoldsText
    serving-LeaksFatal path (fatal _, p) fresh h = inr (cfg, path, e, fresh, h)
    serving-LeaksFatal path (panicked, p) fresh h = tt
    serving-LeaksFatal path (running _, p) fresh h = tt

    keyed-LeaksFatal : LeaksFatal files opened (
        (temp_key env "jwt-priv" cfg.jwt_private_key_pem "write private pem"
            >>= user_serving env cfg)
          (begun files opened))
    unfolding temp_key Keeps HoldsText
    keyed-LeaksFatal =
        go (write_temp_pem env.os "jwt-priv" (normalize_pem cfg.jwt_private_key_pem) files)
          (write_temp_pem-Written env.os "jwt-priv" (normalize_pem cfg.jwt_private_key_pem) files)
      where
        go :
            (w : Option String × FileSystem)
            → Written (normalize_pem cfg.jwt_private_key_pem) files w
            → LeaksFatal files opened (
                let step : Exited String × Process = elim w.0 [
                  | none ↦ (fatal "write private pem", record (begun files opened) { files = w.1 })
                  | some path ↦ (
                    running path,
                    record (begun files opened) { files = w.1; deferred = removal path ∷ [] },
                  )
                ] in
                resume step.0 step.1 (user_serving env cfg))
        go (none, left) same = inl (rw same refl)
        go (some path, left) (same, fresh) = rw same (
            serving-LeaksFatal path _ fresh (
              serving-HoldsText cfg path (normalize_pem cfg.jwt_private_key_pem) _
                (read-made path (normalize_pem cfg.jwt_private_key_pem) files)))

  user_main-LeaksFatal :
      (files : FileSystem) (opened : List Resource)
      → LeaksFatal files opened (user_main env (begun files opened))
  unfolding user_main vault_config
  user_main-LeaksFatal files opened = elim (Bool-cases env.vault_client) [
    | inr e ↦ rw e (inl refl)
    | inl e ↦ rw e (go (load_config_from_vault env.vault default_kv_paths) refl)
  ]
    where
      go :
          (l : Loading E AppConfig)
          → load_config_from_vault env.vault default_kv_paths ≡ l
          → LeaksFatal files opened (
              let step : Exited AppConfig × Process = loaded_or_exit l (begun files opened) in
              resume step.0 step.1 (λ cfg.
                temp_key env "jwt-priv" cfg.jwt_private_key_pem "write private pem"
                >>= user_serving env cfg))
      go (Config.loaded cfg) same = keyed-LeaksFatal files opened cfg same
      go (Config.failed _) _ = inl refl
      go Config.panicked _ = tt

  left_behind-Leaves :
      (files : FileSystem) (opened : List Resource) (x : Exited (Serving J) × Process)
      → Ends (Restores (begun files opened)) Anything x
      → LeaksFatal files opened x
      → Leaves files opened (x.0, left_behind x.0 x.1)
  unfolding Restores
  left_behind-Leaves files opened (fatal _, p) _ leak = leak
  left_behind-Leaves files opened (panicked, p) h _ = h
  left_behind-Leaves files opened (running _, p) h _ = h

  -- When main of user-service returns, and when it panics, every file that it wrote is removed and
  -- everything that it opened is closed. When logger.Fatal ends it, either nothing was written or
  -- opened, or the private key of the configuration stands on the disk, in a file that was not there.
  pub user_main-Leaves :
      (files : FileSystem) (opened : List Resource)
      → Leaves files opened (run_main (user_main env) (begun files opened))
  unfolding run_main Keeps Restores run_deferred
  user_main-Leaves files opened =
      left_behind-Leaves files opened (user_main env (begun files opened))
        (user_main-Restores env (begun files opened) (begun files opened) refl)
        (user_main-LeaksFatal files opened)
