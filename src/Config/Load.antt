-- ===== src/Config/Load.antt =====
-- What LoadConfigFromVault returns: the configuration that the secrets spell, or no configuration.
use mathlib.Core.Path.{subst}
use enterprise_middleware_go.Prelude.{◌≡◌, ◌↔◌, refl, inl, inr, true, arith, Bool-cases}
use enterprise_middleware_go.Config.{
  AppConfig, KvPaths, Secret, loaded, Vault, read_kv, looks_like_pem, checked_pem, assemble,
  load_config_from_vault,
}
use enterprise_middleware_go.Config.Spelled.{
  IsSpelled, bind_inv, assemble-IsSpelled, assemble_of_IsSpelled,
}

-- The six secrets were read, they spell the configuration, and its two JWT keys look like PEM.
pub record IsLoaded {E : Type 0} (cli : Vault E) (paths : KvPaths) (cfg : AppConfig) : Type 0 where
  pub pg : Secret
  pub kfk : Secret
  pub jwt : Secret
  pub svc : Secret
  pub cass : Secret
  pub redis : Secret
  pub pg_read : read_kv cli paths.pg_path ≡ loaded pg
  pub kfk_read : read_kv cli paths.kafka_path ≡ loaded kfk
  pub jwt_read : read_kv cli paths.jwt_path ≡ loaded jwt
  pub svc_read : read_kv cli paths.svc_path ≡ loaded svc
  pub cass_read : read_kv cli paths.cass_path ≡ loaded cass
  pub redis_read : read_kv cli paths.redis_path ≡ loaded redis
  pub spelled : IsSpelled paths pg kfk jwt svc cass redis cfg
  pub private_pem : looks_like_pem cfg.jwt_private_key_pem ≡ true
  pub public_pem : looks_like_pem cfg.jwt_public_key_pem ≡ true

module _ {E : Type 0} (cli : Vault E) where
  checked_pem_inv :
      (c cfg : AppConfig)
      → checked_pem cli c ≡ loaded cfg
      → (c ≡ cfg)
        × (looks_like_pem c.jwt_private_key_pem ≡ true)
        × (looks_like_pem c.jwt_public_key_pem ≡ true)
  unfolding checked_pem
  checked_pem_inv c cfg h = elim (Bool-cases (looks_like_pem c.jwt_private_key_pem)) [
    | inr bad ↦ absurd (ground arith)
    | inl good ↦ elim (Bool-cases (looks_like_pem c.jwt_public_key_pem)) [
      | inr bad ↦ absurd (ground arith)
      | inl fine ↦ (ground arith, good, fine)
    ]
  ]

  load-IsLoaded :
      (paths : KvPaths) (cfg : AppConfig)
      → load_config_from_vault cli paths ≡ loaded cfg
      → IsLoaded cli paths cfg
  unfolding load_config_from_vault
  load-IsLoaded paths cfg h =
      let (pg, e₁, h₁) = bind_inv (read_kv cli paths.pg_path) _ cfg h in
      let (kfk, e₂, h₂) = bind_inv (read_kv cli paths.kafka_path) _ cfg h₁ in
      let (jwt, e₃, h₃) = bind_inv (read_kv cli paths.jwt_path) _ cfg h₂ in
      let (svc, e₄, h₄) = bind_inv (read_kv cli paths.svc_path) _ cfg h₃ in
      let (cass, e₅, h₅) = bind_inv (read_kv cli paths.cass_path) _ cfg h₄ in
      let (redis, e₆, h₆) = bind_inv (read_kv cli paths.redis_path) _ cfg h₅ in
      let (c, made, last) =
        bind_inv (assemble paths pg kfk jwt svc cass redis) (checked_pem cli) cfg h₆ in
      let (same, private_pem, public_pem) = checked_pem_inv c cfg last in
      record {
        pg = pg;
        kfk = kfk;
        jwt = jwt;
        svc = svc;
        cass = cass;
        redis = redis;
        pg_read = e₁;
        kfk_read = e₂;
        jwt_read = e₃;
        svc_read = e₄;
        cass_read = e₅;
        redis_read = e₆;
        spelled =
            subst (IsSpelled paths pg kfk jwt svc cass redis) same
              (assemble-IsSpelled paths pg kfk jwt svc cass redis c made);
        private_pem =
            subst (λ (z : AppConfig). looks_like_pem z.jwt_private_key_pem ≡ true) same private_pem;
        public_pem =
            subst (λ (z : AppConfig). looks_like_pem z.jwt_public_key_pem ≡ true) same public_pem;
      }

  load_of_IsLoaded :
      (paths : KvPaths) (cfg : AppConfig)
      → IsLoaded cli paths cfg
      → load_config_from_vault cli paths ≡ loaded cfg
  unfolding load_config_from_vault checked_pem
  load_of_IsLoaded paths cfg x =
      rw
        (
          x.pg_read,
          x.kfk_read,
          x.jwt_read,
          x.svc_read,
          x.cass_read,
          x.redis_read,
          assemble_of_IsSpelled {E = E} paths x.pg x.kfk x.jwt x.svc x.cass x.redis cfg x.spelled,
          load_config_from_vault,
        )
        (rw (x.private_pem, x.public_pem, checked_pem) refl)

  -- LoadConfigFromVault returns a configuration exactly when all six secrets were read, each field
  -- is the text that stands under its key, and the two JWT keys look like PEM. Otherwise it returns
  -- an error or panics.
  pub load_config_iff :
      (paths : KvPaths) (cfg : AppConfig)
      → (load_config_from_vault cli paths ≡ loaded cfg) ↔ IsLoaded cli paths cfg
  load_config_iff paths cfg = (load-IsLoaded paths cfg, load_of_IsLoaded paths cfg)
