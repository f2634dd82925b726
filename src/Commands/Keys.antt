-- ===== src/Commands/Keys.antt =====
-- NewTokenManager of pkg/auth/jwt.go: a token manager from the PEM files of its keys. The parsers of
-- the jwt package are given.
use enterprise_middleware_go.Prelude.{String, ◌⊎◌, inl, inr, Option, none, some}
use enterprise_middleware_go.Auth.Tokens.{JwtLib, TokenManager}
use enterprise_middleware_go.Commands.Process.{FileSystem, read_file}

pub record KeyParsers (J : JwtLib) : Type 0 where
  pub parse_private : String → Option J.PrivateKey
  pub parse_public : String → Option J.PublicKey

-- The step that failed.
pub data KeyError : Type 0 where
  read_private_key read_public_key parse_private_key parse_public_key : KeyError

module _ {J : JwtLib} (parsers : KeyParsers J) where
  -- The keys of the two texts.
  unfoldable pub parse_keys : String → String → KeyError ⊎ TokenManager J
  parse_keys priv_data pub_data = elim (parsers.parse_private priv_data) [
    | none ↦ inl parse_private_key
    | some priv ↦ elim (parsers.parse_public pub_data) [
      | none ↦ inl parse_public_key
      | some public ↦ inr (record { private_key = priv; public_key = public })
    ]
  ]

  -- NewTokenManager
  unfoldable pub new_token_manager : String → String → FileSystem → KeyError ⊎ TokenManager J
  unfolding parse_keys
  new_token_manager private_key_path public_key_path files =
      elim (read_file private_key_path files) [
        | none ↦ inl read_private_key
        | some priv_data ↦ elim (read_file public_key_path files) [
          | none ↦ inl read_public_key
          | some pub_data ↦ parse_keys priv_data pub_data
        ]
      ]
