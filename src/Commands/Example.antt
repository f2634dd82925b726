-- ===== src/Commands/Example.antt =====
-- An environment for main of user-service, in which Postgres does not answer.
use enterprise_middleware_go.Prelude.{
  String, ◌≡◌, refl, true, false, inl, inr, Option, none, some, Option-cases,
}
use enterprise_middleware_go.Service.Example.{first_second_jwt}
use enterprise_middleware_go.Config.Example.{one_secret}
use enterprise_middleware_go.Commands.Process.{FileSystem, read_file}
use enterprise_middleware_go.Commands.Files.{TempFiles}
use enterprise_middleware_go.Commands.UserService.{UserEnv}

-- The prefix is the name, if it is not taken.
abbrev pub untaken : Option String → String → Option String
untaken none prefix = some prefix
untaken (some _) prefix = none

pub untaken-fresh :
    (files : FileSystem) (prefix path : String)
    → untaken (read_file prefix files) prefix ≡ some path
    → read_file path files ≡ none
untaken-fresh files prefix path e = elim (Option-cases (read_file prefix files)) [
  | inl free ↦ cc (e, free, ap_untaken free)
  | inr (_, taken) ↦ cc (e, ap_taken taken)
]
  where
    ap_untaken :
        read_file prefix files ≡ none → untaken (read_file prefix files) prefix ≡ some prefix
    ap_untaken h = rw h refl

    ap_taken :
        {text : String}
        → read_file prefix files ≡ some text
        → untaken (read_file prefix files) prefix ≡ none
    ap_taken h = rw h refl

abbrev pub plain_files : TempFiles
plain_files = record {
  create_temp = λ files prefix. untaken (read_file prefix files) prefix;
  chmod_fails = λ path. false;
  write_fails = λ path. false;
  close_fails = λ path. false;
  fresh = untaken-fresh;
}

abbrev pub no_postgres : UserEnv String first_second_jwt
no_postgres = record {
  vault_client = true;
  vault = one_secret;
  os = plain_files;
  parsers = record { parse_private = λ text. some tt; parse_public = λ text. some tt };
  dsn_parses = λ dsn. true;
  pool_starts = λ dsn. true;
  pool_pings = λ dsn. false;
  cassandra_connects = λ hosts keyspace. true;
  redis_pings = λ addr. true;
  listens = λ addr. true;
}
