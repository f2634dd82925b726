-- ===== src/Commands/Files.antt =====
-- The keys of cmd/user-service/main.go: normalizePEM and writeTempPEM, over the files of the process.
use Prim.Native.Char.{Char, code}
use enterprise_middleware_go.Prelude.{
  ℕ, String, ◌≡◌, Bool, true, false, ◌&&◌, [], ◌∷◌, Option, none, some, eqb, if◌then◌else◌,
}
use enterprise_middleware_go.Text.{trim_space}
use enterprise_middleware_go.Commands.Process.{FileSystem, read_file, remove_file}

-- strings.ReplaceAll of two ASCII characters by one character
unfoldable pub replace_pair : ℕ → ℕ → Char → String → String
replace_pair a b new String.[] = ""
replace_pair a b new (String.◌∷◌ c String.[]) = String.◌∷◌ c ""
replace_pair a b new (String.◌∷◌ c (String.◌∷◌ d s)) = elim (eqb (code c) a && eqb (code d) b) [
  | true ↦ String.◌∷◌ new (replace_pair a b new s)
  | false ↦ String.◌∷◌ c (replace_pair a b new (String.◌∷◌ d s))
]

-- normalizePEM: a carriage return and a line feed, then a backslash and an n
unfoldable pub normalize_pem : String → String
unfolding trim_space replace_pair
normalize_pem s = replace_pair 92 b'n' "\n" (replace_pair 13 10 "\n" (trim_space s))

-- What os.CreateTemp, os.Chmod and the writes do: CreateTemp makes an empty file at a path that was
-- not taken.
pub record TempFiles : Type 0 where
  pub create_temp : FileSystem → String → Option String
  pub chmod_fails : String → Bool
  pub write_fails : String → Bool
  pub close_fails : String → Bool
  pub fresh :
      (files : FileSystem) (prefix path : String)
      → create_temp files prefix ≡ some path
      → read_file path files ≡ none

-- The write to the file that was made last; a failed write may have written a part.
abbrev pub write_temp_text : FileSystem → String → FileSystem
write_temp_text [] text = []
write_temp_text ((path, _) ∷ files) text = (path, text) ∷ files

module _ (os : TempFiles) where
  -- writeTempPEM: the path, unless there was an error
  unfoldable pub write_temp_pem : String → String → FileSystem → Option String × FileSystem
  unfolding remove_file
  write_temp_pem prefix pem files = elim (os.create_temp files prefix) [
    | none ↦ (none, files)
    | some path ↦
        let made = (path, "") ∷ files in
        if os.chmod_fails path
        then (none, remove_file path made)
        else if os.write_fails path
        then (none, remove_file path made)
        else let written = write_temp_text made pem in
          if os.close_fails path then (none, remove_file path written) else (some path, written)
  ]
