-- ===== src/Commands/Written.antt =====
-- What writeTempPEM leaves on the disk.
use enterprise_middleware_go.Prelude.{
  String, ◌≡◌, refl, false, inl, inr, ◌∷◌, Option, none, some, ◌==◌, Bool-cases, Option-cases,
  eq_self,
}
use enterprise_middleware_go.Commands.Process.{FileSystem, read_file, remove_file}
use enterprise_middleware_go.Commands.Files.{TempFiles, write_temp_pem}

pub remove-made :
    (path text : String) (files : FileSystem) → remove_file path ((path, text) ∷ files) ≡ files
unfolding remove_file
remove-made path text files = rw (eq_self path) refl

pub read-made :
    (path text : String) (files : FileSystem) → read_file path ((path, text) ∷ files) ≡ some text
unfolding read_file
read-made path text files = rw (eq_self path) refl

-- Other files are read as before.
pub read-behind :
    (asked path text : String) (files : FileSystem)
    → (path == asked) ≡ false
    → read_file asked ((path, text) ∷ files) ≡ read_file asked files
unfolding read_file
read-behind asked path text files other = rw other refl

abbrev pub Written : String → FileSystem → Option String × FileSystem → Type 0
Written text files (none, left) = left ≡ files
Written text files (some path, left) = (left ≡ (path, text) ∷ files) × (read_file path files ≡ none)

-- writeTempPEM fails and leaves the disk as it was, or returns the path of a new file that holds the
-- text, beside what was there.
pub write_temp_pem-Written :
    (os : TempFiles) (prefix text : String) (files : FileSystem)
    → Written text files (write_temp_pem os prefix text files)
unfolding write_temp_pem
write_temp_pem-Written os prefix text files = elim (Option-cases (os.create_temp files prefix)) [
  | inl e ↦ rw (e, write_temp_pem) refl
  | inr (path, e) ↦ elim (Bool-cases (os.chmod_fails path)) [
    | inl p ↦ rw (e, p, write_temp_pem) (remove-made path "" files)
    | inr p ↦ elim (Bool-cases (os.write_fails path)) [
      | inl q ↦ rw (e, p, q, write_temp_pem) (remove-made path "" files)
      | inr q ↦ elim (Bool-cases (os.close_fails path)) [
        | inl r ↦ rw (e, p, q, r, write_temp_pem) (remove-made path text files)
        | inr r ↦ rw (e, p, q, r, write_temp_pem) (refl, os.fresh files prefix path e)
      ]
    ]
  ]
]
