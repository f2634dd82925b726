-- ===== src/Auth/Passwords.antt =====
-- pkg/auth/passwords.go, over golang.org/x/crypto/bcrypt: `salt` is what bcrypt draws at random.
use enterprise_middleware_go.Prelude.{ℕ, String, ◌≡◌, Bool, true, Option, some}

pub record BcryptLib : Type 0 where
  pub generate_from_password : ℕ → String → Option String
  pub compare_hash_and_password : String → String → Bool
  -- A hash compares equal to the password that it was made from.
  pub compare-generate :
      (salt : ℕ) (p h : String)
      → generate_from_password salt p ≡ some h
      → compare_hash_and_password h p ≡ true

module _ (B : BcryptLib) where
  -- HashPassword; `none` is an error
  unfoldable pub hash_password : ℕ → String → Option String
  hash_password salt password = B.generate_from_password salt password

  -- ComparePassword; both callers drop the error
  unfoldable pub compare_password : String → String → Bool
  compare_password hash password = B.compare_hash_and_password hash password
