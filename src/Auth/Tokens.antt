-- ===== src/Auth/Tokens.antt =====
-- pkg/auth/jwt.go, over github.com/golang-jwt/jwt/v5. An error of any kind is `none`: every caller
-- maps all of them to one status. The times that Generate and Verify read are arguments.
pub mod Laws
mod Tests
use enterprise_middleware_go.Prelude.{
  String, ◌+◌, ◌*◌, ◌/◌, ◌<◌, ◌≤◌, ◌≡◌, Bool, true, false, List, [], ◌∷◌, Option, none, some, ◌==◌,
  if◌then◌else◌,
}
use enterprise_middleware_go.Prelude.Int.{ℤ}
use enterprise_middleware_go.Clock.{Time, second, minute, hour, to_unix}

-- The values of a claim that the code tells apart.
pub data ClaimValue : Type 0 where
  text : String → ClaimValue
  number : ℤ → ClaimValue
  other_value : ClaimValue

abbrev pub MapClaims : Type 0
MapClaims = List (String × ClaimValue)

unfoldable pub claim : String → MapClaims → Option ClaimValue
claim k [] = none
claim k ((j, v) ∷ m) = if j == k then some v else claim k m

-- *jwt.Token; `claims` is none where they are no MapClaims.
pub record ParsedToken : Type 0 where
  pub valid : Bool
  pub claims : Option MapClaims

-- The claims that Generate signs.
abbrev pub user_claims : String → Time → MapClaims
user_claims user_id expiry = ("sub", text user_id) ∷ ("exp", number (to_unix expiry)) ∷ []

-- Signing with RS256 is a function of the key and the claims (RSASSA-PKCS1-v1_5 draws nothing at
-- random), and Parse accepts a signed token until its "exp" second.
pub record JwtLib : Type 1 where
  pub PrivateKey : Type 0
  pub PublicKey : Type 0
  pub IsPair : PrivateKey → PublicKey → Type 0
  pub signed_string : PrivateKey → MapClaims → Option String
  pub parse : Time → PublicKey → String → Option ParsedToken
  pub parse-signed :
      (priv : PrivateKey) (pu : PublicKey) (user_id token : String) (expiry now : Time)
      → IsPair priv pu
      → signed_string priv (user_claims user_id expiry) ≡ some token
      → now / second < expiry / second
      → (claims : MapClaims) × (parse now pu token
          ≡ some (record { valid = true; claims = some claims }))
        × (claim "sub" claims ≡ some (text user_id))
  pub parse_expired :
      (priv : PrivateKey) (pu : PublicKey) (user_id token : String) (expiry now : Time)
      → IsPair priv pu
      → signed_string priv (user_claims user_id expiry) ≡ some token
      → expiry / second ≤ now / second
      → parse now pu token ≡ none

subject : Option ClaimValue → Option String
subject (some (text sub)) = some sub
subject _ = none

subject_of : Option MapClaims → Option String
unfolding subject claim
subject_of none = none
subject_of (some claims) = subject (claim "sub" claims)

checked : Option ParsedToken → Option String
unfolding subject_of
checked none = none
checked (some parsed) = if parsed.valid then subject_of parsed.claims else none

module _ (J : JwtLib) where
  pub record TokenManager : Type 0 where
    pub private_key : J.PrivateKey
    pub public_key : J.PublicKey

  -- Generate: the access token, for 15 minutes, and the refresh token, for 7 days
  unfoldable pub generate : TokenManager → Time → Time → String → Option (String × String)
  generate t access_now refresh_now user_id =
      elim (J.signed_string t.private_key (user_claims user_id (access_now + 15 * minute))) [
        | none ↦ none
        | some access ↦
            elim (J.signed_string t.private_key
              (user_claims user_id (refresh_now + 7 * (24 * hour)))) [
                | none ↦ none
                | some refresh ↦ some (access, refresh)
              ]
      ]

  -- Verify
  unfoldable pub verify : TokenManager → Time → String → Option String
  unfolding checked
  verify t now token = checked (J.parse now t.public_key token)
