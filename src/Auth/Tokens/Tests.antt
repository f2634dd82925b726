-- ===== src/Auth/Tokens/Tests.antt =====
-- The tokens of the example platform's signer, made at 0.
use enterprise_middleware_go.Prelude.{◌*◌, ◌≡◌, refl, none, some}
use enterprise_middleware_go.Clock.{minute, to_unix}
use enterprise_middleware_go.Auth.Tokens.{TokenManager, generate, verify}
use enterprise_middleware_go.Auth.Tokens.Laws.{verify-generate, generate_same_second}
use enterprise_middleware_go.Service.Example.{first_second_jwt}

abbrev manager : TokenManager first_second_jwt
manager = record { private_key = tt; public_key = tt }

-- After 20 minutes the access token is refused and the refresh token is not.
verify-generate_example :
    (verify first_second_jwt manager (20 * minute) "A|" ≡ none)
    × (verify first_second_jwt manager (20 * minute) "R|" ≡ some "|")
verify-generate_example =
    verify-generate first_second_jwt manager 0 0 (20 * minute) "|" "A|" "R|" tt
      (unfold generate to_unix in refl)

generate_same_second_run :
    generate first_second_jwt manager 0 0 "|" ≡ generate first_second_jwt manager 1 2 "|"
generate_same_second_run = generate_same_second first_second_jwt manager 0 0 1 2 "|" refl refl
