-- ===== src/Auth/Interceptor/Tests.antt =====
-- Calls with the access token of the example platform's signer, made at 0 for the user "|".
use enterprise_middleware_go.Prelude.{
  ℕ, ◌+◌, ◌*◌, String, ◌≡◌, refl, List, [], ◌∷◌, Option, none, some, true,
}
use enterprise_middleware_go.Clock.{minute, to_unix}
use enterprise_middleware_go.Dict.{Dict, empty, get, put}
use enterprise_middleware_go.Grpc.Example.{plain, PlainError}
use enterprise_middleware_go.Text.{split_2, equal_fold}
use enterprise_middleware_go.Auth.Tokens.{TokenManager, generate, verify}
use enterprise_middleware_go.Auth.Interceptor.{
  Context, ContextValue, UnaryHandler, string_key, string_value, map_value, value, intercept,
  auth_header, grpc_md_from_incoming_context,
}
use enterprise_middleware_go.Auth.Interceptor.Access.{intercept-generate, intercept_passed}
use enterprise_middleware_go.Service.Example.{first_second_jwt}

abbrev manager : TokenManager first_second_jwt
manager = record { private_key = tt; public_key = tt }

metadata : String → Dict (List String)
unfolding empty put
metadata header = put empty "authorization" (header ∷ [])

abbrev with_header : String → Context
with_header header = (string_key "grpc.Metadata", map_value (metadata header)) ∷ []

-- A handler that answers with the user of the context and counts its calls.
abbrev who : UnaryHandler PlainError String (Option ContextValue) ℕ
who ctx req w = ((some (value ctx "user_id"), none), w + 1)

intercept-generate_run :
    intercept plain first_second_jwt manager (14 * minute) (with_header "Bearer A|") "req" who 0
    ≡ ((some (some (string_value "|")), none), 1)
unfolding value
intercept-generate_run =
    intercept-generate plain first_second_jwt manager who 0 0 (14 * minute) "|" "A|" "R|"
      (with_header "Bearer A|") "req" 0 (metadata "Bearer A|") tt (unfold generate to_unix in refl)
      (unfold grpc_md_from_incoming_context in refl) (unfold auth_header metadata get in refl)

intercept_passed_example :
    (md : Dict (List String)) × (scheme token sub : String) × (grpc_md_from_incoming_context
        (with_header "bearer A|")
      ≡ some md)
    × (split_2 b' ' (auth_header md) ≡ (scheme, some token))
    × (equal_fold scheme "Bearer" ≡ true)
    × (verify first_second_jwt manager 0 token ≡ some sub)
    × (intercept plain first_second_jwt manager 0 (with_header "bearer A|") "req" who 0
        ≡ who ((string_key "user_id", string_value sub) ∷ with_header "bearer A|") "req" 0)
intercept_passed_example =
    intercept_passed plain first_second_jwt manager who 0 (with_header "bearer A|") "req" 0
      (unfold intercept metadata get split_2 equal_fold verify in cc)
