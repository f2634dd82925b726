-- ===== src/Auth/Interceptor/Access.antt =====
-- Who passes the interceptor.
use Prim.Native.String.{◌++◌, ◌∷◌}
use text.Mathlib.TextLemmas.{nil-append, cons-append, append_assoc}
use enterprise_middleware_go.Prelude.{
  String, ◌+◌, ◌/◌, ◌≡◌, refl, true, ◌≢◌, List, Option, none, some, arith, ltb, ◌∙◌, ap, inl, inr,
  Bool-cases, Option-cases, if◌then◌else◌,
}
use enterprise_middleware_go.Clock.{Time, second}
use enterprise_middleware_go.Dict.{Dict}
use enterprise_middleware_go.Grpc.{StatusLib}
use enterprise_middleware_go.Text.{split_2, equal_fold}
use enterprise_middleware_go.Text.Split.{split_2-append}
use enterprise_middleware_go.Auth.Tokens.{JwtLib, TokenManager, generate, verify}
use enterprise_middleware_go.Auth.Tokens.Laws.{HasKeyPair, verify-generate}
use enterprise_middleware_go.Auth.Interceptor.{
  Context, string_value, with_value, grpc_md_from_incoming_context, auth_header, UnaryHandler,
  refusal, with_parts, intercept,
}

bearer_folds : equal_fold "Bearer" "Bearer" ≡ true
unfolding equal_fold
bearer_folds = refl

module _ (G : StatusLib) (J : JwtLib) (tm : TokenManager J) {Req Resp W : Type 0}
    (handler : UnaryHandler G.Error Req Resp W) where
  bearer_parts : (token : String) → split_2 b' ' ("Bearer " ++ token) ≡ ("Bearer", some token)
  bearer_parts token =
      ap (split_2 b' ') (
        append_assoc "Bearer" " " token
        ∙ ap (λ t. "Bearer" ++ t) (cons-append " " "" token ∙ ap (λ t. " " ∷ t) (nil-append token)))
      ∙ split_2-append b' ' " " "Bearer" token refl
          (refl, (refl, (refl, (refl, (refl, (refl, tt))))))

  -- The header "Bearer <token>" leaves the decision to Verify.
  intercept_bearer :
      (now : Time) (ctx : Context) (req : Req) (w : W) (md : Dict (List String)) (token : String)
      → grpc_md_from_incoming_context ctx ≡ some md
      → auth_header md ≡ "Bearer " ++ token
      → intercept G J tm now ctx req handler w ≡ elim (verify J tm now token) [
        | none ↦ ((none, refusal G J tm), w)
        | some sub ↦ handler (with_value ctx "user_id" (string_value sub)) req w
      ]
  unfolding intercept with_parts
  intercept_bearer now ctx req w md token has header =
      let parts : split_2 b' ' (auth_header md) ≡ ("Bearer", some token) =
        ap (split_2 b' ') header ∙ bearer_parts token in
      elim (Option-cases (verify J tm now token)) [
        | inl bad ↦ ground (arith, bearer_folds)
        | inr (sub, good) ↦ ground (arith, bearer_folds)
      ]

  -- A call whose metadata has the header "Bearer <access token>" for an access token that Generate
  -- made reaches the handler, with its user's id in the context, up to 15 minutes after it was made
  -- (to the second), and is refused with invalid_credentials later: the handler is then not called.
  -- The keys of the manager belong together.
  pub intercept-generate :
      (access_now refresh_now now : Time) (user_id access refresh : String) (ctx : Context)
      (req : Req) (w : W) (md : Dict (List String))
      → HasKeyPair J tm
      → generate J tm access_now refresh_now user_id ≡ some (access, refresh)
      → grpc_md_from_incoming_context ctx ≡ some md
      → auth_header md ≡ "Bearer " ++ access
      → intercept G J tm now ctx req handler w ≡ (
          if ltb (now / second) (access_now / second + 900)
          then handler (with_value ctx "user_id" (string_value user_id)) req w
          else ((none, refusal G J tm), w))
  intercept-generate access_now refresh_now now user_id access refresh ctx req w md keys made has
        header =
      let (verified, _) =
        verify-generate J tm access_now refresh_now now user_id access refresh keys made in
      let passed = intercept_bearer now ctx req w md access has header in
      elim (Bool-cases (ltb (now / second) (access_now / second + 900))) [
        | inl early ↦ ground (arith, verified, passed)
        | inr late ↦ ground (arith, verified, passed)
      ]

  -- A call that is answered otherwise than with the refusal, or changes the state, came with a
  -- header of two parts, the first of them "Bearer" in any case, whose second part verifies; the
  -- answer is that of the handler for the token's user.
  pub intercept_passed :
      (now : Time) (ctx : Context) (req : Req) (w : W)
      → intercept G J tm now ctx req handler w ≢ ((none, refusal G J tm), w)
      → (md : Dict (List String)) × (scheme token sub : String) × (grpc_md_from_incoming_context ctx
          ≡ some md)
        × (split_2 b' ' (auth_header md) ≡ (scheme, some token))
        × (equal_fold scheme "Bearer" ≡ true)
        × (verify J tm now token ≡ some sub)
        × (intercept G J tm now ctx req handler w
            ≡ handler (with_value ctx "user_id" (string_value sub)) req w)
  unfolding intercept with_parts
  intercept_passed now ctx req w other = elim (Option-cases (grpc_md_from_incoming_context ctx)) [
    | inl missing ↦ absurd (other (ground arith))
    | inr (md, has) ↦ parted md has (split_2 b' ' (auth_header md)) refl
  ]
    where
      parted :
          (md : Dict (List String))
          → grpc_md_from_incoming_context ctx ≡ some md
          → (p : String × Option String) → split_2 b' ' (auth_header md) ≡ p
          → (md : Dict (List String)) × (scheme token sub : String) × (grpc_md_from_incoming_context
                ctx
              ≡ some md)
            × (split_2 b' ' (auth_header md) ≡ (scheme, some token))
            × (equal_fold scheme "Bearer" ≡ true)
            × (verify J tm now token ≡ some sub)
            × (intercept G J tm now ctx req handler w
                ≡ handler (with_value ctx "user_id" (string_value sub)) req w)
      parted md has (scheme, none) e = absurd (other (ground arith))
      parted md has (scheme, some token) e = elim (Bool-cases (equal_fold scheme "Bearer")) [
        | inr basic ↦ absurd (other (ground arith))
        | inl bearer ↦ elim (Option-cases (verify J tm now token)) [
          | inl bad ↦ absurd (other (ground arith))
          | inr (sub, good) ↦ (md, scheme, token, sub, has, e, bearer, good, ground arith)
        ]
      ]
