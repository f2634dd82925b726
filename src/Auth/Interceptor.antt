-- ===== src/Auth/Interceptor.antt =====
-- pkg/auth/middleware.go: the interceptor that authenticates a call. A context is the values that
-- were put into it, newest first; a key of the program is a text, gRPC's own key is of a private
-- type, and its value of the named type metadata.MD.
pub mod Access
mod Tests
use enterprise_middleware_go.Prelude.{
  String, Bool, true, false, List, [], ◌∷◌, Option, none, some, ◌==◌, if◌then◌else◌,
}
use enterprise_middleware_go.Clock.{Time}
use enterprise_middleware_go.Dict.{Dict, get}
use enterprise_middleware_go.Grpc.{StatusLib}
use enterprise_middleware_go.Errors.{err_invalid_credentials, status_from_code}
use enterprise_middleware_go.Text.{split_2, equal_fold}
use enterprise_middleware_go.Auth.Tokens.{JwtLib, TokenManager, verify}

pub data ContextKey : Type 0 where
  string_key : String → ContextKey
  grpc_incoming_key : ContextKey

pub data ContextValue : Type 0 where
  string_value : String → ContextValue
  map_value : Dict (List String) → ContextValue
  metadata_value : Dict (List String) → ContextValue

abbrev pub Context : Type 0
Context = List (ContextKey × ContextValue)

abbrev pub is_key : String → ContextKey → Bool
is_key key (string_key k) = k == key
is_key key grpc_incoming_key = false

-- ctx.Value(key) for a text
unfoldable pub value : Context → String → Option ContextValue
value [] key = none
value ((k, v) ∷ ctx) key = if is_key key k then some v else value ctx key

-- context.WithValue
abbrev pub with_value : Context → String → ContextValue → Context
with_value ctx key v = (string_key key, v) ∷ ctx

-- The type assertion of grpcMDFromIncomingContext.
as_map : Option ContextValue → Option (Dict (List String))
as_map (some (map_value m)) = some m
as_map _ = none

-- grpcMDFromIncomingContext
unfoldable pub grpc_md_from_incoming_context : Context → Option (Dict (List String))
unfolding value as_map
grpc_md_from_incoming_context ctx = as_map (value ctx "grpc.Metadata")

first_value : Option (List String) → String
first_value (some (v ∷ _)) = v
first_value _ = ""

-- The variable authHeader.
unfoldable pub auth_header : Dict (List String) → String
unfolding first_value
auth_header md = first_value (get md "authorization")

-- grpc.UnaryHandler, acting on the state W of the server.
abbrev pub UnaryHandler : Type 0 → Type 0 → Type 0 → Type 0 → Type 0
UnaryHandler E Req Resp W = Context → Req → W → (Option Resp × Option E) × W

module _ (G : StatusLib) (J : JwtLib) (tm : TokenManager J) where
  abbrev pub refusal : Option G.Error
  refusal = status_from_code G err_invalid_credentials ""

  -- From the two parts of the header on.
  unfoldable pub with_parts :
      {Req Resp W : Type 0}
      → Time
      → Context
      → Req
      → UnaryHandler G.Error Req Resp W
      → W
      → String × Option String
      → (Option Resp × Option G.Error) × W
  with_parts now ctx req handler w (scheme, none) = ((none, refusal), w)
  with_parts now ctx req handler w (scheme, some token) =
      if equal_fold scheme "Bearer"
      then elim (verify J tm now token) [
        | none ↦ ((none, refusal), w)
        | some sub ↦ handler (with_value ctx "user_id" (string_value sub)) req w
      ]
      else ((none, refusal), w)

  -- The interceptor that UnaryServerInterceptor returns.
  unfoldable pub intercept :
      {Req Resp W : Type 0}
      → Time
      → Context
      → Req
      → UnaryHandler G.Error Req Resp W
      → W
      → (Option Resp × Option G.Error) × W
  unfolding grpc_md_from_incoming_context auth_header with_parts
  intercept now ctx req handler w = elim (grpc_md_from_incoming_context ctx) [
    | none ↦ ((none, refusal), w)
    | some md ↦ with_parts now ctx req handler w (split_2 b' ' (auth_header md))
  ]
