-- ===== src/Service/Example.antt =====
-- A platform for the examples: every library that the service calls as a concrete function.
pub mod Start
use Prim.Native.Char.{Char, code}
use enterprise_middleware_go.Prelude.{
  ℕ, zero, suc, String, ◌+◌, ◌-◌, ◌/◌, ◌<◌, ◌≤◌, ◌≡◌, refl, ap, ◌⊎◌, inl, inr, Bool, true, false,
  ◌&&◌, List, [], ◌∷◌, Option, none, some, arith, ltb, eqb, ◌==◌, eq_iff, Bool-cases, if◌then◌else◌,
}
use enterprise_middleware_go.Prelude.Int.{ℤ, pos, negsuc}
use enterprise_middleware_go.Clock.{Time, second, unix_epoch, to_unix}
use enterprise_middleware_go.Dict.{Dict, get, put, remove, get-put, get-remove}
use enterprise_middleware_go.Grpc.Example.{plain, PlainError, of_text}
use enterprise_middleware_go.Repo.{UuidLib}
use enterprise_middleware_go.Repo.Memory.{InMemoryRepo, memory}
use enterprise_middleware_go.Auth.Passwords.{BcryptLib}
use enterprise_middleware_go.Auth.Tokens.{
  text, number, MapClaims, ParsedToken, JwtLib, user_claims, claim,
}
use enterprise_middleware_go.Limiter.{RateLib}
use enterprise_middleware_go.Audit.{AuditRow, AuditService}
use enterprise_middleware_go.Service.Deps.{UserCacheView, CacheReply, hit, miss, Cache, Deps}
use enterprise_middleware_go.Service.Getters.Coherence.{IsCache}

-- A UUID is written as that many strokes.
abbrev pub strokes : ℕ → String
strokes zero = String.[]
strokes (suc n) = String.◌∷◌ "|" (strokes n)

abbrev pub count_strokes : String → ℕ
count_strokes String.[] = 0
count_strokes (String.◌∷◌ _ s) = suc (count_strokes s)

pub count_strokes-strokes : (n : ℕ) → some (count_strokes (strokes n)) ≡ some n
count_strokes-strokes zero = refl
count_strokes-strokes (suc n) = ap some (ap suc (injected (count_strokes-strokes n)))
  where
    injected : some (count_strokes (strokes n)) ≡ some n → count_strokes (strokes n) ≡ n
    injected h = cc

abbrev pub stroke_uuids : UuidLib
stroke_uuids = record {
  to_string = strokes;
  parse = λ s. some (count_strokes s);
  parse-to_string = count_strokes-strokes;
}

pub plain_compare : (p h : String) → ◌≡◌ {A = Option String} (some p) (some h) → (h == p) ≡ true
plain_compare p h e = ground (arith, eq_iff h p)

abbrev pub plain_bcrypt : BcryptLib
plain_bcrypt = record {
  generate_from_password = λ salt p. some p;
  compare_hash_and_password = λ h p. h == p;
  compare-generate = λ salt p h e. plain_compare p h e;
}

-- A signer for the sessions of the first second: an access token is "A" and the user, a refresh
-- token "R" and the user.
abbrev pub expiry_second : ℤ → ℕ
expiry_second (pos s) = unix_epoch + s
expiry_second (negsuc s) = unix_epoch - suc s

expiry_second-to_unix : (t : Time) → expiry_second (to_unix t) ≡ t / second
unfolding to_unix
expiry_second-to_unix t = ground arith

abbrev pub sign_for : String → ℕ → Option String
sign_for u n =
    if eqb n 900
    then some (String.◌∷◌ "A" u)
    else if eqb n 604800
    then some (String.◌∷◌ "R" u)
    else none

abbrev pub sign_claims : MapClaims → Option String
sign_claims ((_, text u) ∷ (_, number z) ∷ []) = sign_for u (expiry_second z)
sign_claims _ = none

abbrev pub lifetime : Char → ℕ
lifetime c = if eqb (code c) 65 then 900 else if eqb (code c) 82 then 604800 else 0

abbrev pub parse_token : Time → String → Option ParsedToken
parse_token now String.[] = none
parse_token now (String.◌∷◌ c u) =
    if ltb (now / second) (lifetime c)
    then some (record { valid = true; claims = some (("sub", text u) ∷ []) })
    else none

sign_for_token :
    (u token : String) (n : ℕ)
    → sign_for u n ≡ some token
    → (c : Char) × (token ≡ String.◌∷◌ c u) × (lifetime c ≡ n)
sign_for_token u token n h = elim (Bool-cases (eqb n 900)) [
  | inl short ↦ ("A", ground arith, ground arith)
  | inr other ↦ ("R", ground arith, ground arith)
]

pub parse_token-sign :
    (user_id token : String) (expiry now : Time)
    → sign_claims (user_claims user_id expiry) ≡ some token
    → now / second < expiry / second
    → (claims : MapClaims) × (parse_token now token
        ≡ some (record { valid = true; claims = some claims }))
      × (claim "sub" claims ≡ some (text user_id))
unfolding claim
parse_token-sign user_id token expiry now h early =
    let (c, same, life) = sign_for_token user_id token (expiry_second (to_unix expiry)) h in
    (("sub", text user_id) ∷ [], rw same (ground (arith, life, expiry_second-to_unix expiry)), refl)

pub parse_token_expired :
    (user_id token : String) (expiry now : Time)
    → sign_claims (user_claims user_id expiry) ≡ some token
    → expiry / second ≤ now / second
    → parse_token now token ≡ none
parse_token_expired user_id token expiry now h late =
    let (c, same, life) = sign_for_token user_id token (expiry_second (to_unix expiry)) h in
    rw same (ground (arith, life, expiry_second-to_unix expiry))

abbrev pub first_second_jwt : JwtLib
first_second_jwt = record {
  PrivateKey = Unit;
  PublicKey = Unit;
  IsPair = λ _ _. Unit;
  signed_string = λ _ claims. sign_claims claims;
  parse = λ now _ token. parse_token now token;
  parse-signed = λ _ _ u token expiry now _ h early. parse_token-sign u token expiry now h early;
  parse_expired = λ _ _ u token expiry now _ h late. parse_token_expired u token expiry now h late;
}

-- A limiter is the number of calls that it still lets in.
abbrev pub counting_rate : RateLib
counting_rate = record {
  Limiter = ℕ;
  new_limiter = λ _ burst. burst;
  allow = λ l _. (ltb 0 l, l - 1);
}

-- A codec that writes one user's view, Alice's, and no other.
abbrev pub alice_view : UserCacheView
alice_view = record {
  id = 1;
  email = "alice@example.com";
  username = "alice";
  created_at = negsuc 62135596799;
  updated_at = negsuc 62135596799;
}

abbrev pub is_epoch : ℤ → Bool
is_epoch (pos _) = false
is_epoch (negsuc n) = eqb n 62135596799

abbrev pub marshal_alice : UserCacheView → Option String
marshal_alice v =
    if eqb v.id 1
      && v.email == "alice@example.com"
      && v.username == "alice"
      && is_epoch v.created_at
      && is_epoch v.updated_at
    then some "alice"
    else none

abbrev pub unmarshal_alice : String → Option UserCacheView
unmarshal_alice s = if s == "alice" then some alice_view else none

is_epoch_eq : (z : ℤ) → is_epoch z ≡ true → z ≡ negsuc 62135596799
is_epoch_eq (pos n) h = cc
is_epoch_eq (negsuc n) h = ground arith

pub unmarshal_alice-marshal :
    (v : UserCacheView) (b : String) → marshal_alice v ≡ some b → unmarshal_alice b ≡ some v
unmarshal_alice-marshal v b h = ground (
  arith,
  eq_iff v.email "alice@example.com",
  eq_iff v.username "alice",
  eq_iff b "alice",
  is_epoch_eq v.created_at,
  is_epoch_eq v.updated_at,
)

abbrev pub reply_of : Option String → CacheReply
reply_of none = miss
reply_of (some v) = hit v

abbrev pub remove_all : Dict String → List String → Dict String
remove_all c [] = c
remove_all c (k ∷ ks) = remove_all (remove c k) ks

abbrev pub dict_cache : Cache (Dict String)
dict_cache = record {
  get_reply = λ c now k. reply_of (get c k);
  set_value = λ c now k v ttl. put c k v;
  del = λ c now ks. remove_all c ks;
}

reply-put :
    (c : Dict String) (k v j w : String)
    → reply_of (get (put c k v) j) ≡ hit w
    → ((j ≡ k) × (w ≡ v)) ⊎ (reply_of (get c j) ≡ hit w)
reply-put c k v j w h = elim (Bool-cases (k == j)) [
  | inl same ↦ inl (ground (arith, eq_iff k j), ground (arith, get-put c k j v))
  | inr other ↦ inr (ground (arith, get-put c k j v))
]

reply-remove_all :
    (ks : List String) (c : Dict String) (j w : String)
    → reply_of (get (remove_all c ks) j) ≡ hit w
    → reply_of (get c j) ≡ hit w
reply-remove_all [] c j w h = h
reply-remove_all (k ∷ ks) c j w h =
    let rest = reply-remove_all ks (remove c k) j w h in ground (arith, get-remove c k j)

pub dict_cache-IsCache : IsCache dict_cache
dict_cache-IsCache = record {
  get-set = λ c now t k v j w ttl h. reply-put c k v j w h;
  get-del = λ c now t ks j w h. reply-remove_all ks c j w h;
}

-- The audit rows that were inserted, newest first; there is no Kafka.
abbrev pub row_sink : AuditService (List AuditRow) PlainError
row_sink = record {
  json = record { marshal_payload = λ _. "{}"; marshal_event = λ _. "{}" };
  session = some (λ row rows. (none, row ∷ rows));
  producer = none;
  no_sink = of_text "no audit sink configured";
}

abbrev pub platform : Deps
platform = record {
  grpc = plain;
  uuids = stroke_uuids;
  bcrypt = plain_bcrypt;
  jwt = first_second_jwt;
  token_mng = record { private_key = tt; public_key = tt };
  rate = counting_rate;
  codec = record {
    marshal = marshal_alice;
    unmarshal = unmarshal_alice;
    unmarshal-marshal = unmarshal_alice-marshal;
  };
  validate_register = λ _ email _ _. if email == "" then some (of_text "invalid") else none;
  sha256_hex = λ t. t;
  RepoState = InMemoryRepo;
  repo = memory stroke_uuids;
  CacheState = Dict String;
  cache = dict_cache;
  SinkState = List AuditRow;
  audit = row_sink;
}
