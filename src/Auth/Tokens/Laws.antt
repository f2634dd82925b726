-- ===== src/Auth/Tokens/Laws.antt =====
-- What Verify makes of the tokens that Generate signs.
use enterprise_middleware_go.Prelude.{
  String, ◌+◌, ◌*◌, ◌/◌, ◌<◌, ◌≤◌, ◌≡◌, refl, ap, none, some, arith, ltb, Bool-cases, inl, inr, [],
  ◌∷◌, if◌then◌else◌,
}
use enterprise_middleware_go.Clock.{Time, second, minute, hour, to_unix, unix_epoch}
use enterprise_middleware_go.Prelude.Int.{sub_ℕ}
use enterprise_middleware_go.Auth.Tokens.{
  JwtLib, TokenManager, generate, verify, text, number, user_claims, checked,
}

user_claims_same_second :
    (user_id : String) (x y : Time)
    → x / second ≡ y / second
    → user_claims user_id x ≡ user_claims user_id y
unfolding to_unix
user_claims_same_second user_id x y h =
    ap (λ s. ("sub", text user_id) ∷ ("exp", number (sub_ℕ s unix_epoch)) ∷ []) h

module _ (J : JwtLib) (t : TokenManager J) where
  -- The keys of the manager belong together.
  abbrev pub HasKeyPair : Type 0
  HasKeyPair = J.IsPair t.private_key t.public_key

  verify-signed :
      (user_id token : String) (expiry now : Time)
      → HasKeyPair
      → J.signed_string t.private_key (user_claims user_id expiry) ≡ some token
      → now / second < expiry / second
      → verify J t now token ≡ some user_id
  unfolding verify
  verify-signed user_id token expiry now keys made early =
      let (claims, parsed, sub) =
        J.parse-signed t.private_key t.public_key user_id token expiry now keys made early in
      rw (parsed, checked) (rw sub refl)

  verify_expired :
      (user_id token : String) (expiry now : Time)
      → HasKeyPair
      → J.signed_string t.private_key (user_claims user_id expiry) ≡ some token
      → expiry / second ≤ now / second
      → verify J t now token ≡ none
  unfolding verify
  verify_expired user_id token expiry now keys made late =
      rw (J.parse_expired t.private_key t.public_key user_id token expiry now keys made late) refl

  -- A token that is signed for `secs` seconds from `made` on.
  verify_until :
      (user_id token : String) (made secs now : Time)
      → HasKeyPair
      → J.signed_string t.private_key (user_claims user_id (made + secs * second)) ≡ some token
      → verify J t now token
        ≡ (if ltb (now / second) (made / second + secs) then some user_id else none)
  verify_until user_id token made secs now keys signed =
      elim (Bool-cases (ltb (now / second) (made / second + secs))) [
        | inl early ↦
            rw early
              (verify-signed user_id token (made + secs * second) now keys signed (ground arith))
        | inr late ↦
            rw late
              (verify_expired user_id token (made + secs * second) now keys signed (ground arith))
      ]

  -- Generate signs both tokens, or fails.
  generate_inv :
      (access_now refresh_now : Time) (user_id access refresh : String)
      → generate J t access_now refresh_now user_id ≡ some (access, refresh)
      → (J.signed_string t.private_key (user_claims user_id (access_now + 15 * minute))
          ≡ some access)
        × (J.signed_string t.private_key (user_claims user_id (refresh_now + 7 * (24 * hour)))
            ≡ some refresh)
  unfolding generate
  generate_inv access_now refresh_now user_id access refresh h = ground arith

  -- With a matching key pair, both tokens that Generate returns verify as its user at any time up
  -- to 15 minutes, for the access token, and 7 days, for the refresh token, after they were made;
  -- later neither does. (All to the second.)
  pub verify-generate :
      (access_now refresh_now now : Time) (user_id access refresh : String)
      → HasKeyPair
      → generate J t access_now refresh_now user_id ≡ some (access, refresh)
      → (verify J t now access
          ≡ (if ltb (now / second) (access_now / second + 900) then some user_id else none))
        × (verify J t now refresh
            ≡ (if ltb (now / second) (refresh_now / second + 604800) then some user_id else none))
  verify-generate access_now refresh_now now user_id access refresh keys h =
      let (a, r) = generate_inv access_now refresh_now user_id access refresh h in
      (
        verify_until user_id access access_now 900 now keys a,
        verify_until user_id refresh refresh_now 604800 now keys r,
      )

  -- Signing draws nothing at random and "exp" counts seconds: two calls for one user in the same
  -- second return the same two tokens.
  pub generate_same_second :
      (a b a' b' : Time) (user_id : String)
      → a / second ≡ a' / second
      → b / second ≡ b' / second
      → generate J t a b user_id ≡ generate J t a' b' user_id
  unfolding generate
  generate_same_second a b a' b' user_id h k = ground (
    arith,
    user_claims_same_second user_id (a + 15 * minute) (a' + 15 * minute) (omega arith),
    user_claims_same_second user_id (b + 7 * (24 * hour)) (b' + 7 * (24 * hour)) (omega arith),
  )
