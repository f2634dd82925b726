-- ===== src/Limiter/Eviction.antt =====
-- What Get leaves in the pool.
use enterprise_middleware_go.Prelude.{
  ◌≢◌, ◌&&◌, ℕ, String, ◌+◌, ◌≡◌, Bool, true, false, Option, none, some, arith, leb, eq_iff,
  eq_self, inl, inr, Option-cases, if◌then◌else◌,
}
use enterprise_middleware_go.Clock.{Time, Duration}
use enterprise_middleware_go.Dict.{get, size, keep, get-put, get-retain}
use enterprise_middleware_go.Limiter.{RateLib, LimiterPool, is_live, prune, pool_get}

abbrev is_none {ℓ} : {A : Type ℓ} → Option A → Bool
is_none none = true
is_none (some _) = false

module _ (Q : RateLib) (p : LimiterPool Q) (now : Time) (key : String) (every : Duration)
    (burst : ℕ) where
  abbrev after : LimiterPool Q
  after = (pool_get Q p now key every burst).1

  get-prune :
      (k : String)
      → get (prune Q p now).items k ≡ (
          if leb p.max_keys (size p.items)
          then keep (is_live Q now) (get p.items k)
          else get p.items k)
  unfolding prune
  get-prune k = ground (arith, get-retain (is_live Q now) p.items k)

  ttl-prune : (prune Q p now).ttl ≡ p.ttl
  unfolding prune
  ttl-prune = ground arith

  -- Get returns the limiter that the pool holds for the key, unchanged, and makes a fresh one only
  -- for a key that the pool does not hold; the item is then live for the pool's time to live.
  pub pool_get_item :
      ((pool_get Q p now key every burst).0
        ≡ elim (get p.items key) [ some it ↦ it.lim | none ↦ Q.new_limiter every burst ])
      × (get after.items key
          ≡ some (record { lim = (pool_get Q p now key every burst).0; exp = now + p.ttl }))
  unfolding pool_get
  pool_get_item = elim (Option-cases (get p.items key)) [
    | inl missing ↦ ground (
      arith,
      get-put (prune Q p now).items key key
          (record { lim = Q.new_limiter every burst; exp = now + p.ttl }),
      eq_self key,
      ttl-prune,
    )
    | inr (it, found) ↦
        ground (arith, get-put p.items key key (record it { exp = now + p.ttl }), eq_self key)
  ]

  -- No other key gains, loses or changes an item that is live. An item that has expired is dropped
  -- exactly when the key is new and the pool holds max_keys items or more.
  pub pool_get_others :
      (k : String)
      → key ≢ k
      → get after.items k ≡ (
          if is_none (get p.items key) && leb p.max_keys (size p.items)
          then keep (is_live Q now) (get p.items k)
          else get p.items k)
  unfolding pool_get
  pool_get_others k h = elim (Option-cases (get p.items key)) [
    | inl missing ↦ ground (
      arith,
      get-put (prune Q p now).items key k
          (record { lim = Q.new_limiter every burst; exp = now + p.ttl }),
      eq_iff key k,
      get-prune k,
    )
    | inr (it, found) ↦
        ground (arith, get-put p.items key k (record it { exp = now + p.ttl }), eq_iff key k)
  ]
