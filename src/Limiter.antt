-- ===== src/Limiter.antt =====
-- The limiter pool at the end of internal/user/service/service.go, over golang.org/x/time/rate.
-- Login calls Allow on the limiter that Get returned, which is the one in the map: `write_back`
-- puts the limiter that Allow leaves back under its key.
pub mod Eviction
mod Tests
use enterprise_middleware_go.Prelude.{
  ℕ, String, ◌+◌, ◌*◌, ◌≡◌, Bool, true, false, not, Option, none, some, ltb, leb, if◌then◌else◌,
}
use enterprise_middleware_go.Clock.{Time, Duration, minute}
use enterprise_middleware_go.Dict.{Dict, empty, get, put, retain, size}

-- rate.NewLimiter(rate.Every(d), burst) and Allow at a time.
pub record RateLib : Type 1 where
  pub Limiter : Type 0
  pub new_limiter : Duration → ℕ → Limiter
  pub allow : Limiter → Time → Bool × Limiter

module _ (Q : RateLib) where
  pub record LimiterItem : Type 0 where
    pub lim : Q.Limiter
    pub exp : Time

  pub record LimiterPool : Type 0 where
    pub ttl : Duration
    pub max_keys : ℕ
    pub items : Dict LimiterItem

  -- newLimiterPool
  unfoldable pub new_limiter_pool : Duration → ℕ → LimiterPool
  unfolding empty
  new_limiter_pool ttl max_keys = record { ttl = ttl; max_keys = max_keys; items = empty }

  -- !now.After(it.exp)
  abbrev pub is_live : Time → LimiterItem → Bool
  is_live now it = leb now it.exp

  -- The sweep of expired items, made when the pool is full.
  unfoldable pub prune : LimiterPool → Time → LimiterPool
  prune p now =
      if leb p.max_keys (size p.items) then record p { items = retain (is_live now) p.items } else p

  -- Get: the limiter of the key, made if it is missing, and the pool
  unfoldable pub pool_get : LimiterPool → Time → String → Duration → ℕ → Q.Limiter × LimiterPool
  unfolding prune
  pool_get p now key every burst = elim (get p.items key) [
    | some it ↦ (it.lim, record p { items = put p.items key (record it { exp = now + p.ttl }) })
    | none ↦
        let pruned = prune p now in
        let lim = Q.new_limiter every burst in
        (
          lim,
          record pruned { items = put pruned.items key (record { lim = lim; exp = now + p.ttl }) },
        )
  ]

  -- The item of the key holds the limiter after Allow.
  unfoldable pub write_back : LimiterPool → String → Q.Limiter → LimiterPool
  write_back p key lim = elim (get p.items key) [
    | some it ↦ record p { items = put p.items key (record it { lim = lim }) }
    | none ↦ p
  ]
