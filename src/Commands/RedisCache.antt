-- ===== src/Commands/RedisCache.antt =====
-- RedisCache of cmd/user-service/main.go and of pkg/redis/client.go: go-redis as the cache of the
-- user service.
use enterprise_middleware_go.Prelude.{String, ◌≡◌, refl, ◌⊎◌, inl, inr, List, [], ◌∷◌}
use enterprise_middleware_go.Clock.{Time, Duration}
use enterprise_middleware_go.Service.Deps.{CacheReply, hit, miss, failed, Cache}
use enterprise_middleware_go.Service.Getters.Coherence.{IsCache}

-- What Get of the client results in: the value, redis.Nil, or another error.
pub data RedisReply : Type 0 where
  value : String → RedisReply
  nil failure : RedisReply

-- A client on the state R of a server. A failed command may have been executed or not.
pub record RedisClient (R : Type 0) : Type 0 where
  pub get_result : R → Time → String → RedisReply
  pub set_result : R → Time → String → String → Duration → R
  pub del_result : R → Time → List String → R

module _ {R : Type 0} (rdb : RedisClient R) where
  abbrev pub reply_of : RedisReply → CacheReply
  reply_of (value val) = hit val
  reply_of nil = miss
  reply_of failure = failed

  -- Get
  unfoldable pub cache_get : R → Time → String → CacheReply
  cache_get r now key = reply_of (rdb.get_result r now key)

  -- Del of user-service: no command for no keys
  unfoldable pub cache_del : R → Time → List String → R
  cache_del r now [] = r
  cache_del r now (key ∷ keys) = rdb.del_result r now (key ∷ keys)

  -- The adapter that main of user-service gives to the service.
  unfoldable pub redis_cache : Cache R
  unfolding cache_get cache_del
  redis_cache = record { get_reply = cache_get; set_value = rdb.set_result; del = cache_del }

  -- The adapter of pkg/redis, whose Del passes no keys on as well.
  unfoldable pub plain_redis_cache : Cache R
  unfolding cache_get
  plain_redis_cache = record {
    get_reply = cache_get;
    set_value = rdb.set_result;
    del = rdb.del_result;
  }

  -- What Redis documents: a value that GET shows after a SET is the one that was set under that key,
  -- or one that GET showed without it, and DEL adds none.
  pub record IsRedis : Type 0 where
    pub get-set :
        (r : R) (now then_ : Time) (k v j w : String) (ttl : Duration)
        → rdb.get_result (rdb.set_result r now k v ttl) then_ j ≡ value w
        → ((j ≡ k) × (w ≡ v)) ⊎ (rdb.get_result r then_ j ≡ value w)
    pub get-del :
        (r : R) (now then_ : Time) (ks : List String) (j w : String)
        → rdb.get_result (rdb.del_result r now ks) then_ j ≡ value w
        → rdb.get_result r then_ j ≡ value w

  hit_value : (reply : RedisReply) (w : String) → reply_of reply ≡ hit w → reply ≡ value w
  hit_value (value v) w e = cc e
  hit_value nil w e = cc e
  hit_value failure w e = cc e

  module _ (redis : IsRedis) where
    set_hit :
        (r : R) (now then_ : Time) (k v j w : String) (ttl : Duration)
        → reply_of (rdb.get_result (rdb.set_result r now k v ttl) then_ j) ≡ hit w
        → ((j ≡ k) × (w ≡ v)) ⊎ (reply_of (rdb.get_result r then_ j) ≡ hit w)
    set_hit r now then_ k v j w ttl h =
        let shown = hit_value (rdb.get_result (rdb.set_result r now k v ttl) then_ j) w h in
        elim (redis.get-set r now then_ k v j w ttl shown) [
          | inl same ↦ inl same
          | inr old ↦ inr (rw old refl)
        ]

    del_hit :
        (r : R) (now then_ : Time) (ks : List String) (j w : String)
        → reply_of (rdb.get_result (rdb.del_result r now ks) then_ j) ≡ hit w
        → reply_of (rdb.get_result r then_ j) ≡ hit w
    del_hit r now then_ ks j w h =
        rw
          (redis.get-del r now then_ ks j w
            (hit_value (rdb.get_result (rdb.del_result r now ks) then_ j) w h))
          refl

    cache_del_hit :
        (r : R) (now then_ : Time) (ks : List String) (j w : String)
        → reply_of (rdb.get_result (cache_del r now ks) then_ j) ≡ hit w
        → reply_of (rdb.get_result r then_ j) ≡ hit w
    unfolding cache_del
    cache_del_hit r now then_ [] j w h = h
    cache_del_hit r now then_ (k ∷ ks) j w h = del_hit r now then_ (k ∷ ks) j w h

    -- Over a Redis that does what it documents, both adapters are caches as the user service relies
    -- on them.
    pub redis_cache-IsCache : IsCache redis_cache × IsCache plain_redis_cache
    unfolding redis_cache plain_redis_cache cache_get
    redis_cache-IsCache = (
      record { get-set = set_hit; get-del = cache_del_hit },
      record { get-set = set_hit; get-del = del_hit },
    )
