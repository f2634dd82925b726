-- ===== src/Limiter/Tests.antt =====
-- A pool of one key: the limiter of the examples counts the calls that it still lets in.
use enterprise_middleware_go.Prelude.{◌*◌, ◌≡◌, refl, none}
use enterprise_middleware_go.Clock.{minute}
use enterprise_middleware_go.Dict.{empty, get, put, size, retain}
use enterprise_middleware_go.Limiter.{LimiterPool, new_limiter_pool, pool_get, prune}
use enterprise_middleware_go.Limiter.Eviction.{pool_get_item, pool_get_others}
use enterprise_middleware_go.Errors.Mapping.{ne_literal}
use enterprise_middleware_go.Service.Example.{counting_rate}

-- The pool holds one key, "a", until 10 minutes, and is full.
abbrev full_pool : LimiterPool counting_rate
full_pool =
    (pool_get counting_rate (new_limiter_pool counting_rate (10 * minute) 1) 0 "a" minute 5).1

pool_get_item_run : (pool_get counting_rate full_pool (11 * minute) "b" minute 5).0 ≡ 5
unfolding pool_get new_limiter_pool get put empty size
pool_get_item_run = (pool_get_item counting_rate full_pool (11 * minute) "b" minute 5).0

-- A minute too late, "a" goes for "b".
pool_get_others_run :
    get (pool_get counting_rate full_pool (11 * minute) "b" minute 5).1.items "a" ≡ none
unfolding pool_get new_limiter_pool get put empty size retain prune
pool_get_others_run =
    pool_get_others counting_rate full_pool (11 * minute) "b" minute 5 "a" (ne_literal _ _ refl)
