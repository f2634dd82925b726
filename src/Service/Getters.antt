-- ===== src/Service/Getters.antt =====
-- getUserByEmail and getUserByID. singleflight.Do runs its function, since no other call is in
-- flight: the calls of the model are made one at a time.
pub mod Coherence
use enterprise_middleware_go.Prelude.{String, List, [], ◌∷◌, Option, none, some}
use enterprise_middleware_go.Clock.{Time, Duration}
use enterprise_middleware_go.Repo.{Uuid, User, RepoResult, ok, err}
use enterprise_middleware_go.Service.Deps.{UserCacheView, CacheReply, hit, Deps, State}
use enterprise_middleware_go.Service.Views.{
  to_view, to_user_row, cache_ttl_user_hot, cache_ttl_user_warm, key_by_email, key_by_id,
}

module _ (D : Deps) where
  -- if s.Cache != nil { … Set … Set … } with one value under two keys
  unfoldable pub cache_under : State D → Time → User → Duration → String → String → State D
  cache_under s now u ttl key₁ key₂ = elim s.cached [
    | none ↦ s
    | some c ↦ elim (D.codec.marshal (to_view u)) [
      | none ↦ s
      | some b ↦ record s {
        cached = some (D.cache.set_value (D.cache.set_value c now key₁ b ttl) now key₂ b ttl);
      }
    ]
  ]

  -- getUserByEmail; what the cache holds is read and not used
  unfoldable pub get_user_by_email : State D → Time → String → RepoResult User × State D
  unfolding cache_under
  get_user_by_email s now email = elim (D.repo.get_user_by_email s.store email) [
    | err e ↦ (err e, s)
    | ok u ↦ (
      ok u,
      cache_under s now u cache_ttl_user_hot (key_by_email email) (key_by_id D.uuids u.id.bytes),
    )
  ]

  decoded : CacheReply → Option UserCacheView
  decoded (hit raw) = D.codec.unmarshal raw
  decoded _ = none

  -- The view that the cache holds for an id, if it holds one that decodes.
  unfoldable pub cached_view : Option D.CacheState → Time → Uuid → Option UserCacheView
  unfolding decoded
  cached_view none now id = none
  cached_view (some c) now id = decoded (D.cache.get_reply c now (key_by_id D.uuids id))

  -- getUserByID past the cache
  unfoldable pub load_user_by_id : State D → Time → Uuid → RepoResult User × State D
  unfolding cache_under
  load_user_by_id s now id = elim (D.repo.get_user_by_id s.store id) [
    | err e ↦ (err e, s)
    | ok u ↦ (
      ok u,
      cache_under s now u cache_ttl_user_warm (key_by_id D.uuids id) (key_by_email u.email),
    )
  ]

  -- getUserByID
  unfoldable pub get_user_by_id : State D → Time → Uuid → RepoResult User × State D
  unfolding load_user_by_id cached_view
  get_user_by_id s now id = elim (cached_view s.cached now id) [
    | some v ↦ (ok (to_user_row v), s)
    | none ↦ load_user_by_id s now id
  ]
