-- ===== src/Service/Profile/Transparency.antt =====
-- A client of GetProfile cannot tell whether the answer came out of the cache.
use enterprise_middleware_go.Prelude.{
  String, ◌≡◌, refl, ◌⊎◌, inl, inr, none, some, arith, Option-cases,
}
use enterprise_middleware_go.Clock.{Time}
use enterprise_middleware_go.Repo.{Uuid, User, ok}
use enterprise_middleware_go.Service.Deps.{
  UserCacheView, CacheReply, hit, miss, failed, Deps, State, Readings,
}
use enterprise_middleware_go.Service.Views.{to_view, to_user_row, key_by_id}
use enterprise_middleware_go.Service.Getters.{cached_view, get_user_by_id}
use enterprise_middleware_go.Service.Getters.Coherence.{IsCoherent}
use enterprise_middleware_go.Service.Profile.{get_profile, serve_get_profile, profile_response}

hit-cases : (o : CacheReply) → ((raw : String) × (o ≡ hit raw)) ⊎ ((o ≡ miss) ⊎ (o ≡ failed))
hit-cases (hit raw) = inl (raw, refl)
hit-cases miss = inr (inl refl)
hit-cases failed = inr (inr refl)

module _ (D : Deps) where
  -- A cached view is the projection of the user that the repository has.
  cached_view-stored :
      (s : State D) (now : Time) (id : Uuid) (v : UserCacheView)
      → IsCoherent D s
      → cached_view D s.cached now id ≡ some v
      → (u : User) × (D.repo.get_user_by_id s.store id ≡ ok u) × (v ≡ to_view u)
  unfolding cached_view
  cached_view-stored s now id v x h = elim (Option-cases s.cached) [
    | inl e ↦ absurd (ground arith)
    | inr (c, e) ↦ elim (hit-cases (D.cache.get_reply c now (key_by_id D.uuids id))) [
      | inl (raw, shown) ↦ x.cached_user c now id raw v e shown (ground arith)
      | inr gone ↦ absurd (ground arith)
    ]
  ]

  -- What the service keeps of a user that went through the cache.
  pub profile_response-to_user_row :
      (u : User) → profile_response D (to_user_row (to_view u), none) ≡ profile_response D (u, none)
  unfolding profile_response to_user_row to_view
  profile_response-to_user_row u = refl

  abbrev without_cache : State D → State D
  without_cache s = record s { cached = none }

  -- With a coherent cache, GetProfile answers a client exactly as it would with no cache at all:
  -- the same id, e-mail and username, or the same error.
  pub serve_get_profile-cached :
      (s : State D) (r : Readings) (user_id : String)
      → IsCoherent D s
      → (serve_get_profile D s r user_id).0 ≡ (serve_get_profile D (without_cache s) r user_id).0
  unfolding serve_get_profile get_profile get_user_by_id
  serve_get_profile-cached s r user_id x = elim (Option-cases (D.uuids.parse user_id)) [
    | inl e ↦ ground arith
    | inr (id, e) ↦ elim (Option-cases (cached_view D s.cached r.cache_now id)) [
      | inl h ↦ ground arith
      | inr (v, h) ↦
          let (u, stored, same) = cached_view-stored s r.cache_now id v x h in
          ground (arith, profile_response-to_user_row u)
    ]
  ]
