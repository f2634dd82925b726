-- ===== src/Service/Getters/Coherence.antt =====
-- The cache holds projections of stored users only, and the getters keep it so.
use Prim.Native.String.{String}
use enterprise_middleware_go.Prelude.{
  ◌≡◌, refl, sym, ap, ◌∙◌, ◌⊎◌, inl, inr, some, List, arith, Option-cases,
}
use enterprise_middleware_go.Clock.{Time, Duration}
use enterprise_middleware_go.Repo.{Uuid, User, RepoResult-cases, ok, IsRepository}
use enterprise_middleware_go.Service.Deps.{UserCacheView, Cache, hit, Deps, State}
use enterprise_middleware_go.Service.Views.{
  to_view, cache_ttl_user_hot, cache_ttl_user_warm, key_by_email, key_by_id,
}
use enterprise_middleware_go.Service.Views.Projection.{
  key_by_id-injective, key_by_email-ne-key_by_id,
}
use enterprise_middleware_go.Service.Getters.{
  cache_under, get_user_by_email, get_user_by_id, load_user_by_id, cached_view,
}

-- What a Redis does: a hit shows a value that was set under that key and not deleted since. It may
-- forget or fail at any time.
pub record IsCache {C : Type 0} (cache : Cache C) : Type 0 where
  pub get-set :
      (c : C) (now then_ : Time) (k v j w : String) (ttl : Duration)
      → cache.get_reply (cache.set_value c now k v ttl) then_ j ≡ hit w
      → ((j ≡ k) × (w ≡ v)) ⊎ (cache.get_reply c then_ j ≡ hit w)
  pub get-del :
      (c : C) (now then_ : Time) (ks : List String) (j w : String)
      → cache.get_reply (cache.del c now ks) then_ j ≡ hit w
      → cache.get_reply c then_ j ≡ hit w

module _ (D : Deps) where
  -- A cached value under an id's key that decodes is the projection of the stored user.
  pub record IsCoherent (s : State D) : Type 0 where
    pub cached_user :
        (c : D.CacheState) (now : Time) (id : Uuid) (raw : String) (v : UserCacheView)
        → s.cached ≡ some c
        → D.cache.get_reply c now (key_by_id D.uuids id) ≡ hit raw
        → D.codec.unmarshal raw ≡ some v
        → (u : User) × (D.repo.get_user_by_id s.store id ≡ ok u) × (v ≡ to_view u)

  -- The getters change nothing but the cache, and a getter past the cache returns what is stored.
  pub get_user_by_email-result :
      (s : State D) (now : Time) (email : String)
      → (get_user_by_email D s now email).0 ≡ D.repo.get_user_by_email s.store email
  unfolding get_user_by_email
  get_user_by_email-result s now email = ground arith

  pub store-get_user_by_email :
      (s : State D) (now : Time) (email : String)
      → ((get_user_by_email D s now email).1.store ≡ s.store)
        × ((get_user_by_email D s now email).1.limiters ≡ s.limiters)
        × ((get_user_by_email D s now email).1.sinks ≡ s.sinks)
  unfolding get_user_by_email
  store-get_user_by_email s now email = ground arith

  pub store-get_user_by_id :
      (s : State D) (now : Time) (id : Uuid)
      → ((get_user_by_id D s now id).1.store ≡ s.store)
        × ((get_user_by_id D s now id).1.limiters ≡ s.limiters)
        × ((get_user_by_id D s now id).1.sinks ≡ s.sinks)
  unfolding get_user_by_id
  store-get_user_by_id s now id = ground arith

  read_back :
      (raw b : String) (v w : UserCacheView)
      → D.codec.unmarshal raw ≡ some v
      → D.codec.marshal w ≡ some b
      → raw ≡ b
      → v ≡ w
  read_back raw b v w reads made same = cc (D.codec.unmarshal-marshal w b made)

  module _ (lawful : IsCache D.cache) where
    -- Setting one projection of a stored user under any key keeps the cache coherent.
    set-IsCoherent :
        (s : State D) (c : D.CacheState) (now : Time) (u : User) (k b : String) (ttl : Duration)
        → s.cached ≡ some c
        → IsCoherent s
        → D.repo.get_user_by_id s.store u.id.bytes ≡ ok u
        → D.codec.marshal (to_view u) ≡ some b
        → ((id : Uuid) → key_by_id D.uuids id ≡ k → id ≡ u.id.bytes)
        → IsCoherent (record s { cached = some (D.cache.set_value c now k b ttl) })
    set-IsCoherent s c now u k b ttl at x stored made own = record {
      cached_user = λ c' t id raw v same shown reads.
          let e : D.cache.set_value c now k b ttl ≡ c' = cc in
          let shown' : D.cache.get_reply (D.cache.set_value c now k b ttl) t (key_by_id D.uuids id)
              ≡ hit raw =
            rw e shown in
          elim (lawful.get-set c now t k b (key_by_id D.uuids id) raw ttl shown') [
            | inl (same_key, same_value) ↦ (
              u,
              rw (own id same_key) stored,
              read_back raw b v (to_view u) reads made same_value,
            )
            | inr old ↦ x.cached_user c t id raw v at old reads
          ];
    }

    -- cache_under keeps the cache coherent if the user is stored, and each of the two keys is the
    -- key of that user's id or of an e-mail.
    pub cache_under-IsCoherent :
        (s : State D) (now : Time) (u : User) (ttl : Duration) (k₁ k₂ : String)
        → IsCoherent s
        → D.repo.get_user_by_id s.store u.id.bytes ≡ ok u
        → ((id : Uuid) → key_by_id D.uuids id ≡ k₁ → id ≡ u.id.bytes)
        → ((id : Uuid) → key_by_id D.uuids id ≡ k₂ → id ≡ u.id.bytes)
        → IsCoherent (cache_under D s now u ttl k₁ k₂)
    unfolding cache_under
    cache_under-IsCoherent s now u ttl k₁ k₂ x stored own₁ own₂ = elim (Option-cases s.cached) [
      | inl none_cached ↦ rw (none_cached, cache_under) x
      | inr (c, at) ↦ elim (Option-cases (D.codec.marshal (to_view u))) [
        | inl e ↦ rw (at, e, cache_under) x
        | inr (b, e) ↦
            rw (at, e, cache_under)
              (set-IsCoherent (record s { cached = some (D.cache.set_value c now k₁ b ttl) }) _ now
                u k₂ b ttl refl (set-IsCoherent s c now u k₁ b ttl at x stored e own₁) stored e
                own₂)
      ]
    ]

    module _ (laws : IsRepository D.repo) where
      email_is_no_id : (e : String) (i id : Uuid) → key_by_id D.uuids id ≡ key_by_email e → id ≡ i
      email_is_no_id e i id h = absurd (key_by_email-ne-key_by_id D.uuids e id (sym h))

      -- The getter by e-mail keeps a coherent cache coherent, over a cache that shows only what was
      -- set and a consistent repository that satisfies its laws.
      pub get_user_by_email-IsCoherent :
          (s : State D) (now : Time) (email : String)
          → laws.IsConsistent s.store
          → IsCoherent s
          → IsCoherent (get_user_by_email D s now email).1
      unfolding get_user_by_email
      get_user_by_email-IsCoherent s now email ok_store x =
          elim (RepoResult-cases (D.repo.get_user_by_email s.store email)) [
            | inl (z, h) ↦ rw (h, get_user_by_email) x
            | inr (u, h) ↦
                rw (h, get_user_by_email)
                  (cache_under-IsCoherent s now u cache_ttl_user_hot (key_by_email email)
                    (key_by_id D.uuids u.id.bytes) x
                    (laws.by_email-by_id s.store email u ok_store h).0
                    (email_is_no_id email u.id.bytes)
                    (λ i same. key_by_id-injective D.uuids i u.id.bytes same))
          ]

      load_user_by_id-IsCoherent :
          (s : State D) (now : Time) (id : Uuid)
          → laws.IsConsistent s.store
          → IsCoherent s
          → IsCoherent (load_user_by_id D s now id).1
      unfolding load_user_by_id
      load_user_by_id-IsCoherent s now id ok_store x =
          elim (RepoResult-cases (D.repo.get_user_by_id s.store id)) [
            | inl (z, h) ↦ rw (h, load_user_by_id) x
            | inr (u, h) ↦
                let same = laws.by_id-id s.store id u ok_store h in
                rw (h, load_user_by_id)
                  (cache_under-IsCoherent s now u cache_ttl_user_warm (key_by_id D.uuids id)
                    (key_by_email u.email) x (ap (D.repo.get_user_by_id s.store) same ∙ h)
                    (λ i e. key_by_id-injective D.uuids i id e ∙ sym same)
                    (email_is_no_id u.email u.id.bytes))
          ]

      -- The getter by id keeps a coherent cache coherent, whether it answers out of the cache or
      -- fills it, over a cache that shows only what was set and a consistent repository that
      -- satisfies its laws.
      pub get_user_by_id-IsCoherent :
          (s : State D) (now : Time) (id : Uuid)
          → laws.IsConsistent s.store
          → IsCoherent s
          → IsCoherent (get_user_by_id D s now id).1
      unfolding get_user_by_id
      get_user_by_id-IsCoherent s now id ok_store x =
          elim (Option-cases (cached_view D s.cached now id)) [
            | inl e ↦ rw (e, get_user_by_id) (load_user_by_id-IsCoherent s now id ok_store x)
            | inr (v, e) ↦ rw (e, get_user_by_id) x
          ]
