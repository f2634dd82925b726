-- ===== src/Service/Profile.antt =====
-- GetProfile, and the GetProfile handler of internal/user/grpc/server.go.
pub mod Transparency
use enterprise_middleware_go.Prelude.{String, Option, none, some}
use enterprise_middleware_go.Repo.{User, zero_user, RepoResult, ok, err}
use enterprise_middleware_go.Errors.{err_validation, err_not_found}
use enterprise_middleware_go.Service.Deps.{Deps, State, Readings}
use enterprise_middleware_go.Service.Getters.{get_user_by_id}
use enterprise_middleware_go.Service.Register.{refusal}

-- userpb.GetProfileResponse
pub record GetProfileResponse : Type 0 where
  pub user_id : String
  pub email : String
  pub username : String

module _ (D : Deps) where
  -- GetProfile
  unfoldable pub get_profile : State D → Readings → String → (User × Option D.grpc.Error) × State D
  get_profile s r user_id = elim (D.uuids.parse user_id) [
    | none ↦ ((zero_user, refusal D err_validation), s)
    | some id ↦
        let (found, s') = get_user_by_id D s r.cache_now id in
        elim found [ err _ ↦ ((zero_user, refusal D err_not_found), s') | ok u ↦ ((u, none), s') ]
  ]

  -- The handler: a nil response with an error, or the response.
  unfoldable pub profile_response :
      User × Option D.grpc.Error → Option GetProfileResponse × Option D.grpc.Error
  profile_response (u, some e) = (none, some e)
  profile_response (u, none) = (
    some
        (record { user_id = D.uuids.to_string u.id.bytes; email = u.email; username = u.username }),
    none,
  )

  unfoldable pub serve_get_profile :
      State D → Readings → String → (Option GetProfileResponse × Option D.grpc.Error) × State D
  unfolding profile_response
  serve_get_profile s r user_id =
      let (result, s') = get_profile s r user_id in (profile_response result, s')
