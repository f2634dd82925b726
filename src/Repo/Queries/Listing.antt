-- ===== src/Repo/Queries/Listing.antt =====
-- ListUsersPage: the users of a page behind a cursor, the newest first.
use enterprise_middleware_go.Prelude.{
  ℕ, zero, suc, String, Bool, not, ◌&&◌, ◌||◌, List, [], ◌∷◌, map, ltb, eqb, if◌then◌else◌,
}
use enterprise_middleware_go.Prelude.Int.{ℤ, pos, negsuc}
use enterprise_middleware_go.Clock.{Time}
use enterprise_middleware_go.Repo.{
  Uuid, PgUuid, Timestamptz, User, driver_error, RepoResult, ok, err,
}
use enterprise_middleware_go.Repo.Queries.{Tables, filter}

pub record ListUsersPageParams : Type 0 where
  pub column_1 : Timestamptz
  pub column_2 : PgUuid
  pub limit : ℤ

pub record ListUsersPageRow : Type 0 where
  pub id : PgUuid
  pub email : String
  pub username : String
  pub created_at : Timestamptz
  pub updated_at : Timestamptz

abbrev pub page_row : User → ListUsersPageRow
page_row u = record {
  id = u.id;
  email = u.email;
  username = u.username;
  created_at = u.created_at;
  updated_at = u.updated_at;
}

-- The order of (created_at, id), of which both are not null.
abbrev pub later : Time → Uuid → Time → Uuid → Bool
later a i b j = ltb b a || (eqb b a && ltb j i)

abbrev pub is_newer : User → User → Bool
is_newer u v = later u.created_at.time u.id.bytes v.created_at.time v.id.bytes

-- ORDER BY created_at DESC, id DESC
unfoldable pub insert_newest : User → List User → List User
insert_newest u [] = u ∷ []
insert_newest u (v ∷ users) =
    let behind = insert_newest u users in if is_newer u v then u ∷ v ∷ users else v ∷ behind

unfoldable pub newest_first : List User → List User
unfolding insert_newest
newest_first [] = []
newest_first (u ∷ users) = insert_newest u (newest_first users)

-- The WHERE clause; a comparison that a null leaves open selects nothing.
abbrev pub behind_cursor : Timestamptz → PgUuid → User → Bool
behind_cursor time id u =
    not time.valid
    || ltb u.created_at.time time.time
    || (eqb u.created_at.time time.time && id.valid && ltb u.id.bytes id.bytes)

unfoldable pub take : ℕ → List User → List User
take zero users = []
take (suc n) [] = []
take (suc n) (u ∷ users) = u ∷ take n users

-- The users that the query selects, without its limit.
unfoldable pub selected_users : Tables → Timestamptz → PgUuid → List User
unfolding newest_first filter
selected_users t time id = filter (behind_cursor time id) (newest_first t.users)

-- ListUsersPage
unfoldable pub list_users_page : Tables → ListUsersPageParams → RepoResult (List ListUsersPageRow)
unfolding selected_users take
list_users_page t arg = elim arg.limit [
  | negsuc _ ↦ err (driver_error "LIMIT must not be negative")
  | pos n ↦ ok (map page_row (take n (selected_users t arg.column_1 arg.column_2)))
]
