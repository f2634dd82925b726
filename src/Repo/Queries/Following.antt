-- ===== src/Repo/Queries/Following.antt =====
-- A client that asks ListUsersPage for page behind page sees every user once, the newest first.
use mathlib.Core.Path.{subst}
use mathlib.Core.List
use mathlib.Core.List.{Perm}
use mathlib.Core.List.Perm
use enterprise_middleware_go.Prelude.{
  ℕ, zero, suc, ◌+◌, ◌<◌, ◌≡◌, refl, sym, ap, ◌∙◌, inl, inr, List, [], ◌∷◌, ◌++◌, map, length,
  length-append, arith, All, Bool-cases,
}
use enterprise_middleware_go.Prelude.Int.{pos}
use enterprise_middleware_go.Repo.{PgUuid, Timestamptz, null_time, User, RepoResult, ok, err}
use enterprise_middleware_go.Repo.Queries.{Tables, filter, id_is}
use enterprise_middleware_go.Repo.Queries.Listing.{
  ListUsersPageRow, page_row, is_newer, insert_newest, newest_first, behind_cursor, take,
  selected_users, list_users_page,
}
use enterprise_middleware_go.Repo.Queries.Rows.{Distinct}
use enterprise_middleware_go.Repo.Queries.Paging.{
  IsNewestFirst, HasKey, behind_last, newest_first-IsNewestFirst, All-newest_first,
}

-- The rows that a client reads: none of an error.
abbrev pub rows_of : RepoResult (List ListUsersPageRow) → List ListUsersPageRow
rows_of (ok rows) = rows
rows_of (err _) = []

abbrev pub last_row : ListUsersPageRow → List ListUsersPageRow → ListUsersPageRow
last_row r [] = r
last_row r (q ∷ rows) = last_row q rows

-- The pages of at most that many rows until one is empty, each behind the cursor of the last row of
-- the one before; the first number bounds the pages.
unfoldable pub follow : ℕ → ℕ → Tables → Timestamptz → PgUuid → List ListUsersPageRow
follow zero n t time id = []
follow (suc fuel) n t time id =
    elim (rows_of (list_users_page t (record { column_1 = time; column_2 = id; limit = pos n }))) [
      | [] ↦ []
      | r ∷ rows ↦ (r ∷ rows) ++ follow fuel n t (last_row r rows).created_at (last_row r rows).id
    ]

-- A page and what is behind it.
pub record IsCut (u : User) (n : ℕ) (users : List User) : Type 0 where
  pub front : List User
  pub last_user : User
  pub rest : List User
  pub whole : u ∷ users ≡ front ++ last_user ∷ rest
  pub page : map page_row (u ∷ take n users) ≡ map page_row (front ++ last_user ∷ [])
  pub last_is : last_row (page_row u) (map page_row (take n users)) ≡ page_row last_user

cut : (u : User) (n : ℕ) (users : List User) → IsCut u n users
unfolding take
cut u zero users = record {
  front = [];
  last_user = u;
  rest = users;
  whole = refl;
  page = refl;
  last_is = refl;
}
cut u (suc n) [] = record {
  front = [];
  last_user = u;
  rest = [];
  whole = refl;
  page = refl;
  last_is = refl;
}
cut u (suc n) (v ∷ users) =
    let c = cut v n users in
    record {
      front = u ∷ c.front;
      last_user = c.last_user;
      rest = c.rest;
      whole = ap (λ (l : List User). u ∷ l) c.whole;
      page = ap (λ (l : List ListUsersPageRow). page_row u ∷ l) c.page;
      last_is = c.last_is;
    }

HasKey-last :
    (front : List User) (w : User) (rest : List User) → All HasKey (front ++ w ∷ rest) → HasKey w
HasKey-last [] w rest (h, _) = h
HasKey-last (u ∷ front) w rest (_, hs) = HasKey-last front w rest hs

map-append-rows : (a b : List User) → map page_row (a ++ b) ≡ map page_row a ++ map page_row b
map-append-rows [] b = refl
map-append-rows (u ∷ a) b = ap (λ (l : List ListUsersPageRow). page_row u ∷ l) (map-append-rows a b)

module _ (t : Tables) (n : ℕ) (ordered : IsNewestFirst (newest_first t.users))
    (keyed : All HasKey (newest_first t.users)) where
  first_page :
      (fuel : ℕ) (u : User) (users : List User) (time : Timestamptz) (id : PgUuid)
      → selected_users t time id ≡ u ∷ users
      → follow (suc fuel) (suc n) t time id
        ≡ map page_row (u ∷ take n users)
          ++ follow fuel
              (suc n)
              t
              (last_row (page_row u) (map page_row (take n users))).created_at
              (last_row (page_row u) (map page_row (take n users))).id
  unfolding follow list_users_page take
  first_page fuel u users time id here = rw (here, follow, list_users_page) refl

  follow-rest :
      (fuel : ℕ) (time : Timestamptz) (id : PgUuid) (front users : List User)
      → newest_first t.users ≡ front ++ users
      → selected_users t time id ≡ users
      → length users < fuel
      → follow fuel (suc n) t time id ≡ map page_row users
  unfolding follow list_users_page take selected_users
  follow-rest zero time id front users _ _ short = ground arith
  follow-rest (suc fuel) time id front [] whole here short = rw (here, follow, list_users_page) refl
  follow-rest (suc fuel) time id front (u ∷ users) whole here short =
      let c = cut u n users in
      let w = c.last_user in
      let whole' : newest_first t.users ≡ (front ++ c.front) ++ w ∷ c.rest =
        whole
        ∙ ap (λ (l : List User). front ++ l) c.whole
        ∙ sym (List.append_assoc front c.front (w ∷ c.rest)) in
      let key : HasKey w =
        HasKey-last (front ++ c.front) w c.rest (subst (All HasKey) whole' keyed) in
      let next : selected_users t w.created_at w.id ≡ c.rest =
        ap (filter (behind_cursor w.created_at w.id)) whole'
        ∙ behind_last (front ++ c.front) w c.rest key (subst IsNewestFirst whole' ordered) in
      let sizes : suc (length users) ≡ length c.front + suc (length c.rest) =
        ap (length {A = User}) c.whole ∙ length-append c.front (w ∷ c.rest) in
      let behind : follow fuel (suc n) t w.created_at w.id ≡ map page_row c.rest =
        follow-rest fuel w.created_at w.id ((front ++ c.front) ++ w ∷ []) c.rest
          (whole' ∙ sym (List.append_assoc (front ++ c.front) (w ∷ []) c.rest)) next
          (omega (arith, sizes, short)) in
      first_page fuel u users time id here
      ∙ ap
          (λ (l : ListUsersPageRow).
            map page_row (u ∷ take n users) ++ follow fuel (suc n) t l.created_at l.id)
          c.last_is
      ∙ ap (λ (rows : List ListUsersPageRow). rows ++ follow fuel (suc n) t w.created_at w.id)
          c.page
      ∙ ap (λ (rows : List ListUsersPageRow). map page_row (c.front ++ w ∷ []) ++ rows) behind
      ∙ sym (map-append-rows (c.front ++ w ∷ []) c.rest)
      ∙ ap (map page_row) (List.append_assoc c.front (w ∷ []) c.rest ∙ sym c.whole)

all_selected : (id : PgUuid) (users : List User) → filter (behind_cursor null_time id) users ≡ users
unfolding filter
all_selected id [] = refl
all_selected id (u ∷ users) = ap (λ (l : List User). u ∷ l) (all_selected id users)

insert_newest-perm : (u : User) (users : List User) → Perm (insert_newest u users) (u ∷ users)
unfolding insert_newest
insert_newest-perm u [] = Perm.refl (u ∷ [])
insert_newest-perm u (v ∷ users) = elim (Bool-cases (is_newer u v)) [
  | inl e ↦ rw (e, insert_newest) (Perm.refl (u ∷ v ∷ users))
  | inr e ↦
      rw (e, insert_newest)
        (Perm.trans (Perm.cons v (insert_newest-perm u users)) (Perm.swap u v users))
]

newest_first-perm : (users : List User) → Perm (newest_first users) users
unfolding newest_first
newest_first-perm [] = Perm.refl []
newest_first-perm (u ∷ users) =
    Perm.trans (insert_newest-perm u (newest_first users)) (Perm.cons u (newest_first-perm users))

-- A client that follows the pages of ListUsersPage from the first one, each behind the cursor of the
-- last row of the one before, reads every user of the table once, in the order of created_at and id
-- from the newest, whatever the size of the pages is, if it is not zero. The ids are distinct and no
-- created_at is null, as the table's constraints say, and the table does not change meanwhile.
pub follow-newest_first :
    (t : Tables) (n : ℕ) (id : PgUuid)
    → Distinct (λ (u v : User). id_is v.id.bytes u) t.users
    → All HasKey t.users
    → (follow (suc (length (newest_first t.users))) (suc n) t null_time id
        ≡ map page_row (newest_first t.users))
      × IsNewestFirst (newest_first t.users)
      × Perm (newest_first t.users) t.users
unfolding selected_users
follow-newest_first t n id distinct keyed =
    let ordered = newest_first-IsNewestFirst t.users distinct in
    let everyone : selected_users t null_time id ≡ newest_first t.users =
      all_selected id (newest_first t.users) in
    (
      follow-rest t n ordered (All-newest_first HasKey t.users keyed)
          (suc (length (newest_first t.users))) null_time id [] (newest_first t.users) refl everyone
          (omega arith),
      ordered,
      newest_first-perm t.users,
    )
