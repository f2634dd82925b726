-- ===== src/Repo/Queries/Paging.antt =====
-- Page behind page, ListUsersPage gives every user once.

use enterprise_middleware_go.Prelude.{
  ◌≡◌, refl, ap, true, false, inl, inr, List, [], ◌∷◌, ◌++◌, any, arith, eqb, All, Bool-cases,
}
use enterprise_middleware_go.Repo.{User}
use enterprise_middleware_go.Repo.Queries.{filter, id_is}
use enterprise_middleware_go.Repo.Queries.Rows.{Distinct}
use enterprise_middleware_go.Repo.Queries.Listing.{
  is_newer, insert_newest, newest_first, behind_cursor,
}

-- Each user is newer than those behind.
abbrev pub IsNewestFirst : List User → Type 0
IsNewestFirst [] = Unit
IsNewestFirst (u ∷ users) = All (λ (v : User). is_newer u v ≡ true) users × IsNewestFirst users

newer_trans : (u v w : User) → is_newer u v ≡ true → is_newer v w ≡ true → is_newer u w ≡ true
newer_trans u v w h k = ground arith

newer_total :
    (u v : User) → is_newer u v ≡ false → eqb v.id.bytes u.id.bytes ≡ false → is_newer v u ≡ true
newer_total u v h k = ground arith

All-newer :
    (u v : User) (users : List User)
    → is_newer u v ≡ true
    → All (λ (w : User). is_newer v w ≡ true) users
    → All (λ (w : User). is_newer u w ≡ true) users
All-newer u v [] _ _ = tt
All-newer u v (w ∷ users) h (k, ks) = (newer_trans u v w h k, All-newer u v users h ks)

All-insert_newest :
    (P : User → Type 0) (u : User) (users : List User)
    → P u
    → All P users
    → All P (insert_newest u users)
unfolding insert_newest
All-insert_newest P u [] h _ = (h, tt)
All-insert_newest P u (v ∷ users) h (k, ks) = elim (Bool-cases (is_newer u v)) [
  | inl e ↦ rw (e, insert_newest) (h, (k, ks))
  | inr e ↦ rw (e, insert_newest) (k, All-insert_newest P u users h ks)
]

insert_newest-IsNewestFirst :
    (u : User) (users : List User)
    → IsNewestFirst users
    → All (λ (v : User). eqb v.id.bytes u.id.bytes ≡ false) users
    → IsNewestFirst (insert_newest u users)
unfolding insert_newest
insert_newest-IsNewestFirst u [] _ _ = (tt, tt)
insert_newest-IsNewestFirst u (v ∷ users) (h, hs) (k, ks) = elim (Bool-cases (is_newer u v)) [
  | inl e ↦ rw (e, insert_newest) ((e, All-newer u v users e h), (h, hs))
  | inr e ↦
      rw (e, insert_newest)
        (
          All-insert_newest (λ (w : User). is_newer v w ≡ true) u users (newer_total u v e k) h,
          insert_newest-IsNewestFirst u users hs ks,
        )
]

pub All-newest_first :
    (P : User → Type 0) (users : List User) → All P users → All P (newest_first users)
unfolding newest_first
All-newest_first P [] _ = tt
All-newest_first P (u ∷ users) (h, hs) =
    All-insert_newest P u (newest_first users) h (All-newest_first P users hs)

other_ids :
    (u : User) (users : List User)
    → any (λ (v : User). id_is v.id.bytes u) users ≡ false
    → All (λ (v : User). eqb v.id.bytes u.id.bytes ≡ false) users
other_ids u [] _ = tt
other_ids u (v ∷ users) h = (ground arith, other_ids u users (ground arith))

pub newest_first-IsNewestFirst :
    (users : List User)
    → Distinct (λ (u v : User). id_is v.id.bytes u) users
    → IsNewestFirst (newest_first users)
unfolding newest_first
newest_first-IsNewestFirst [] _ = tt
newest_first-IsNewestFirst (u ∷ users) (h, hs) =
    insert_newest-IsNewestFirst u (newest_first users) (newest_first-IsNewestFirst users hs) (
      All-newest_first (λ (v : User). eqb v.id.bytes u.id.bytes ≡ false) users
        (other_ids u users h))

-- The columns of a user that the cursor takes are not null.
abbrev pub HasKey : User → Type 0
HasKey u = (u.created_at.valid ≡ true) × (u.id.valid ≡ true)

newer_of_cursor :
    (w u : User) → HasKey w → is_newer w u ≡ true → behind_cursor w.created_at w.id u ≡ true
newer_of_cursor w u (k, l) h = ground arith

kept :
    (w : User) (users : List User)
    → HasKey w
    → All (λ (u : User). is_newer w u ≡ true) users
    → filter (behind_cursor w.created_at w.id) users ≡ users
unfolding filter
kept w [] _ _ = refl
kept w (u ∷ users) k (h, hs) =
    rw (newer_of_cursor w u k h, filter) (ap (λ (l : List User). u ∷ l) (kept w users k hs))

newer_than :
    (u w : User) (users rest : List User)
    → All (λ (v : User). is_newer u v ≡ true) (users ++ w ∷ rest)
    → is_newer u w ≡ true
newer_than u w [] rest (h, _) = h
newer_than u w (v ∷ users) rest (_, hs) = newer_than u w users rest hs

-- Behind the cursor of a user stand those behind it in the order.
pub behind_last :
    (users : List User) (w : User) (rest : List User)
    → HasKey w
    → IsNewestFirst (users ++ w ∷ rest)
    → filter (behind_cursor w.created_at w.id) (users ++ w ∷ rest) ≡ rest
unfolding filter
behind_last [] w rest (k, l) (h, _) =
    let off : behind_cursor w.created_at w.id w ≡ false = ground arith in
    rw (off, filter) (kept w rest (k, l) h)
behind_last (u ∷ users) w rest (k, l) (h, hs) =
    let first = newer_than u w users rest h in
    let off : behind_cursor w.created_at w.id u ≡ false = ground arith in
    rw (off, filter) (behind_last users w rest (k, l) hs)
