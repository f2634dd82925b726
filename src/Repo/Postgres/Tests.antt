-- ===== src/Repo/Postgres/Tests.antt =====
-- The tables from empty: a user, whom another spelling of her e-mail finds, and a session of hers.

use enterprise_middleware_go.Prelude.{suc, length, map, String, ◌≡◌, refl, [], ◌∷◌}
use mathlib.Core.List.{Perm}
use enterprise_middleware_go.Text.{equal_fold}
use enterprise_middleware_go.Repo.{
  User, UserCreated, pg_uuid, pg_time, null_time, ok, err, driver_error,
}
use enterprise_middleware_go.Repo.Queries.{Citext, Tables, find, query_row, user_violation}
use enterprise_middleware_go.Repo.Queries
use enterprise_middleware_go.Repo.Queries.Listing.{page_row, newest_first}
use enterprise_middleware_go.Repo.Queries.Paging.{IsNewestFirst}
use enterprise_middleware_go.Repo.Queries.Following.{follow, follow-newest_first}
use enterprise_middleware_go.Repo.Postgres.Example.{folding}
use enterprise_middleware_go.Repo.Postgres.{postgres, create_user, get_user_by_email}
use enterprise_middleware_go.Repo.Postgres.Constraints.{IsConsistent}
use enterprise_middleware_go.Repo.Postgres.Laws.{create_user-Inserted}
use enterprise_middleware_go.Repo.Postgres.Statements.{
  creating_user, creating_session, revoking_session, passing, execute_all, execute_all-IsConsistent,
}

abbrev no_rows : Tables
no_rows = record { now = 5; users = []; sessions = [] }

abbrev digest : String
digest = "$2a$10$N9qo8uLOickgx2ZMRZo5i.ej6pHxUzH.fGs6Q.9aZrNnKjvT4SE3W"

abbrev alice : User
alice = record {
  id = pg_uuid 1;
  email = "alice@example.com";
  username = "alice";
  password_hash = digest;
  created_at = null_time;
  updated_at = null_time;
}

abbrev alice_row : User
alice_row = record alice { created_at = pg_time 5; updated_at = pg_time 5 }

abbrev with_alice : Tables
with_alice = record no_rows { users = alice_row ∷ [] }

runs : Unit {0}
unfolding create_user Queries.create_user user_violation get_user_by_email Queries.get_user_by_email
    find query_row equal_fold
runs = tt

any_spelling : get_user_by_email folding with_alice "Alice@Example.COM" ≡ ok alice_row
unfolding runs
any_spelling = refl

taken :
    create_user folding with_alice (record alice { id = pg_uuid 2; email = "ALICE@example.com" })
    ≡ (err (driver_error "users_email_key"), with_alice)
unfolding runs
taken = refl

create_user-Inserted_example :
    UserCreated (postgres folding) folding.same alice alice_row no_rows with_alice
unfolding runs
create_user-Inserted_example = create_user-Inserted folding no_rows alice

no_rows-IsConsistent : IsConsistent folding no_rows
no_rows-IsConsistent = record {
  user_ids = tt;
  emails = tt;
  usernames = tt;
  session_ids = tt;
  token_hashes = tt;
  owners = tt;
}

execute_all-IsConsistent_example : IsConsistent folding (
    execute_all folding
      (creating_user (record {
        id = pg_uuid 1;
        email = "alice@example.com";
        username = "alice";
        password_hash = digest;
      })
        ∷ passing 7
        ∷ creating_session (record {
          id = pg_uuid 2;
          user_id = pg_uuid 1;
          token_hash = "0123456789abcdef0123456789abcdef0123456789abcdef0123456789abcdef";
          expires_at = pg_time 9;
        })
        ∷ revoking_session (pg_uuid 2)
        ∷ [])
      no_rows)
execute_all-IsConsistent_example = execute_all-IsConsistent folding _ no_rows no_rows-IsConsistent

-- A user who came later, with a page for each user.
abbrev bob_row : User
bob_row = record {
  id = pg_uuid 2;
  email = "bob@example.com";
  username = "bob";
  password_hash = digest;
  created_at = pg_time 7;
  updated_at = pg_time 7;
}

abbrev with_two : Tables
with_two = record no_rows { users = alice_row ∷ bob_row ∷ [] }

newest_first_run : newest_first with_two.users ≡ bob_row ∷ alice_row ∷ []
unfolding newest_first
newest_first_run = refl

follow-newest_first_example :
    (follow (suc (length (newest_first with_two.users))) 1 with_two null_time (pg_uuid 0)
      ≡ map page_row (newest_first with_two.users))
    × IsNewestFirst (newest_first with_two.users)
    × Perm (newest_first with_two.users) with_two.users
follow-newest_first_example =
    follow-newest_first with_two 0 (pg_uuid 0) (refl, (refl, tt)) ((refl, refl), ((refl, refl), tt))
