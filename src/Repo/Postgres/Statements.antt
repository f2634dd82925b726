-- ===== src/Repo/Postgres/Statements.antt =====
-- Any sequence of the queries keeps the constraints of the two tables.

use enterprise_middleware_go.Prelude.{String, List, [], ◌∷◌}
use enterprise_middleware_go.Clock.{Time}
use enterprise_middleware_go.Repo.{PgUuid}
use enterprise_middleware_go.Repo.Queries.{
  Citext, Tables, CreateUserParams, CreateSessionParams, create_user, create_session,
  revoke_session_by_id, update_password, cleanup_old_sessions,
}
use enterprise_middleware_go.Repo.Postgres.Constraints.{
  IsConsistent, create_user-IsConsistent, update_password-IsConsistent, create_session-IsConsistent,
  revoke_session_by_id-IsConsistent, cleanup_old_sessions-IsConsistent,
}

-- The statements that change the tables; between them the clock of the database moves.
pub data Statement : Type 0 where
  creating_user : CreateUserParams → Statement
  updating_password : PgUuid → String → Statement
  creating_session : CreateSessionParams → Statement
  revoking_session : PgUuid → Statement
  cleaning_up : Statement
  passing : Time → Statement

unfoldable pub execute : Citext → Statement → Tables → Tables
unfolding create_user update_password create_session revoke_session_by_id cleanup_old_sessions
execute C (creating_user arg) t = (create_user C t arg).1
execute C (updating_password id hash) t = (update_password t id hash).1
execute C (creating_session arg) t = (create_session t arg).1
execute C (revoking_session id) t = (revoke_session_by_id t id).1
execute C cleaning_up t = (cleanup_old_sessions t).1
execute C (passing now) t = record t { now = now }

execute-IsConsistent :
    (C : Citext) (st : Statement) (t : Tables) → IsConsistent C t → IsConsistent C (execute C st t)
unfolding execute
execute-IsConsistent C (creating_user arg) t x = create_user-IsConsistent C t arg x
execute-IsConsistent C (updating_password id hash) t x = update_password-IsConsistent C t id hash x
execute-IsConsistent C (creating_session arg) t x = create_session-IsConsistent C t arg x
execute-IsConsistent C (revoking_session id) t x = revoke_session_by_id-IsConsistent C t id x
execute-IsConsistent C cleaning_up t x = cleanup_old_sessions-IsConsistent C t x
execute-IsConsistent C (passing now) t x = record {
  user_ids = x.user_ids;
  emails = x.emails;
  usernames = x.usernames;
  session_ids = x.session_ids;
  token_hashes = x.token_hashes;
  owners = x.owners;
}

-- The tables after that many statements, the first one first.
unfoldable pub execute_all : Citext → List Statement → Tables → Tables
unfolding execute
execute_all C [] t = t
execute_all C (st ∷ sts) t = execute_all C sts (execute C st t)

-- The queries keep the tables consistent, in any sequence and with any arguments: ids, e-mails, user
-- names and token hashes stay unique, e-mails and user names in any spelling, and the user of each
-- session stays in the table of users.
pub execute_all-IsConsistent :
    (C : Citext) (sts : List Statement) (t : Tables)
    → IsConsistent C t
    → IsConsistent C (execute_all C sts t)
unfolding execute_all
execute_all-IsConsistent C [] t x = x
execute_all-IsConsistent C (st ∷ sts) t x =
    execute_all-IsConsistent C sts (execute C st t) (execute-IsConsistent C st t x)
