-- ===== src/Registry/Statements.antt =====
-- The statements that the services send to the database, in any order: the store's functions of
-- packages/dist-registry/src/dist_registry/store.py with their arguments, and the passing of time.
pub mod Consistent
pub mod Rows
pub mod Ratchet
use dev_tools_distribution_p.Base.{ℕ, ◌+◌, Option, List, [], ◌∷◌}
use dev_tools_distribution_p.Base.Text.{Str}
use dev_tools_distribution_p.Base.Json.{Fields}
use dev_tools_distribution_p.Registry.Models.{SourceStatus, JobKind, JobState, Message, Source}
use dev_tools_distribution_p.Registry.Schema.{Db}
use dev_tools_distribution_p.Registry.Sources.{
  add_source, update_source, set_status, record_identity, mark_delegated, delete_source,
}
use dev_tools_distribution_p.Registry.Jobs.{enqueue, claim_job, finish_job, reset_stale_jobs}
use dev_tools_distribution_p.Registry.Accounts.{
  audit, put_operator, create_session, delete_session, purge_expired_sessions,
}

pub data Statement : Type 0 where
  add : Source → Statement
  update : ℕ → Fields → Statement
  status : ℕ → SourceStatus → Option Message → Statement
  identity : ℕ → Option Str → Option Str → Statement
  delegated : Str → Statement
  delete : ℕ → Statement
  queue : ℕ → ℕ → JobKind → Str → Fields → Statement
  claim : List JobKind → Statement
  finish : ℕ → JobState → Option Fields → Option Message → Statement
  reset : ℕ → Statement
  record_event : Str → Str → Option ℕ → Fields → Statement
  operator : Str → Str → Str → Statement
  session : Str → Str → Str → ℕ → Statement
  end_session : Str → Statement
  purge : Statement
  wait : ℕ → Statement

-- The database after a statement, whether it commits or raises.
unfoldable pub execute : Statement → Db → Db
execute (add source) db = (add_source source db).1
execute (update source_id fields) db = (update_source source_id fields db).1
execute (status source_id s error) db = (set_status source_id s error db).1
execute (identity source_id repository owner) db = (record_identity source_id repository owner db).1
execute (delegated app_id) db = (mark_delegated app_id db).1
execute (delete source_id) db = (delete_source source_id db).1
execute (queue id source_id kind by payload) db = (enqueue id source_id kind by payload db).1
execute (claim kinds) db = (claim_job kinds db).1
execute (finish id state result error) db = (finish_job id state result error db).1
execute (reset older_than) db = (reset_stale_jobs older_than db).1
execute (record_event actor action source_id detail) db = (audit actor action source_id detail db).1
execute (operator username hash salt) db = (put_operator username hash salt db).1
execute (session token username csrf expires_at) db =
    (create_session token username csrf expires_at db).1
execute (end_session token) db = (delete_session token db).1
execute purge db = (purge_expired_sessions db).1
execute (wait n) db = record db { now = db.now + n }

unfoldable pub execute_all : List Statement → Db → Db
unfolding execute
execute_all [] db = db
execute_all (st ∷ rest) db = execute_all rest (execute st db)
