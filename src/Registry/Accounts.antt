-- ===== src/Registry/Accounts.antt =====
-- packages/dist-registry/src/dist_registry/store.py: the audit log, operators and sessions.
pub mod Sessions
use dev_tools_distribution_p.Base.{
  ℕ, ◌+◌, Bool, false, not, ◌&&◌, Option, [], ◌∷◌, ◌++◌, length, if◌then◌else◌, ◌==◌, nat_eq,
  list_eq, any, find, filter, ltb, leb, ok, ◌>>◌, require, foreign_key_violation, unique_violation,
}
use dev_tools_distribution_p.Base.Exec.{Exec, transact}
use dev_tools_distribution_p.Base.Text.{Str}
use dev_tools_distribution_p.Base.Json.{Fields}
use dev_tools_distribution_p.Registry.Schema.{Db, OperatorRow, SessionRow, update_where}

-- `audit`. The identity column counts the rows, of which none is ever deleted.
unfoldable pub audit : Str → Str → Option ℕ → Fields → Exec Db (Unit {0})
audit actor action source_id detail = transact λ db. ok (
  tt,
  record db {
    audit_log =
        db.audit_log
        ++ (record {
          id = length db.audit_log + 1;
          at = db.now;
          actor = actor;
          action = action;
          source_id = source_id;
          detail = detail;
        }
            ∷ []);
  },
)

abbrev pub has_username : Str → OperatorRow → Bool
has_username username o = o.username == username

-- `put_operator`
unfoldable pub put_operator : Str → Str → Str → Exec Db (Unit {0})
unfolding update_where
put_operator username password_hash salt = transact λ db.
    if any (has_username username) db.operators
    then ok (
      tt,
      record db {
        operators =
            update_where (has_username username)
              (λ o. record o { password_hash = password_hash; salt = salt }) db.operators;
      },
    )
    else ok (
      tt,
      record db {
        operators =
            db.operators
            ++ (record {
              username = username;
              password_hash = password_hash;
              salt = salt;
              disabled = false;
            }
                ∷ []);
      },
    )

-- `get_operator`
unfoldable pub get_operator : Str → Db → Option OperatorRow
get_operator username db = find (has_username username) db.operators

-- `operator_count`
unfoldable pub operator_count : Db → ℕ
operator_count db = length db.operators

abbrev pub has_token : Str → SessionRow → Bool
has_token token_sha256 s = s.token_sha256 == token_sha256

-- `create_session`
unfoldable pub create_session : Str → Str → Str → ℕ → Exec Db (Unit {0})
create_session token_sha256 username csrf_token expires_at = transact λ db. do
  require (not (any (has_token token_sha256) db.sessions)) unique_violation
  require (any (has_username username) db.operators) foreign_key_violation
  ok (
    tt,
    record db {
      sessions =
          db.sessions
          ++ (record {
            token_sha256 = token_sha256;
            username = username;
            csrf_token = csrf_token;
            expires_at = expires_at;
          }
              ∷ []);
    },
  )

-- `JOIN operators … WHERE NOT disabled`
unfoldable pub enabled_operator : Str → Db → Bool
enabled_operator username db = any (λ o. o.username == username && not o.disabled) db.operators

unfoldable pub is_live : Str → Db → SessionRow → Bool
unfolding enabled_operator
is_live token_sha256 db s =
    has_token token_sha256 s && ltb db.now s.expires_at && enabled_operator s.username db

-- `get_session`
unfoldable pub get_session : Str → Db → Option SessionRow
unfolding is_live
get_session token_sha256 db = find (is_live token_sha256 db) db.sessions

-- `delete_session`
unfoldable pub delete_session : Str → Exec Db (Unit {0})
delete_session token_sha256 =
    transact λ db.
      ok (tt, record db { sessions = filter (λ s. not (has_token token_sha256 s)) db.sessions })

-- `purge_expired_sessions`
unfoldable pub purge_expired_sessions : Exec Db (Unit {0})
purge_expired_sessions =
    transact λ db.
      ok (tt, record db { sessions = filter (λ s. not (leb s.expires_at db.now)) db.sessions })
