-- ===== src/Admin/Auth.antt =====
-- packages/dist-admin/src/dist_admin/auth.py, and what app.py does with it: `current_operator`,
-- `_check_csrf`, `_bootstrap_operator`, and the handlers of /login and /logout. A time that this
-- process reads is an argument, and so are the texts that `secrets` makes.
pub mod Answers
pub mod Logins
pub mod Examples
use dev_tools_distribution_p.Base.{
  ℕ, ◌+◌, Bool, true, false, not, ◌&&◌, Option, none, some, List, [], ◌∷◌, if◌then◌else◌, ◌==◌,
  nat_eq, list_eq, all, ltb, Result, ok, err, ◌>>=◌, ◌>>◌, require, form_error, type_error,
}
use dev_tools_distribution_p.Base.Exec.{Exec, ◌⨟◌}
use dev_tools_distribution_p.Base.Text.{Str, text}
use dev_tools_distribution_p.Base.Json.{Fields, end, field, str}
use dev_tools_distribution_p.Registry.Schema.{Db, OperatorRow, SessionRow}
use dev_tools_distribution_p.Registry.Accounts.{
  audit, put_operator, get_operator, operator_count, create_session, get_session, delete_session,
}

-- `hashlib` on the UTF-8 encoding of a text: scrypt with the costs of this module, and SHA-256
pub record Digests : Type 0 where
  pub scrypt : Str → Str → Str
  pub sha256 : Str → Str

-- `SESSION_LIFETIME`, in minutes
abbrev pub session_lifetime : ℕ
session_lifetime = 720

-- `Operator`
pub record Operator : Type 0 where
  pub username : Str
  pub csrf : Str

unfoldable pub is_ascii : Str → Bool
is_ascii = all (λ c. ltb c 128)

-- `hmac.compare_digest` of two texts, which must be ASCII
unfoldable pub compare_digest : Str → Str → Result Bool
unfolding is_ascii
compare_digest a b = if is_ascii a && is_ascii b then ok (a == b) else err type_error

-- `csrf_ok`, where a field that is missing is no text
unfoldable pub csrf_ok : Str → Option Str → Result Bool
unfolding compare_digest
csrf_ok expected none = ok false
csrf_ok expected (some []) = ok false
csrf_ok expected (some (c ∷ cs)) = compare_digest expected (c ∷ cs)

-- `_check_csrf`
unfoldable pub check_csrf : Operator → Option Str → Result (Unit {0})
unfolding csrf_ok
check_csrf operator supplied = do fits ← csrf_ok operator.csrf supplied; require fits form_error

unfoldable pub operator_of : Option SessionRow → Option Operator
operator_of none = none
operator_of (some s) = some (record { username = s.username; csrf = s.csrf_token })

module _ (digests : Digests) where
  -- `hash_password`, given the salt
  unfoldable pub hash_password : Str → Str → Str × Str
  hash_password password salt = (digests.scrypt password salt, salt)

  -- `verify_password`, on the bytes of two digests
  unfoldable pub verify_password : Str → Str → Str → Bool
  unfolding hash_password
  verify_password password expected salt =
      let (candidate, _) = hash_password password salt in candidate == expected

  -- `token_digest`
  unfoldable pub token_digest : Str → Str
  token_digest token = digests.sha256 token

  unfoldable pub admits : Option OperatorRow → Str → Bool
  unfolding verify_password
  admits none password = false
  admits (some r) password =
      if r.disabled then false else verify_password password r.password_hash r.salt

  -- `authenticate`, without the time that it takes
  unfoldable pub authenticate : Str → Str → Db → Bool
  unfolding admits
  authenticate username password db = admits (get_operator username db) password

  -- `begin_session`, at a time and with the texts that `token_urlsafe` made
  unfoldable pub begin_session : ℕ → Str → Str → Str → Exec Db (Unit {0})
  unfolding token_digest
  begin_session time token csrf username =
      create_session (token_digest token) username csrf (time + session_lifetime)

  -- `end_session`
  unfoldable pub end_session : Option Str → Exec Db (Unit {0})
  unfolding token_digest
  end_session none db = (ok tt, db)
  end_session (some []) db = (ok tt, db)
  end_session (some (c ∷ cs)) db = delete_session (token_digest (c ∷ cs)) db

  -- `session_for`
  unfoldable pub session_for : Option Str → Db → Option SessionRow
  unfolding token_digest
  session_for none db = none
  session_for (some []) db = none
  session_for (some (c ∷ cs)) db = get_session (token_digest (c ∷ cs)) db

  -- `current_operator`, of the request's cookie
  unfoldable pub current_operator : Option Str → Db → Option Operator
  unfolding session_for operator_of
  current_operator cookie db = operator_of (session_for cookie db)

  rejected : Str → Exec Db (Option Str)
  rejected username =
      audit username (text "login.failed") none (field (text "outcome") (str (text "rejected")) end)
      ⨟ λ db. (ok none, db)

  accepted : ℕ → Str → Str → Str → Exec Db (Option Str)
  unfolding begin_session
  accepted time token csrf username =
      begin_session time token csrf username
      ⨟ audit username (text "login.succeeded") none end
      ⨟ λ db. (ok (some token), db)

  -- The handler of /login, which answers with the cookie that it sets, if any
  unfoldable pub login : ℕ → Str → Str → Str → Str → Exec Db (Option Str)
  unfolding authenticate rejected accepted
  login time token csrf username password db =
      if authenticate username password db
      then accepted time token csrf username db
      else rejected username db

  -- The handler of /logout, which takes the cookie away
  unfoldable pub logout : Option Str → Exec Db (Unit {0})
  unfolding end_session
  logout cookie = end_session cookie

  -- `_bootstrap_operator`, given the salt
  unfoldable pub bootstrap_operator : Str → Option Str → Exec Db (Unit {0})
  unfolding hash_password
  bootstrap_operator salt none db = (ok tt, db)
  bootstrap_operator salt (some password) db =
      if ltb 0 (operator_count db)
      then (ok tt, db)
      else let (digest, kept) = hash_password password salt in
        (put_operator (text "admin") digest kept
            ⨟ audit (text "system") (text "operator.bootstrap") none
                (field (text "username") (str (text "admin")) end))
          db
