-- ===== src/Admin/Auth/Answers.antt =====
-- How a login and a logout change what the next request finds: packages/dist-admin/src/dist_admin,
-- auth.py and app.py, over the tables of packages/dist-registry.
use dev_tools_distribution_p.Base.{
  ℕ, ◌+◌, ◌<◌, Bool, true, false, not, ◌&&◌, Option, none, some, List, [], ◌∷◌, ◌++◌, length, ◌==◌,
  nat_eq, list_eq, any, find, In, find-eq-some, any-In, ok, ◌≡◌, ◌≢◌, refl, sym, ap, ◌∙◌, arith,
  Bool-cases, Option-cases, inl, inr, ==_iff, ==_refl,
}
use dev_tools_distribution_p.Base.Text.{Str, text}
use dev_tools_distribution_p.Base.Json.{Fields, end, field, str}
use dev_tools_distribution_p.Registry.Schema.{Db, OperatorRow, SessionRow}
use dev_tools_distribution_p.Registry.Accounts.{
  has_token, has_username, audit, get_operator, create_session, enabled_operator, is_live,
  get_session,
}
use dev_tools_distribution_p.Registry.Accounts.Sessions.{get_session-delete_session}
use dev_tools_distribution_p.Admin.Auth.{
  Digests, session_lifetime, is_ascii, compare_digest, csrf_ok, operator_of, hash_password,
  verify_password, token_digest, admits, authenticate, current_operator, session_for, login, logout,
  end_session,
}

-- A row after the others is found where none of them passes.
find-append-none :
    {A : Type 0} (p : A → Bool) (xs : List A) (a : A)
    → any p xs ≡ false
    → p a ≡ true
    → find p (xs ++ a ∷ []) ≡ some a
unfolding find any
find-append-none p [] a h e = ground arith
find-append-none p (x ∷ xs) a h e =
    let rest = find-append-none p xs a (ground arith) e in ground (arith, rest)

-- A row that does not pass changes nothing.
find-append-same :
    {A : Type 0} (p : A → Bool) (xs : List A) (a : A)
    → p a ≡ false
    → find p (xs ++ a ∷ []) ≡ find p xs
unfolding find
find-append-same p [] a e = ground arith
find-append-same p (x ∷ xs) a e = let rest = find-append-same p xs a e in ground (arith, rest)

any-and :
    {A : Type 0} (p q : A → Bool) (xs : List A)
    → ((a : A) → q a ≡ true → p a ≡ true)
    → any p xs ≡ false
    → any q xs ≡ false
unfolding any
any-and p q [] h e = refl
any-and p q (x ∷ xs) h e =
    let rest = any-and p q xs h (ground arith) in
    elim (Bool-cases (q x)) [
      | inl f ↦ let g = h x f in absurd (ground arith)
      | inr f ↦ ground (arith, rest)
    ]

-- An operator of that name who is not disabled, and whose stored digest is that of the password.
pub record IsAdmitted (digests : Digests) (username password : Str) (db : Db) : Type 0 where
  pub row : OperatorRow
  pub stored : In row db.operators
  pub named : row.username ≡ username
  pub enabled : row.disabled ≡ false
  pub fits : digests.scrypt password row.salt ≡ row.password_hash

abbrev pub session_row : Digests → ℕ → Str → Str → Str → SessionRow
session_row digests time token csrf username = record {
  token_sha256 = digests.sha256 token;
  username = username;
  csrf_token = csrf;
  expires_at = time + session_lifetime;
}

-- The tables after a login that is accepted.
abbrev pub logged_in : Digests → ℕ → Str → Str → Str → Db → Db
logged_in digests time token csrf username db = record db {
  sessions = db.sessions ++ session_row digests time token csrf username ∷ [];
  audit_log =
      db.audit_log
      ++ record {
        id = length db.audit_log + 1;
        at = db.now;
        actor = username;
        action = text "login.succeeded";
        source_id = none;
        detail = end;
      }
        ∷ [];
}

module _ (digests : Digests) where
  admits-eq-true :
      (r : OperatorRow) (password : Str)
      → admits digests (some r) password ≡ true
      → (r.disabled ≡ false) × (digests.scrypt password r.salt ≡ r.password_hash)
  unfolding admits verify_password hash_password
  admits-eq-true r password h = elim (Bool-cases r.disabled) [
    | inl e ↦ absurd (ground arith)
    | inr e ↦ (e, (==_iff (digests.scrypt password r.salt) r.password_hash).0 (ground arith))
  ]

  pub authenticate-eq-true :
      (username password : Str) (db : Db)
      → authenticate digests username password db ≡ true
      → IsAdmitted digests username password db
  unfolding authenticate get_operator admits
  authenticate-eq-true username password db h =
      elim (Option-cases (find (has_username username) db.operators)) [
        | inl e ↦ absurd (ground (arith, e))
        | inr (r, e) ↦
            let (m, f) = find-eq-some (has_username username) db.operators r e in
            let (on, same) =
              admits-eq-true r password (ap (λ o. admits digests o password) (sym e) ∙ h) in
            record {
              row = r;
              stored = m;
              named = (==_iff r.username username).0 f;
              enabled = on;
              fits = same;
            }
      ]

  pub login-accepted :
      (time : ℕ) (token csrf username password : Str) (db : Db)
      → authenticate digests username password db ≡ true
      → any (has_token (digests.sha256 token)) db.sessions ≡ false
      → login digests time token csrf username password db
        ≡ (ok (some token), logged_in digests time token csrf username db)
  unfolding login create_session audit token_digest
  login-accepted time token csrf username password db h fresh =
      let a = authenticate-eq-true username password db h in
      let known : any (has_username username) db.operators ≡ true =
        any-In (has_username username) db.operators a.row a.stored
          ((==_iff a.row.username username).1 a.named) in
      rw h (rw fresh (rw known refl))

  -- A row of the log lets nobody in and nobody out.
  current_operator-audit :
      (actor action : Str) (detail : Fields) (cookie : Option Str) (db : Db)
      → current_operator digests cookie (audit actor action none detail db).1
        ≡ current_operator digests cookie db
  unfolding audit current_operator session_for get_session is_live enabled_operator
  current_operator-audit actor action detail none db = refl
  current_operator-audit actor action detail (some []) db = refl
  current_operator-audit actor action detail (some (c ∷ cs)) db = refl

  pub login-rejected :
      (time : ℕ) (token csrf username password : Str) (db : Db)
      → authenticate digests username password db ≡ false
      → ((login digests time token csrf username password db).0 ≡ ok none)
        × ((cookie : Option Str)
            → current_operator digests cookie (login digests time token csrf username password db).1
              ≡ current_operator digests cookie db)
  unfolding login audit
  login-rejected time token csrf username password db h = rw h (
    refl,
    λ cookie.
        current_operator-audit username (text "login.failed")
          (field (text "outcome") (str (text "rejected")) end) cookie db,
  )

  new_session :
      (time : ℕ) (token csrf username : Str) (db : Db) (o : OperatorRow)
      → db.now < time + session_lifetime
      → any (has_token (digests.sha256 token)) db.sessions ≡ false
      → In o db.operators
      → o.username ≡ username
      → o.disabled ≡ false
      → get_session (digests.sha256 token) (logged_in digests time token csrf username db)
        ≡ some (session_row digests time token csrf username)
  unfolding get_session is_live enabled_operator
  new_session time token csrf username db o soon fresh m named enabled =
      let new : Db = logged_in digests time token csrf username db in
      let on : any (λ r. r.username == username && not r.disabled) db.operators ≡ true =
        any-In (λ r. r.username == username && not r.disabled) db.operators o m
          (let e = (==_iff o.username username).1 named in ground arith) in
      find-append-none (is_live (digests.sha256 token) new) db.sessions
        (session_row digests time token csrf username)
        (any-and (has_token (digests.sha256 token)) (is_live (digests.sha256 token) new) db.sessions
          (λ s live. ground arith) fresh)
        (let e = ==_refl (digests.sha256 token) in ground (arith, on))

  other_session :
      (time : ℕ) (token csrf username other : Str) (db : Db)
      → other ≢ digests.sha256 token
      → get_session other (logged_in digests time token csrf username db) ≡ get_session other db
  unfolding get_session is_live enabled_operator
  other_session time token csrf username other db ne =
      find-append-same (is_live other (logged_in digests time token csrf username db)) db.sessions
        (session_row digests time token csrf username)
        (elim (Bool-cases (digests.sha256 token == other)) [
          | inl e ↦ absurd (ne (sym ((==_iff (digests.sha256 token) other).0 e)))
          | inr e ↦ rw e refl
        ])

  pub current_new :
      (time : ℕ) (token csrf username : Str) (db : Db) (o : OperatorRow)
      → token ≢ []
      → db.now < time + session_lifetime
      → any (has_token (digests.sha256 token)) db.sessions ≡ false
      → In o db.operators
      → o.username ≡ username
      → o.disabled ≡ false
      → current_operator digests (some token) (logged_in digests time token csrf username db)
        ≡ some (record { username = username; csrf = csrf })
  unfolding current_operator session_for operator_of token_digest
  current_new time [] csrf username db o ne soon fresh m named enabled = absurd (ne refl)
  current_new time (c ∷ cs) csrf username db o ne soon fresh m named enabled =
      ap operator_of (new_session time (c ∷ cs) csrf username db o soon fresh m named enabled)

  pub current_other :
      (time : ℕ) (token csrf username other : Str) (db : Db)
      → digests.sha256 other ≢ digests.sha256 token
      → current_operator digests (some other) (logged_in digests time token csrf username db)
        ≡ current_operator digests (some other) db
  unfolding current_operator session_for token_digest
  current_other time token csrf username [] db ne = refl
  current_other time token csrf username (c ∷ cs) db ne =
      ap operator_of (other_session time token csrf username (digests.sha256 (c ∷ cs)) db ne)

  pub logout-none :
      (token : Str) (db : Db)
      → token ≢ []
      → current_operator digests (some token) (logout digests (some token) db).1 ≡ none
  unfolding current_operator session_for operator_of logout end_session token_digest
  logout-none [] db ne = absurd (ne refl)
  logout-none (c ∷ cs) db ne =
      ap operator_of (get_session-delete_session (digests.sha256 (c ∷ cs)) db).0

  pub logout-other :
      (token other : Str) (db : Db)
      → digests.sha256 other ≢ digests.sha256 token
      → current_operator digests (some other) (logout digests (some token) db).1
        ≡ current_operator digests (some other) db
  unfolding current_operator session_for logout end_session token_digest
  logout-other [] other db ne = refl
  logout-other (t ∷ ts) [] db ne = refl
  logout-other (t ∷ ts) (c ∷ cs) db ne =
      ap operator_of
        ((get_session-delete_session (digests.sha256 (t ∷ ts)) db).1 (digests.sha256 (c ∷ cs)) ne)

  pub csrf_ok-own :
      (csrf : Str) → csrf ≢ [] → is_ascii csrf ≡ true → csrf_ok csrf (some csrf) ≡ ok true
  unfolding csrf_ok compare_digest
  csrf_ok-own [] ne h = absurd (ne refl)
  csrf_ok-own (c ∷ cs) ne h = let e = ==_refl (c ∷ cs) in ground arith
