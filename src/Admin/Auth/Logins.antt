-- ===== src/Admin/Auth/Logins.antt =====
-- What a login gives its browser, and how a logout takes it back: packages/dist-admin/src/dist_admin,
-- auth.py and app.py, over the tables of packages/dist-registry.
use dev_tools_distribution_p.Base.{
  ℕ, ◌+◌, ◌<◌, true, false, Option, none, some, [], nat_eq, list_eq, any, ok, ◌≡◌, ◌≢◌, refl, ◌∙◌,
}
use dev_tools_distribution_p.Base.Text.{Str}
use dev_tools_distribution_p.Registry.Schema.{Db}
use dev_tools_distribution_p.Registry.Accounts.{has_token}
use dev_tools_distribution_p.Admin.Auth.{
  Digests, session_lifetime, Operator, is_ascii, check_csrf, authenticate, current_operator, login,
  logout,
}
use dev_tools_distribution_p.Admin.Auth.Answers.{
  IsAdmitted, logged_in, login-accepted, login-rejected, current_new, current_other, logout-none,
  logout-other, csrf_ok-own, authenticate-eq-true,
}

module _ (digests : Digests) where
  -- A login whose password is not that of an enabled operator sets no cookie and leaves every browser
  -- with the operator that it had. One that is accepted is an enabled operator's, with the digest of
  -- the password stored; where the clocks agree within the lifetime of a session, and no stored session
  -- has the digest of the new token, it sets the cookie, with which the next request is that operator's
  -- and passes the CSRF check with the token of the session, until the cookie is used to log out. Both
  -- leave the session of every cookie of another digest alone.
  pub login_lem :
      (time : ℕ) (token csrf username password : Str) (db : Db)
      → token ≢ []
      → csrf ≢ []
      → is_ascii csrf ≡ true
      → db.now < time + session_lifetime
      → any (has_token (digests.sha256 token)) db.sessions ≡ false
      → (authenticate digests username password db ≡ false
          → ((login digests time token csrf username password db).0 ≡ ok none)
            × ((cookie : Option Str)
                → current_operator digests cookie
                    (login digests time token csrf username password db).1
                  ≡ current_operator digests cookie db))
        × (authenticate digests username password db ≡ true
            → IsAdmitted digests username password db
              × ((login digests time token csrf username password db).0 ≡ ok (some token))
              × ((o : Operator) × (current_operator digests
                      (some token)
                      (login digests time token csrf username password db).1
                    ≡ some o)
                  × (o.username ≡ username)
                  × (check_csrf o (some csrf) ≡ ok tt))
              × (current_operator digests
                    (some token)
                    (logout digests
                      (some token)
                      (login digests time token csrf username password db).1).1
                  ≡ none)
              × ((other : Str)
                  → digests.sha256 other ≢ digests.sha256 token
                  → (current_operator digests
                        (some other)
                        (login digests time token csrf username password db).1
                      ≡ current_operator digests (some other) db)
                    × (current_operator digests
                          (some other)
                          (logout digests
                            (some token)
                            (login digests time token csrf username password db).1).1
                        ≡ current_operator digests (some other) db)))
  unfolding check_csrf
  login_lem time token csrf username password db some_token some_csrf ascii soon fresh = (
    login-rejected digests time token csrf username password db,
    λ h.
        let a = authenticate-eq-true digests username password db h in
        let own = csrf_ok-own digests csrf some_csrf ascii in
        rw (login-accepted digests time token csrf username password db h fresh) (
          a,
          refl,
          (
            record { username = username; csrf = csrf },
            current_new digests time token csrf username db a.row some_token soon fresh a.stored
                a.named a.enabled,
            refl,
            rw own refl,
          ),
          logout-none digests token (logged_in digests time token csrf username db) some_token,
          λ other ne.
              let kept = current_other digests time token csrf username other db ne in
              (
                kept,
                logout-other digests token other (logged_in digests time token csrf username db) ne
                    ∙ kept,
              ),
        ),
  )
