-- ===== src/Admin/Routes/Guarded.antt =====
-- Who may change a source through the web application: packages/dist-admin/src/dist_admin/app.py,
-- over auth.py and the sessions of packages/dist-registry.
use dev_tools_distribution_p.Base.{
  ℕ, ◌<◌, true, false, ◌&&◌, Option, none, some, [], ◌∷◌, ◌==◌, nat_eq, list_eq, In, form_error,
  type_error, ok, err, ◌≡◌, refl, sym, ap, arith, Bool-cases, Option-cases, inl, inr, ◌⊎◌, ==_iff,
}
use dev_tools_distribution_p.Base.Text.{Str}
use dev_tools_distribution_p.Base.Json.{Json, Fields}
use dev_tools_distribution_p.Registry.Schema.{Db, OperatorRow, SessionRow}
use dev_tools_distribution_p.Registry.Sources.{get_source}
use dev_tools_distribution_p.Registry.Accounts.Sessions.{get_session_lem}
use dev_tools_distribution_p.Admin.Forms.{Library}
use dev_tools_distribution_p.Admin.Auth.{
  Digests, Operator, is_ascii, compare_digest, csrf_ok, check_csrf, operator_of, current_operator,
  session_for, token_digest,
}
use dev_tools_distribution_p.Admin.Routes.{
  to_login, csrf_of, refused_new, settle_new, register, create_source, refused_edit, save_edit,
  edit_source, settle_action, source_action, Request, create, edit, act, supplied, serve, respond,
}

csrf_ok-eq-true :
    (expected : Str) (given : Option Str) → csrf_ok expected given ≡ ok true → given ≡ some expected
unfolding csrf_ok compare_digest
csrf_ok-eq-true expected none h = cc
csrf_ok-eq-true expected (some []) h = cc
csrf_ok-eq-true expected (some (c ∷ cs)) h =
    elim (Bool-cases (is_ascii expected && is_ascii (c ∷ cs))) [
      | inr e ↦ absurd (ground (arith, e))
      | inl e ↦ elim (Bool-cases (expected == (c ∷ cs))) [
        | inl same ↦ ap some (sym ((==_iff expected (c ∷ cs)).0 same))
        | inr differs ↦ absurd (ground (arith, e, differs))
      ]
    ]

-- The CSRF check passes on the session's own token alone, and raises one of two exceptions otherwise.
csrf_ok-cases :
    (expected : Str) (given : Option Str)
    → (csrf_ok expected given ≡ ok true)
      ⊎ (csrf_ok expected given ≡ ok false)
      ⊎ (csrf_ok expected given ≡ err type_error)
unfolding csrf_ok compare_digest
csrf_ok-cases expected none = inr (inl refl)
csrf_ok-cases expected (some []) = inr (inl refl)
csrf_ok-cases expected (some (c ∷ cs)) =
    elim (Bool-cases (is_ascii expected && is_ascii (c ∷ cs))) [
      | inr e ↦ inr (inr (rw e refl))
      | inl e ↦ elim (Bool-cases (expected == (c ∷ cs))) [
        | inl same ↦ inl (rw e (ap ok same))
        | inr differs ↦ inr (inl (rw e (ap ok differs)))
      ]
    ]

-- What a request without the session's token meets.
abbrev Refused : Operator → Str → Type 0
Refused o given =
    (check_csrf o (some given) ≡ err form_error) ⊎ (check_csrf o (some given) ≡ err type_error)

check_csrf-cases : (o : Operator) (given : Str) → (some given ≡ some o.csrf) ⊎ Refused o given
unfolding check_csrf
check_csrf-cases o given = elim (csrf_ok-cases o.csrf (some given)) [
  | inl e ↦ inl (csrf_ok-eq-true o.csrf (some given) e)
  | inr (inl e) ↦ inr (inl (rw e refl))
  | inr (inr e) ↦ inr (inr (rw e refl))
]

module _ (repr : Json → Str) (lib : Library) where
  create_source-Refused :
      (id job_id : ℕ) (data_ : Fields) (o : Operator) (db : Db)
      → Refused o (csrf_of repr data_)
      → (create_source repr lib id job_id data_ (some o) db).1 ≡ db
  unfolding create_source register settle_new refused_new
  create_source-Refused id job_id data_ o db (inl e) = rw e refl
  create_source-Refused id job_id data_ o db (inr e) = rw e refl

  edit_source-Refused :
      (source_id : ℕ) (data_ : Fields) (o : Operator) (db : Db)
      → Refused o (csrf_of repr data_)
      → (edit_source repr lib source_id data_ (some o) db).1 ≡ db
  unfolding edit_source save_edit refused_edit
  edit_source-Refused source_id data_ o db r = elim (Option-cases (get_source source_id db)) [
    | inl absent ↦ rw absent refl
    | inr (s, there) ↦ elim r [ inl e ↦ rw there (rw e refl) | inr e ↦ rw there (rw e refl) ]
  ]

  source_action-Refused :
      (job_id source_id : ℕ) (action csrf : Str) (o : Operator) (db : Db)
      → Refused o csrf
      → (source_action repr job_id source_id action csrf (some o) db).1 ≡ db
  unfolding source_action settle_action
  source_action-Refused job_id source_id action csrf o db r =
      elim (Option-cases (get_source source_id db)) [
        | inl absent ↦ rw absent refl
        | inr (s, there) ↦ elim r [ inl e ↦ rw there (rw e refl) | inr e ↦ rw there (rw e refl) ]
      ]

  serve-Refused :
      (request : Request) (o : Operator) (db : Db)
      → Refused o (supplied repr request)
      → (serve repr lib request (some o) db).1 ≡ db
  unfolding serve supplied
  serve-Refused (create id job_id data_) o db r = create_source-Refused id job_id data_ o db r
  serve-Refused (edit source_id data_) o db r = edit_source-Refused source_id data_ o db r
  serve-Refused (act job_id source_id action csrf) o db r =
      source_action-Refused job_id source_id action csrf o db r

  serve-none : (request : Request) (db : Db) → serve repr lib request none db ≡ (ok to_login, db)
  unfolding serve create_source edit_source source_action
  serve-none (create id job_id data_) db = refl
  serve-none (edit source_id data_) db = refl
  serve-none (act job_id source_id action csrf) db = refl

-- A session that the cookie opens, stored under the token's digest, live, and of an enabled operator.
pub record Opens (digests : Digests) (cookie : Option Str) (s : SessionRow) (db : Db) : Type 0 where
  pub token : Str
  pub sent : cookie ≡ some token
  pub stored : In s db.sessions
  pub hashed : s.token_sha256 ≡ digests.sha256 token
  pub live : db.now < s.expires_at
  pub operator : OperatorRow
  pub known : In operator db.operators
  pub named : operator.username ≡ s.username
  pub enabled : operator.disabled ≡ false

module _ (repr : Json → Str) (digests : Digests) (lib : Library) where
  session_for-Opens :
      (cookie : Option Str) (db : Db) (s : SessionRow)
      → session_for digests cookie db ≡ some s
      → Opens digests cookie s db
  unfolding session_for token_digest
  session_for-Opens none db s h = absurd cc
  session_for-Opens (some []) db s h = absurd cc
  session_for-Opens (some (c ∷ cs)) db s h =
      let (m, hashed, live, op) = get_session_lem (digests.sha256 (c ∷ cs)) db s h in
      let (o, known, named, enabled) = op in
      record {
        token = c ∷ cs;
        sent = refl;
        stored = m;
        hashed = hashed;
        live = live;
        operator = o;
        known = known;
        named = named;
        enabled = enabled;
      }

  -- A request to register a source, to edit one, or to validate, poll, pause or delete one either comes
  -- with the cookie of a live session of an enabled operator and with the CSRF token of that same
  -- session, or leaves the tables as they were; without such a session it is sent to the login page.
  pub respond_lem :
      (cookie : Option Str) (request : Request) (db : Db)
      → ((s : SessionRow) × Opens digests cookie s db × (supplied repr request ≡ s.csrf_token))
        ⊎ ((respond repr digests lib cookie request db).1 ≡ db)
          × (((s : SessionRow) × Opens digests cookie s db)
              ⊎ ((respond repr digests lib cookie request db).0 ≡ ok to_login))
  unfolding respond current_operator operator_of
  respond_lem cookie request db = elim (Option-cases (session_for digests cookie db)) [
    | inl e ↦
        let out = serve-none repr lib request db in
        inr (rw e (ap (λ r. r.1) out, inr (ap (λ r. r.0) out)))
    | inr (s, e) ↦
        let opens = session_for-Opens cookie db s e in
        elim (check_csrf-cases (record { username = s.username; csrf = s.csrf_token })
          (supplied repr request)) [
            | inl same ↦ inl (s, opens, cc)
            | inr r ↦ inr (
                rw e (
                  serve-Refused repr lib request
                      (record { username = s.username; csrf = s.csrf_token }) db r,
                  inl (s, opens),
                ))
          ]
  ]
