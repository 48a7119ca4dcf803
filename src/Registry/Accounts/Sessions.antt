-- ===== src/Registry/Accounts/Sessions.antt =====
-- Whom a session's token lets in, and how that ends
-- (packages/dist-registry/src/dist_registry/store.py).
use dev_tools_distribution_p.Base.{
  ◌<◌, ◌≡◌, ◌≢◌, refl, sym, ◌∙◌, inl, inr, Bool, true, false, not, ◌&&◌, none, some, List, [], ◌∷◌,
  arith, ◌==◌, list_eq, nat_eq, ==_iff, any, filter, find, find-eq-some, In, leb, Bool-cases,
}
use dev_tools_distribution_p.Base.Text.{Str}
use dev_tools_distribution_p.Registry.Schema.{Db, OperatorRow, SessionRow}
use dev_tools_distribution_p.Registry.Accounts.{
  has_token, enabled_operator, is_live, get_session, delete_session, purge_expired_sessions,
}

any-eq-true :
    {A : Type 0} (p : A → Bool) (xs : List A) → any p xs ≡ true → (a : A) × In a xs × (p a ≡ true)
unfolding any
any-eq-true p [] h = cc
any-eq-true p (x ∷ xs) h = elim (Bool-cases (p x)) [
  | inl e ↦ (x, inl refl, e)
  | inr e ↦ let (a, m, q) = any-eq-true p xs (ground arith) in (a, inr m, q)
]

enabled_operator-eq_true :
    (username : Str) (db : Db)
    → enabled_operator username db ≡ true
    → (o : OperatorRow) × In o db.operators × (o.username ≡ username) × (o.disabled ≡ false)
unfolding enabled_operator
enabled_operator-eq_true username db h =
    let (o, m, e) = any-eq-true (λ o. o.username == username && not o.disabled) db.operators h in
    let named : (o.username == username) ≡ true = ground arith in
    (o, m, (==_iff o.username username).0 named, ground arith)

live_parts :
    (token : Str) (db : Db) (s : SessionRow)
    → is_live token db s ≡ true
    → (has_token token s ≡ true) × (db.now < s.expires_at) × (enabled_operator s.username db ≡ true)
unfolding is_live
live_parts token db s h = ground arith

-- A token gives a session only if the session is stored under it and has not expired, and an operator
-- of its name exists and is not disabled.
pub get_session_lem :
    (token : Str) (db : Db) (s : SessionRow)
    → get_session token db ≡ some s
    → In s db.sessions
      × (s.token_sha256 ≡ token)
      × (db.now < s.expires_at)
      × ((o : OperatorRow) × In o db.operators × (o.username ≡ s.username) × (o.disabled ≡ false))
unfolding get_session
get_session_lem token db s h =
    let (m, live) = find-eq-some (is_live token db) db.sessions s h in
    let (named, fresh, enabled) = live_parts token db s live in
    (
      m,
      (==_iff s.token_sha256 token).0 named,
      fresh,
      enabled_operator-eq_true s.username db enabled,
    )

-- What is filtered away does not pass: the first that passes is the same.
find-filter-same :
    {A : Type 0} (p q : A → Bool) (xs : List A)
    → ((a : A) → p a ≡ true → q a ≡ true)
    → find p (filter q xs) ≡ find p xs
unfolding find filter
find-filter-same p q [] h = refl
find-filter-same p q (x ∷ xs) h = elim (Bool-cases (p x)) [
  | inl e ↦ let kept = h x e in ground arith
  | inr e ↦ let rest = find-filter-same p q xs h in ground (arith, rest)
]

find-filter-none :
    {A : Type 0} (p q : A → Bool) (xs : List A)
    → ((a : A) → p a ≡ true → q a ≡ false)
    → find p (filter q xs) ≡ none
unfolding find filter
find-filter-none p q [] h = refl
find-filter-none p q (x ∷ xs) h = elim (Bool-cases (q x)) [
  | inr e ↦ let rest = find-filter-none p q xs h in ground (arith, rest)
  | inl e ↦
      let rest = find-filter-none p q xs h in
      elim (Bool-cases (p x)) [
        | inl f ↦ let out = h x f in absurd (ground arith)
        | inr f ↦ ground (arith, rest)
      ]
]

-- Logging out ends the sessions of its token at once and leaves every other token's answer as it was;
-- purging expired sessions changes no token's answer.
pub get_session-delete_session :
    (token : Str) (db : Db)
    → (get_session token (delete_session token db).1 ≡ none)
      × ((other : Str)
          → other ≢ token
          → get_session other (delete_session token db).1 ≡ get_session other db)
      × ((other : Str) → get_session other (purge_expired_sessions db).1 ≡ get_session other db)
unfolding get_session delete_session purge_expired_sessions is_live enabled_operator
get_session-delete_session token db = (
  find-filter-none (is_live token db) (λ s. not (has_token token s)) db.sessions
      (λ s live. let (named, fresh, enabled) = live_parts token db s live in rw named refl),
  λ other ne.
      find-filter-same (is_live other db) (λ s. not (has_token token s)) db.sessions
        (λ s live.
          let (named, fresh, enabled) = live_parts other db s live in
          elim (Bool-cases (has_token token s)) [
            | inl same ↦ absurd (
                ne (
                  sym ((==_iff s.token_sha256 other).0 named)
                  ∙ (==_iff s.token_sha256 token).0 same))
            | inr differs ↦ rw differs refl
          ]),
  λ other.
      find-filter-same (is_live other db) (λ s. not (leb s.expires_at db.now)) db.sessions
        (λ s live. let (named, fresh, enabled) = live_parts other db s live in ground arith),
)
