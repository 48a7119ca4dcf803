-- ===== src/Registry/Statements/Ratchet.antt =====
-- Only the delegation activates a source (`mark_delegated` of store.py).
use dev_tools_distribution_p.Base.{
  In-append, ℕ, ◌≢◌, ◌≡◌, refl, sym, ◌∙◌, ap, ◌⊎◌, inl, inr, Bool, true, not, Option, some, List,
  [], ◌∷◌, ◌++◌, arith, ◌==◌, nat_eq, list_eq, ==_iff, In, In-filter, Bool-cases,
}
use dev_tools_distribution_p.Base.Text.{Str}
use dev_tools_distribution_p.Registry.Models.{Source, active, Message, SourceStatus, status_eq}
use dev_tools_distribution_p.Registry.Schema.{Db, update_where}
use dev_tools_distribution_p.Registry.Schema.Updates.{In-update_where}
use dev_tools_distribution_p.Registry.Sources.{
  add_source, delete_source, draft_row, awaits_delegation, activated, has_id, assign_all,
}
use dev_tools_distribution_p.Registry.Jobs.{enqueue, finish_job, reset_stale_jobs}
use dev_tools_distribution_p.Registry.Accounts.{
  audit, put_operator, create_session, delete_session, purge_expired_sessions,
}
use dev_tools_distribution_p.Registry.Statements.Rows.{
  assign_all-keeps, set_status-rows, update-rows, identity-rows, delegated-rows, claim-rows,
  add-rows,
}
use dev_tools_distribution_p.Registry.Statements.{
  Statement, add, update, status, identity, delegated, delete, queue, claim, finish, reset,
  record_event, operator, session, end_session, purge, wait, execute, execute_all,
}

-- The source is an active row of the table, under its id and its application id.
abbrev pub WasActive : Db → Source → Type 0
WasActive db s =
    (r : Source) × In r db.sources × (r.status ≡ active) × (r.id ≡ s.id) × (r.app_id ≡ s.app_id)

module _ (db : Db) (s : Source) (a : s.status ≡ active) where
  unchanged : (rows : List Source) → rows ≡ db.sources → In s rows → WasActive db s
  unchanged rows e m = (s, rw e at m, a, refl, refl)

  -- An update activates nothing if it keeps ids and makes no row active that was not.
  updated :
      (p : Source → Bool) (f : Source → Source) (rows : List Source)
      → ((r : Source)
          → p r ≡ true
          → (f r).status ≡ active
          → (r.status ≡ active) × ((f r).id ≡ r.id) × ((f r).app_id ≡ r.app_id))
      → (rows ≡ db.sources) ⊎ (rows ≡ update_where p f db.sources)
      → In s rows
      → WasActive db s
  updated p f rows keep (inl e) m = unchanged rows e m
  updated p f rows keep (inr e) m =
      let (r, k, q) = In-update_where p f db.sources s (rw e at m) in
      elim (Bool-cases (p r)) [
        | inl hit ↦
            let same : s ≡ f r = q ∙ rw hit in
            let (b, i, n) = keep r hit (ap (λ (t : Source). t.status) (sym same) ∙ a) in
            (
              r,
              k,
              b,
              sym i ∙ ap (λ (t : Source). t.id) (sym same),
              sym n ∙ ap (λ (t : Source). t.app_id) (sym same),
            )
        | inr miss ↦
            let same : s ≡ r = q ∙ rw miss in
            (
              r,
              k,
              ap (λ (t : Source). t.status) (sym same) ∙ a,
              ap (λ (t : Source). t.id) (sym same),
              ap (λ (t : Source). t.app_id) (sym same),
            )
      ]

module _ (db : Db) (s : Source) (a : s.status ≡ active) where
  add-active :
      (source : Source) (rows : List Source)
      → (rows ≡ db.sources) ⊎ (rows ≡ db.sources ++ (draft_row db.now source ∷ []))
      → In s rows
      → WasActive db s
  add-active source rows (inl e) m = unchanged db s a rows e m
  add-active source rows (inr e) m =
      elim (In-append db.sources (draft_row db.now source ∷ []) s (rw e at m)) [
        | inl old ↦ (s, old, a, refl, refl)
        | inr (inl new) ↦ unfold draft_row in cc (a, new)
        | inr (inr h) ↦ absurd h
      ]

  set_status-active :
      (i : ℕ) (st : SourceStatus) (e : Option Message) (rows : List Source)
      → (rows ≡ db.sources)
        ⊎ ((rows
              ≡ update_where
                  (has_id i)
                  (λ s. record s { status = st; last_error = e; updated_at = some db.now })
                  db.sources)
            × (st ≢ active))
      → In s rows
      → WasActive db s
  set_status-active i st e rows (inl q) m = unchanged db s a rows q m
  set_status-active i st e rows (inr (q, ne)) m =
      updated db s a (has_id i) _ rows (λ r _ b. absurd (ne b)) (inr q) m

  delegated-active :
      (app_id : Str) (rows : List Source)
      → (rows ≡ db.sources)
        ⊎ (rows ≡ update_where (awaits_delegation app_id) (activated db.now) db.sources)
      → In s rows
      → WasActive db s ⊎ (delegated app_id ≡ delegated s.app_id)
  unfolding awaits_delegation activated
  delegated-active app_id rows (inl q) m = inl (unchanged db s a rows q m)
  delegated-active app_id rows (inr q) m =
      let (r, k, e) =
        In-update_where (awaits_delegation app_id) (activated db.now) db.sources s (rw q at m) in
      elim (Bool-cases (awaits_delegation app_id r)) [
        | inl hit ↦
            let same : s ≡ activated db.now r = e ∙ rw hit in
            let here : r.app_id ≡ app_id = ground (arith, ==_iff r.app_id app_id) in
            inr (ap delegated (sym here ∙ sym (ap (λ (t : Source). t.app_id) same)))
        | inr miss ↦
            let same : s ≡ r = e ∙ rw miss in
            inl (
              r,
              k,
              ap (λ (t : Source). t.status) (sym same) ∙ a,
              ap (λ (t : Source). t.id) (sym same),
              ap (λ (t : Source). t.app_id) (sym same),
            )
      ]

-- One statement activates a source only if it is the delegation of the source's application.
execute-active :
    (st : Statement) (db : Db) (s : Source)
    → s.status ≡ active
    → In s (execute st db).sources
    → WasActive db s ⊎ (st ≡ delegated s.app_id)
unfolding execute add_source delete_source enqueue finish_job reset_stale_jobs audit put_operator
    create_session delete_session purge_expired_sessions draft_row
execute-active (add source) db s a m = inl (add-active db s a source _ (add-rows db source) m)
execute-active (update i fs) db s a m = elim (update-rows db i fs) [
  | inl same ↦ inl (unchanged db s a _ same m)
  | inr (known, rows) ↦ inl (
      updated db s a (has_id i) (λ s. record (assign_all fs s) { updated_at = some db.now }) _
        (λ r _ b. ground (arith, assign_all-keeps fs r known)) (inr rows) m)
]
execute-active (status i st e) db s a m =
    inl (set_status-active db s a i st e _ (set_status-rows db i st e) m)
execute-active (identity i r o) db s a m =
    inl (updated db s a (has_id i) _ _ (λ r _ b. cc) (identity-rows db i r o) m)
execute-active (delegated app_id) db s a m =
    delegated-active db s a app_id _ (delegated-rows db app_id) m
execute-active (delete i) db s a m =
    inl (s, ((In-filter (λ s. not (s.id == i)) db.sources s).0 m).0, a, refl, refl)
execute-active (queue i j k b p) db s a m = inl (unchanged db s a _ (ground arith) m)
execute-active (claim kinds) db s a m = inl (unchanged db s a _ (claim-rows db kinds) m)
execute-active (finish i st r e) db s a m = inl (unchanged db s a _ (ground arith) m)
execute-active (reset n) db s a m = inl (unchanged db s a _ (ground arith) m)
execute-active (session t u c x) db s a m = inl (unchanged db s a _ (ground arith) m)
execute-active (operator u h x) db s a m = inl (unchanged db s a _ (ground arith) m)
execute-active (record_event x y z w) db s a m = inl (unchanged db s a _ refl m)
execute-active (end_session t) db s a m = inl (unchanged db s a _ refl m)
execute-active purge db s a m = inl (unchanged db s a _ refl m)
execute-active (wait n) db s a m = inl (unchanged db s a _ refl m)

-- A source that is active after any statements, of the web application, of the workers or of the
-- ceremony, was active before them under its id, or its application was delegated by one of them.
pub execute_all-active :
    (sts : List Statement) (db : Db) (s : Source)
    → s.status ≡ active
    → In s (execute_all sts db).sources
    → WasActive db s ⊎ In (delegated s.app_id) sts
unfolding execute_all
execute_all-active [] db s a m = inl (s, m, a, refl, refl)
execute_all-active (st ∷ sts) db s a m = elim (execute_all-active sts (execute st db) s a m) [
  | inr later ↦ inr (inr later)
  | inl (r, k, b, i, n) ↦ elim (execute-active st db r b k) [
    | inl (t, k', c, j, o) ↦ inl (t, k', c, j ∙ i, o ∙ n)
    | inr now ↦ inr (inl (now ∙ ap delegated n))
  ]
]
