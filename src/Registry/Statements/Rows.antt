-- ===== src/Registry/Statements/Rows.antt =====
-- What each statement makes of the rows of `sources`
-- (packages/dist-registry/src/dist_registry/store.py).
use dev_tools_distribution_p.Base.{
  ℕ, ◌≢◌, ◌≡◌, ◌⊎◌, inl, inr, Bool, Option, none, some, List, [], ◌∷◌, ◌++◌, arith, nat_eq, list_eq,
  Option-cases, Bool-cases, ap, all, contains,
}
use dev_tools_distribution_p.Base.Json.{Fields}
use dev_tools_distribution_p.Base.Text.{Str}
use dev_tools_distribution_p.Registry.Models.{
  Source, active, pending_delegation, JobKind, Message, SourceStatus, status_eq,
}
use dev_tools_distribution_p.Registry.Schema.{Db, update_where}
use dev_tools_distribution_p.Registry.Sources.{
  add_source, update_source, set_status, record_identity, mark_delegated, draft_row,
  awaits_delegation, activated, has_id, assign_all, updatable_columns, names,
}
use dev_tools_distribution_p.Registry.Sources.Columns.{IsKnown, Identity, identity_of-assign_all}
use dev_tools_distribution_p.Registry.Jobs.{claim_job, claimable, oldest}
use dev_tools_distribution_p.Registry.Statements.{
  Statement, add, update, status, identity, delegated, claim, execute,
}

pub assign_all-keeps :
    (fields : Fields) (s : Source)
    → IsKnown fields
    → ((assign_all fields s).status ≡ s.status)
      × ((assign_all fields s).id ≡ s.id)
      × ((assign_all fields s).app_id ≡ s.app_id)
assign_all-keeps fields s known =
    let same = identity_of-assign_all fields s known in
    (
      ap (λ (x : Identity). x.status) same,
      ap (λ (x : Identity). x.id) same,
      ap (λ (x : Identity). x.app_id) same,
    )

-- What each statement makes of the rows of `sources`.
module _ (db : Db) where
  abbrev pub IsUpdated : (Source → Bool) → (Source → Source) → Statement → Type 0
  IsUpdated p f st =
      ((execute st db).sources ≡ db.sources)
      ⊎ ((execute st db).sources ≡ update_where p f db.sources)

  pub set_status-rows :
      (i : ℕ) (st : SourceStatus) (e : Option Message)
      → ((execute (status i st e) db).sources ≡ db.sources)
        ⊎ (((execute (status i st e) db).sources
              ≡ update_where
                  (has_id i)
                  (λ s. record s { status = st; last_error = e; updated_at = some db.now })
                  db.sources)
            × (st ≢ active))
  unfolding execute set_status
  set_status-rows i st e = ground arith

  pub update-rows :
      (i : ℕ) (fields : Fields)
      → ((execute (update i fields) db).sources ≡ db.sources)
        ⊎ (IsKnown fields
            × ((execute (update i fields) db).sources
                ≡ update_where
                    (has_id i)
                    (λ s. record (assign_all fields s) { updated_at = some db.now })
                    db.sources))
  unfolding execute update_source
  update-rows i fields =
      elim (Bool-cases (all (λ n. contains n updatable_columns) (names fields))) [
        | inl known ↦ ground arith
        | inr refused ↦ ground arith
      ]

  pub identity-rows :
      (i : ℕ) (repository owner : Option Str)
      → IsUpdated
          (has_id i)
          (λ s. record s {
            repository_id = repository;
            repository_owner_id = owner;
            status = pending_delegation;
            last_error = none;
            updated_at = some db.now;
          })
          (identity i repository owner)
  unfolding execute record_identity
  identity-rows i repository owner = ground arith

  pub delegated-rows :
      (app_id : Str) → IsUpdated (awaits_delegation app_id) (activated db.now) (delegated app_id)
  unfolding execute mark_delegated
  delegated-rows app_id = ground arith

  pub claim-rows : (kinds : List JobKind) → (execute (claim kinds) db).sources ≡ db.sources
  unfolding execute claim_job
  claim-rows kinds = elim (Option-cases (oldest (claimable kinds) db.jobs)) [
    | inl e ↦ ground arith
    | inr (j, e) ↦ ground arith
  ]

  pub add-rows :
      (source : Source)
      → ((execute (add source) db).sources ≡ db.sources)
        ⊎ ((execute (add source) db).sources ≡ db.sources ++ (draft_row db.now source ∷ []))
  unfolding execute add_source
  add-rows source = ground arith
