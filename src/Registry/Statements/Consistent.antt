-- ===== src/Registry/Statements/Consistent.antt =====
-- The constraints of schema.sql hold after any statements.
use dev_tools_distribution_p.Base.{
  ◌≡◌, ◌≢◌, ◌⊎◌, refl, true, false, not, Option, none, some, List, any, any-eq-false, ==_iff, [],
  ◌∷◌, arith, ◌==◌, nat_eq, all, In, Option-cases, inl, inr, all-In,
}
use dev_tools_distribution_p.Base.Text.{Str}
use dev_tools_distribution_p.Registry.Models.{
  Source, Job, Forge, github, gitlab, active, queued, running, status_eq, state_eq,
}
use dev_tools_distribution_p.Registry.Schema.{
  is_some, is_open, open_for, Db, row_ok, has_pins, one_open, unique_ids,
}
use dev_tools_distribution_p.Registry.Schema.Updates.{
  all-append, all-filter, one_open-filter, one_open-append, unique_ids-filter, unique_ids-append,
  unique_ids-update_where,
}
use dev_tools_distribution_p.Registry.Sources.{
  add_source, update_source, set_status, record_identity, mark_delegated, delete_source, draft_row,
}
use dev_tools_distribution_p.Registry.Jobs.{
  enqueue, claim_job, finish_job, reset_stale_jobs, started, finished, requeued, has_job_id,
  queued_row, is_stale, claimable, oldest,
}
use dev_tools_distribution_p.Registry.Accounts.{
  audit, put_operator, create_session, delete_session, purge_expired_sessions,
}
use dev_tools_distribution_p.Registry.Statements.{
  Statement, add, update, status, identity, delegated, delete, queue, claim, finish, reset,
  record_event, operator, session, end_session, purge, wait, execute, execute_all,
}

pub record IsConsistent (db : Db) : Type 0 where
  pub rows : all row_ok db.sources ≡ true
  pub open_jobs : one_open db.jobs ≡ true
  pub job_ids : unique_ids db.jobs ≡ true

pub execute-IsConsistent :
    (st : Statement) (db : Db) → IsConsistent db → IsConsistent (execute st db)
unfolding execute add_source update_source set_status record_identity mark_delegated delete_source
    enqueue claim_job finish_job reset_stale_jobs audit put_operator create_session delete_session
    purge_expired_sessions all
execute-IsConsistent (add source) db h =
    ground (arith, all-append row_ok db.sources (draft_row db.now source ∷ []))
execute-IsConsistent (update i fs) db h = ground arith
execute-IsConsistent (status i s e) db h = ground arith
execute-IsConsistent (identity i r o) db h = ground arith
execute-IsConsistent (delegated a) db h = ground arith
execute-IsConsistent (delete i) db h = ground (
  arith,
  all-filter row_ok (λ s. not (s.id == i)) db.sources,
  one_open-filter (λ j. not (j.source_id == i)) db.jobs,
  unique_ids-filter (λ j. not (j.source_id == i)) db.jobs,
)
execute-IsConsistent (queue i s k b p) db h = ground (
  arith,
  one_open-append db.jobs (queued_row db.now i s k b p),
  unique_ids-append db.jobs (queued_row db.now i s k b p),
)
execute-IsConsistent (claim kinds) db h = elim (Option-cases (oldest (claimable kinds) db.jobs)) [
  | inl e ↦ ground arith
  | inr (j, e) ↦
      ground (arith, unique_ids-update_where (has_job_id j.id) (started db.now) db.jobs (λ k. refl))
]
execute-IsConsistent (finish i st r e) db h =
    ground
      (arith, unique_ids-update_where (has_job_id i) (finished db.now st r e) db.jobs (λ j. refl))
execute-IsConsistent (reset n) db h =
    ground (arith, unique_ids-update_where (is_stale n db.now) requeued db.jobs (λ j. refl))
execute-IsConsistent (record_event a b c d) db h = ground arith
execute-IsConsistent (operator a b c) db h = ground arith
execute-IsConsistent (session a b c d) db h = ground arith
execute-IsConsistent (end_session t) db h = ground arith
execute-IsConsistent purge db h = ground arith
execute-IsConsistent (wait n) db h = ground arith

execute_all-IsConsistent :
    (sts : List Statement) (db : Db) → IsConsistent db → IsConsistent (execute_all sts db)
unfolding execute_all
execute_all-IsConsistent [] db h = h
execute_all-IsConsistent (st ∷ sts) db h =
    execute_all-IsConsistent sts (execute st db) (execute-IsConsistent st db h)

row_ok-has_pins : (s : Source) → row_ok s ≡ true → s.status ≡ active → has_pins s ≡ true
unfolding row_ok
row_ok-has_pins s h e = ground arith

-- A column that is not NULL.
abbrev pub HasValue : Option Str → Type 0
HasValue column = (v : Str) × (column ≡ some v)

-- The columns that an active source must have, for its forge.
abbrev pub IsPinned : Forge → Source → Type 0
IsPinned github s =
    HasValue s.workflow_uri
    × HasValue s.oidc_issuer
    × HasValue s.repository_id
    × HasValue s.repository_owner_id
IsPinned gitlab s =
    HasValue s.builder_id × HasValue s.builder_keyid × HasValue s.builder_public_key_pem

is_some-HasValue : (column : Option Str) → is_some column ≡ true → HasValue column
is_some-HasValue none h = cc
is_some-HasValue (some v) h = (v, refl)

has_pins-IsPinned :
    (s : Source) (forge : Forge) → s.forge ≡ forge → has_pins s ≡ true → IsPinned forge s
unfolding has_pins
has_pins-IsPinned s github e h = (
  is_some-HasValue s.workflow_uri (ground arith),
  is_some-HasValue s.oidc_issuer (ground arith),
  is_some-HasValue s.repository_id (ground arith),
  is_some-HasValue s.repository_owner_id (ground arith),
)
has_pins-IsPinned s gitlab e h = (
  is_some-HasValue s.builder_id (ground arith),
  is_some-HasValue s.builder_keyid (ground arith),
  is_some-HasValue s.builder_public_key_pem (ground arith),
)

-- A job that waits or runs.
abbrev pub IsUnfinished : Job → Type 0
IsUnfinished j = (j.state ≡ queued) ⊎ (j.state ≡ running)

-- No two unfinished jobs, at different places of the table, are of one source.
abbrev pub OnePerSource : List Job → Type 0
OnePerSource [] = Unit
OnePerSource (j ∷ js) =
    ((k : Job) → In k js → IsUnfinished j → IsUnfinished k → k.source_id ≢ j.source_id)
    × OnePerSource js

unfinished_open : (j : Job) → IsUnfinished j → is_open j ≡ true
unfolding is_open
unfinished_open j u = ground arith

one_open-OnePerSource : (js : List Job) → one_open js ≡ true → OnePerSource js
unfolding one_open open_for
one_open-OnePerSource [] h = tt
one_open-OnePerSource (j ∷ js) h = (
  λ k m u v same.
      let open_j = unfinished_open j u in
      let open_k = unfinished_open k v in
      let none_of : any (open_for j.source_id) js ≡ false = ground arith in
      let quiet = any-eq-false (open_for j.source_id) js none_of k m in
      let this = (==_iff k.source_id j.source_id).1 same in ground arith,
  one_open-OnePerSource js (ground arith),
)

-- From a database that meets its constraints, after any statements in any order: no two unfinished jobs
-- are of one source, and every active source has a value, which may be an empty text, in each column
-- that pins its provenance: the workflow, the issuer and the ids of the repository and of its owner on
-- GitHub, the builder, its key and its key's id on GitLab.
pub execute_all-constraints :
    (sts : List Statement) (db : Db)
    → IsConsistent db
    → OnePerSource (execute_all sts db).jobs
      × ((s : Source) → In s (execute_all sts db).sources → s.status ≡ active → IsPinned s.forge s)
execute_all-constraints sts db h =
    let c = execute_all-IsConsistent sts db h in
    (
      one_open-OnePerSource (execute_all sts db).jobs c.open_jobs,
      λ s m e.
          has_pins-IsPinned s s.forge refl
            (row_ok-has_pins s (all-In row_ok (execute_all sts db).sources c.rows s m) e),
    )
