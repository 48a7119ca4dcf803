-- ===== src/Registry/Schema.antt =====
-- packages/dist-registry/src/dist_registry/schema.sql: the tables and their constraints. A table is
-- the list of its rows in the order of insertion; `now` is what `now()` gives in the statements.
pub mod Updates
use dev_tools_distribution_p.Base.{
  ℕ, suc, ◌+◌, ◌≡◌, refl, Bool, true, false, not, ◌&&◌, ◌||◌, Option, none, some, List, [], ◌∷◌,
  ◌++◌, map, if◌then◌else◌, ◌==◌, nat_eq, list_eq, all, any, contains, Result, ok, err,
  check_violation, unique_violation,
}
use dev_tools_distribution_p.Base.Text.{Str}
use dev_tools_distribution_p.Core.Naming.{channels}
use dev_tools_distribution_p.Core.Roles.{is_app_id}
use dev_tools_distribution_p.Registry.Models.{
  Forge, github, gitlab, SourceStatus, active, JobState, queued, running, Source, Job, AuditEvent,
  status_eq, forge_eq, state_eq,
}

pub record OperatorRow : Type 0 where
  pub username : Str
  pub password_hash : Str
  pub salt : Str
  pub disabled : Bool

pub record SessionRow : Type 0 where
  pub token_sha256 : Str
  pub username : Str
  pub csrf_token : Str
  pub expires_at : ℕ

pub record Db : Type 0 where
  pub sources : List Source
  pub jobs : List Job
  pub audit_log : List AuditEvent
  pub operators : List OperatorRow
  pub sessions : List SessionRow
  pub now : ℕ

abbrev pub is_some {ℓ} : {A : Type ℓ} → Option A → Bool
is_some none = false
is_some (some a) = true

-- `github_active_needs_certificate_identity` and `gitlab_active_needs_builder_key`
unfoldable pub has_pins : Source → Bool
has_pins s = elim s.forge [
  | github ↦
      is_some s.workflow_uri
      && is_some s.oidc_issuer
      && is_some s.repository_id
      && is_some s.repository_owner_id
  | gitlab ↦ is_some s.builder_id && is_some s.builder_keyid && is_some s.builder_public_key_pem
]

-- The CHECK constraints of `sources`.
unfoldable pub row_ok : Source → Bool
row_ok s =
    is_app_id s.app_id
    && contains s.channel channels
    && (if s.status == active then has_pins s else true)

-- `state IN ('queued', 'running')`
unfoldable pub is_open : Job → Bool
is_open j = j.state == queued || j.state == running

-- An open job of the source, as the index `jobs_one_open_per_source` sees it.
unfoldable pub open_for : ℕ → Job → Bool
unfolding is_open
open_for source_id j = is_open j && j.source_id == source_id

-- The unique index `jobs_one_open_per_source`.
unfoldable pub one_open : List Job → Bool
unfolding open_for
one_open [] = true
one_open (j ∷ js) = not (is_open j && any (open_for j.source_id) js) && one_open js

-- The primary key of `jobs`.
unfoldable pub unique_ids : List Job → Bool
unique_ids [] = true
unique_ids (j ∷ js) = not (any (λ k. k.id == j.id) js) && unique_ids js

-- `UPDATE … SET … WHERE …` on the rows that pass
unfoldable pub update_where : {A : Type 0} → (A → Bool) → (A → A) → List A → List A
update_where p f [] = []
update_where p f (x ∷ xs) = (if p x then f x else x) ∷ update_where p f xs

-- The statement `UPDATE sources`, which a row that breaks a CHECK constraint fails.
unfoldable pub update_sources : (Source → Bool) → (Source → Source) → Db → Result Db
unfolding update_where row_ok
update_sources p f db =
    let rows = update_where p f db.sources in
    if all row_ok rows then ok (record db { sources = rows }) else err check_violation

-- The statement `UPDATE jobs`, which a second open job of a source fails.
unfoldable pub update_jobs : (Job → Bool) → (Job → Job) → Db → Result Db
unfolding update_where one_open
update_jobs p f db =
    let rows = update_where p f db.jobs in
    if one_open rows then ok (record db { jobs = rows }) else err unique_violation
