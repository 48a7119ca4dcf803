-- ===== src/Registry/Examples.antt =====
-- Runs and instances for packages/dist-registry/src/dist_registry.
use dev_tools_distribution_p.Base.{
  ℕ, ◌+◌, ◌<◌, ◌≤◌, ◌≡◌, refl, ◌↔◌, ◌⊎◌, inl, true, false, none, some, List, [], ◌∷◌, map, all, any,
  find, filter, length, In, contains, list_eq, list_beq, nat_eq, ok, err, store_error,
}
use dev_tools_distribution_p.Base.Text.{Str, text, is_lower_alnum}
use dev_tools_distribution_p.Base.Json.{str, Fields, end, field}
use dev_tools_distribution_p.Core.Roles.{is_app_id}
use dev_tools_distribution_p.Registry.Models.{
  gitlab, draft, active, paused, validate, poll, running, queued, Source, Job, status_eq, kind_eq,
  state_eq,
}
use dev_tools_distribution_p.Registry.Schema.{
  Db, row_ok, has_pins, one_open, unique_ids, is_open, update_where,
}
use dev_tools_distribution_p.Registry.Sources.{
  get_source, names, updatable_columns, update_source, set_status, mark_delegated, record_identity,
  sources_due_for_poll,
}
use dev_tools_distribution_p.Registry.Sources.Frozen.{
  update_source_lem, sources_due_for_poll_lem, paused_draft_activates,
}
use dev_tools_distribution_p.Registry.Sources.Columns.{identity_of}
use dev_tools_distribution_p.Registry.Schema.{SessionRow}
use dev_tools_distribution_p.Registry.Accounts.{get_session}
use dev_tools_distribution_p.Registry.Jobs.{
  claim_job, claimable, started, has_job_id, is_stale, reset_stale_jobs, queued_row,
}
use dev_tools_distribution_p.Registry.Jobs.Claim.{claim_job_lem, reset_stale_jobs_lem}
use dev_tools_distribution_p.Registry.Statements.{
  Statement, delegated, identity, claim, execute_all,
}
use dev_tools_distribution_p.Registry.Statements.Consistent.{
  IsConsistent, OnePerSource, IsPinned, execute_all-constraints,
}
use dev_tools_distribution_p.Registry.Statements.Ratchet.{WasActive, execute_all-active}

-- A GitLab source as the form makes it.
abbrev demo : Source
demo = record {
  id = 1;
  app_id = text "demo";
  forge = gitlab;
  project = text "group/demo";
  api_base = [];
  project_url = text "https://gitlab.com/group/demo";
  status = draft;
  critical = false;
  asset_name = text "demo.zip";
  tag_prefix = text "v";
  require_tag_ref_prefix = text "refs/tags/";
  max_asset_bytes = 1000;
  channel = text "stable";
  platform = text "windows";
  arch = text "amd64";
  workflow_uri = none;
  oidc_issuer = none;
  repository_id = none;
  repository_owner_id = none;
  runner_environment = text "github-hosted";
  builder_id = some (text "https://gitlab.com/builder");
  builder_keyid = some (text "key");
  builder_public_key_pem = some (text "pem");
  attestation_asset = text "demo.intoto.json";
  created_at = some 1;
  updated_at = some 1;
  created_by = text "ops";
  last_error = none;
}

abbrev first_job : Job
first_job = queued_row 10 7 1 poll (text "ops") end

abbrev second_job : Job
second_job = queued_row 5 8 2 poll (text "ops") end

abbrev old_job : Job
old_job = started 3 (queued_row 2 9 3 validate (text "ops") end)

abbrev table : Db
table = record {
  sources = demo ∷ [];
  jobs = first_job ∷ second_job ∷ old_job ∷ [];
  audit_log = [];
  operators = [];
  sessions = [];
  now = 100;
}

abbrev running_table : Db
running_table = record table { sources = record demo { status = active } ∷ []; jobs = [] }

table_one_open : one_open table.jobs ≡ true
unfolding one_open is_open any queued_row started
table_one_open = refl

table_unique_ids : unique_ids table.jobs ≡ true
unfolding unique_ids any queued_row started
table_unique_ids = refl

demo-row_ok : row_ok demo ≡ true
unfolding row_ok is_app_id all contains list_beq is_lower_alnum
demo-row_ok = refl

table-IsConsistent : IsConsistent table
unfolding row_ok is_app_id all contains list_beq is_lower_alnum one_open is_open any queued_row
    started unique_ids
table-IsConsistent = record { rows = refl; open_jobs = refl; job_ids = refl }

abbrev ceremony : List Statement
ceremony = identity 1 none none ∷ delegated (text "demo") ∷ claim (poll ∷ []) ∷ []

demo_activated :
    (execute_all ceremony table).sources
    ≡ record demo { status = active; updated_at = some 100 } ∷ []
unfolding execute_all update_where claim_job row_ok is_app_id all contains list_beq is_lower_alnum
    find queued_row mark_delegated one_open is_open any record_identity has_pins
demo_activated = refl

execute_all-active_example :
    WasActive table (record demo { status = active; updated_at = some 100 })
    ⊎ In (delegated (text "demo")) ceremony
execute_all-active_example =
    execute_all-active ceremony table (record demo { status = active; updated_at = some 100 }) refl
      (rw demo_activated (inl refl))

execute_all-constraints_example :
    OnePerSource (execute_all ceremony table).jobs
    × ((s : Source)
        → In s (execute_all ceremony table).sources
        → s.status ≡ active
        → IsPinned s.forge s)
execute_all-constraints_example = execute_all-constraints ceremony table table-IsConsistent

polls_taken : (claim_job (poll ∷ []) table).0 ≡ ok (some (started 100 second_job))
unfolding claim_job one_open is_open any queued_row started update_where contains
polls_taken = refl

claim_job_lem_example :
    (((claim_job (poll ∷ []) table).0 ≡ ok none)
      × ((k : Job) → In k table.jobs → claimable (poll ∷ []) k ≡ false))
    ⊎ ((j : Job) × ((claim_job (poll ∷ []) table).0
          ≡ ok (
              some
                (record j { state = running; started_at = some 100; attempts = j.attempts + 1 })))
        × ((claim_job (poll ∷ []) table).1.jobs
            ≡ update_where
                (has_job_id j.id)
                (λ k. record k {
                  state = running;
                  started_at = some 100;
                  attempts = k.attempts + 1;
                })
                table.jobs)
        × In j table.jobs
        × (claimable (poll ∷ []) j ≡ true)
        × ((k : Job)
            → In k table.jobs
            → claimable (poll ∷ []) k ≡ true
            → j.requested_at ≤ k.requested_at))
claim_job_lem_example = claim_job_lem (poll ∷ []) table table_one_open table_unique_ids

reset_stale_jobs_lem_example :
    ((reset_stale_jobs 30 table).0 ≡ ok (length (filter (is_stale 30 100) table.jobs)))
    × (any (is_stale 30 100) (reset_stale_jobs 30 table).1.jobs ≡ false)
    × ((j : Job)
        → In j table.jobs
        → is_stale 30 100 j ≡ false
        → In j (reset_stale_jobs 30 table).1.jobs)
    × ((j : Job) (t : ℕ)
        → In j table.jobs
        → j.state ≡ running
        → j.started_at ≡ some t
        → t + 30 < 100
        → In (record j { state = queued; started_at = none }) (reset_stale_jobs 30 table).1.jobs)
reset_stale_jobs_lem_example = reset_stale_jobs_lem 30 table table_one_open

abbrev edits : Fields
edits = field (text "builder_keyid") (str (text "mine")) end

update_source_lem_example :
    (map identity_of (update_source 1 edits running_table).1.sources
      ≡ map identity_of running_table.sources)
    × ((name : Str)
        → In name (names edits)
        → contains name updatable_columns ≡ false
        → update_source 1 edits running_table ≡ (err store_error, running_table))
update_source_lem_example = update_source_lem 1 edits running_table

sources_due_for_poll_lem_example :
    In (record demo { status = active }) (sources_due_for_poll 15 running_table) ↔ (
      In (record demo { status = active }) running_table.sources
      × (active ≡ active)
      × ((j : Job)
          → In j running_table.jobs
          → j.source_id ≡ 1
          → (is_open j ≡ false)
            × ((t : ℕ) → j.kind ≡ poll → j.finished_at ≡ some t → t + 15 ≤ 100)))
sources_due_for_poll_lem_example =
    sources_due_for_poll_lem 15 running_table (record demo { status = active })

paused_draft_activates_example :
    get_source 1 (mark_delegated (text "demo") (set_status 1 paused none table).1).1
    ≡ some (record demo { status = active; last_error = none; updated_at = some 100 })
unfolding has_pins
paused_draft_activates_example = paused_draft_activates table demo refl demo-row_ok refl refl

abbrev signed_in : Db
signed_in = record table {
  operators =
      record { username = text "ops"; password_hash = text "h"; salt = text "s"; disabled = false }
      ∷ [];
  sessions =
      record {
        token_sha256 = text "t";
        username = text "ops";
        csrf_token = text "c";
        expires_at = 200;
      }
      ∷ [];
}

abbrev own_session : SessionRow
own_session = record {
  token_sha256 = text "t";
  username = text "ops";
  csrf_token = text "c";
  expires_at = 200;
}

session_found : get_session (text "t") signed_in ≡ some own_session
unfolding get_session find list_beq any
session_found = refl

session_expired : get_session (text "t") (record signed_in { now = 200 }) ≡ none
unfolding get_session find list_beq any
session_expired = refl
