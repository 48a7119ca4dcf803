-- ===== src/Registry/Sources.antt =====
-- packages/dist-registry/src/dist_registry/store.py, the functions on `sources`. Each is one
-- transaction: it commits, or raises and leaves the database as it was.
pub mod Columns
pub mod Frozen
use dev_tools_distribution_p.Base.{
  ℕ, suc, ◌+◌, ◌<◌, ◌≡◌, refl, Bool, true, false, not, ◌&&◌, ◌||◌, Option, none, some, List, [],
  ◌∷◌, ◌++◌, map, if◌then◌else◌, ◌==◌, nat_eq, list_eq, Eq, option_eq, all, any, find, filter,
  contains, ltb, Error, Result, ok, err, ◌>>=◌, ◌>>◌, require, from_option, store_error,
  check_violation, type_error,
}
use dev_tools_distribution_p.Base.Exec.{Exec, transact}
use dev_tools_distribution_p.Base.Text.{Str, text}
use dev_tools_distribution_p.Base.Json.{
  Json, null, str, num, bool, Fields, end, field, ℤ, pos, get, lookup,
}
use dev_tools_distribution_p.Registry.Models.{
  Forge, github, gitlab, SourceStatus, draft, validating, invalid, pending_delegation, active,
  paused, JobKind, poll, Message, Source, Job, status_eq, kind_eq,
}
use dev_tools_distribution_p.Registry.Schema.{
  Db, is_some, row_ok, is_open, open_for, update_where, update_sources,
}

abbrev pub has_id : ℕ → Source → Bool
has_id source_id s = s.id == source_id

-- `get_source`
unfoldable pub get_source : ℕ → Db → Option Source
get_source source_id db = find (has_id source_id) db.sources

-- The row that `add_source` inserts: a draft, with the columns that it does not name unset.
unfoldable pub draft_row : ℕ → Source → Source
draft_row now source = record source {
  status = draft;
  repository_id = none;
  repository_owner_id = none;
  created_at = some now;
  updated_at = some now;
  last_error = none;
}

-- `add_source`
unfoldable pub add_source : Source → Exec Db Source
unfolding draft_row row_ok
add_source source = transact λ db.
    let row = draft_row db.now source in
    do
      require (not (any (λ s. s.id == row.id || s.app_id == row.app_id) db.sources)) store_error
      require (row_ok row) store_error
      ok (row, record db { sources = db.sources ++ (row ∷ []) })

-- `_UPDATABLE_COLUMNS`
abbrev pub updatable_columns : List Str
updatable_columns =
    text "asset_name"
    ∷ text "tag_prefix"
    ∷ text "require_tag_ref_prefix"
    ∷ text "max_asset_bytes"
    ∷ text "critical"
    ∷ text "channel"
    ∷ text "platform"
    ∷ text "arch"
    ∷ []

-- `SET name = value`, for the columns that are texts.
unfoldable pub assign_text : Str → Str → Source → Source
assign_text name v s =
    if name == text "asset_name"
    then record s { asset_name = v }
    else if name == text "tag_prefix"
    then record s { tag_prefix = v }
    else if name == text "require_tag_ref_prefix"
    then record s { require_tag_ref_prefix = v }
    else if name == text "channel"
    then record s { channel = v }
    else if name == text "platform"
    then record s { platform = v }
    else if name == text "arch"
    then record s { arch = v }
    else if name == text "app_id"
    then record s { app_id = v }
    else if name == text "project"
    then record s { project = v }
    else if name == text "api_base"
    then record s { api_base = v }
    else if name == text "project_url"
    then record s { project_url = v }
    else if name == text "runner_environment"
    then record s { runner_environment = v }
    else if name == text "attestation_asset"
    then record s { attestation_asset = v }
    else if name == text "created_by"
    then record s { created_by = v }
    else s

-- For those that are texts or NULL
unfoldable pub assign_optional : Str → Option Str → Source → Source
assign_optional name v s =
    if name == text "workflow_uri"
    then record s { workflow_uri = v }
    else if name == text "oidc_issuer"
    then record s { oidc_issuer = v }
    else if name == text "repository_id"
    then record s { repository_id = v }
    else if name == text "repository_owner_id"
    then record s { repository_owner_id = v }
    else if name == text "builder_id"
    then record s { builder_id = v }
    else if name == text "builder_keyid"
    then record s { builder_keyid = v }
    else if name == text "builder_public_key_pem"
    then record s { builder_public_key_pem = v }
    else s

forge_of_text : Str → Option Forge
forge_of_text v =
    if v == text "github" then some github else if v == text "gitlab" then some gitlab else none

status_of_text : Str → Option SourceStatus
status_of_text v =
    if v == text "draft"
    then some draft
    else if v == text "validating"
    then some validating
    else if v == text "invalid"
    then some invalid
    else if v == text "pending_delegation"
    then some pending_delegation
    else if v == text "active"
    then some active
    else if v == text "paused"
    then some paused
    else none

-- For those that are one of a few texts
unfoldable pub assign_named : Str → Str → Source → Source
unfolding forge_of_text status_of_text
assign_named name v s =
    if name == text "forge"
    then elim (forge_of_text v) [ none ↦ s | some forge ↦ record s { forge = forge } ]
    else if name == text "status"
    then elim (status_of_text v) [ none ↦ s | some status ↦ record s { status = status } ]
    else s

unfoldable pub assign_number : Str → ℕ → Source → Source
assign_number name v s =
    if name == text "max_asset_bytes"
    then record s { max_asset_bytes = v }
    else if name == text "id"
    then record s { id = v }
    else s

-- `SET name = value`, for every column but the times and the last error, whose values are no JSON. A
-- name is that of one column, so at most one of the assignments to a text changes the row.
unfoldable pub assign : Str → Json → Source → Source
unfolding assign_text assign_optional assign_named assign_number
assign name (str v) s = assign_named name v (assign_optional name (some v) (assign_text name v s))
assign name null s = assign_optional name none s
assign name (num (pos v)) s = assign_number name v s
assign name (bool v) s = if name == text "critical" then record s { critical = v } else s
assign name _ s = s

abbrev text_columns : List Str
text_columns =
    text "asset_name"
    ∷ text "tag_prefix"
    ∷ text "require_tag_ref_prefix"
    ∷ text "channel"
    ∷ text "platform"
    ∷ text "arch"
    ∷ text "app_id"
    ∷ text "project"
    ∷ text "api_base"
    ∷ text "project_url"
    ∷ text "runner_environment"
    ∷ text "attestation_asset"
    ∷ text "created_by"
    ∷ []

abbrev optional_columns : List Str
optional_columns =
    text "workflow_uri"
    ∷ text "oidc_issuer"
    ∷ text "repository_id"
    ∷ text "repository_owner_id"
    ∷ text "builder_id"
    ∷ text "builder_keyid"
    ∷ text "builder_public_key_pem"
    ∷ []

-- The type of the value is that of the column, or the statement fails.
unfoldable pub fits : Str → Json → Bool
unfolding forge_of_text status_of_text
fits name (str v) =
    contains name text_columns
    || contains name optional_columns
    || (name == text "forge" && is_some (forge_of_text v))
    || (name == text "status" && is_some (status_of_text v))
fits name null = contains name optional_columns
fits name (num (pos v)) = name == text "max_asset_bytes" || name == text "id"
fits name (bool v) = name == text "critical"
fits name _ = false

unfoldable pub names : Fields → List Str
names end = []
names (field name v rest) = name ∷ names rest

unfoldable pub assign_all : Fields → Source → Source
unfolding assign
assign_all end s = s
assign_all (field name v rest) s = assign_all rest (assign name v s)

unfoldable pub all_fit : Fields → Bool
unfolding fits
all_fit end = true
all_fit (field name v rest) = fits name v && all_fit rest

unfoldable pub is_empty : Fields → Bool
is_empty end = true
is_empty (field _ _ _) = false

-- `update_source`
unfoldable pub update_source : ℕ → Fields → Exec Db Source
unfolding get_source names assign_all all_fit is_empty update_sources
update_source source_id fields = transact λ db. do
  require (all (λ name. contains name updatable_columns) (names fields)) store_error
  if is_empty fields
      then (do s ← from_option (get_source source_id db) store_error; ok (s, db))
      else (do
        require (all_fit fields) type_error
        require (any (has_id source_id) db.sources) store_error
        db' ←
            update_sources (has_id source_id)
              (λ s. record (assign_all fields s) { updated_at = some db.now }) db
        s ← from_option (get_source source_id db') store_error
        ok (s, db'))

-- `set_status`
unfoldable pub set_status : ℕ → SourceStatus → Option Message → Exec Db (Unit {0})
unfolding update_sources
set_status source_id status error = transact λ db. do
  require (not (status == active)) store_error
  db' ←
      update_sources (has_id source_id)
        (λ s. record s { status = status; last_error = error; updated_at = some db.now }) db
  ok (tt, db')

-- `record_identity`, on the two ids that it reads from its argument
unfoldable pub record_identity : ℕ → Option Str → Option Str → Exec Db (Unit {0})
unfolding update_sources
record_identity source_id repository_id repository_owner_id = transact λ db. do
  db' ←
      update_sources (has_id source_id)
        (λ s. record s {
          repository_id = repository_id;
          repository_owner_id = repository_owner_id;
          status = pending_delegation;
          last_error = none;
          updated_at = some db.now;
        })
        db
  ok (tt, db')

-- `WHERE app_id = %s AND status IN ('pending_delegation', 'paused')`
unfoldable pub awaits_delegation : Str → Source → Bool
awaits_delegation app_id s =
    s.app_id == app_id && (s.status == pending_delegation || s.status == paused)

unfoldable pub activated : ℕ → Source → Source
activated now s = record s { status = active; last_error = none; updated_at = some now }

-- `mark_delegated`. A CHECK constraint that the new row breaks is an exception of its own.
unfoldable pub mark_delegated : Str → Exec Db Source
unfolding awaits_delegation update_sources activated
mark_delegated app_id = transact λ db. do
  s ← from_option (find (awaits_delegation app_id) db.sources) store_error
  db' ← update_sources (awaits_delegation app_id) (activated db.now) db
  ok (activated db.now s, db')

-- `delete_source`, with `ON DELETE CASCADE` of its jobs
unfoldable pub delete_source : ℕ → Exec Db (Unit {0})
delete_source source_id = transact λ db. ok (
  tt,
  record db {
    sources = filter (λ s. not (s.id == source_id)) db.sources;
    jobs = filter (λ j. not (j.source_id == source_id)) db.jobs;
  },
)

-- `pollable_sources`
unfoldable pub pollable_sources : Db → List Source
pollable_sources db = filter (λ s. s.status == active) db.sources

-- `finished_at > now() - interval`, which fails for a NULL
unfoldable pub finished_after : Option ℕ → ℕ → ℕ → Bool
finished_after none interval now = false
finished_after (some t) interval now = ltb now (t + interval)

unfoldable pub recent_poll : ℕ → ℕ → ℕ → Job → Bool
unfolding finished_after
recent_poll source_id interval now j =
    j.source_id == source_id && j.kind == poll && finished_after j.finished_at interval now

unfoldable pub is_due : ℕ → Db → Source → Bool
unfolding open_for recent_poll
is_due interval db s =
    s.status == active
    && not (any (open_for s.id) db.jobs)
    && not (any (recent_poll s.id interval db.now) db.jobs)

-- `sources_due_for_poll`
unfoldable pub sources_due_for_poll : ℕ → Db → List Source
unfolding is_due
sources_due_for_poll interval db = filter (is_due interval db) db.sources
