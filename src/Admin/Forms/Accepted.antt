-- ===== src/Admin/Forms/Accepted.antt =====
-- packages/dist-admin/src/dist_admin/forms.py: what a form that is accepted makes.
use dev_tools_distribution_p.Base.{
  ◌<◌, ◌≤◌, true, false, Option, none, some, [], ◌∷◌, ◌++◌, nat_eq, list_eq, contains, ok, ◌≡◌,
}
use dev_tools_distribution_p.Base.Text.{Str, text, starts_with, contains_char}
use dev_tools_distribution_p.Core.Naming.{channels}
use dev_tools_distribution_p.Core.Roles.{is_app_id}
use dev_tools_distribution_p.Registry.Models.{Source, draft, status_eq}
use dev_tools_distribution_p.Registry.Schema.{Db}
use dev_tools_distribution_p.Registry.Sources.{add_source}
use dev_tools_distribution_p.Admin.Forms.{
  matches_project, matches_asset, no_traversal, max_asset_bytes_ceiling,
}

-- What the checks of a form establish of a row.
pub record IsAccepted (s : Source) : Type 0 where
  pub app_id : is_app_id s.app_id ≡ true
  pub status : s.status ≡ draft
  pub channel : contains s.channel channels ≡ true
  pub project : matches_project s.project ≡ true
  pub inside : no_traversal s.project ≡ true
  pub asset : matches_asset s.asset_name ≡ true
  pub ref_prefix : starts_with s.require_tag_ref_prefix (text "refs/") ≡ true
  pub some_bytes : 0 < s.max_asset_bytes
  pub few_bytes : s.max_asset_bytes ≤ max_asset_bytes_ceiling

-- A row with the same columns but the pins is accepted too.
record Repinned (s s' : Source) : Type 0 where
  id : s'.id ≡ s.id
  created_by : s'.created_by ≡ s.created_by
  app_id : s'.app_id ≡ s.app_id
  status : s'.status ≡ s.status
  channel : s'.channel ≡ s.channel
  project : s'.project ≡ s.project
  asset_name : s'.asset_name ≡ s.asset_name
  ref_prefix : s'.require_tag_ref_prefix ≡ s.require_tag_ref_prefix
  max_asset_bytes : s'.max_asset_bytes ≡ s.max_asset_bytes

-- The workflow that a row pins is given without a ref.
abbrev pub NoRef : Option Str → Type 0
NoRef none = Unit {0}
NoRef (some uri) = contains_char b'@' uri ≡ false

-- The registry takes the row, as a draft that was never validated, and gives it back.
abbrev pub IsStored : Source → Db → Type 0
IsStored s db =
    let row = record s {
      status = draft;
      repository_id = none;
      repository_owner_id = none;
      created_at = some db.now;
      updated_at = some db.now;
      last_error = none;
    } in
    add_source s db ≡ (ok row, record db { sources = db.sources ++ row ∷ [] })
