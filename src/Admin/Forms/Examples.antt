-- ===== src/Admin/Forms/Examples.antt =====
-- packages/dist-admin/src/dist_admin/forms.py: a registration and two edits.
use dev_tools_distribution_p.Base.{
  true, false, not, none, some, [], ◌∷◌, ◌==◌, nat_eq, list_eq, list_beq, all, any, find, contains,
  ok, err, check_violation, ◌≡◌, refl, filter,
}
use dev_tools_distribution_p.Base.Json.{str, Fields, end, field, pos}
use dev_tools_distribution_p.Base.Text.{text, newline, is_lower_alnum}
use dev_tools_distribution_p.Core.Roles.{is_app_id}
use dev_tools_distribution_p.Registry.Models.{Source, github, draft}
use dev_tools_distribution_p.Registry.Schema.{Db, row_ok}
use dev_tools_distribution_p.Registry.Sources.{update_source}
use dev_tools_distribution_p.Admin.Forms.{Library}

-- It strips newlines, and takes each text for a URL of one host.
abbrev pub sample_library : Library
sample_library = record {
  strip = filter (λ c. not (c == newline));
  lower = λ s. s;
  int_of_text = λ s. some (pos 1000);
  urlsplit = λ s. ok (record {
    scheme = text "https";
    hostname = some (text "api.github.com");
    query = [];
    fragment = [];
  });
  loads_pem = λ s. true;
}

abbrev registration : Fields
registration = field (text "app_id") (str (text "demo")) (
    field (text "forge") (str (text "github")) (
      field (text "project") (str (text "org/demo"))
        (field (text "asset_name") (str (text "demo-{version}.msi")) end)))

abbrev pub registered : Source
registered = record {
  id = 1;
  app_id = text "demo";
  forge = github;
  project = text "org/demo";
  api_base = text "https://api.github.com";
  project_url = text "https://github.com/org/demo";
  status = draft;
  critical = false;
  asset_name = text "demo-{version}.msi";
  tag_prefix = text "v";
  require_tag_ref_prefix = text "refs/tags/";
  max_asset_bytes = 2147483648;
  channel = text "stable";
  platform = text "windows";
  arch = text "amd64";
  workflow_uri = some (text "https://github.com/org/demo/.github/workflows/release.yml");
  oidc_issuer = some (text "https://token.actions.githubusercontent.com");
  repository_id = none;
  repository_owner_id = none;
  runner_environment = text "github-hosted";
  builder_id = none;
  builder_keyid = none;
  builder_public_key_pem = none;
  attestation_asset = text "provenance.intoto.jsonl";
  created_at = none;
  updated_at = none;
  created_by = text "op";
  last_error = none;
}

abbrev one_source : Db
one_source = record {
  sources = registered ∷ [];
  jobs = [];
  audit_log = [];
  operators = [];
  sessions = [];
  now = 4;
}

-- A channel that the form admits and the table does not know
abbrev nightly : Fields
nightly = field (text "csrf") (str (text "t")) (
    field (text "asset_name") (str (text "demo.msi"))
      (field (text "channel") (str (text "nightly")) end))

abbrev nightly_edit : Fields
nightly_edit =
    field (text "asset_name") (str (text "demo.msi"))
      (field (text "channel") (str (text "nightly")) end)

nightly_refused : update_source 1 nightly_edit one_source ≡ (err check_violation, one_source)
unfolding update_source all contains list_beq any row_ok is_app_id is_lower_alnum find
nightly_refused = refl
