-- ===== src/Admin/Forms/Sources.antt =====
-- packages/dist-admin/src/dist_admin/forms.py: `source_from_form` and `source_edit_from_form`.
use dev_tools_distribution_p.Base.{
  ℕ, Bool, true, false, not, ◌&&◌, Option, none, some, [], ◌++◌, if◌then◌else◌, ◌==◌, nat_eq,
  list_eq, Result, ok, err, ◌>>=◌, ◌>>◌, require, form_error,
}
use dev_tools_distribution_p.Base.Json.{Json, str, num, bool, Fields, end, field, pos}
use dev_tools_distribution_p.Base.Text.{Str, text, contains_char}
use dev_tools_distribution_p.Core.Roles.{matches_app_id}
use dev_tools_distribution_p.Registry.Models.{Forge, github, gitlab, Source, draft}
use dev_tools_distribution_p.Admin.Forms.{
  Library, text_of, required, https, checkbox, slug, asset_of, tag_prefix_of, ref_prefix_of,
  asset_cap_of, matches_project, no_traversal, default_api_base, or_else,
}

-- `Forge(value)`
unfoldable pub forge_of : Str → Result Forge
forge_of value =
    if value == text "github"
    then ok github
    else if value == text "gitlab"
    then ok gitlab
    else err form_error

-- `derived_workflow_uri`
unfoldable pub derived_workflow_uri : Str → Str
derived_workflow_uri project_url = project_url ++ text "/.github/workflows/release.yml"

-- `==` of two Booleans
unfoldable pub same : Bool → Bool → Bool
same true b = b
same false b = not b

-- One item of the result of an edit, left out where nothing changes
unfoldable pub changed : Bool → Str → Json → Fields → Fields
changed true name value rest = rest
changed false name value rest = field name value rest

-- The columns of a row that an edit may change
unfoldable pub differences : Source → Source → Fields
unfolding changed
differences old new =
    changed (old.asset_name == new.asset_name) (text "asset_name") (str new.asset_name) (
      changed (old.tag_prefix == new.tag_prefix) (text "tag_prefix") (str new.tag_prefix) (
        changed (old.require_tag_ref_prefix == new.require_tag_ref_prefix)
          (text "require_tag_ref_prefix") (str new.require_tag_ref_prefix)
          (changed (old.max_asset_bytes == new.max_asset_bytes) (text "max_asset_bytes")
            (num (pos new.max_asset_bytes))
            (changed (same old.critical new.critical) (text "critical") (bool new.critical) (
              changed (old.channel == new.channel) (text "channel") (str new.channel) (
                changed (old.platform == new.platform) (text "platform") (str new.platform)
                  (changed (old.arch == new.arch) (text "arch") (str new.arch) end)))))))

module _ (lib : Library) where
  host_of : Option Str → Str
  host_of none = text "None"
  host_of (some host) = host

  -- `_project_url`
  unfoldable pub project_url : Forge → Str → Str → Result Str
  unfolding host_of
  project_url gitlab api_base project = ok (api_base ++ text "/" ++ project)
  project_url github api_base project =
      if api_base == default_api_base github
      then ok (text "https://github.com/" ++ project)
      else (do
        parts ← lib.urlsplit api_base
        ok (text "https://" ++ host_of parts.hostname ++ text "/" ++ project))

  -- The project, where what is refused is still split as a URL, for the message
  unfoldable pub project_of : Fields → Result Str
  unfolding text_of required matches_project no_traversal
  project_of data_ = do
    typed ← text_of lib data_ (text "project") []
    project ← required typed
    if matches_project project && no_traversal project
        then ok project
        else (do lib.urlsplit project; err form_error)

  -- `common`, in a row whose other columns have the defaults of `Source`
  unfoldable pub common_fields : ℕ → Str → Fields → Result Source
  unfolding text_of required https checkbox asset_of tag_prefix_of ref_prefix_of asset_cap_of
      project_of forge_of project_url
  common_fields id actor data_ = do
    typed ← text_of lib data_ (text "app_id") []
    app_id ← required typed
    require (matches_app_id app_id) form_error
    typed_forge ← text_of lib data_ (text "forge") []
    raw_forge ← required typed_forge
    forge ← forge_of raw_forge
    project ← project_of data_
    typed_base ← text_of lib data_ (text "api_base") []
    api_base ← https lib (or_else typed_base (default_api_base forge))
    asset_name ← asset_of lib data_
    tag_prefix ← tag_prefix_of lib data_ (text "v")
    ref_prefix ← ref_prefix_of lib data_ (text "refs/tags/")
    max_asset_bytes ← asset_cap_of lib data_ 2147483648
    url ← project_url forge api_base project
    critical ← checkbox lib data_ (text "critical")
    ok (record {
      id = id;
      app_id = app_id;
      forge = forge;
      project = project;
      api_base = api_base;
      project_url = url;
      status = draft;
      critical = critical;
      asset_name = asset_name;
      tag_prefix = tag_prefix;
      require_tag_ref_prefix = ref_prefix;
      max_asset_bytes = max_asset_bytes;
      channel = text "stable";
      platform = text "windows";
      arch = text "amd64";
      workflow_uri = none;
      oidc_issuer = none;
      repository_id = none;
      repository_owner_id = none;
      runner_environment = text "github-hosted";
      builder_id = none;
      builder_keyid = none;
      builder_public_key_pem = none;
      attestation_asset = text "provenance.intoto.jsonl";
      created_at = none;
      updated_at = none;
      created_by = actor;
      last_error = none;
    })

  -- `_github_fields`
  unfoldable pub github_fields : Fields → Source → Result Source
  unfolding text_of https derived_workflow_uri
  github_fields data_ s = do
    submitted ← text_of lib data_ (text "workflow_uri") []
    workflow_uri ← https lib (or_else submitted (derived_workflow_uri s.project_url))
    require (not (contains_char b'@' workflow_uri)) form_error
    issuer ← text_of lib data_ (text "oidc_issuer") []
    oidc_issuer ← https lib (or_else issuer (text "https://token.actions.githubusercontent.com"))
    runner ← text_of lib data_ (text "runner_environment") []
    ok (record s {
      workflow_uri = some workflow_uri;
      oidc_issuer = some oidc_issuer;
      runner_environment = or_else runner (text "github-hosted");
    })

  -- `_gitlab_fields`
  unfoldable pub gitlab_fields : Fields → Source → Result Source
  unfolding text_of required
  gitlab_fields data_ s = do
    typed ← text_of lib data_ (text "builder_public_key_pem") []
    pem ← required typed
    require (lib.loads_pem pem) form_error
    typed_id ← text_of lib data_ (text "builder_id") []
    builder_id ← required typed_id
    typed_keyid ← text_of lib data_ (text "builder_keyid") []
    builder_keyid ← required typed_keyid
    attestation ← text_of lib data_ (text "attestation_asset") []
    ok (record s {
      builder_id = some builder_id;
      builder_keyid = some builder_keyid;
      builder_public_key_pem = some pem;
      attestation_asset = or_else attestation (text "provenance.intoto.jsonl");
    })

  unfoldable pub pinned : Forge → Fields → Source → Result Source
  unfolding github_fields gitlab_fields
  pinned github data_ s = github_fields data_ s
  pinned gitlab data_ s = gitlab_fields data_ s

  -- `source_from_form`, given the id that `uuid4` made
  unfoldable pub source_from_form : ℕ → Str → Fields → Result Source
  unfolding common_fields pinned
  source_from_form id actor data_ = do s ← common_fields id actor data_; pinned s.forge data_ s

  -- `proposed`, on the row that exists
  unfoldable pub proposed : Fields → Source → Result Source
  unfolding checkbox slug asset_of tag_prefix_of ref_prefix_of asset_cap_of
  proposed data_ existing = do
    asset_name ← asset_of lib data_
    tag_prefix ← tag_prefix_of lib data_ existing.tag_prefix
    ref_prefix ← ref_prefix_of lib data_ existing.require_tag_ref_prefix
    max_asset_bytes ← asset_cap_of lib data_ existing.max_asset_bytes
    critical ← checkbox lib data_ (text "critical")
    channel ← slug lib data_ (text "channel") existing.channel
    platform ← slug lib data_ (text "platform") existing.platform
    arch ← slug lib data_ (text "arch") existing.arch
    ok (record existing {
      asset_name = asset_name;
      tag_prefix = tag_prefix;
      require_tag_ref_prefix = ref_prefix;
      max_asset_bytes = max_asset_bytes;
      critical = critical;
      channel = channel;
      platform = platform;
      arch = arch;
    })

  -- `source_edit_from_form`
  unfoldable pub source_edit_from_form : Fields → Source → Result Fields
  unfolding proposed differences
  source_edit_from_form data_ existing = do
    new ← proposed data_ existing
    ok (differences existing new)
