-- ===== src/Ingest/Sources.antt =====
-- packages/dist-ingest/src/dist_ingest/sources.py: from a stored source to the policy it is held to.
pub mod Route
use dev_tools_distribution_p.Base.{
  ℕ, Bool, true, false, not, ◌&&◌, Option, none, some, List, [], ◌∷◌, ◌==◌, list_eq, nat_eq, all,
  contains, Result, ok, err, ◌>>=◌, ◌>>◌, require, source_config_error,
}
use dev_tools_distribution_p.Base.Text.{Str, text, encode}
use dev_tools_distribution_p.Registry.Models.{Forge, github, gitlab, Source}
use dev_tools_distribution_p.Ingest.Provenance.{
  ProvenancePolicy, new_provenance_policy, TrustedBuilder, CertificateIdentity,
}
use dev_tools_distribution_p.Ingest.Gates.{ContentGates, default_limits}
use dev_tools_distribution_p.Ingest.Policy.{AppIngestPolicy}

-- `if not value: raise SourceConfigError`, for a text that may be missing
unfoldable pub require_pin : Option Str → Result Str
require_pin none = err source_config_error
require_pin (some []) = err source_config_error
require_pin (some (c ∷ s)) = ok (c ∷ s)

-- `provenance_policy` of a GitHub source
unfoldable pub github_policy : Source → Result ProvenancePolicy
unfolding require_pin new_provenance_policy
github_policy source = do
  workflow_uri ← require_pin source.workflow_uri
  issuer ← require_pin source.oidc_issuer
  repository_id ← require_pin source.repository_id
  repository_owner_id ← require_pin source.repository_owner_id
  new_provenance_policy (record {
    trusted_builders = [];
    project_url = source.project_url;
    require_tag_ref_prefix = source.require_tag_ref_prefix;
    trusted_identities =
        record {
          workflow_uri = workflow_uri;
          issuer = issuer;
          repository = source.project;
          repository_id = repository_id;
          repository_owner_id = repository_owner_id;
          runner_environment = source.runner_environment;
        }
        ∷ [];
  })

-- `provenance_policy` of a GitLab source
unfoldable pub gitlab_policy : Source → Result ProvenancePolicy
unfolding require_pin new_provenance_policy
gitlab_policy source = do
  builder_id ← require_pin source.builder_id
  keyid ← require_pin source.builder_keyid
  public_key_pem ← require_pin source.builder_public_key_pem
  new_provenance_policy (record {
    trusted_builders =
        record { builder_id = builder_id; keyid = keyid; public_key_pem = encode public_key_pem }
        ∷ [];
    project_url = source.project_url;
    require_tag_ref_prefix = source.require_tag_ref_prefix;
    trusted_identities = [];
  })

-- `provenance_policy`
unfoldable pub provenance_policy : Source → Result ProvenancePolicy
unfolding github_policy gitlab_policy
provenance_policy source = elim source.forge [
  | github ↦ github_policy source
  | gitlab ↦ gitlab_policy source
]

-- `skipped_gates`, on the names that `DIST_SKIP_GATES` lists
unfoldable pub skipped_gates : List Str → Result (List Str)
skipped_gates named = do
  require (all (λ name. contains name (text "malware" ∷ text "publisher" ∷ text "sbom" ∷ [])) named)
      source_config_error
  ok named

-- `ingest_policy`: no scanner and no publisher check are configured.
unfoldable pub ingest_policy : List Str → Source → Result AppIngestPolicy
unfolding provenance_policy skipped_gates
ingest_policy named source = do
  provenance ← provenance_policy source
  skip ← skipped_gates named
  ok (record {
    app_id = source.app_id;
    critical = source.critical;
    provenance = provenance;
    archive_limits = default_limits;
    content_gates = record { malware = none; publisher = none; require_sbom = true; skip = skip };
  })
