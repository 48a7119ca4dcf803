-- ===== src/Ingest/Sources/Route.antt =====
-- How a source's forge settles what is trusted
-- (packages/dist-ingest/src/dist_ingest/sources.py and policy.py).
use dev_tools_distribution_p.Base.{
  ◌≡◌, ◌≢◌, refl, sym, ◌∙◌, ◌⊎◌, inl, inr, true, false, Option, none, some, [], ◌∷◌, arith, ok,
  >>=-eq-ok,
}
use dev_tools_distribution_p.Base.Text.{Str, Bytes, encode}
use dev_tools_distribution_p.Registry.Models.{Forge, github, gitlab, Source}
use dev_tools_distribution_p.Ingest.Provenance.{
  ProvenancePolicy, new_provenance_policy, is_nil, verify_provenance,
}
use dev_tools_distribution_p.Ingest.Attestation.{verify_sigstore_provenance}
use dev_tools_distribution_p.Ingest.Policy.{Services, verify}
use dev_tools_distribution_p.Ingest.Sources.{
  require_pin, github_policy, gitlab_policy, provenance_policy,
}

require_pin-eq-ok : (o : Option Str) (s : Str) → require_pin o ≡ ok s → o ≡ some s
unfolding require_pin
require_pin-eq-ok none s h = cc
require_pin-eq-ok (some []) s h = cc
require_pin-eq-ok (some (c ∷ t)) s h = cc h

forge_cases : (f : Forge) → (f ≡ github) ⊎ (f ≡ gitlab)
forge_cases github = inl refl
forge_cases gitlab = inr refl

github_ne_gitlab : github ≢ gitlab
github_ne_gitlab h = cc h

-- What a policy trusts is what the source pins, and nothing else.
abbrev pub IsPinned : Source → ProvenancePolicy → Type 0
IsPinned s p =
    ((s.forge ≡ github)
      × (p.trusted_builders ≡ [])
      × (workflow issuer id owner : Str) × (s.workflow_uri ≡ some workflow)
      × (s.oidc_issuer ≡ some issuer)
      × (s.repository_id ≡ some id)
      × (s.repository_owner_id ≡ some owner)
      × (p.trusted_identities
          ≡ record {
            workflow_uri = workflow;
            issuer = issuer;
            repository = s.project;
            repository_id = id;
            repository_owner_id = owner;
            runner_environment = s.runner_environment;
          }
            ∷ []))
    ⊎ ((s.forge ≡ gitlab)
        × (p.trusted_identities ≡ [])
        × (builder key pem : Str) × (s.builder_id ≡ some builder)
        × (s.builder_keyid ≡ some key)
        × (s.builder_public_key_pem ≡ some pem)
        × (p.trusted_builders
            ≡ record { builder_id = builder; keyid = key; public_key_pem = encode pem } ∷ []))

github_policy-IsPinned :
    (s : Source) (p : ProvenancePolicy)
    → s.forge ≡ github
    → github_policy s ≡ ok p
    → IsPinned s p × (p.project_url ≡ s.project_url) × (is_nil p.trusted_identities ≡ false)
unfolding github_policy new_provenance_policy
github_policy-IsPinned s p g h =
    let (workflow, a, h1) = >>=-eq-ok (require_pin s.workflow_uri) _ h in
    let (issuer, b, h2) = >>=-eq-ok (require_pin s.oidc_issuer) _ h1 in
    let (id, c, h3) = >>=-eq-ok (require_pin s.repository_id) _ h2 in
    let (owner, d, h4) = >>=-eq-ok (require_pin s.repository_owner_id) _ h3 in
    (
      inl (
        g,
        ground arith,
        workflow,
        issuer,
        id,
        owner,
        require_pin-eq-ok s.workflow_uri workflow a,
        require_pin-eq-ok s.oidc_issuer issuer b,
        require_pin-eq-ok s.repository_id id c,
        require_pin-eq-ok s.repository_owner_id owner d,
        ground arith,
      ),
      ground arith,
      ground arith,
    )

gitlab_policy-IsPinned :
    (s : Source) (p : ProvenancePolicy)
    → s.forge ≡ gitlab
    → gitlab_policy s ≡ ok p
    → IsPinned s p × (p.project_url ≡ s.project_url) × (is_nil p.trusted_identities ≡ true)
unfolding gitlab_policy new_provenance_policy
gitlab_policy-IsPinned s p g h =
    let (builder, a, h1) = >>=-eq-ok (require_pin s.builder_id) _ h in
    let (key, b, h2) = >>=-eq-ok (require_pin s.builder_keyid) _ h1 in
    let (pem, c, h3) = >>=-eq-ok (require_pin s.builder_public_key_pem) _ h2 in
    (
      inr (
        g,
        ground arith,
        builder,
        key,
        pem,
        require_pin-eq-ok s.builder_id builder a,
        require_pin-eq-ok s.builder_keyid key b,
        require_pin-eq-ok s.builder_public_key_pem pem c,
        ground arith,
      ),
      ground arith,
      ground arith,
    )

-- The policy of a source trusts what the source pins for its forge and nothing else, of its own
-- project; and the forge alone, never the envelope, selects the route by which an attestation is
-- verified.
pub provenance_policy_lem :
    {Bundle : Type 0} (services : Services Bundle) (s : Source) (p : ProvenancePolicy)
    → provenance_policy s ≡ ok p
    → IsPinned s p
      × (p.project_url ≡ s.project_url)
      × ((envelope : Bytes) (sha256 : Str)
          → (s.forge ≡ github
              → verify services envelope sha256 p
                ≡ verify_sigstore_provenance services.tools services.sigstore envelope sha256 p)
            × (s.forge ≡ gitlab
                → verify services envelope sha256 p
                  ≡ verify_provenance services.tools envelope sha256 p))
unfolding provenance_policy verify
provenance_policy_lem services s p h = elim (forge_cases s.forge) [
  | inl g ↦
      let (pinned, url, some_identity) = github_policy-IsPinned s p g (ground arith) in
      (
        pinned,
        url,
        λ envelope sha256. (λ _. ground arith, λ g'. absurd (github_ne_gitlab (sym g ∙ g'))),
      )
  | inr g ↦
      let (pinned, url, no_identity) = gitlab_policy-IsPinned s p g (ground arith) in
      (
        pinned,
        url,
        λ envelope sha256. (λ g'. absurd (github_ne_gitlab (sym g' ∙ g)), λ _. ground arith),
      )
]
