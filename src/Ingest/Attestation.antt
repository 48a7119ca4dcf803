-- ===== src/Ingest/Attestation.antt =====
-- packages/dist-ingest/src/dist_ingest/attestation.py. Sigstore's verifier is the record `Sigstore`.
use dev_tools_distribution_p.Base.{
  ℕ, ◌≡◌, refl, sym, ap, ◌∙◌, true, not, Option, none, some, List, [], ◌∷◌, ◌++◌, arith, ◌==◌,
  nat_eq, list_eq, ==_iff, length, leb, In, Result, ok, err, ◌>>=◌, ◌>>◌, require, from_option,
  provenance_error, >>=-eq-ok, require-eq-ok, Option-cases, inl, inr,
}
use dev_tools_distribution_p.Base.Text.{Str, Bytes, text}
use dev_tools_distribution_p.Base.Text.Laws.{starts_with-eq_true}
use dev_tools_distribution_p.Base.Json.{Json, obj, Fields}
use dev_tools_distribution_p.Ingest.Provenance.{
  Provenance, ProvenancePolicy, CertificateIdentity, matches_builder, Tools, refuse_json,
  require_object, require_text, dsse_payload_type, claimed_builder, check_statement, is_nil,
}
use dev_tools_distribution_p.Ingest.Provenance.Statements.{
  IsAttested, check_statement-IsAttested, require_object-eq-ok,
}

abbrev pub max_bundle_bytes : ℕ
max_bundle_bytes = 4194304

-- The clauses of `sigstore.verify.policy.AllOf`
pub data Clause : Type 0 where
  oidc_issuer github_workflow_repository : Str → Clause
  oidc_source_repository_identifier oidc_source_repository_owner_identifier : Str → Clause
  oidc_runner_environment : Str → Clause

-- `Bundle.from_json(raw.decode("utf-8"))` with `none` for an exception; `Verifier.production()`; and
-- its `verify_dsse(bundle, policy)` with `none` for a `SigstoreError`.
pub record Sigstore (Bundle : Type 0) : Type 0 where
  pub from_json : Bytes → Option Bundle
  pub production : Result (Unit {0})
  pub verify_dsse : Bundle → List Clause → Option (Str × Bytes)

-- `_certificate_policy`
unfoldable pub certificate_policy : CertificateIdentity → List Clause
certificate_policy identity =
    oidc_issuer identity.issuer
    ∷ github_workflow_repository identity.repository
    ∷ oidc_source_repository_identifier identity.repository_id
    ∷ oidc_source_repository_owner_identifier identity.repository_owner_id
    ∷ oidc_runner_environment identity.runner_environment
    ∷ []

-- `_statement_builder_id`
unfoldable pub statement_builder_id : Fields → Result Str
unfolding claimed_builder require_text
statement_builder_id statement = do
  claimed ← require_text (claimed_builder statement)
  require (not (is_nil claimed)) provenance_error
  ok claimed

module _ {Bundle : Type 0} (tools : Tools) (sigstore : Sigstore Bundle) where
  -- `_load_bundle`
  unfoldable pub load_bundle : Bytes → Result Bundle
  load_bundle raw = do
    require (leb (length raw) max_bundle_bytes) provenance_error
    from_option (sigstore.from_json raw) provenance_error

  -- What follows `verify_dsse` in the loop
  unfoldable pub check_payload :
      Str → ProvenancePolicy → CertificateIdentity → Str → Bytes → Result Provenance
  unfolding refuse_json require_object statement_builder_id matches_builder check_statement
  check_payload artifact_sha256 policy identity payload_type payload = do
    require (payload_type == dsse_payload_type) provenance_error
    value ← refuse_json (tools.loads payload)
    statement ← require_object value
    builder_id ← statement_builder_id statement
    require (matches_builder identity builder_id) provenance_error
    check_statement tools.lower statement builder_id artifact_sha256 policy

  -- The loop over the trusted identities
  unfoldable pub try_identities :
      Bundle → Str → ProvenancePolicy → List CertificateIdentity → Result Provenance
  unfolding certificate_policy check_payload
  try_identities bundle artifact_sha256 policy [] = err provenance_error
  try_identities bundle artifact_sha256 policy (identity ∷ identities) =
      let rest = try_identities bundle artifact_sha256 policy identities in
      elim (sigstore.verify_dsse bundle (certificate_policy identity)) [
        | none ↦ rest
        | some (payload_type, payload) ↦
            check_payload artifact_sha256 policy identity payload_type payload
      ]

  -- `verify_sigstore_provenance`
  unfoldable pub verify_sigstore_provenance : Bytes → Str → ProvenancePolicy → Result Provenance
  unfolding load_bundle try_identities
  verify_sigstore_provenance bundle_json artifact_sha256 policy = do
    require (not (is_nil policy.trusted_identities)) provenance_error
    bundle ← load_bundle bundle_json
    sigstore.production
    try_identities bundle artifact_sha256 policy policy.trusted_identities

  -- One identity of the policy has its certificate verified for its issuer, its repository by name, by
  -- id and by the id of its owner, and its runner environment; and the builder that the signed statement
  -- names is its workflow at some ref.
  pub record IsCertified (policy : ProvenancePolicy) (p : Provenance) : Type 0 where
    pub identity : CertificateIdentity
    pub trusted : In identity policy.trusted_identities
    pub bundle : Bundle
    pub payload : Bytes
    pub verified :
        sigstore.verify_dsse bundle (
          oidc_issuer identity.issuer
          ∷ github_workflow_repository identity.repository
          ∷ oidc_source_repository_identifier identity.repository_id
          ∷ oidc_source_repository_owner_identifier identity.repository_owner_id
          ∷ oidc_runner_environment identity.runner_environment
          ∷ [])
        ≡ some (dsse_payload_type, payload)
    pub parsed : tools.loads payload ≡ ok (obj p.statement)
    pub ref : Str
    pub covered : p.builder_id ≡ identity.workflow_uri ++ text "@" ++ ref

  matches_builder-eq-true :
      (identity : CertificateIdentity) (builder_id : Str)
      → matches_builder identity builder_id ≡ true
      → (ref : Str) × (builder_id ≡ identity.workflow_uri ++ text "@" ++ ref)
  unfolding matches_builder
  matches_builder-eq-true identity builder_id h =
      let (ref, e) = starts_with-eq_true builder_id (identity.workflow_uri ++ text "@") h in
      (ref, e)

  refuse_json-eq-ok : (r : Result Json) (v : Json) → refuse_json r ≡ ok v → r ≡ ok v
  unfolding refuse_json
  refuse_json-eq-ok r v h = ground arith

  module _ (sha256 : Str) (policy : ProvenancePolicy) (p : Provenance) where
    check_payload-eq-ok :
        (identity : CertificateIdentity) (payload_type : Str) (payload : Bytes)
        → check_payload sha256 policy identity payload_type payload ≡ ok p
        → (payload_type ≡ dsse_payload_type)
          × (tools.loads payload ≡ ok (obj p.statement))
          × (matches_builder identity p.builder_id ≡ true)
          × IsAttested tools.lower p.statement policy p sha256
    unfolding check_payload
    check_payload-eq-ok identity payload_type payload h =
        let (a, h1) = require-eq-ok (payload_type == dsse_payload_type) provenance_error _ h in
        let (v, l, h2) = >>=-eq-ok (refuse_json (tools.loads payload)) _ h1 in
        let (st, o, h3) = >>=-eq-ok (require_object v) _ h2 in
        let (builder_id, c, h4) = >>=-eq-ok (statement_builder_id st) _ h3 in
        let (m, h5) = require-eq-ok (matches_builder identity builder_id) provenance_error _ h4 in
        let (q, same, attested) =
          check_statement-IsAttested tools.lower st sha256 policy builder_id p h5 in
        (
          (==_iff payload_type dsse_payload_type).0 a,
          refuse_json-eq-ok (tools.loads payload) v l
              ∙ ap ok (require_object-eq-ok v st o ∙ ap obj (sym same)),
          rw q m,
          attested,
        )

    try_identities-IsCertified :
        (bundle : Bundle) (identities : List CertificateIdentity)
        → ((i : CertificateIdentity) → In i identities → In i policy.trusted_identities)
        → try_identities bundle sha256 policy identities ≡ ok p
        → IsCertified policy p × IsAttested tools.lower p.statement policy p sha256
    unfolding try_identities certificate_policy
    try_identities-IsCertified bundle [] within h = cc
    try_identities-IsCertified bundle (i ∷ is) within h =
        elim (Option-cases (sigstore.verify_dsse bundle (certificate_policy i))) [
          | inl e ↦ try_identities-IsCertified bundle is (λ j m. within j (inr m)) (ground arith)
          | inr ((payload_type, payload), e) ↦
              let (t, l, m, attested) = check_payload-eq-ok i payload_type payload (ground arith) in
              let covers = matches_builder-eq-true i p.builder_id m in
              (
                record {
                  identity = i;
                  trusted = within i (inl refl);
                  bundle = bundle;
                  payload = payload;
                  verified = e ∙ ap (λ x. some (x, payload)) t;
                  parsed = l;
                  ref = covers.0;
                  covered = covers.1;
                },
                attested,
              )
        ]

    -- A Sigstore attestation that is accepted was verified for one single identity of the policy: its
    -- certificate for the pinned issuer, repository, ids of the repository and of its owner, and runner
    -- environment; the builder that the statement names is that identity's workflow at a ref; the
    -- statement names the artifact's digest and a build of the policy's project at a ref under its
    -- prefix.
    pub verify_sigstore_provenance_lem :
        (bundle_json : Bytes)
        → verify_sigstore_provenance bundle_json sha256 policy ≡ ok p
        → IsCertified policy p × IsAttested tools.lower p.statement policy p sha256
    unfolding verify_sigstore_provenance
    verify_sigstore_provenance_lem bundle_json h =
        let (a, h1) = require-eq-ok (not (is_nil policy.trusted_identities)) provenance_error _ h in
        let (bundle, b, h2) = >>=-eq-ok (load_bundle bundle_json) _ h1 in
        let (u, c, h3) = >>=-eq-ok sigstore.production _ h2 in
        try_identities-IsCertified bundle policy.trusted_identities (λ i m. m) h3
