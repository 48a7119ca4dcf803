-- ===== src/Ingest/Policy.antt =====
-- packages/dist-ingest/src/dist_ingest/policy.py. The third-party parts are the record `Services`;
-- the text of a reason is what it is made of.
pub mod Decision
use dev_tools_distribution_p.Base.{
  ℕ, Bool, true, false, not, Option, none, some, List, [], ◌∷◌, if◌then◌else◌, Error, Result, ok,
  err, ◌>>=◌, gate_error, gate_not_configured, quarantine_error, provenance_error, os_error,
  from_option,
}
use dev_tools_distribution_p.Base.Exec.{Exec}
use dev_tools_distribution_p.Base.Text.{Str, Bytes}
use dev_tools_distribution_p.Core.Roles.{KeyStore, offline, online, RolePolicy, app_role_policy}
use dev_tools_distribution_p.Ingest.Provenance.{
  Tools, Provenance, ProvenancePolicy, verify_provenance, is_nil,
}
use dev_tools_distribution_p.Ingest.Attestation.{Sigstore, verify_sigstore_provenance}
use dev_tools_distribution_p.Ingest.Gates.{
  ArchiveLimits, ArchiveReport, ContentGates, Archives, inspect_archive, run_content_gates,
  has_bytes,
}
use dev_tools_distribution_p.Ingest.Quarantine.{
  Disk, Reads, Quarantine, Admitted, read, admit, promote_file,
}

pub data Promotion : Type 0 where
  promote hold_for_ceremony reject : Promotion

pub data Reason : Type 0 where
  not_admitted : Error → Reason
  no_attestation : Reason
  provenance_rejected : Error → Reason
  gate_failed : Error → Reason
  needs_ceremony : Str → Reason
  gates_passed : List Str → Str → Str → Reason

pub record AppIngestPolicy : Type 0 where
  pub app_id : Str
  pub critical : Bool
  pub provenance : ProvenancePolicy
  pub archive_limits : ArchiveLimits
  pub content_gates : ContentGates

-- `AppIngestPolicy.keystore`
unfoldable pub keystore : AppIngestPolicy → Result KeyStore
unfolding app_role_policy
keystore policy = do role ← app_role_policy policy.app_id policy.critical; ok (role.keystore)

pub record Outcome : Type 0 where
  pub decision : Promotion
  pub reason : Reason
  pub admitted : Option Admitted
  pub provenance : Option Provenance
  pub archive : Option ArchiveReport
  pub skipped_gates : List Str

-- `Outcome.promoted`
unfoldable pub is_promoted : Outcome → Bool
is_promoted o = elim o.decision [ promote ↦ true | _ ↦ false ]

pub record Services (Bundle : Type 0) : Type 0 where
  pub sha256_of : Bytes → Str
  pub tools : Tools
  pub sigstore : Sigstore Bundle
  pub archives : Archives

-- `Outcome(Promotion.REJECT, …)`
abbrev pub rejected : Reason → Option Admitted → Option Provenance → Outcome
rejected reason admitted provenance = record {
  decision = reject;
  reason = reason;
  admitted = admitted;
  provenance = provenance;
  archive = none;
  skipped_gates = [];
}

module _ {Bundle : Type 0} (services : Services Bundle) where
  -- `_verify`
  unfoldable pub verify : Bytes → Str → ProvenancePolicy → Result Provenance
  verify envelope sha256 policy =
      if is_nil policy.trusted_identities
      then verify_provenance services.tools envelope sha256 policy
      else verify_sigstore_provenance services.tools services.sigstore envelope sha256 policy

  -- The two gates' results
  unfoldable pub run_gates :
      Bytes → AppIngestPolicy → Option Bytes → Result (Option ArchiveReport × List Str)
  run_gates file policy sbom = do
    archive ← inspect_archive services.archives file policy.archive_limits
    skipped ← run_content_gates file policy.app_id policy.content_gates sbom
    ok (archive, skipped)

  -- What `ingest` returns once the gates have passed
  unfoldable pub decide :
      AppIngestPolicy → Admitted → Provenance → Option ArchiveReport → List Str → Result Outcome
  unfolding keystore
  decide policy admitted provenance archive skipped = do
    custody ← keystore policy
    ok (record {
      decision = elim custody [ offline ↦ hold_for_ceremony | online ↦ promote ];
      reason = elim custody [
        | offline ↦ needs_ceremony policy.app_id
        | online ↦ gates_passed skipped provenance.builder_id provenance.source_ref
      ];
      admitted = some admitted;
      provenance = some provenance;
      archive = archive;
      skipped_gates = skipped;
    })

  -- `except GateError`, whose subclass is `GateNotConfiguredError`
  unfoldable pub after_gates :
      AppIngestPolicy
      → Admitted
      → Provenance
      → Result (Option ArchiveReport × List Str)
      → Result Outcome
  unfolding decide
  after_gates policy admitted provenance (ok (archive, skipped)) =
      decide policy admitted provenance archive skipped
  after_gates policy admitted provenance (err gate_error) =
      ok (rejected (gate_failed gate_error) (some admitted) (some provenance))
  after_gates policy admitted provenance (err gate_not_configured) =
      ok (rejected (gate_failed gate_not_configured) (some admitted) (some provenance))
  after_gates policy admitted provenance (err e) = err e

  -- `except ProvenanceError`
  unfoldable pub after_provenance :
      Bytes → AppIngestPolicy → Option Bytes → Admitted → Result Provenance → Result Outcome
  unfolding after_gates run_gates
  after_provenance file policy sbom admitted (ok provenance) =
      after_gates policy admitted provenance (run_gates file policy sbom)
  after_provenance file policy sbom admitted (err provenance_error) =
      ok (rejected (provenance_rejected provenance_error) (some admitted) none)
  after_provenance file policy sbom admitted (err e) = err e

  -- What follows the admission; the file is read back from its path.
  unfoldable pub assess :
      AppIngestPolicy → Option Bytes → Option Bytes → Admitted → Disk → Result Outcome
  unfolding after_provenance verify
  assess policy none sbom admitted disk = ok (rejected no_attestation (some admitted) none)
  assess policy (some []) sbom admitted disk = ok (rejected no_attestation (some admitted) none)
  assess policy (some (b ∷ envelope)) sbom admitted disk = do
    file ← from_option (read disk admitted.path) os_error
    after_provenance file policy sbom admitted
        (verify (b ∷ envelope) admitted.sha256 policy.provenance)

  -- `except QuarantineError`
  unfoldable pub after_admit :
      AppIngestPolicy → Option Bytes → Option Bytes → Result Admitted × Disk → Result Outcome × Disk
  unfolding assess
  after_admit policy envelope sbom (ok admitted, disk) =
      (assess policy envelope sbom admitted disk, disk)
  after_admit policy envelope sbom (err quarantine_error, disk) =
      (ok (rejected (not_admitted quarantine_error) none none), disk)
  after_admit policy envelope sbom (err e, disk) = (err e, disk)

  -- `ingest`
  unfoldable pub ingest :
      Str → Reads → AppIngestPolicy → Quarantine → Option Bytes → Option Bytes → Exec Disk Outcome
  unfolding after_admit
  ingest temp source policy quarantine envelope sbom disk =
      after_admit policy envelope sbom (admit services.sha256_of quarantine temp source disk)

  -- `promote`, with what others make of the disk while it works
  unfoldable pub promote_outcome : (Disk → Disk) → Str → Outcome → Quarantine → Str → Exec Disk Str
  unfolding is_promoted
  promote_outcome between temp outcome quarantine destination disk =
      if is_promoted outcome
      then elim outcome.admitted [
        | none ↦ (err gate_error, disk)
        | some admitted ↦
            promote_file services.sha256_of between quarantine temp admitted.sha256 destination disk
      ]
      else (err gate_error, disk)
