-- ===== src/Ingest/Policy/Decision.antt =====
-- What a promotion rests on: `ingest` and `promote` of
-- packages/dist-ingest/src/dist_ingest/policy.py.
use dev_tools_distribution_p.Base.{
  ◌≡◌, refl, sym, ap, ◌∙◌, ◌⊎◌, false, Option, none, some, List, [], ◌∷◌, arith, if◌then◌else◌,
  Error, Result, ok, err, >>=-eq-ok, Bool-cases, inl, inr,
}
use mathlib.Core.Path.{subst}
use dev_tools_distribution_p.Base.Text.{Str, Bytes}
use dev_tools_distribution_p.Core.Roles.{
  KeyStore, offline, online, app_role_policy, app_role_name, new_role_policy,
}
use dev_tools_distribution_p.Ingest.Provenance.{Provenance}
use dev_tools_distribution_p.Ingest.Gates.{ArchiveReport, inspect_archive, run_content_gates}
use dev_tools_distribution_p.Ingest.Quarantine.{
  Disk, Reads, Quarantine, Admitted, read, path_of, admit, promote_file,
}
use dev_tools_distribution_p.Ingest.Quarantine.Content.{admit_lem, received, promote_file_lem}
use dev_tools_distribution_p.Ingest.Policy.{
  Services, AppIngestPolicy, keystore, Outcome, promote, hold_for_ceremony, reject, verify,
  run_gates, decide, after_gates, after_provenance, assess, after_admit, ingest, promote_outcome,
  is_promoted,
}

some_injective : {a b : Bytes} → ◌≡◌ {A = Option Bytes} (some a) (some b) → a ≡ b
some_injective e = cc

keystore-eq-ok :
    (policy : AppIngestPolicy) (custody : KeyStore)
    → keystore policy ≡ ok custody
    → custody ≡ (if policy.critical then offline else online)
unfolding keystore app_role_policy new_role_policy
keystore-eq-ok policy custody h =
    let (role, a, h1) = >>=-eq-ok (app_role_policy policy.app_id policy.critical) _ h in
    let (name, b, h2) = >>=-eq-ok (app_role_name policy.app_id) _ a in ground arith

module _ {Bundle : Type 0} (services : Services Bundle) (policy : AppIngestPolicy) where
  -- All that a decision other than a rejection rests on, for the bytes that were received.
  pub record IsCleared (envelope sbom : Option Bytes) (bytes : Bytes) (o : Outcome) : Type 0 where
    pub admitted : Admitted
    pub is_admitted : o.admitted ≡ some admitted
    pub digest : admitted.sha256 ≡ services.sha256_of bytes
    pub provenance : Provenance
    pub is_built : o.provenance ≡ some provenance
    pub attestation : Bytes
    pub is_given : envelope ≡ some attestation
    pub verified :
        verify services attestation (services.sha256_of bytes) policy.provenance ≡ ok provenance
    pub inspected : inspect_archive services.archives bytes policy.archive_limits ≡ ok o.archive
    pub gated : run_content_gates bytes policy.app_id policy.content_gates sbom ≡ ok o.skipped_gates
    pub custody : o.decision ≡ (if policy.critical then hold_for_ceremony else promote)

  after_gates-cases :
      (a : Admitted) (p : Provenance) (r : Result (Option ArchiveReport × List Str)) (o : Outcome)
      → after_gates services policy a p r ≡ ok o
      → (o.decision ≡ reject)
        ⊎ ((archive : Option ArchiveReport) × (skipped : List Str) × (r ≡ ok (archive, skipped))
            × (decide services policy a p archive skipped ≡ ok o))
  unfolding after_gates
  after_gates-cases a p (ok (archive, skipped)) o h = inr (archive, skipped, refl, h)
  after_gates-cases a p (err e) o h = ground arith

  after_provenance-cases :
      (file : Bytes) (sbom : Option Bytes) (a : Admitted) (r : Result Provenance) (o : Outcome)
      → after_provenance services file policy sbom a r ≡ ok o
      → (o.decision ≡ reject)
        ⊎ ((p : Provenance) × (r ≡ ok p)
            × (after_gates services policy a p (run_gates services file policy sbom) ≡ ok o))
  unfolding after_provenance
  after_provenance-cases file sbom a (ok p) o h = inr (p, refl, h)
  after_provenance-cases file sbom a (err e) o h = ground arith

  decide-custody :
      (a : Admitted) (p : Provenance) (archive : Option ArchiveReport) (skipped : List Str)
      (o : Outcome)
      → decide services policy a p archive skipped ≡ ok o
      → (o.decision ≡ (if policy.critical then hold_for_ceremony else promote))
        × (o.admitted ≡ some a)
        × (o.provenance ≡ some p)
        × (o.archive ≡ archive)
        × (o.skipped_gates ≡ skipped)
  unfolding decide
  decide-custody a p archive skipped o h =
      let (custody, k, h1) = >>=-eq-ok (keystore policy) _ h in
      let c = keystore-eq-ok policy custody k in ground (arith, c)

  run_gates-eq-ok :
      (file : Bytes) (sbom : Option Bytes) (archive : Option ArchiveReport) (skipped : List Str)
      → run_gates services file policy sbom ≡ ok (archive, skipped)
      → (inspect_archive services.archives file policy.archive_limits ≡ ok archive)
        × (run_content_gates file policy.app_id policy.content_gates sbom ≡ ok skipped)
  unfolding run_gates
  run_gates-eq-ok file sbom archive skipped h =
      let (x, a, h1) =
        >>=-eq-ok (inspect_archive services.archives file policy.archive_limits) _ h in
      let (y, b, h2) =
        >>=-eq-ok (run_content_gates file policy.app_id policy.content_gates sbom) _ h1 in
      (ground arith, ground arith)

  after_provenance-IsCleared :
      (sbom : Option Bytes) (envelope bytes : Bytes) (a : Admitted) (o : Outcome)
      → a.sha256 ≡ services.sha256_of bytes
      → after_provenance services bytes policy sbom a
          (verify services envelope a.sha256 policy.provenance)
        ≡ ok o
      → (o.decision ≡ reject) ⊎ IsCleared (some envelope) sbom bytes o
  after_provenance-IsCleared sbom envelope bytes a o d h =
      elim (after_provenance-cases bytes sbom a
        (verify services envelope a.sha256 policy.provenance) o h) [
          | inl refused ↦ inl refused
          | inr (p, v, h1) ↦
              elim (after_gates-cases a p (run_gates services bytes policy sbom) o h1) [
                | inl refused ↦ inl refused
                | inr (archive, skipped, g, h2) ↦
                    let (c, ad, pr, ar, sk) = decide-custody a p archive skipped o h2 in
                    let (ins, gat) = run_gates-eq-ok bytes sbom archive skipped g in
                    inr (record {
                      admitted = a;
                      is_admitted = ad;
                      digest = d;
                      provenance = p;
                      is_built = pr;
                      attestation = envelope;
                      is_given = refl;
                      verified = ap (λ x. verify services envelope x policy.provenance) (sym d) ∙ v;
                      inspected = ins ∙ ap ok (sym ar);
                      gated = gat ∙ ap ok (sym sk);
                      custody = c;
                    })
              ]
        ]

  assess-IsCleared :
      (envelope sbom : Option Bytes) (bytes : Bytes) (a : Admitted) (disk : Disk) (o : Outcome)
      → a.sha256 ≡ services.sha256_of bytes
      → read disk a.path ≡ some bytes
      → assess services policy envelope sbom a disk ≡ ok o
      → (o.decision ≡ reject) ⊎ IsCleared envelope sbom bytes o
  unfolding assess
  assess-IsCleared none sbom bytes a disk o d r h = ground arith
  assess-IsCleared (some []) sbom bytes a disk o d r h = ground arith
  assess-IsCleared (some (b ∷ envelope)) sbom bytes a disk o d r h =
      after_provenance-IsCleared sbom (b ∷ envelope) bytes a o d (rw r at h)

  after_admit-refused :
      (envelope sbom : Option Bytes) (m : Result Admitted × Disk) (x : Error) (o : Outcome)
      → m.0 ≡ err x
      → (after_admit services policy envelope sbom m).0 ≡ ok o
      → o.decision ≡ reject
  unfolding after_admit
  after_admit-refused envelope sbom (ok a, disk) x o e h = cc
  after_admit-refused envelope sbom (err y, disk) x o e h = ground arith

  -- A candidate that is ingested is rejected, or everything was checked of the bytes received: it is
  -- admitted under their digest, an attestation was given and verified for that digest, its archive
  -- and its content passed, with the gates that were skipped on record; and it is then held for the
  -- ceremony where the application is critical, and promoted where it is not.
  pub ingest_lem :
      (temp : Str) (source : Reads) (quarantine : Quarantine) (envelope sbom : Option Bytes)
      (disk : Disk) (o : Outcome)
      → (ingest services temp source policy quarantine envelope sbom disk).0 ≡ ok o
      → (o.decision ≡ reject) ⊎ IsCleared envelope sbom (received source) o
  unfolding ingest after_admit
  ingest_lem temp source quarantine envelope sbom disk o h =
      elim (admit_lem services.sha256_of quarantine temp source disk) [
        | inl (a, e, d, l, m, p, stored, k) ↦
            assess-IsCleared envelope sbom (received source) a
              (admit services.sha256_of quarantine temp source disk).1 o d stored (ground arith)
        | inr (x, e, k) ↦ inl (
            after_admit-refused envelope sbom (admit services.sha256_of quarantine temp source disk)
              x o e h)
      ]

  -- What leaves quarantine on the strength of an ingestion, however the disk was changed since, has the
  -- digest of the bytes that were received and checked, and the application is not critical; provided
  -- that nobody changes the quarantined file during the promotion itself, between its two readings of
  -- that file.
  pub promote_outcome-ingest :
      (between : Disk → Disk) (temp temp' destination out : Str) (source : Reads)
      (quarantine : Quarantine) (envelope sbom : Option Bytes) (disk changed : Disk) (o : Outcome)
      → (ingest services temp source policy quarantine envelope sbom disk).0 ≡ ok o
      → read (between changed) (path_of quarantine (services.sha256_of (received source)))
        ≡ read changed (path_of quarantine (services.sha256_of (received source)))
      → (promote_outcome services between temp' o quarantine destination changed).0 ≡ ok out
      → (policy.critical ≡ false)
        × IsCleared envelope sbom (received source) o
        × ((bytes : Bytes) × (read
                (promote_outcome services between temp' o quarantine destination changed).1
                destination
              ≡ some bytes)
            × (services.sha256_of bytes ≡ services.sha256_of (received source)))
  unfolding promote_outcome is_promoted
  promote_outcome-ingest between temp temp' destination out source quarantine envelope sbom disk
        changed o h steady g =
      elim (ingest_lem temp source quarantine envelope sbom disk o h) [
        | inl refused ↦ absurd (ground arith)
        | inr c ↦ elim (Bool-cases policy.critical) [
          | inl critical ↦
              let held : o.decision ≡ hold_for_ceremony = c.custody ∙ rw critical in
              absurd (ground arith)
          | inr usual ↦
              let decided : o.decision ≡ promote = c.custody ∙ rw usual in
              let run : promote_outcome services between temp' o quarantine destination changed
                  ≡ promote_file services.sha256_of between quarantine temp' c.admitted.sha256
                      destination changed =
                rw (promote_outcome, decided, c.is_admitted) in
              let (same, (hashed, copied, digest, was, again, now), k) =
                promote_file_lem services.sha256_of quarantine between temp' c.admitted.sha256
                  destination out changed (rw run at g) in
              let still : read (between changed) (path_of quarantine c.admitted.sha256)
                  ≡ read changed (path_of quarantine c.admitted.sha256) =
                subst
                  (λ d.
                    read (between changed) (path_of quarantine d)
                    ≡ read changed (path_of quarantine d))
                  (sym c.digest) steady in
              let one : copied ≡ hashed = some_injective (sym again ∙ still ∙ was) in
              (usual, c, (copied, rw run now, ap services.sha256_of one ∙ digest ∙ c.digest))
        ]
      ]
