-- ===== src/Ingest/Schedule/Handoff.antt =====
-- What the ingest worker hands to the signer (`_hand_off_to_signer` of
-- packages/dist-ingest/src/dist_ingest/worker.py).
use dev_tools_distribution_p.Base.{
  ℕ, ◌≡◌, refl, ap, ◌∙◌, ◌⊎◌, inl, inr, ◌&&◌, none, some, [], ◌∷◌, ◌++◌, arith, ◌==◌, list_eq,
  nat_eq, Option-cases, Bool-cases, Result, ok, err,
}
use dev_tools_distribution_p.Base.Text.{Str, text}
use dev_tools_distribution_p.Base.Json.{Json, str, Fields, end, field, get, lookup}
use dev_tools_distribution_p.Registry.Models.{Source, Job, JobKind, poll, publish, queued, kind_eq}
use dev_tools_distribution_p.Registry.Schema.{Db}
use dev_tools_distribution_p.Registry.Jobs.{enqueue, queued_row}
use dev_tools_distribution_p.Base.Exec.{continue, pure}
use dev_tools_distribution_p.Ingest.Provenance.{is_text}
use dev_tools_distribution_p.Ingest.Provenance.Statements.{is_text-eq_true}
use dev_tools_distribution_p.Ingest.Schedule.{item, hand_off_to_signer}

abbrev pub payload_of : Json → Json → Json → Json → Fields
payload_of sha256 version filename tag =
    field (text "sha256") sha256 (
      field (text "version") version
        (field (text "filename") filename (field (text "tag") tag end)))

-- A job to publish, as it waits for the signer
abbrev pub waiting : ℕ → ℕ → ℕ → Fields → Job
waiting now id source_id payload = record {
  id = id;
  source_id = source_id;
  kind = publish;
  state = queued;
  requested_by = text "ingest";
  requested_at = now;
  started_at = none;
  finished_at = none;
  attempts = 0;
  payload = payload;
  result = none;
  error = none;
}

enqueue-jobs :
    (id source_id : ℕ) (kind : JobKind) (by : Str) (payload : Fields) (db : Db)
    → ((enqueue id source_id kind by payload db).1.jobs ≡ db.jobs)
      ⊎ ((enqueue id source_id kind by payload db).1.jobs
          ≡ db.jobs ++ (queued_row db.now id source_id kind by payload ∷ []))
unfolding enqueue
enqueue-jobs id source_id kind by payload db = ground arith

settled : {A : Type 0} (r : Result A) (db : Db) → (continue r (λ _. pure tt) db).1 ≡ db
settled (ok a) db = refl
settled (err e) db = refl

-- The jobs are left as they are, or one job is added, to publish: then the job at hand is a poll
-- whose result was decided `promote`, and the new job waits with that result's digest, version,
-- file name and tag as its payload.
pub hand_off_to_signer_lem :
    (id : ℕ) (source : Source) (job : Job) (result : Fields) (db : Db)
    → ((hand_off_to_signer id source job result db).1.jobs ≡ db.jobs)
      ⊎ ((job.kind ≡ poll)
          × (get result (text "decision") ≡ str (text "promote"))
          × (sha256 version filename tag : Json) × (lookup result (text "sha256") ≡ some sha256)
          × (lookup result (text "version") ≡ some version)
          × (lookup result (text "filename") ≡ some filename)
          × (lookup result (text "tag") ≡ some tag)
          × ((hand_off_to_signer id source job result db).1.jobs
              ≡ db.jobs
                ++ (waiting db.now id source.id (payload_of sha256 version filename tag) ∷ [])))
unfolding hand_off_to_signer item queued_row
hand_off_to_signer_lem id source job result db =
    elim (Bool-cases
      (job.kind == poll && is_text (get result (text "decision")) (text "promote"))) [
        | inr other ↦ inl (rw (hand_off_to_signer, other) refl)
        | inl this ↦ elim (Option-cases (lookup result (text "sha256"))) [
          | inl a ↦ inl (rw (hand_off_to_signer, this, a) refl)
          | inr (sha256, a) ↦ elim (Option-cases (lookup result (text "version"))) [
            | inl b ↦ inl (rw (hand_off_to_signer, this, a, b) refl)
            | inr (version, b) ↦ elim (Option-cases (lookup result (text "filename"))) [
              | inl c ↦ inl (rw (hand_off_to_signer, this, a, b, c) refl)
              | inr (filename, c) ↦ elim (Option-cases (lookup result (text "tag"))) [
                | inl d ↦ inl (rw (hand_off_to_signer, this, a, b, c, d) refl)
                | inr (tag, d) ↦
                    let payload = payload_of sha256 version filename tag in
                    let done = enqueue id source.id publish (text "ingest") payload db in
                    let same : (hand_off_to_signer id source job result db).1 ≡ done.1 =
                      rw (hand_off_to_signer, this, a, b, c, d) (settled done.0 done.1) in
                    elim (enqueue-jobs id source.id publish (text "ingest") payload db) [
                      | inl e ↦ inl (ap (λ (x : Db). x.jobs) same ∙ e)
                      | inr e ↦ inr (
                        ground arith,
                        is_text-eq_true (get result (text "decision")) (text "promote")
                            (ground arith),
                        sha256,
                        version,
                        filename,
                        tag,
                        a,
                        b,
                        c,
                        d,
                        ap (λ (x : Db). x.jobs) same ∙ e,
                      )
                    ]
              ]
            ]
          ]
        ]
      ]
