-- ===== src/Sign/Worker/Admission.antt =====
-- packages/dist-sign/src/dist_sign/worker.py, `quarantine_path`, and the place where
-- packages/dist-ingest/src/dist_ingest/quarantine.py keeps an artifact.
use dev_tools_distribution_p.Base.{
  true, some, Error, Result, ok, err, ◌≡◌, refl, sym, ap, ◌∙◌, inl, inr, nat_eq, list_eq, ==_refl,
  all,
}
use dev_tools_distribution_p.Base.Json.{Json, str, Fields, get, truthy}
use dev_tools_distribution_p.Base.Text.{Str, Bytes, text}
use dev_tools_distribution_p.Ingest.Quarantine.{
  Disk, read, Quarantine, Admitted, Reads, admit, path_of,
}
use dev_tools_distribution_p.Ingest.Quarantine.Content.{admit_lem, received}
use dev_tools_distribution_p.Sign.Worker.{quarantine_path, artifact_of}

-- The two services name the place of an artifact alike.
quarantine_path-path_of :
    (q : Quarantine) (sha256 : Str) → quarantine_path q.root sha256 ≡ path_of q sha256
unfolding quarantine_path path_of
quarantine_path-path_of q sha256 = refl

ok_admitted : {a b : Admitted} → ◌≡◌ {A = Result Admitted} (ok a) (ok b) → a ≡ b
ok_admitted e = cc

not_both : {a : Admitted} {e : Error} → ◌≡◌ {A = Result Admitted} (ok a) (err e) → ⊥
not_both h = cc

module _ (sha256_of : Bytes → Str) (repr : Json → Str) (q : Quarantine) where
  artifact_of-read :
      (payload : Fields) (disk : Disk) (bytes : Bytes)
      → get payload (text "sha256") ≡ str (sha256_of bytes)
      → truthy (str (sha256_of bytes)) ≡ true
      → truthy (get payload (text "version")) ≡ true
      → truthy (get payload (text "filename")) ≡ true
      → read disk (quarantine_path q.root (sha256_of bytes)) ≡ some bytes
      → artifact_of sha256_of repr payload q.root disk ≡ ok (sha256_of bytes, bytes)
  unfolding artifact_of all
  artifact_of-read payload disk bytes named long version filename there =
      rw (named, long, version, filename, there, ==_refl (sha256_of bytes)) refl

  -- What ingestion admitted, the signing worker finds where it looks, and accepts: for a job that
  -- carries the digest of the admission, a version and a filename, the checks of the artifact pass
  -- and give the bytes that were received.
  pub artifact_of-admit :
      (temp : Str) (reads : Reads) (disk : Disk) (a : Admitted) (payload : Fields)
      → (admit sha256_of q temp reads disk).0 ≡ ok a
      → get payload (text "sha256") ≡ str a.sha256
      → truthy (str a.sha256) ≡ true
      → truthy (get payload (text "version")) ≡ true
      → truthy (get payload (text "filename")) ≡ true
      → artifact_of sha256_of repr payload q.root (admit sha256_of q temp reads disk).1
        ≡ ok (a.sha256, received reads)
  artifact_of-admit temp reads disk a payload admitted named long version filename =
      elim (admit_lem sha256_of q temp reads disk) [
        | inl (b, is, digest, len, le, place, there, kept) ↦
            let same : a ≡ b = ok_admitted (sym admitted ∙ is) in
            let hash : a.sha256 ≡ sha256_of (received reads) =
              ap (λ (x : Admitted). x.sha256) same ∙ digest in
            let at : b.path ≡ quarantine_path q.root (sha256_of (received reads)) =
              place
              ∙ ap (path_of q) digest
              ∙ sym (quarantine_path-path_of q (sha256_of (received reads))) in
            artifact_of-read payload (admit sha256_of q temp reads disk).1 (received reads)
              (named ∙ ap str hash) (ap (λ s. truthy (str s)) (sym hash) ∙ long) version filename
              (ap (read (admit sha256_of q temp reads disk).1) (sym at) ∙ there)
            ∙ ap (λ s. ok (s, received reads)) (sym hash)
        | inr (e, is, kept) ↦ absurd (not_both (sym admitted ∙ is))
      ]
