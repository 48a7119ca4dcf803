-- ===== src/Sign/Worker/Jobs.antt =====
-- packages/dist-sign/src/dist_sign/worker.py over packages/dist-registry/src/dist_registry/store.py: what
-- becomes of the job.
use dev_tools_distribution_p.Base.{
  ℕ, Bool, true, false, Option, none, some, List, [], ◌∷◌, any, In, Result, ok, err, ◌≡◌, refl, ap,
  ◌∙◌, ◌⊎◌, inl, inr, arith, ◌==◌, nat_eq, if◌then◌else◌, Bool-cases,
}
use dev_tools_distribution_p.Base.Json.{Json, Fields, Codec}
use dev_tools_distribution_p.Base.Text.{Str, Bytes, text}
use dev_tools_distribution_p.Core.Repository.{Tuf, SignerBackend}
use dev_tools_distribution_p.Registry.Models.{
  Source, Job, JobState, done, failed, Message, raised, source_deleted, state_eq,
}
use dev_tools_distribution_p.Registry.Schema.{Db, is_open, open_for, one_open, update_where}
use dev_tools_distribution_p.Registry.Schema.Updates.{In-update_where, update_where-In}
use dev_tools_distribution_p.Registry.Jobs.{finish_job, finished, has_job_id}
use dev_tools_distribution_p.Registry.Accounts.{audit}
use dev_tools_distribution_p.Sign.Worker.{
  Mount, Desk, fail_job, record_release, handle, settle_job, run_source, do_publish,
}

-- Closing rows keeps the index on open jobs.
module _ (p : Job → Bool) (f : Job → Job) (closes : (j : Job) → is_open (f j) ≡ false) where
  no_open-close :
      (s : ℕ) (js : List Job)
      → any (open_for s) js ≡ false
      → any (open_for s) (update_where p f js) ≡ false
  unfolding any update_where open_for
  no_open-close s [] h = refl
  no_open-close s (j ∷ js) h = ground (arith, closes j, no_open-close s js)

  one_open-close : (js : List Job) → one_open js ≡ true → one_open (update_where p f js) ≡ true
  unfolding one_open update_where
  one_open-close [] h = refl
  one_open-close (j ∷ js) h =
      ground (arith, closes j, no_open-close j.source_id js, one_open-close js)

-- A job that is neither queued nor running
abbrev pub Closed : Job → Type 0
Closed j = (j.state ≡ done) ⊎ (j.state ≡ failed)

-- Every row of a job is closed, and the others are as they were.
abbrev pub Closes : ℕ → Db → Db → Type 0
Closes id db db' =
    ((j : Job) → In j db'.jobs → j.id ≡ id → Closed j)
    × ((j : Job) → In j db.jobs → (j.id == id) ≡ false → In j db'.jobs)

finished-Closed :
    (id : ℕ) (state : JobState) (result : Option Fields) (error : Option Message) (db : Db)
    (j : Job)
    → (state ≡ done) ⊎ (state ≡ failed)
    → In j (update_where (has_job_id id) (finished db.now state result error) db.jobs)
    → j.id ≡ id
    → Closed j
unfolding finished
finished-Closed id state result error db j closed here e =
    let (x, m, y) =
      In-update_where (has_job_id id) (finished db.now state result error) db.jobs j here in
    elim (Bool-cases (x.id == id)) [
      | inl is ↦
          let row : j ≡ finished db.now state result error x =
            y ∙ ap (λ b. if b then finished db.now state result error x else x) is in
          elim closed [
            | inl s ↦ inl (ap (λ (k : Job). k.state) row ∙ s)
            | inr s ↦ inr (ap (λ (k : Job). k.state) row ∙ s)
          ]
      | inr differs ↦
          let row : j ≡ x =
            y ∙ ap (λ b. if b then finished db.now state result error x else x) differs in
          absurd (ground (arith, ap (λ (k : Job). k.id) row))
    ]

finish-Closes :
    (id : ℕ) (state : JobState) (result : Option Fields) (error : Option Message) (db : Db)
    → (state ≡ done) ⊎ (state ≡ failed)
    → one_open db.jobs ≡ true
    → ((finish_job id state result error db).0 ≡ ok tt)
      × Closes id db (finish_job id state result error db).1
unfolding finish_job finished is_open
finish-Closes id state result error db closed o =
    let rows = update_where (has_job_id id) (finished db.now state result error) db.jobs in
    let fits : one_open rows ≡ true =
      one_open-close (has_job_id id) (finished db.now state result error)
        (λ j. elim closed [ inl e ↦ ground (arith, e) | inr e ↦ ground (arith, e) ]) db.jobs o in
    let same : (finish_job id state result error db).1.jobs ≡ rows = ground (arith, fits) in
    (
      ground (arith, fits),
      (
        λ j here e. finished-Closed id state result error db j closed (rw same at here) e,
        λ j here ne. rw same (
            update_where-In (has_job_id id) (finished db.now state result error) db.jobs j here ne),
      ),
    )

-- A step on the registry that returns and closes the job
abbrev pub Ends : ℕ → Db → Result (Unit {0}) × Db → Type 0
Ends id db m = (m.0 ≡ ok tt) × Closes id db m.1

module _ (sha256_of : Bytes → Str) (repr : Json → Str) (tuf : Tuf) (backend : SignerBackend)
    (codec : Codec) where
  record_release-Ends :
      (job : Job) (source : Source) (result : Fields) (db : Db)
      → one_open db.jobs ≡ true
      → Ends job.id db (record_release sha256_of repr tuf backend codec job source result db)
  unfolding record_release audit
  record_release-Ends job source result db o =
      finish-Closes job.id done (some result) none
        (audit (text "signer") (text "release.published") (some source.id) result db).1 (inl refl) o

  handle-Ends :
      (job : Job) (db : Db) (m : Result (Unit {0}) × Db)
      → Ends job.id db m
      → Ends job.id db (handle sha256_of repr tuf backend codec job m)
  unfolding handle
  handle-Ends job db (ok u, db') ends = ends
  handle-Ends job db (err e, db') (returned, closes) = cc

  settle_job-Ends :
      (job : Job) (source : Source) (result : Result Fields) (db : Db)
      → one_open db.jobs ≡ true
      → Ends job.id db (settle_job sha256_of repr tuf backend codec job source result db)
  unfolding settle_job fail_job
  settle_job-Ends job source (err e) db o =
      finish-Closes job.id failed none (some (raised e)) db (inr refl) o
  settle_job-Ends job source (ok result) db o =
      handle-Ends job db _ (record_release-Ends job source result db o)

  pub run_source-Ends :
      (job : Job) (root : Str) (mount : Mount) (source : Option Source) (desk : Desk)
      → one_open desk.db.jobs ≡ true
      → ((run_source sha256_of repr tuf backend codec job root mount source desk).0 ≡ ok tt)
        × Closes job.id desk.db
            (run_source sha256_of repr tuf backend codec job root mount source desk).1.db
  unfolding run_source
  run_source-Ends job root mount none desk o =
      finish-Closes job.id failed none (some source_deleted) desk.db (inr refl) o
  run_source-Ends job root mount (some source) desk o =
      settle_job-Ends job source
        (do_publish sha256_of repr tuf backend codec source job.payload root mount desk.repo).0
        desk.db o
