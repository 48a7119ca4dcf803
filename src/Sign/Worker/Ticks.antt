-- ===== src/Sign/Worker/Ticks.antt =====
-- packages/dist-sign/src/dist_sign/worker.py: what a tick does to the queue.
use dev_tools_distribution_p.Base.{
  ◌≤◌, Bool, true, false, Option, some, In, Result, ok, ◌≡◌, ap, ◌∙◌, ◌⊎◌, inl, inr,
}
use mathlib.Core.Path.{subst}
use dev_tools_distribution_p.Base.Exec.{continue, ◌⨟◌}
use dev_tools_distribution_p.Base.Json.{Json, Codec}
use dev_tools_distribution_p.Base.Text.{Str, Bytes}
use dev_tools_distribution_p.Core.Repository.{Tuf, SignerBackend}
use dev_tools_distribution_p.Registry.Models.{Job}
use dev_tools_distribution_p.Registry.Schema.{Db, one_open}
use dev_tools_distribution_p.Registry.Sources.{get_source}
use dev_tools_distribution_p.Registry.Jobs.{claim_job, claimable, started, reset_stale_jobs}
use dev_tools_distribution_p.Registry.Jobs.Claim.{claim_job-started, reset_stale_jobs_lem}
use dev_tools_distribution_p.Registry.Statements.{reset, claim, execute}
use dev_tools_distribution_p.Registry.Statements.Consistent.{IsConsistent, execute-IsConsistent}
use dev_tools_distribution_p.Sign.Worker.{
  Mount, Desk, claims, stale_after, run_source, run_job, worked, run_claimed, tick,
}
use dev_tools_distribution_p.Sign.Worker.Jobs.{Closed, run_source-Ends}

module _ (sha256_of : Bytes → Str) (repr : Json → Str) (tuf : Tuf) (backend : SignerBackend)
    (codec : Codec) (root : Str) (mount : Mount) where
  run_claimed-Closed :
      (job : Job) (desk : Desk)
      → one_open desk.db.jobs ≡ true
      → ((run_claimed sha256_of repr tuf backend codec root mount (some job) desk).0 ≡ ok true)
        × ((j : Job)
            → In j
                (run_claimed sha256_of repr tuf backend codec root mount (some job) desk).1.db.jobs
            → j.id ≡ job.id
            → Closed j)
  unfolding run_claimed run_job
  run_claimed-Closed job desk o =
      let done =
        run_source sha256_of repr tuf backend codec job root mount
          (get_source job.source_id desk.db) desk in
      let (returned, closes) =
        run_source-Ends sha256_of repr tuf backend codec job root mount
          (get_source job.source_id desk.db) desk o in
      let end : continue done.0 worked done.1 ≡ (ok true, done.1) =
        ap (λ r. continue r worked done.1) returned in
      (ap (λ (m : Result Bool × Desk). m.0) end, λ j here e. closes.0 j (rw end at here) e)

  -- A tick never raises on tables that meet their constraints. It returns False only if, once the jobs
  -- of a dead worker are queued again, no `publish` job is queued. Otherwise it returns True, and the job
  -- it took, the oldest of those, has ended: no row of its id is left queued or running, whatever the
  -- publication did.
  pub tick_lem :
      (desk : Desk)
      → IsConsistent desk.db
      → (((tick sha256_of repr tuf backend codec root mount desk).0 ≡ ok false)
          × ((j : Job)
              → In j (reset_stale_jobs stale_after desk.db).1.jobs
              → claimable claims j ≡ false))
        ⊎ ((job : Job) × ((tick sha256_of repr tuf backend codec root mount desk).0 ≡ ok true)
            × In job (reset_stale_jobs stale_after desk.db).1.jobs
            × (claimable claims job ≡ true)
            × ((j : Job)
                → In j (reset_stale_jobs stale_after desk.db).1.jobs
                → claimable claims j ≡ true
                → job.requested_at ≤ j.requested_at)
            × ((j : Job)
                → In j (tick sha256_of repr tuf backend codec root mount desk).1.db.jobs
                → j.id ≡ job.id
                → Closed j))
  unfolding tick execute
  tick_lem desk c =
      let db1 = (reset_stale_jobs stale_after desk.db).1 in
      let c1 : IsConsistent db1 = execute-IsConsistent (reset stale_after) desk.db c in
      let c2 : IsConsistent (claim_job claims db1).1 = execute-IsConsistent (claim claims) db1 c1 in
      let desk' : Desk = record desk { db = (claim_job claims db1).1 } in
      let run = run_claimed sha256_of repr tuf backend codec root mount in
      let claimed : (reset_stale_jobs stale_after ⨟ claim_job claims) desk.db
          ≡ claim_job claims db1 =
        ap (λ r. continue r (λ n. claim_job claims) db1)
          (reset_stale_jobs_lem stale_after desk.db c.open_jobs).0 in
      let ran : tick sha256_of repr tuf backend codec root mount desk
          ≡ continue (claim_job claims db1).0 run desk' =
        ap (λ (m : Result (Option Job) × Db). continue m.0 run (record desk { db = m.1 }))
          claimed in
      elim (claim_job-started claims db1 c1.open_jobs c1.job_ids) [
        | inl (nothing, lacks) ↦
            let end = ran ∙ ap (λ r. continue r run desk') nothing in
            inl (ap (λ (m : Result Bool × Desk). m.0) end, lacks)
        | inr (job, took, rows, here, fits, oldest) ↦
            let end = ran ∙ ap (λ r. continue r run desk') took in
            let (returned, closed) = run_claimed-Closed (started db1.now job) desk' c2.open_jobs in
            inr (
              job,
              ap (λ (m : Result Bool × Desk). m.0) end ∙ returned,
              here,
              fits,
              oldest,
              λ j there e.
                  closed j (subst (λ (m : Result Bool × Desk). In j m.1.db.jobs) end there) e,
            )
      ]
