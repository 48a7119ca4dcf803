-- ===== src/Ingest/Schedule/Cadence.antt =====
-- One check of a source per interval (the loop of `tick` in
-- packages/dist-ingest/src/dist_ingest/worker.py).
use dev_tools_distribution_p.Base.{
  ℕ, ◌+◌, ◌<◌, ◌≡◌, refl, ◌⊎◌, inl, inr, true, false, Option, none, some, [], ◌∷◌, ◌++◌, arith,
  list_eq, nat_eq, ==_refl, any, Error, Result, ok, err, In, any-In, append-In,
}
use dev_tools_distribution_p.Base.Text.{Str, text}
use dev_tools_distribution_p.Base.Json.{Fields, end}
use dev_tools_distribution_p.Registry.Models.{Source, Job, poll, done, kind_eq, state_eq, status_eq}
use dev_tools_distribution_p.Registry.Schema.{Db, open_for, update_where}
use dev_tools_distribution_p.Registry.Schema.Updates.{update_where-hit}
use dev_tools_distribution_p.Registry.Sources.{is_due, recent_poll, finished_after}
use dev_tools_distribution_p.Registry.Jobs.{enqueue, queued_row, has_job_id, finish_job, finished}
use dev_tools_distribution_p.Ingest.Schedule.{
  file_skip, schedule_answer, schedule_source, unchanged_since_last_poll,
}

not_due :
    (n : ℕ) (db : Db) (s : Source)
    → (any (open_for s.id) db.jobs ≡ true) ⊎ (any (recent_poll s.id n db.now) db.jobs ≡ true)
    → is_due n db s ≡ false
unfolding is_due
not_due n db s h = ground arith

due_no_open :
    (n : ℕ) (db : Db) (s : Source) → is_due n db s ≡ true → any (open_for s.id) db.jobs ≡ false
unfolding is_due
due_no_open n db s h = ground arith

-- The row that the schedule queues for a source.
abbrev scheduled : Db → ℕ → Source → Job
scheduled db id s = queued_row db.now id s.id poll (text "schedule") end

module _ (n id : ℕ) (s : Source) (db : Db) (fresh : any (has_job_id id) db.jobs ≡ false)
    (free : any (open_for s.id) db.jobs ≡ false) where
  enqueue-scheduled :
      (o : Option Job)
      → (enqueue id s.id poll (text "schedule") end db).0 ≡ ok o
      → enqueue id s.id poll (text "schedule") end db
        ≡ (ok (some (scheduled db id s)), record db { jobs = db.jobs ++ (scheduled db id s ∷ []) })
  unfolding enqueue
  enqueue-scheduled o h = ground arith

  skip_is_recent :
      (later : ℕ) (skip : Fields) (db' : Db)
      → later < db'.now + n
      → db'.jobs ≡ db.jobs ++ (scheduled db id s ∷ [])
      → db'.now ≡ db.now
      → (finish_job id done (some skip) none db').0 ≡ ok tt
      → any (recent_poll s.id n later) (finish_job id done (some skip) none db').1.jobs ≡ true
  unfolding finish_job recent_poll finished_after finished queued_row
  skip_is_recent later skip db' soon jobs now h =
      let row = finished db'.now done (some skip) none (scheduled db id s) in
      let here : In row
          (update_where (has_job_id id) (finished db'.now done (some skip) none) db'.jobs) =
        update_where-hit (has_job_id id) (finished db'.now done (some skip) none) db'.jobs
          (scheduled db id s)
          (rw jobs
            (append-In db.jobs (scheduled db id s ∷ []) (scheduled db id s) (inr (inl refl))))
          (==_refl id) in
      let recent : recent_poll s.id n later row ≡ true = ground (arith, ==_refl s.id) in
      ground (
        arith,
        any-In (recent_poll s.id n later)
            (update_where (has_job_id id) (finished db'.now done (some skip) none) db'.jobs) row
            here recent,
      )

Result-cases : {A : Type 0} (r : Result A) → ((a : A) × (r ≡ ok a)) ⊎ ((e : Error) × (r ≡ err e))
Result-cases (ok a) = inl (a, refl)
Result-cases (err e) = inr (e, refl)

module _ (n id later : ℕ) (s : Source) (db : Db) (soon : later < db.now + n)
    (fresh : any (has_job_id id) db.jobs ≡ false) (free : any (open_for s.id) db.jobs ≡ false) where
  abbrev queued_db : Db
  queued_db = record db { jobs = db.jobs ++ (scheduled db id s ∷ []) }

  scheduled_is_open : any (open_for s.id) queued_db.jobs ≡ true
  unfolding open_for queued_row
  scheduled_is_open =
      any-In (open_for s.id) (db.jobs ++ (scheduled db id s ∷ [])) (scheduled db id s)
        (append-In db.jobs (scheduled db id s ∷ []) (scheduled db id s) (inr (inl refl)))
        (==_refl s.id)

  schedule_answer-not_due :
      (u : Option Fields)
      → (schedule_answer id s u db).0 ≡ ok tt
      → is_due n (record (schedule_answer id s u db).1 { now = later }) s ≡ false
  unfolding schedule_answer file_skip queued_row
  schedule_answer-not_due none h =
      elim (Result-cases (enqueue id s.id poll (text "schedule") end db).0) [
        | inr (e, refused) ↦ absurd (ground arith)
        | inl (o, queued) ↦
            let run = enqueue-scheduled n id s db fresh free o queued in
            let same : schedule_answer id s none db ≡ (ok tt, queued_db) =
              rw (schedule_answer, run) refl in
            rw same (not_due n (record queued_db { now = later }) s (inl scheduled_is_open))
      ]
  schedule_answer-not_due (some skip) h =
      elim (Result-cases (enqueue id s.id poll (text "schedule") end db).0) [
        | inr (e, refused) ↦ absurd (ground arith)
        | inl (o, queued) ↦
            let run = enqueue-scheduled n id s db fresh free o queued in
            let same : schedule_answer id s (some skip) db
                ≡ finish_job id done (some skip) none queued_db =
              rw (schedule_answer, run, file_skip) refl in
            rw same (
              not_due n (record (finish_job id done (some skip) none queued_db).1 { now = later }) s
                (inr (
                  skip_is_recent n id s db fresh free later skip queued_db soon refl refl
                    (rw same at h))))
      ]

-- A source that was due, and that the schedule has dealt with under a new job id and without an
-- exception, by a poll that it queued or by one that it filed as skipped, is not due at any time less
-- than an interval later, while its jobs stay as they are.
pub schedule_source_lem :
    (n id later : ℕ) (hint : Result (Option Str)) (s : Source) (db : Db)
    → later < db.now + n
    → is_due n db s ≡ true
    → any (has_job_id id) db.jobs ≡ false
    → (schedule_source id hint s db).0 ≡ ok tt
    → is_due n (record (schedule_source id hint s db).1 { now = later }) s ≡ false
unfolding schedule_source
schedule_source_lem n id later hint s db soon due fresh h =
    elim (Result-cases (unchanged_since_last_poll hint s db)) [
      | inr (e, raised) ↦ absurd (ground arith)
      | inl (u, answer) ↦
          let run : schedule_source id hint s db ≡ schedule_answer id s u db =
            rw (schedule_source, answer) refl in
          rw run (
            schedule_answer-not_due n id later s db soon fresh (due_no_open n db s due) u
              (rw run at h))
    ]
