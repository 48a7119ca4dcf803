-- ===== src/Registry/Jobs/Claim.antt =====
-- Claims, requeueing and the schedule (packages/dist-registry/src/dist_registry/store.py): they never
-- break the index on open jobs, and a claim takes the oldest job of its kinds.
use dev_tools_distribution_p.Base.{
  ℕ, ◌+◌, ◌<◌, ◌≤◌, ◌≡◌, refl, ◌⊎◌, inl, inr, Bool, true, false, none, some, List, [], ◌∷◌, arith,
  nat_eq, ==_iff, any, filter, In, length, ok, Option-cases,
}
use dev_tools_distribution_p.Registry.Models.{Job, JobKind, kind_eq, queued, running, state_eq}
use dev_tools_distribution_p.Registry.Schema.{Db, is_open, one_open, unique_ids, update_where}
use dev_tools_distribution_p.Registry.Schema.Updates.{
  one_open-update_where, same_id, update_where-In, update_where-hit,
}
use dev_tools_distribution_p.Registry.Jobs.{
  claimable, oldest, started, claim_job, has_job_id, is_stale, started_before, requeued,
  reset_stale_jobs,
}

oldest-eq-none :
    (p : Job → Bool) (js : List Job) → oldest p js ≡ none → (k : Job) → In k js → p k ≡ false
unfolding oldest
oldest-eq-none p [] h k m = elim m [ ]
oldest-eq-none p (x ∷ js) h k (inl e) = elim (Option-cases (oldest p js)) [
  | inl n ↦ ground arith
  | inr (j, n) ↦ ground arith
]
oldest-eq-none p (x ∷ js) h k (inr m) = oldest-eq-none p js (ground arith) k m

module _ (p : Job → Bool) where
  oldest-In : (js : List Job) (j : Job) → oldest p js ≡ some j → In j js × (p j ≡ true)
  unfolding oldest
  oldest-In [] j h = cc
  oldest-In (x ∷ js) j h = elim (Option-cases (oldest p js)) [
    | inl n ↦ ground arith
    | inr (y, e) ↦ ground (arith, oldest-In js y)
  ]

  oldest-le :
      (js : List Job) (j k : Job)
      → oldest p js ≡ some j
      → In k js
      → p k ≡ true
      → j.requested_at ≤ k.requested_at
  unfolding oldest
  oldest-le [] j k h m q = elim m [ ]
  oldest-le (x ∷ js) j k h (inl e) q = elim (Option-cases (oldest p js)) [
    | inl n ↦ ground arith
    | inr (y, n) ↦ ground arith
  ]
  oldest-le (x ∷ js) j k h (inr m) q = elim (Option-cases (oldest p js)) [
    | inl n ↦ let no : p k ≡ false = oldest-eq-none p js n k m in ground arith
    | inr (y, n) ↦ ground (arith, oldest-le js y k n m)
  ]

-- The update that `claim_job` makes keeps every row's source and whether it is open.
claim_keeps_open :
    (db : Db) (j : Job)
    → unique_ids db.jobs ≡ true
    → In j db.jobs
    → j.state ≡ queued
    → one_open (update_where (has_job_id j.id) (started db.now) db.jobs) ≡ one_open db.jobs
unfolding started is_open
claim_keeps_open db j u m q =
    one_open-update_where (has_job_id j.id) (started db.now) db.jobs
      λ k n h. (refl, rw (same_id db.jobs k j u n m ((==_iff k.id j.id).0 h), q))

-- A claim that finds a row, with what it makes of it.
pub claim_job-started :
    (kinds : List JobKind) (db : Db)
    → one_open db.jobs ≡ true
    → unique_ids db.jobs ≡ true
    → (((claim_job kinds db).0 ≡ ok none) × ((k : Job) → In k db.jobs → claimable kinds k ≡ false))
      ⊎ ((j : Job) × ((claim_job kinds db).0 ≡ ok (some (started db.now j)))
          × ((claim_job kinds db).1.jobs ≡ update_where (has_job_id j.id) (started db.now) db.jobs)
          × In j db.jobs
          × (claimable kinds j ≡ true)
          × ((k : Job) → In k db.jobs → claimable kinds k ≡ true → j.requested_at ≤ k.requested_at))
unfolding claim_job
claim_job-started kinds db o u = elim (Option-cases (oldest (claimable kinds) db.jobs)) [
  | inl e ↦ inl (ground arith, oldest-eq-none (claimable kinds) db.jobs e)
  | inr (j, e) ↦
      let (m, c) = oldest-In (claimable kinds) db.jobs j e in
      inr (
        j,
        ground (arith, claim_keeps_open db j u m),
        ground (arith, claim_keeps_open db j u m),
        m,
        c,
        λ k n q. oldest-le (claimable kinds) db.jobs j k e n q,
      )
]

-- On a table that meets its indices, a claim never raises. It takes a row that was queued and is of
-- one of the kinds, with no such row requested earlier, and marks it as running since now,
-- with one more attempt, in its answer and in the table's rows of its id; it takes none only if there is no such row.
pub claim_job_lem :
    (kinds : List JobKind) (db : Db)
    → one_open db.jobs ≡ true
    → unique_ids db.jobs ≡ true
    → (((claim_job kinds db).0 ≡ ok none) × ((k : Job) → In k db.jobs → claimable kinds k ≡ false))
      ⊎ ((j : Job) × ((claim_job kinds db).0
            ≡ ok (
                some (record j {
                  state = running;
                  started_at = some db.now;
                  attempts = j.attempts + 1;
                })))
          × ((claim_job kinds db).1.jobs
              ≡ update_where
                  (has_job_id j.id)
                  (λ k. record k {
                    state = running;
                    started_at = some db.now;
                    attempts = k.attempts + 1;
                  })
                  db.jobs)
          × In j db.jobs
          × (claimable kinds j ≡ true)
          × ((k : Job) → In k db.jobs → claimable kinds k ≡ true → j.requested_at ≤ k.requested_at))
unfolding started
claim_job_lem kinds db o u = claim_job-started kinds db o u

reset_keeps_open :
    (n : ℕ) (db : Db)
    → one_open (update_where (is_stale n db.now) requeued db.jobs) ≡ one_open db.jobs
unfolding is_stale requeued is_open
reset_keeps_open n db =
    one_open-update_where (is_stale n db.now) requeued db.jobs (λ j m h. (refl, ground arith))

not_stale-update_where :
    (n now : ℕ) (js : List Job)
    → any (is_stale n now) (update_where (is_stale n now) requeued js) ≡ false
unfolding any update_where is_stale requeued
not_stale-update_where n now [] = refl
not_stale-update_where n now (j ∷ js) = ground (arith, not_stale-update_where n now js)

is_stale-late :
    (n now : ℕ) (j : Job) (t : ℕ)
    → j.state ≡ running
    → j.started_at ≡ some t
    → t + n < now
    → is_stale n now j ≡ true
unfolding is_stale started_before
is_stale-late n now j t r st late = ground (arith, r, st)

-- Requeueing the jobs of a dead worker never raises on a table that meets its indices: every running
-- job that started more than the given time ago is queued again, with no start, so that no job is stale
-- afterwards; and what was not stale is as it was.
pub reset_stale_jobs_lem :
    (older_than : ℕ) (db : Db)
    → one_open db.jobs ≡ true
    → ((reset_stale_jobs older_than db).0
        ≡ ok (length (filter (is_stale older_than db.now) db.jobs)))
      × (any (is_stale older_than db.now) (reset_stale_jobs older_than db).1.jobs ≡ false)
      × ((j : Job)
          → In j db.jobs
          → is_stale older_than db.now j ≡ false
          → In j (reset_stale_jobs older_than db).1.jobs)
      × ((j : Job) (t : ℕ)
          → In j db.jobs
          → j.state ≡ running
          → j.started_at ≡ some t
          → t + older_than < db.now
          → In
              (record j { state = queued; started_at = none })
              (reset_stale_jobs older_than db).1.jobs)
unfolding reset_stale_jobs requeued
reset_stale_jobs_lem n db o =
    let rows = update_where (is_stale n db.now) requeued db.jobs in
    let same : (reset_stale_jobs n db).1.jobs ≡ rows = ground (arith, reset_keeps_open n db) in
    (
      ground (arith, reset_keeps_open n db),
      rw same (not_stale-update_where n db.now db.jobs),
      λ j m h. rw same (update_where-In (is_stale n db.now) requeued db.jobs j m h),
      λ j t m r st late. rw same (
          update_where-hit (is_stale n db.now) requeued db.jobs j m
            (is_stale-late n db.now j t r st late)),
    )
