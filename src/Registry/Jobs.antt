-- ===== src/Registry/Jobs.antt =====
-- packages/dist-registry/src/dist_registry/store.py, the functions on `jobs`. A statement is atomic,
-- so a claim meets no locked rows.
pub mod Claim
use dev_tools_distribution_p.Base.{
  ℕ, suc, ◌+◌, ◌<◌, ◌≡◌, refl, Bool, true, false, not, ◌&&◌, ◌||◌, Option, none, some, List, [],
  ◌∷◌, ◌++◌, map, length, if◌then◌else◌, ◌==◌, nat_eq, Eq, all, any, find, filter, contains, ltb,
  leb, Error, Result, ok, err, ◌>>=◌, ◌>>◌, require, from_option, foreign_key_violation,
}
use dev_tools_distribution_p.Base.Exec.{Exec, transact}
use dev_tools_distribution_p.Base.Text.{Str, text}
use dev_tools_distribution_p.Base.Json.{Fields}
use dev_tools_distribution_p.Registry.Models.{
  JobKind, poll, JobState, queued, running, done, Message, Job, kind_eq, state_eq,
}
use dev_tools_distribution_p.Registry.Schema.{
  Db, is_open, open_for, one_open, update_where, update_jobs,
}
use dev_tools_distribution_p.Registry.Sources.{has_id}

-- The row that `enqueue` inserts.
unfoldable pub queued_row : ℕ → ℕ → ℕ → JobKind → Str → Fields → Job
queued_row now id source_id kind requested_by payload = record {
  id = id;
  source_id = source_id;
  kind = kind;
  state = queued;
  requested_by = requested_by;
  requested_at = now;
  started_at = none;
  finished_at = none;
  attempts = 0;
  payload = payload;
  result = none;
  error = none;
}

abbrev pub has_job_id : ℕ → Job → Bool
has_job_id id j = j.id == id

-- `enqueue`, given the id that `uuid4` made. A conflict with either unique index inserts nothing.
unfoldable pub enqueue : ℕ → ℕ → JobKind → Str → Fields → Exec Db (Option Job)
unfolding open_for queued_row
enqueue id source_id kind requested_by payload = transact λ db.
    if any (has_job_id id) db.jobs || any (open_for source_id) db.jobs then ok (none, db) else (do
      require (any (has_id source_id) db.sources) foreign_key_violation
      let row = queued_row db.now id source_id kind requested_by payload
      ok (some row, record db { jobs = db.jobs ++ (row ∷ []) }))

-- `state = 'queued' AND kind = ANY(kinds)`
unfoldable pub claimable : List JobKind → Job → Bool
claimable kinds j = j.state == queued && contains j.kind kinds

-- `ORDER BY requested_at LIMIT 1`, over the rows that pass; of equal times, the first inserted.
older : Job → Option Job → Option Job
older j none = some j
older j (some k) = if leb j.requested_at k.requested_at then some j else some k

unfoldable pub oldest : (Job → Bool) → List Job → Option Job
unfolding older
oldest p [] = none
oldest p (j ∷ js) = let rest = oldest p js in if p j then older j rest else rest

unfoldable pub started : ℕ → Job → Job
started now j = record j { state = running; started_at = some now; attempts = j.attempts + 1 }

-- `claim_job`
unfoldable pub claim_job : List JobKind → Exec Db (Option Job)
unfolding claimable oldest started update_jobs
claim_job kinds = transact λ db. elim (oldest (claimable kinds) db.jobs) [
  | none ↦ ok (none, db)
  | some j ↦ do
    db' ← update_jobs (has_job_id j.id) (started db.now) db
    ok (some (started db.now j), db')
]

unfoldable pub finished : ℕ → JobState → Option Fields → Option Message → Job → Job
finished now state result error j = record j {
  state = state;
  finished_at = some now;
  result = result;
  error = error;
}

-- `finish_job`
unfoldable pub finish_job : ℕ → JobState → Option Fields → Option Message → Exec Db (Unit {0})
unfolding finished update_jobs
finish_job id state result error =
    transact λ db. do
      db' ← update_jobs (has_job_id id) (finished db.now state result error) db
      ok (tt, db')

-- `ORDER BY finished_at DESC NULLS LAST LIMIT 1`, over the rows that pass
later : Job → Option Job → Option Job
later j none = some j
later j (some k) = elim k.finished_at [
  | none ↦ some j
  | some t ↦ elim j.finished_at [ none ↦ some k | some u ↦ if leb t u then some j else some k ]
]

latest : (Job → Bool) → List Job → Option Job
unfolding later
latest p [] = none
latest p (j ∷ js) = let rest = latest p js in if p j then later j rest else rest

-- `last_poll`
unfoldable pub last_poll : ℕ → Db → Option Job
unfolding latest
last_poll source_id db =
    latest (λ j. j.source_id == source_id && j.kind == poll && j.state == done) db.jobs

-- `started_at < now() - older_than`, which fails for a NULL
unfoldable pub started_before : Option ℕ → ℕ → ℕ → Bool
started_before none older_than now = false
started_before (some t) older_than now = ltb (t + older_than) now

unfoldable pub is_stale : ℕ → ℕ → Job → Bool
unfolding started_before
is_stale older_than now j = j.state == running && started_before j.started_at older_than now

unfoldable pub requeued : Job → Job
requeued j = record j { state = queued; started_at = none }

-- `reset_stale_jobs`, with the count of rows
unfoldable pub reset_stale_jobs : ℕ → Exec Db ℕ
unfolding is_stale requeued update_jobs
reset_stale_jobs older_than = transact λ db. do
  db' ← update_jobs (is_stale older_than db.now) requeued db
  ok (length (filter (is_stale older_than db.now) db.jobs), db')
