-- ===== src/Ingest/Schedule.antt =====
-- packages/dist-ingest/src/dist_ingest/worker.py: the cheap check before a poll, the scheduling half
-- of `tick`, and the hand-off to the signer. What the forge hints is an argument: the answer of
-- `newest_tag_hint`, with the clients of packages/dist-ingest/src/dist_ingest/forge.py behind it.
pub mod Skips
pub mod Cadence
pub mod Handoff
use dev_tools_distribution_p.Base.{
  ℕ, zero, suc, ◌+◌, Bool, true, false, not, ◌&&◌, ◌||◌, Option, none, some, List, [], ◌∷◌,
  if◌then◌else◌, ◌==◌, list_eq, nat_eq, leb, Error, Result, ok, err, forge_error, http_error,
  source_config_error, key_error, from_option,
}
use dev_tools_distribution_p.Base.Exec.{Exec, pure, lift, continue, ◌>>=◌, ◌>>◌}
use dev_tools_distribution_p.Base.Text.{Str, text}
use dev_tools_distribution_p.Base.Json.{
  Json, null, bool, num, str, ℤ, pos, negsuc, Fields, end, field, get, get_or, lookup,
}
use dev_tools_distribution_p.Ingest.Provenance.{is_text}
use dev_tools_distribution_p.Registry.Models.{
  Source, Job, JobKind, poll, publish, JobState, done, kind_eq,
}
use dev_tools_distribution_p.Registry.Schema.{Db}
use dev_tools_distribution_p.Registry.Sources.{sources_due_for_poll}
use dev_tools_distribution_p.Registry.Jobs.{enqueue, finish_job, last_poll, reset_stale_jobs}

-- In minutes, the unit of the times here.
abbrev pub poll_interval : ℕ
poll_interval = 15

abbrev pub stale_after : ℕ
stale_after = 30

abbrev pub max_consecutive_skips : ℕ
max_consecutive_skips = 24

-- `isinstance(value, int)`, of which Python's Booleans are a kind
unfoldable pub as_int : Json → Option ℤ
as_int (num n) = some n
as_int (bool false) = some (pos 0)
as_int (bool true) = some (pos 1)
as_int _ = none

abbrev pub incremented : ℤ → ℤ
incremented (pos n) = pos (suc n)
incremented (negsuc zero) = pos 0
incremented (negsuc (suc n)) = negsuc n

-- `skips >= MAX_CONSECUTIVE_SKIPS`
unfoldable pub too_many : ℤ → Bool
too_many (pos n) = leb max_consecutive_skips n
too_many (negsuc n) = false

-- `job.result or {}`
abbrev pub result_of : Option Job → Fields
result_of none = end
result_of (some j) = elim j.result [ none ↦ end | some fields ↦ fields ]

-- The tag and the skips of the last poll, where they allow the cheap check.
unfoldable pub comparable_of : Json → Json → Option (Str × ℤ)
unfolding as_int too_many
comparable_of (str (c ∷ tag)) skips = elim (as_int skips) [
  | none ↦ none
  | some n ↦ if too_many n then none else some (c ∷ tag, n)
]
comparable_of _ skips = none

unfoldable pub comparable : Fields → Option (Str × ℤ)
unfolding comparable_of get get_or
comparable result =
    comparable_of (get result (text "tag")) (get_or result (text "consecutive_skips") (num (pos 0)))

unfoldable pub unchanged_record : Str → ℤ → Fields
unchanged_record known skips = field (text "outcome") (str (text "unchanged")) (
    field (text "tag") (str known) (
      field (text "via") (str (text "release feed"))
        (field (text "consecutive_skips") (num (incremented skips)) end)))

-- `except (ForgeError, httpx.HTTPError, SourceConfigError): return None`
unfoldable pub compare_hint : Str → ℤ → Result (Option Str) → Result (Option Fields)
unfolding unchanged_record
compare_hint known skips (ok none) = ok none
compare_hint known skips (ok (some hint)) =
    if hint == known then ok (some (unchanged_record known skips)) else ok none
compare_hint known skips (err forge_error) = ok none
compare_hint known skips (err http_error) = ok none
compare_hint known skips (err source_config_error) = ok none
compare_hint known skips (err e) = err e

-- `_unchanged_since_last_poll` on the result of the last poll
unfoldable pub unchanged_after : Fields → Result (Option Str) → Result (Option Fields)
unfolding comparable compare_hint
unchanged_after result hint = elim (comparable result) [
  | none ↦ ok none
  | some (known, skips) ↦ compare_hint known skips hint
]

-- `_unchanged_since_last_poll`
unfoldable pub unchanged_since_last_poll :
    Result (Option Str) → Source → Db → Result (Option Fields)
unfolding unchanged_after
unchanged_since_last_poll hint source db = unchanged_after (result_of (last_poll source.id db)) hint

-- `if job is not None: store.finish_job(…, result=unchanged)`
unfoldable pub file_skip : Fields → Option Job → Exec Db (Unit {0})
file_skip unchanged none = pure tt
file_skip unchanged (some job) = finish_job job.id done (some unchanged) none

-- The body of the loop of `tick`
unfoldable pub schedule_answer : ℕ → Source → Option Fields → Exec Db (Unit {0})
unfolding file_skip
schedule_answer id source none = do enqueue id source.id poll (text "schedule") end; pure tt
schedule_answer id source (some unchanged) = do
  job ← enqueue id source.id poll (text "schedule") end
  file_skip unchanged job

unfoldable pub schedule_source : ℕ → Result (Option Str) → Source → Exec Db (Unit {0})
unfolding unchanged_since_last_poll schedule_answer
schedule_source id hint source db =
    continue (unchanged_since_last_poll hint source db) (schedule_answer id source) db

-- The loop of `tick`, with the id that `uuid4` makes and the hint for each source
unfoldable pub schedule :
    (Source → ℕ) → (Source → Result (Option Str)) → List Source → Exec Db (Unit {0})
unfolding schedule_source
schedule new_id hints [] = pure tt
schedule new_id hints (source ∷ sources) = do
  schedule_source (new_id source) (hints source) source
  schedule new_id hints sources

-- `tick` up to the claim of a job
unfoldable pub prepare : (Source → ℕ) → (Source → Result (Option Str)) → Exec Db (Unit {0})
unfolding schedule
prepare new_id hints = do
  reset_stale_jobs stale_after
  λ db. schedule new_id hints (sources_due_for_poll poll_interval db) db

-- `result[key]`, or a `KeyError`
unfoldable pub item : Fields → Str → Result Json
item fields key = from_option (lookup fields key) key_error

-- `_hand_off_to_signer`
unfoldable pub hand_off_to_signer : ℕ → Source → Job → Fields → Exec Db (Unit {0})
unfolding item is_text get
hand_off_to_signer id source job result =
    if job.kind == poll && is_text (get result (text "decision")) (text "promote")
    then (do
      sha256 ← lift (item result (text "sha256"))
      version ← lift (item result (text "version"))
      filename ← lift (item result (text "filename"))
      tag ← lift (item result (text "tag"))
      enqueue id source.id publish (text "ingest") (
          field (text "sha256") sha256 (
            field (text "version") version
              (field (text "filename") filename (field (text "tag") tag end))))
      pure tt)
    else pure tt
