-- ===== src/Sign/Worker.antt =====
-- packages/dist-sign/src/dist_sign/worker.py: one job of the signing worker. Quarantine is mounted
-- read-only: it is the disk as the ingest worker left it. `repr` stands for `str()` of what is no text.

pub mod Publishing
pub mod Jobs
pub mod Ticks
pub mod Admission
mod Examples
pub mod Acts
use dev_tools_distribution_p.Base.{
  ℕ, Bool, true, false, Option, none, some, List, [], ◌∷◌, ◌++◌, if◌then◌else◌, ◌==◌, nat_eq,
  list_eq, all, contains, Error, Result, ok, err, ◌>>=◌, ◌>>◌, require, from_option,
  publication_error, os_error,
}
use dev_tools_distribution_p.Base.Exec.{Exec, continue, ◌⨟◌}
use dev_tools_distribution_p.Base.Json.{Json, str, Fields, end, field, get, truthy, Codec}
use dev_tools_distribution_p.Base.Text.{Str, Bytes, text}
use dev_tools_distribution_p.Core.Naming.{
  TargetKey, new_target_key, path, ReleaseInfo, new_release_info, plain_info,
}
use dev_tools_distribution_p.Core.Roles.{app_role_name}
use dev_tools_distribution_p.Core.Repository.{Payload, Tuf, SignerBackend, Repository}
use dev_tools_distribution_p.Core.Repository.Operations.{add_release, set_current}
use dev_tools_distribution_p.Ingest.Quarantine.{Disk, read}
use dev_tools_distribution_p.Registry.Models.{
  Source, Job, JobKind, publish, JobState, done, failed, Message, source_deleted, raised,
}
use dev_tools_distribution_p.Registry.Schema.{Db}
use dev_tools_distribution_p.Registry.Sources.{get_source}
use dev_tools_distribution_p.Registry.Jobs.{claim_job, finish_job, reset_stale_jobs}
use dev_tools_distribution_p.Registry.Accounts.{audit}

-- `STALE_AFTER`, in minutes
abbrev pub stale_after : ℕ
stale_after = 30

-- `CLAIMS`
abbrev pub claims : List JobKind
claims = publish ∷ []

-- `quarantine_path`
unfoldable pub quarantine_path : Str → Str → Str
quarantine_path root sha256 = root ++ text "/" ++ sha256 ++ text ".bin"

abbrev pub required : List Str
required = text "sha256" ∷ text "version" ∷ text "filename" ∷ []

-- Quarantine at each of the three times that a job opens its artifact: to hash it, to measure it as a
-- target, and to copy it. Others may write there in between.
pub record Mount : Type 0 where
  pub hashed : Disk
  pub measured : Disk
  pub copied : Disk

-- What the repository finds at a path
unfoldable pub opened : Mount → Str → Payload
unfolding read
opened mount place = record {
  measured = from_option (read mount.measured place) os_error;
  copied = from_option (read mount.copied place) os_error;
}

-- What the worker holds: the registry and the repository
pub record Desk : Type 0 where
  pub db : Db
  pub repo : Repository

-- `return True`
abbrev pub worked : Unit {0} → Exec Desk Bool
worked u desk = (ok true, desk)

module _ (sha256_of : Bytes → Str) (repr : Json → Str) where
  -- `str(value)`
  unfoldable pub to_str : Json → Str
  to_str (str s) = s
  to_str value = repr value

  -- The digest of a job's artifact, checked, with the bytes that were hashed
  unfoldable pub artifact_of : Fields → Str → Disk → Result (Str × Bytes)
  unfolding get truthy to_str quarantine_path read
  artifact_of payload root disk = do
    require (all (λ name. truthy (get payload name)) required) publication_error
    let sha256 = to_str (get payload (text "sha256"))
    bytes ← from_option (read disk (quarantine_path root sha256)) publication_error
    require (sha256_of bytes == sha256) publication_error
    ok (sha256, bytes)

  -- The key and the information of the release, once its application is delegated
  unfoldable pub release_key : Source → Fields → Repository → Result (TargetKey × ReleaseInfo)
  unfolding get to_str
  release_key source payload repo = do
    role ← app_role_name source.app_id
    require (contains role repo.app_roles) publication_error
    key ← new_target_key (record {
      app_id = source.app_id;
      channel = source.channel;
      platform = source.platform;
      arch = source.arch;
      version = to_str (get payload (text "version"));
      filename = to_str (get payload (text "filename"));
    })
    info ← new_release_info (plain_info key.version)
    ok (key, info)

  -- What `do_publish` returns
  unfoldable pub report : TargetKey → Str → Str → Fields
  report key pointer sha256 = field (text "target") (str (path key)) (
      field (text "pointer") (str pointer)
        (field (text "version") (str key.version) (field (text "sha256") (str sha256) end)))

  module _ (tuf : Tuf) (backend : SignerBackend) (codec : Codec) where
    unfoldable pub answer : TargetKey → Str → Result Str × Repository → Result Fields × Repository
    unfolding report
    answer key sha256 (ok pointer, repo) = (ok (report key pointer sha256), repo)
    answer key sha256 (err e, repo) = (err e, repo)

    -- `add_release`, then `set_current`
    unfoldable pub release : TargetKey → ReleaseInfo → Payload → Exec Repository Str
    unfolding add_release set_current
    release key info payload =
        add_release tuf backend sha256_of codec key payload info
        ⨟ set_current tuf backend sha256_of codec key

    unfoldable pub publish_key : Str → Payload → TargetKey × ReleaseInfo → Exec Repository Fields
    unfolding answer release
    publish_key sha256 payload (key, info) repo = answer key sha256 (release key info payload repo)

    unfoldable pub publish_artifact :
        Source → Fields → Str → Mount → Str × Bytes → Exec Repository Fields
    unfolding release_key publish_key opened quarantine_path
    publish_artifact source payload root mount (sha256, _) repo =
        continue (release_key source payload repo)
          (publish_key sha256 (opened mount (quarantine_path root sha256))) repo

    -- `do_publish`
    unfoldable pub do_publish : Source → Fields → Str → Mount → Exec Repository Fields
    unfolding artifact_of publish_artifact
    do_publish source payload root mount =
        continue (artifact_of payload root mount.hashed)
          (publish_artifact source payload root mount)

    -- The handler of `except Exception`
    unfoldable pub fail_job : ℕ → Error → Exec Db (Unit {0})
    unfolding finish_job
    fail_job id e = finish_job id failed none (some (raised e))

    -- From the audit on, in the `try`
    unfoldable pub record_release : Job → Source → Fields → Exec Db (Unit {0})
    unfolding audit finish_job
    record_release job source result =
        audit (text "signer") (text "release.published") (some source.id) result
        ⨟ finish_job job.id done (some result) none

    unfoldable pub handle : Job → Result (Unit {0}) × Db → Result (Unit {0}) × Db
    unfolding fail_job
    handle job (ok u, db) = (ok u, db)
    handle job (err e, db) = fail_job job.id e db

    unfoldable pub settle_job : Job → Source → Result Fields → Exec Db (Unit {0})
    unfolding fail_job record_release handle
    settle_job job source (err e) db = fail_job job.id e db
    settle_job job source (ok result) db = handle job (record_release job source result db)

    unfoldable pub run_source : Job → Str → Mount → Option Source → Exec Desk (Unit {0})
    unfolding finish_job do_publish settle_job
    run_source job root mount none desk =
        let (r, db) = finish_job job.id failed none (some source_deleted) desk.db in
        (r, record desk { db = db })
    run_source job root mount (some source) desk =
        let (result, repo) = do_publish source job.payload root mount desk.repo in
        let (r, db) = settle_job job source result desk.db in (r, record { db = db; repo = repo })

    -- `run_job`
    unfoldable pub run_job : Job → Str → Mount → Exec Desk (Unit {0})
    unfolding get_source run_source
    run_job job root mount desk = run_source job root mount (get_source job.source_id desk.db) desk

    unfoldable pub run_claimed : Str → Mount → Option Job → Exec Desk Bool
    unfolding run_job
    run_claimed root mount none desk = (ok false, desk)
    run_claimed root mount (some job) desk =
        let (r, desk') = run_job job root mount desk in continue r worked desk'

    -- `tick`
    unfoldable pub tick : Str → Mount → Exec Desk Bool
    unfolding reset_stale_jobs claim_job run_claimed
    tick root mount desk =
        let (claimed, db) = (reset_stale_jobs stale_after ⨟ claim_job claims) desk.db in
        continue claimed (run_claimed root mount) (record desk { db = db })
