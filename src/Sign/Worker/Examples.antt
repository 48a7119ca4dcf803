-- ===== src/Sign/Worker/Examples.antt =====
-- packages/dist-sign/src/dist_sign/worker.py: one job, from the admission of its artifact to the pointer.
use dev_tools_distribution_p.Base.{
  ◌≤◌, Bool, true, false, none, some, [], ◌∷◌, In, Result, ok, ◌≡◌, refl, ◌⊎◌, list_beq, contains,
  all, any, find, nat_eq, list_eq, map,
}
use dev_tools_distribution_p.Base.Json.{Json, str, Fields, end, field, get, truthy}
use dev_tools_distribution_p.Base.Text.{Str, Bytes, text, chomp, is_lower_alnum, is_alnum, decimal}
use dev_tools_distribution_p.Core.Naming.{
  TargetKey, path, plain_info, to_custom, new_target_key, new_channel_key, new_current_release,
  new_release_info, pointer_path, from_json,
}
use dev_tools_distribution_p.Core.Naming.Examples.{pointer_codec, pointer_codec-IsCodec}
use dev_tools_distribution_p.Core.Roles.{app_role_name, app_role_policy, is_app_id}
use dev_tools_distribution_p.Core.Repository.{Repository}
use dev_tools_distribution_p.Core.Repository.Current.{channel_of}
use dev_tools_distribution_p.Core.Repository.Order.Acts.{run}
use dev_tools_distribution_p.Core.Repository.Examples.{
  sample_tuf, sample_backend, sample_digest, before_release,
}
use dev_tools_distribution_p.Ingest.Quarantine.{Disk, read, Quarantine, Admitted, admit}
use dev_tools_distribution_p.Registry.Models.{Source, github, active, Job, publish, queued, done}
use dev_tools_distribution_p.Registry.Schema.{row_ok, one_open, unique_ids, has_pins}
use dev_tools_distribution_p.Registry.Jobs.{claimable, reset_stale_jobs}
use dev_tools_distribution_p.Registry.Statements.Consistent.{IsConsistent}
use dev_tools_distribution_p.Sign.Worker.{
  Desk, Mount, claims, stale_after, quarantine_path, to_str, artifact_of, report, do_publish, tick,
}
use dev_tools_distribution_p.Sign.Worker.Publishing.{Current, file_of, wanted_key, do_publish_lem}
use dev_tools_distribution_p.Sign.Worker.Jobs.{Closed}
use dev_tools_distribution_p.Sign.Worker.Ticks.{tick_lem}
use dev_tools_distribution_p.Sign.Worker.Acts.{Published, tick-Published}
use dev_tools_distribution_p.Sign.Worker.Admission.{artifact_of-admit}

abbrev demo_source : Source
demo_source = record {
  id = 1;
  app_id = text "demo";
  forge = github;
  project = text "org/demo";
  api_base = text "";
  project_url = text "";
  status = active;
  critical = false;
  asset_name = text "demo.tar";
  tag_prefix = text "v";
  require_tag_ref_prefix = text "refs/tags/";
  max_asset_bytes = 100;
  channel = text "stable";
  platform = text "linux";
  arch = text "x86";
  workflow_uri = some (text "w");
  oidc_issuer = some (text "i");
  repository_id = some (text "1");
  repository_owner_id = some (text "2");
  runner_environment = text "";
  builder_id = none;
  builder_keyid = none;
  builder_public_key_pem = none;
  attestation_asset = text "";
  created_at = none;
  updated_at = none;
  created_by = text "op";
  last_error = none;
}

abbrev approved : Fields
approved = field (text "sha256") (str (text "dbytes")) (
    field (text "version") (str (text "1.2.0"))
      (field (text "filename") (str (text "demo.tar")) end))

abbrev publish_demo : Job
publish_demo = record {
  id = 7;
  source_id = 1;
  kind = publish;
  state = queued;
  requested_by = text "ingest";
  requested_at = 3;
  started_at = none;
  finished_at = none;
  attempts = 0;
  payload = approved;
  result = none;
  error = none;
}

abbrev demo_desk : Desk
demo_desk = record {
  db = record {
    sources = demo_source ∷ [];
    jobs = publish_demo ∷ [];
    audit_log = [];
    operators = [];
    sessions = [];
    now = 5;
  };
  repo = before_release;
}

abbrev demo_quarantine : Quarantine
demo_quarantine = record { root = text "/q"; max_bytes = 100 }

abbrev demo_admitted : Admitted
demo_admitted = record { sha256 = text "dbytes"; length = 5; path = text "/q/dbytes.bin" }

-- The disk once the artifact is admitted
abbrev demo_disk : Disk
demo_disk = (admit sample_digest demo_quarantine (text "/q/tmp") (ok (text "bytes") ∷ []) []).1

abbrev no_repr : Json → Str
no_repr value = []

demo_admission :
    (admit sample_digest demo_quarantine (text "/q/tmp") (ok (text "bytes") ∷ []) []).0
    ≡ ok demo_admitted
unfolding admit
demo_admission = refl

artifact_of-admit_example :
    artifact_of sample_digest no_repr approved (text "/q") demo_disk
    ≡ ok (text "dbytes", text "bytes")
unfolding get list_beq truthy
artifact_of-admit_example =
    artifact_of-admit sample_digest no_repr demo_quarantine (text "/q/tmp") (ok (text "bytes") ∷ [])
      [] demo_admitted approved demo_admission refl refl refl refl

-- Nobody writes to quarantine while the job runs.
abbrev demo_mount : Mount
demo_mount = record { hashed = demo_disk; measured = demo_disk; copied = demo_disk }

abbrev demo_key : TargetKey
demo_key = wanted_key sample_digest no_repr demo_source approved

abbrev demo_published : Result Fields × Repository
demo_published =
    do_publish sample_digest no_repr sample_tuf sample_backend pointer_codec demo_source approved
      (text "/q") demo_mount before_release

demo_published_done :
    demo_published.0
    ≡ ok
        (report sample_digest no_repr demo_key (pointer_path (channel_of demo_key)) (text "dbytes"))
unfolding do_publish run admit all list_beq app_role_name chomp is_lower_alnum contains
    app_role_policy decimal new_target_key is_alnum new_release_info new_channel_key
    new_current_release
demo_published_done = refl

do_publish_lem_example :
    (key : TargetKey) × (bytes body : Bytes) × (custom : Fields) × (role : Str) × (to_str
        sample_digest no_repr
        (get approved (text "sha256"))
      ≡ sample_digest bytes)
    × (read demo_mount.hashed (quarantine_path (text "/q") (sample_digest bytes)) ≡ some bytes)
    × (app_role_name (text "demo") ≡ ok role)
    × (key ≡ demo_key)
    × Current sample_tuf role demo_published.1 key
        (file_of sample_digest no_repr bytes (to_custom (plain_info key.version)))
        (pointer_path (channel_of key))
        (file_of sample_digest no_repr body custom)
    × (from_json pointer_codec body ≡ ok (record { target_path = path key; version = key.version }))
    × (report sample_digest no_repr demo_key (pointer_path (channel_of demo_key)) (text "dbytes")
        ≡ field (text "target") (str (path key)) (
            field (text "pointer") (str (pointer_path (channel_of key))) (
              field
                (text "version")
                (str key.version)
                (field (text "sha256") (str (sample_digest bytes)) end))))
do_publish_lem_example =
    do_publish_lem sample_digest no_repr sample_tuf sample_backend pointer_codec demo_source
      approved (text "/q") demo_mount before_release
      (report sample_digest no_repr demo_key (pointer_path (channel_of demo_key)) (text "dbytes"))
      pointer_codec-IsCodec refl demo_published_done

demo_desk-IsConsistent : IsConsistent demo_desk.db
unfolding row_ok one_open unique_ids all is_app_id is_lower_alnum contains list_beq has_pins any
demo_desk-IsConsistent = record { rows = refl; open_jobs = refl; job_ids = refl }

abbrev demo_tick : Result Bool × Desk
demo_tick =
    tick sample_digest no_repr sample_tuf sample_backend pointer_codec (text "/q") demo_mount
      demo_desk

tick_lem_example :
    ((demo_tick.0 ≡ ok false)
      × ((j : Job)
          → In j (reset_stale_jobs stale_after demo_desk.db).1.jobs
          → claimable claims j ≡ false))
    ⊎ ((job : Job) × (demo_tick.0 ≡ ok true)
        × In job (reset_stale_jobs stale_after demo_desk.db).1.jobs
        × (claimable claims job ≡ true)
        × ((j : Job)
            → In j (reset_stale_jobs stale_after demo_desk.db).1.jobs
            → claimable claims j ≡ true
            → job.requested_at ≤ j.requested_at)
        × ((j : Job) → In j demo_tick.1.db.jobs → j.id ≡ job.id → Closed j))
tick_lem_example =
    tick_lem sample_digest no_repr sample_tuf sample_backend pointer_codec (text "/q") demo_mount
      demo_desk demo_desk-IsConsistent

tick-Published_example :
    Published sample_digest no_repr sample_tuf sample_backend pointer_codec demo_desk.repo
      demo_tick.1.repo
tick-Published_example =
    tick-Published sample_digest no_repr sample_tuf sample_backend pointer_codec (text "/q")
      demo_mount demo_desk

demo_tick_done : map (λ (j : Job). j.state) demo_tick.1.db.jobs ≡ done ∷ []
unfolding tick run any contains find all list_beq admit app_role_name chomp is_lower_alnum
    app_role_policy decimal new_target_key is_alnum new_release_info new_channel_key
    new_current_release
demo_tick_done = refl
