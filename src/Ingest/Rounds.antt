-- ===== src/Ingest/Rounds.antt =====
-- One source through the scheduling of packages/dist-ingest/src/dist_ingest/worker.py and the policy
-- of packages/dist-ingest/src/dist_ingest/sources.py.
use dev_tools_distribution_p.Base.{
  all, ℕ, ◌≤◌, ◌≡◌, refl, ◌⊎◌, true, false, none, some, [], ◌∷◌, arith, list_eq, list_beq, nat_eq,
  any, length, ok, err, value_error,
}
use dev_tools_distribution_p.Base.Text.{
  is_alnum, is_lower_alnum, starts_with, is_decimal, contains_char, Str, Bytes, text,
}
use dev_tools_distribution_p.Base.Json.{Json, str, num, pos, Fields, end, field, get, lookup}
use dev_tools_distribution_p.Registry.Models.{github, gitlab, Source, active, Job, poll}
use dev_tools_distribution_p.Registry.Schema.{Db}
use dev_tools_distribution_p.Registry.Sources.{is_due}
use dev_tools_distribution_p.Registry.Jobs.{queued_row, started, has_job_id, enqueue, last_poll}
use dev_tools_distribution_p.Ingest.Provenance.{ProvenancePolicy, verify_provenance}
use dev_tools_distribution_p.Ingest.Attestation.{verify_sigstore_provenance}
use dev_tools_distribution_p.Ingest.Policy.{Services, verify}
use dev_tools_distribution_p.Ingest.Examples.{tools, sigstore}
use dev_tools_distribution_p.Core.Naming.{check_segment}
use dev_tools_distribution_p.Ingest.Releases.{version_from_tag, resolve_asset_name}
use dev_tools_distribution_p.Ingest.Releases.Versions.{version_from_tag_lem}
use dev_tools_distribution_p.Ingest.Sources.{provenance_policy}
use dev_tools_distribution_p.Ingest.Sources.Route.{IsPinned, provenance_policy_lem}
use dev_tools_distribution_p.Ingest.Schedule.{unchanged_after, hand_off_to_signer, schedule_source}
use dev_tools_distribution_p.Ingest.Schedule.Skips.{skips_bounded}
use dev_tools_distribution_p.Ingest.Schedule.Handoff.{payload_of, waiting, hand_off_to_signer_lem}
use dev_tools_distribution_p.Ingest.Schedule.Cadence.{schedule_source_lem}

abbrev demo : Source
demo = record {
  id = 1;
  app_id = text "demo";
  forge = github;
  project = text "o/demo";
  api_base = text "https://api.github.com";
  project_url = text "https://github.com/o/demo";
  status = active;
  critical = false;
  asset_name = text "demo.zip";
  tag_prefix = text "v";
  require_tag_ref_prefix = text "refs/tags/";
  max_asset_bytes = 1000;
  channel = text "stable";
  platform = text "windows";
  arch = text "amd64";
  workflow_uri = some (text "w");
  oidc_issuer = some (text "i");
  repository_id = some (text "1");
  repository_owner_id = some (text "2");
  runner_environment = text "github-hosted";
  builder_id = none;
  builder_keyid = none;
  builder_public_key_pem = none;
  attestation_asset = [];
  created_at = some 1;
  updated_at = some 1;
  created_by = text "ops";
  last_error = none;
}

abbrev table : Db
table = record {
  sources = demo ∷ [];
  jobs = [];
  audit_log = [];
  operators = [];
  sessions = [];
  now = 100;
}

abbrev trusted : ProvenancePolicy
trusted = record {
  trusted_builders = [];
  project_url = text "https://github.com/o/demo";
  require_tag_ref_prefix = text "refs/tags/";
  trusted_identities =
      record {
        workflow_uri = text "w";
        issuer = text "i";
        repository = text "o/demo";
        repository_id = text "1";
        repository_owner_id = text "2";
        runner_environment = text "github-hosted";
      }
      ∷ [];
}

abbrev services : Services Bytes
services = record {
  sha256_of = λ bytes. bytes;
  tools = tools;
  sigstore = sigstore;
  archives = record {
    is_zipfile = λ file. false;
    zip_entries = λ file. err value_error;
    is_tarfile = λ file. false;
    tar_entries = λ file. err value_error;
  };
}

policy_made : provenance_policy demo ≡ ok trusted
unfolding provenance_policy
policy_made = refl

provenance_policy_lem_example :
    IsPinned demo trusted
    × (text "https://github.com/o/demo" ≡ text "https://github.com/o/demo")
    × ((envelope : Bytes) (sha256 : Str)
        → (github ≡ github
            → verify services envelope sha256 trusted
              ≡ verify_sigstore_provenance tools sigstore envelope sha256 trusted)
          × (github ≡ gitlab
              → verify services envelope sha256 trusted
                ≡ verify_provenance tools envelope sha256 trusted))
provenance_policy_lem_example = provenance_policy_lem services demo trusted policy_made

-- The result of a poll that fetched the release `v1`.
abbrev fetched : Fields
fetched = field (text "tag") (str (text "v1")) (
    field (text "version") (str (text "1")) (
      field (text "filename") (str (text "demo.zip")) (
        field (text "decision") (str (text "promote"))
          (field (text "sha256") (str (text "d1")) end))))

abbrev skip : ℕ → Fields
skip n = field (text "outcome") (str (text "unchanged")) (
    field (text "tag") (str (text "v1")) (
      field (text "via") (str (text "release feed"))
        (field (text "consecutive_skips") (num (pos n)) end)))

first_skip_made : unchanged_after fetched (ok (some (text "v1"))) ≡ ok (some (skip 1))
unfolding unchanged_after lookup list_beq
first_skip_made = refl

second_skip_made : unchanged_after (skip 1) (ok (some (text "v1"))) ≡ ok (some (skip 2))
unfolding unchanged_after lookup list_beq
second_skip_made = refl

no_skip_after_24 : unchanged_after (skip 24) (ok (some (text "v1"))) ≡ ok none
unfolding unchanged_after lookup list_beq
no_skip_after_24 = refl

no_count : lookup fetched (text "consecutive_skips") ≡ none
unfolding lookup list_beq
no_count = refl

skips_bounded_example : length (skip 1 ∷ skip 2 ∷ []) ≤ 24
skips_bounded_example =
    skips_bounded fetched (skip 1 ∷ skip 2 ∷ []) no_count
      ((ok (some (text "v1")), first_skip_made), ((ok (some (text "v1")), second_skip_made), tt))

abbrev polled : Job
polled = started 90 (queued_row 90 5 1 poll (text "schedule") end)

hand_off_to_signer_lem_example :
    ((hand_off_to_signer 7 demo polled fetched table).1.jobs ≡ [])
    ⊎ ((poll ≡ poll)
        × (get fetched (text "decision") ≡ str (text "promote"))
        × (sha256 version filename tag : Json) × (lookup fetched (text "sha256") ≡ some sha256)
        × (lookup fetched (text "version") ≡ some version)
        × (lookup fetched (text "filename") ≡ some filename)
        × (lookup fetched (text "tag") ≡ some tag)
        × ((hand_off_to_signer 7 demo polled fetched table).1.jobs
            ≡ waiting 100 7 1 (payload_of sha256 version filename tag) ∷ []))
unfolding started queued_row
hand_off_to_signer_lem_example = hand_off_to_signer_lem 7 demo polled fetched table

demo_due : is_due 15 table demo ≡ true
unfolding is_due any
demo_due = refl

no_such_id : any (has_job_id 7) [] ≡ false
unfolding any
no_such_id = refl

polls_first : (schedule_source 7 (ok none) demo table).0 ≡ ok tt
unfolding schedule_source last_poll enqueue any unchanged_after lookup
polls_first = refl

schedule_source_lem_example :
    is_due 15 (record (schedule_source 7 (ok none) demo table).1 { now = 114 }) demo ≡ false
schedule_source_lem_example =
    schedule_source_lem 15 7 (114) (ok none) demo table (omega arith) demo_due no_such_id
      polls_first

tag_accepted : version_from_tag (text "v1.2.0+4") (text "v") ≡ ok (text "1.2.0+4")
unfolding version_from_tag list_beq starts_with is_decimal all is_lower_alnum is_alnum
tag_accepted = refl

name_resolved :
    resolve_asset_name
      (record { tag = text "v2"; version = text "2"; assets = [] })
      (text "d-{version}.zip")
    ≡ text "d-2.zip"
unfolding resolve_asset_name starts_with
name_resolved = refl

version_from_tag_lem_example :
    (contains_char b'+' (text "1.2.0+4") ≡ false
      → check_segment (text "1.2.0+4") ≡ ok (text "1.2.0+4"))
    × (contains_char b'+' (text "1.2.0+4") ≡ true
        → check_segment (text "1.2.0+4") ≡ err value_error)
version_from_tag_lem_example = version_from_tag_lem (text "v1.2.0+4") (text "v") tag_accepted
