-- ===== src/Core/Repository/Examples.antt =====
-- packages/dist-core/src/dist_core/repository.py: a repository from its keys to a channel's pointer.
use dev_tools_distribution_p.Base.{
  ℕ, true, false, Option, none, some, List, [], ◌∷◌, ◌++◌, nat_eq, list_eq, length, list_beq,
  contains, all, ◌≡◌, refl, sym, inl, inr, Result, ok,
}
use dev_tools_distribution_p.Base.Json.{Fields}
use dev_tools_distribution_p.Base.Maps.{get_item, set_item}
use dev_tools_distribution_p.Base.Text.{Str, Bytes, text, chomp, is_lower_alnum, is_alnum, decimal}
use dev_tools_distribution_p.Core.Naming.{
  TargetKey, new_target_key, path, plain_info, to_custom, new_channel_key, new_current_release,
  new_release_info, pointer_path, from_json,
}
use dev_tools_distribution_p.Core.Naming.Examples.{pointer_codec, pointer_codec-IsCodec}
use dev_tools_distribution_p.Core.Roles.{
  root, targets, snapshot, timestamp, app_role_name, app_role_policy,
}
use dev_tools_distribution_p.Core.Repository.{
  steady, RootRole, Tuf, SignerBackend, Repository, version_of,
}
use dev_tools_distribution_p.Core.Repository.Operations.{add_release, set_current}
use dev_tools_distribution_p.Core.Repository.Order.{Served}
use dev_tools_distribution_p.Core.Repository.Order.Publish.{TufLaws}
use dev_tools_distribution_p.Core.Repository.Order.Acts.{
  Act, initialize_it, wait, add_app_it, add_release_it, set_current_it, empty_repository, run,
  run-Served,
}
use dev_tools_distribution_p.Core.Repository.Published.{Publishes, HasTarget, add_release_lem}
use dev_tools_distribution_p.Core.Repository.Current.{channel_of, set_current_lem}

abbrev pub no_keys : RootRole
no_keys = record { keyids = []; threshold = 1 }

-- It signs a snapshot and a timestamp at each publication.
abbrev pub sample_tuf : Tuf
sample_tuf = record {
  initial_root = record {
    consistent_snapshot = true;
    keys = [];
    roles = (root, no_keys) ∷ (timestamp, no_keys) ∷ (snapshot, no_keys) ∷ (targets, no_keys) ∷ [];
  };
  initial_snapshot = (text "targets.json", 1) ∷ [];
  initial_timestamp = 1;
  add_key = λ keyid key role r. ok (record r { keys = set_item keyid key r.keys });
  refresh_snapshot = λ repo md infos. ok (some infos);
  refresh_timestamp = λ repo md version. ok (some version);
}

same_entries :
    {a b : List (Str × ℕ)}
    → ◌≡◌ {A = Result (Option (List (Str × ℕ)))} (ok (some a)) (ok (some b))
    → a ≡ b
same_entries e = cc

taken :
    {a : List (Str × ℕ)} → ◌≡◌ {A = Result (Option (List (Str × ℕ)))} (ok (some a)) (ok none) → ⊥
taken e = cc

sample_tuf-TufLaws : TufLaws sample_tuf
sample_tuf-TufLaws = record {
  snapshot_entries =
      λ repo md infos meta name w made here. inl (rw (sym (same_entries made)) at here);
  snapshot_first = λ repo md infos none_made. absurd (taken none_made);
  snapshot_initial = λ name w here. elim here [ inl e ↦ cc | inr more ↦ elim more [ ] ];
  timestamp_version = λ repo md v w made. cc;
}

-- Five keys for each role
abbrev pub sample_backend : SignerBackend
sample_backend = record {
  keyids = λ role. ok (text "k1" ∷ text "k2" ∷ text "k3" ∷ text "k4" ∷ text "k5" ∷ []);
  public_key = λ keyid. ok keyid;
  sign = λ keyid. ok tt;
}

abbrev pub sample_digest : Bytes → Str
sample_digest bytes = text "d" ++ bytes

abbrev pub sample_key : TargetKey
sample_key = record {
  app_id = text "demo";
  channel = text "stable";
  platform = text "linux";
  arch = text "x86";
  version = text "1.2.0";
  filename = text "demo.tar";
}

abbrev sample_acts : List Act
sample_acts =
    initialize_it
    ∷ add_app_it (text "demo") false
    ∷ wait 100
    ∷ add_release_it sample_key (steady (text "payload")) (plain_info (text "1.2.0"))
    ∷ set_current_it sample_key
    ∷ []

abbrev pub sample_run : List Act → Repository
sample_run acts =
    run sample_tuf sample_backend sample_digest pointer_codec acts (empty_repository 0)

sample_versions :
    (version_of (sample_run sample_acts) (text "app-demo") ≡ 3)
    × (version_of (sample_run sample_acts) timestamp ≡ 4)
unfolding run app_role_name chomp is_lower_alnum all contains list_beq app_role_policy decimal
    new_channel_key is_alnum new_current_release new_release_info
sample_versions = (refl, refl)

run-Served_example : Served (sample_run sample_acts).metadata
run-Served_example =
    run-Served sample_tuf sample_tuf-TufLaws sample_backend sample_digest pointer_codec sample_acts
      0 [] (sample_run sample_acts).metadata refl

abbrev pub before_release : Repository
before_release = sample_run (initialize_it ∷ add_app_it (text "demo") false ∷ [])

abbrev add_sample : Result Str × Repository
add_sample =
    add_release sample_tuf sample_backend sample_digest pointer_codec sample_key
      (steady (text "payload")) (plain_info (text "1.2.0")) before_release

add_sample_done : add_sample.0 ≡ ok (path sample_key)
unfolding run add_release app_role_name chomp is_lower_alnum all contains list_beq app_role_policy
    decimal new_channel_key is_alnum new_current_release new_release_info
add_sample_done = refl

sample_key_accepted : new_target_key sample_key ≡ ok sample_key
unfolding new_target_key contains list_beq all is_alnum chomp
sample_key_accepted = refl

add_release_lem_example :
    (role : Str) × (measured copied : Bytes) × (ok (text "payload") ≡ ok measured)
    × (ok (text "payload") ≡ ok copied)
    × (path sample_key ≡ path sample_key)
    × (text "1.2.0" ≡ text "1.2.0")
    × (app_role_name (text "demo") ≡ ok role)
    × (contains role before_release.app_roles ≡ true)
    × Publishes sample_tuf role before_release add_sample.1
        (path sample_key)
        (record {
          length = length measured;
          digest = sample_digest measured;
          custom = to_custom (plain_info (text "1.2.0"));
        })
        copied
    × (get_item add_sample.1.payloads (
          text "demo/stable/linux-x86/1.2.0/"
          ++ (sample_digest measured ++ text "." ++ text "demo.tar"))
        ≡ some copied)
add_release_lem_example =
    add_release_lem sample_tuf sample_backend sample_digest pointer_codec sample_key
      (steady (text "payload")) (plain_info (text "1.2.0")) before_release (path sample_key)
      sample_key_accepted add_sample_done

abbrev set_sample : Result Str × Repository
set_sample =
    set_current sample_tuf sample_backend sample_digest pointer_codec sample_key add_sample.1

set_sample_done : set_sample.0 ≡ ok (pointer_path (channel_of sample_key))
unfolding run add_release set_current app_role_name chomp is_lower_alnum all contains list_beq
    app_role_policy decimal new_channel_key is_alnum new_current_release new_release_info
set_sample_done = refl

set_current_lem_example :
    (role : Str) × (custom : Fields) × (body : Bytes) × (app_role_name (text "demo") ≡ ok role)
    × (pointer_path (channel_of sample_key) ≡ pointer_path (channel_of sample_key))
    × HasTarget sample_tuf role add_sample.1 (path sample_key)
    × Publishes sample_tuf role add_sample.1 set_sample.1
        (pointer_path (channel_of sample_key))
        (record { length = length body; digest = sample_digest body; custom = custom })
        body
    × (from_json pointer_codec body
        ≡ ok (record { target_path = path sample_key; version = text "1.2.0" }))
set_current_lem_example =
    set_current_lem sample_tuf sample_backend sample_digest pointer_codec sample_key add_sample.1
      (pointer_path (channel_of sample_key)) pointer_codec-IsCodec set_sample_done
