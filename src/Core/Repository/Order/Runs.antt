-- ===== src/Core/Repository/Order/Runs.antt =====
-- packages/dist-core/src/dist_core/repository.py: what each operation keeps, whether it raises or not.
use dev_tools_distribution_p.Base.{
  ℕ, ◌<◌, Bool, true, false, List, ◌++◌, if◌then◌else◌, ◌==◌, nat_eq, list_eq, contains,
  contains_iff, ◌≡◌, refl, sym, ◌∙◌, ◌≢◌, inl, inr, arith, Result, ok, err, >>=-eq-ok,
  require-eq-ok, from_option, publication_error, runtime_error, assertion_error,
}
use dev_tools_distribution_p.Base.Exec.{Exec, pure, continue, ◌⨟◌}
use dev_tools_distribution_p.Base.Json.{Codec, Fields}
use dev_tools_distribution_p.Base.Maps.{get_item, set_item}
use dev_tools_distribution_p.Base.Maps.Laws.{In-add_sorted}
use dev_tools_distribution_p.Base.Text.{Str, Bytes}
use dev_tools_distribution_p.Core.Naming.{
  TargetKey, path, ReleaseInfo, to_custom, new_channel_key, new_current_release, new_release_info,
  plain_info,
}
use dev_tools_distribution_p.Core.Roles.{
  root, targets, snapshot, timestamp, app_role_prefix, RolePolicy, app_role_policy, app_role_name,
  new_role_policy,
}
use dev_tools_distribution_p.Core.Repository.{
  Signed, TargetsBody, Repository, Tuf, SignerBackend, TargetFile, version_of, open_role,
  store_payload, Payload,
}
use dev_tools_distribution_p.Core.Repository.Payloads.{release_parts-eq-ok}
use dev_tools_distribution_p.Core.Repository.Operations.{
  edit, written, publish, initialize, update_root, new_root, update_targets, unchanged, delegate,
  write_root, write_targets, write_app, open_app, add_app_role, keys_for, register_app, add_app,
  put_file, publish_file, delegated_role, release_parts, publish_release, add_release, target_file,
  set_current, publish_pointer, pointer_to, require_targets,
}
use dev_tools_distribution_p.Core.Repository.Order.Log.{Suits, app-ne-timestamp, app-ne-snapshot}
use dev_tools_distribution_p.Core.Repository.Order.Steps.{
  Sound, Kept, edit-Kept, edit-pos, written-ne-none,
}
use dev_tools_distribution_p.Core.Repository.Order.Publish.{TufLaws, publish-Kept}

-- A role that signs neither snapshots nor timestamps may sign what it likes.
plain-Suits :
    (repo : Repository) (role : Str) (signed : Signed)
    → role ≢ snapshot
    → role ≢ timestamp
    → Suits repo.metadata role signed
plain-Suits repo role signed a b = (λ e. absurd (a e), λ e. absurd (b e))

root-ne : (root ≢ snapshot) × (root ≢ timestamp)
root-ne = (λ e. ground arith, λ e. ground arith)

targets-ne : (targets ≢ snapshot) × (targets ≢ timestamp)
targets-ne = (λ e. ground arith, λ e. ground arith)

app_role_policy-name :
    (app_id : Str) (critical : Bool) (policy : RolePolicy)
    → app_role_policy app_id critical ≡ ok policy
    → (name : Str) × (policy.name ≡ app_role_prefix ++ name)
unfolding app_role_policy app_role_name new_role_policy
app_role_policy-name app_id critical policy e = (app_id, ground arith)

then-Sound :
    {A B : Type 0} (m : Exec Repository A) (n : Exec Repository B) (repo : Repository)
    → Sound (m repo).1
    → ((a : A) → (m repo).0 ≡ ok a → Sound (n (m repo).1).1)
    → Sound ((m ⨟ n) repo).1
then-Sound {A} {B} m n repo s next = go ((m repo).0) refl
  where
    go : (r : Result A) → (m repo).0 ≡ r → Sound (continue r (λ _. n) (m repo).1).1
    go (err e) h = s
    go (ok a) h = next a h

continue-Sound :
    {A B : Type 0} (r : Result A) (f : A → Exec Repository B) (repo : Repository)
    → Sound repo
    → ((a : A) → r ≡ ok a → Sound (f a repo).1)
    → Sound (continue r f repo).1
continue-Sound (err e) f repo s next = s
continue-Sound (ok a) f repo s next = next a refl

if-Sound :
    {A : Type 0} (test : Bool) (x y : Result A × Repository)
    → Sound x.1
    → Sound y.1
    → Sound (if test then x else y).1
if-Sound true x y s t = s
if-Sound false x y s t = t

-- What an edit does not read is changed at will.
policies-Sound :
    (repo : Repository) (policies : List (Str × RolePolicy))
    → Sound repo
    → Sound (record repo { policies = policies })
unfolding version_of
policies-Sound repo policies s = record {
  ordered = s.ordered;
  on_disk = s.on_disk;
  delegated = s.delegated;
}

payloads-Sound :
    (repo : Repository) (payloads : List (Str × Bytes))
    → Sound repo
    → Sound (record repo { payloads = payloads })
unfolding version_of
payloads-Sound repo payloads s = record {
  ordered = s.ordered;
  on_disk = s.on_disk;
  delegated = s.delegated;
}

pub now-Sound : (repo : Repository) (now : ℕ) → Sound repo → Sound (record repo { now = now })
unfolding version_of
now-Sound repo now s = record { ordered = s.ordered; on_disk = s.on_disk; delegated = s.delegated }

add_app_role-Sound :
    (tuf : Tuf) (backend : SignerBackend) (role name : Str) (repo : Repository)
    → Sound repo
    → 0 < version_of repo targets
    → role ≡ app_role_prefix ++ name
    → Sound (add_app_role tuf backend role repo)
unfolding version_of add_app_role
add_app_role-Sound tuf backend role name repo s pos is = record {
  ordered = s.ordered;
  on_disk = s.on_disk;
  delegated = λ other here. elim (In-add_sorted role repo.app_roles other here) [
    | inl new ↦ (pos, (name, new ∙ is))
    | inr known ↦ s.delegated other known
  ];
}

add_app_role-pos :
    (tuf : Tuf) (backend : SignerBackend) (role : Str) (repo : Repository)
    → 0 < version_of repo targets
    → 0 < version_of (add_app_role tuf backend role repo) targets
unfolding version_of add_app_role
add_app_role-pos tuf backend role repo pos = pos

module _ (tuf : Tuf) (laws : TufLaws tuf) (backend : SignerBackend) where
  -- Any edit of a role that is neither the snapshot's nor the timestamp's
  plain_edit-Kept :
      (role : Str) (f : Signed → Result Signed) (repo : Repository)
      → Sound repo
      → role ≢ snapshot
      → role ≢ timestamp
      → Kept repo (edit tuf backend role (written tuf backend f) repo).1
  plain_edit-Kept role f repo s a b =
      edit-Kept tuf backend role (written tuf backend f) repo s
        (λ md signed opened changed. plain-Suits repo role signed a b)

  write_targets-Kept :
      (f : TargetsBody → Result TargetsBody) (repo : Repository)
      → Sound repo
      → Kept repo (write_targets tuf backend f repo).1
  unfolding write_targets
  write_targets-Kept f repo s =
      plain_edit-Kept targets (update_targets runtime_error f) repo s targets-ne.0 targets-ne.1

  write_targets-pos :
      (f : TargetsBody → Result TargetsBody) (repo : Repository) {u : Unit {0}}
      → (write_targets tuf backend f repo).0 ≡ ok u
      → 0 < version_of (write_targets tuf backend f repo).1 targets
  unfolding write_targets
  write_targets-pos f repo done =
      edit-pos tuf backend targets (written tuf backend (update_targets runtime_error f)) repo
        (λ md opened e.
          absurd (written-ne-none tuf backend targets (update_targets runtime_error f) md e))
        done

  write_root-Sound : (repo : Repository) → Sound repo → Sound (write_root tuf backend repo).1
  unfolding write_root
  write_root-Sound repo s =
      (plain_edit-Kept root (update_root (new_root tuf backend)) repo s root-ne.0 root-ne.1).0

  first_targets-Sound :
      (repo : Repository)
      → Sound repo
      → Sound ((write_targets tuf backend (unchanged tuf backend) ⨟ publish tuf backend) repo).1
  first_targets-Sound repo s =
      let w = write_targets tuf backend (unchanged tuf backend) in
      let s' = (write_targets-Kept (unchanged tuf backend) repo s).0 in
      then-Sound w (publish tuf backend) repo s' (λ u done.
        (publish-Kept tuf laws backend (w repo).1 s'
          (write_targets-pos (unchanged tuf backend) repo done)).0)

  pub initialize-Sound : (repo : Repository) → Sound repo → Sound (initialize tuf backend repo).1
  unfolding initialize
  initialize-Sound repo s =
      let first = write_root-Sound repo s in
      if-Sound (version_of repo root == 0) _ _
        (then-Sound (write_root tuf backend)
          (write_targets tuf backend (unchanged tuf backend) ⨟ publish tuf backend) repo first
          (λ u done. first_targets-Sound (write_root tuf backend repo).1 first))
        s

  -- A role's edit and `publish`, once the targets are written
  write_app-Sound :
      (role name : Str) (f : Signed → Result Signed) (result : Str) (repo : Repository)
      → Sound repo
      → 0 < version_of repo targets
      → role ≡ app_role_prefix ++ name
      → Sound (write_app tuf backend role f result repo).1
  unfolding write_app
  write_app-Sound role name f result repo s pos is =
      let e = edit tuf backend role (written tuf backend f) in
      let kept =
        plain_edit-Kept role f repo s (λ h. app-ne-snapshot name (sym is ∙ h))
          (λ h. app-ne-timestamp name (sym is ∙ h)) in
      let p =
        (publish-Kept tuf laws backend (e repo).1 kept.0
          (omega (arith, kept.1.versions targets))).0 in
      then-Sound e (publish tuf backend ⨟ pure result) repo kept.0
        (λ u done. then-Sound (publish tuf backend) (pure result) (e repo).1 p (λ u' done'. p))

  register_app-Sound :
      (app_id name : Str) (policy : RolePolicy) (repo : Repository)
      → Sound repo
      → policy.name ≡ app_role_prefix ++ name
      → Sound (register_app tuf backend app_id policy repo).1
  unfolding register_app open_app
  register_app-Sound app_id name policy repo s is =
      let repo' : Repository = record repo {
        policies = set_item policy.name policy repo.policies;
      } in
      let s' = policies-Sound repo (set_item policy.name policy repo.policies) s in
      continue-Sound (keys_for tuf backend policy.name)
        (λ keyids.
          write_targets tuf backend (delegate tuf backend app_id policy keyids)
          ⨟ open_app tuf backend policy.name)
        repo' s'
        λ keyids held.
          let f = delegate tuf backend app_id policy keyids in
          let w = write_targets-Kept f repo' s' in
          then-Sound (write_targets tuf backend f) (open_app tuf backend policy.name) repo' w.0
            λ u done.
              let pos = write_targets-pos f repo' done in
              let added =
                add_app_role-Sound tuf backend policy.name name
                  (write_targets tuf backend f repo').1 w.0 pos is in
              write_app-Sound policy.name name ok policy.name
                (add_app_role tuf backend policy.name (write_targets tuf backend f repo').1) added
                (add_app_role-pos tuf backend policy.name (write_targets tuf backend f repo').1 pos)
                is

  pub add_app-Sound :
      (app_id : Str) (critical : Bool) (repo : Repository)
      → Sound repo
      → Sound (add_app tuf backend app_id critical repo).1
  unfolding add_app
  add_app-Sound app_id critical repo s =
      continue-Sound (app_role_policy app_id critical) (register_app tuf backend app_id) repo s
        λ policy known.
          let (name, is) = app_role_policy-name app_id critical policy known in
          register_app-Sound app_id name policy repo s is

  delegated_role-app :
      (app_id role : Str) (repo : Repository)
      → Sound repo
      → delegated_role tuf backend app_id repo ≡ ok role
      → (0 < version_of repo targets) × ((name : Str) × (role ≡ app_role_prefix ++ name))
  unfolding delegated_role
  delegated_role-app app_id role repo s e =
      let (found, h, r) = >>=-eq-ok (app_role_name app_id) _ e in
      let (here, is) = require-eq-ok (contains found repo.app_roles) publication_error _ r in
      let same : role ≡ found = ground arith in
      rw same (s.delegated found ((contains_iff found repo.app_roles).0 here))

  publish_file-Sound :
      (role target_path : Str) (file : TargetFile) (bytes : Bytes) (repo : Repository)
      → Sound repo
      → (0 < version_of repo targets) × ((name : Str) × (role ≡ app_role_prefix ++ name))
      → Sound (publish_file tuf backend role target_path file bytes repo).1
  unfolding publish_file store_payload version_of
  publish_file-Sound role target_path file bytes repo s (pos, (name, is)) =
      write_app-Sound role name
        (update_targets assertion_error (put_file tuf backend target_path file)) target_path
        (store_payload target_path file bytes repo) (payloads-Sound repo _ s) pos is

  module _ (sha256 : Bytes → Str) (codec : Codec) where
    pub add_release-Sound :
        (key : TargetKey) (payload : Payload) (info : ReleaseInfo) (repo : Repository)
        → Sound repo
        → Sound (add_release tuf backend sha256 codec key payload info repo).1
    unfolding add_release publish_release
    add_release-Sound key payload info repo s =
        continue-Sound (release_parts tuf backend sha256 codec key payload info repo)
          (publish_release tuf backend sha256 codec key info) repo s
          λ parts known.
            let (role, measured, copied) = parts in
            let (same, known', first, second) =
              release_parts-eq-ok tuf backend sha256 codec key payload info repo known in
            publish_file-Sound role (path key)
              (target_file tuf backend sha256 codec measured (to_custom info)) copied repo s
              (delegated_role-app key.app_id role repo s known')

    pointer_to-app :
        (key : TargetKey) (role target_path : Str) (body : Bytes) (custom : Fields)
        (repo : Repository)
        → Sound repo
        → pointer_to tuf backend sha256 codec key repo ≡ ok (role, target_path, body, custom)
        → (0 < version_of repo targets) × ((name : Str) × (role ≡ app_role_prefix ++ name))
    unfolding pointer_to
    pointer_to-app key role target_path body custom repo s e =
        let (found, known, r1) = >>=-eq-ok (delegated_role tuf backend key.app_id repo) _ e in
        let (channel, h2, r2) =
          >>=-eq-ok
            (new_channel_key (record {
              app_id = key.app_id;
              channel = key.channel;
              platform = key.platform;
              arch = key.arch;
            }))
            _ r1 in
        let (md, h3, r3) = >>=-eq-ok (open_role tuf found repo) _ r2 in
        let (published, h4, r4) = >>=-eq-ok (require_targets md.signed) _ r3 in
        let (file, h5, r5) =
          >>=-eq-ok (from_option (get_item published.files (path key)) publication_error) _ r4 in
        let (pointer, h6, r6) = >>=-eq-ok (new_current_release (path key) key.version) _ r5 in
        let (info, h7, r7) = >>=-eq-ok (new_release_info (plain_info key.version)) _ r6 in
        let same : role ≡ found = ground arith in
        rw same (delegated_role-app key.app_id found repo s known)

    pub set_current-Sound :
        (key : TargetKey) (repo : Repository)
        → Sound repo
        → Sound (set_current tuf backend sha256 codec key repo).1
    unfolding set_current publish_pointer
    set_current-Sound key repo s =
        continue-Sound (pointer_to tuf backend sha256 codec key repo)
          (publish_pointer tuf backend sha256 codec) repo s
          λ (role, target_path, body, custom) known.
            publish_file-Sound role target_path (target_file tuf backend sha256 codec body custom)
              body repo s (pointer_to-app key role target_path body custom repo s known)
