-- ===== src/Core/Repository/Operations.antt =====
-- packages/dist-core/src/dist_core/repository.py: what `FileSystemRepository` publishes. An edit opens
-- a role, changes what is signed and closes it; one that raises, or leaves all as it is, writes nothing.
use dev_tools_distribution_p.Base.{
  ℕ, Bool, true, false, not, Option, none, some, List, [], ◌∷◌, if◌then◌else◌, ◌==◌, nat_eq,
  list_eq, length, contains, Result, ok, err, ◌>>=◌, ◌>>◌, Error, require, from_option,
  publication_error, assertion_error, runtime_error, key_error,
}
use dev_tools_distribution_p.Base.Exec.{Exec, pure, continue, ◌⨟◌}
use dev_tools_distribution_p.Base.Maps.{get_item, set_item, add_sorted}
use dev_tools_distribution_p.Base.Text.{Str, Bytes}
use dev_tools_distribution_p.Base.Json.{Fields, Codec}
use dev_tools_distribution_p.Core.Roles.{
  root, targets, snapshot, timestamp, RolePolicy, top_level_policies, app_role_name,
  app_role_policy,
}
use dev_tools_distribution_p.Core.Naming.{
  TargetKey, path, new_channel_key, pointer_path, new_current_release, to_json, ReleaseInfo,
  new_release_info, plain_info, to_custom, app_path_pattern,
}
use dev_tools_distribution_p.Core.Repository.{
  Payload, TargetFile, TargetsBody, RootBody, Signed, root_body, targets_body, snapshot_body,
  timestamp_body, Metadata, Tuf, SignerBackend, Repository, version_of, open_role, close_role,
  targets_infos, snapshot_info, store_payload,
}

-- What a body that tests the type of what is signed makes of it
unfoldable pub update_targets : Error → (TargetsBody → Result TargetsBody) → Signed → Result Signed
update_targets e f (targets_body t) = do t' ← f t; ok (targets_body t')
update_targets e f _ = err e

unfoldable pub update_root : (RootBody → Result RootBody) → Signed → Result Signed
update_root f (root_body r) = do r' ← f r; ok (root_body r')
update_root f _ = err runtime_error

unfoldable pub require_targets : Signed → Result TargetsBody
require_targets (targets_body t) = ok t
require_targets _ = err assertion_error

-- `root.roles[role].threshold = threshold`
unfoldable pub set_threshold : Str → ℕ → RootBody → Result RootBody
unfolding get_item set_item
set_threshold role threshold r = do
  entry ← from_option (get_item r.roles role) key_error
  ok (record r { roles = set_item role (record entry { threshold = threshold }) r.roles })

module _ (tuf : Tuf) (backend : SignerBackend) where
  unfoldable pub settle_edit : Str → Result (Option Signed) → Exec Repository (Unit {0})
  unfolding close_role
  settle_edit role (err e) repo = (err e, repo)
  settle_edit role (ok none) repo = (ok tt, repo)
  settle_edit role (ok (some signed)) repo = close_role backend role signed repo

  -- `with self.edit(role) as signed`
  unfoldable pub edit : Str → (Metadata → Result (Option Signed)) → Exec Repository (Unit {0})
  unfolding open_role settle_edit
  edit role change repo = settle_edit role (do md ← open_role tuf role repo; change md) repo

  abbrev pub written : (Signed → Result Signed) → Metadata → Result (Option Signed)
  written f md = do signed ← f md.signed; ok (some signed)

  unfoldable pub snapshot_change : Repository → Metadata → Result (Option Signed)
  unfolding targets_infos
  snapshot_change repo md = do
    meta ← tuf.refresh_snapshot repo md (targets_infos repo)
    ok (elim meta [ none ↦ none | some m ↦ some (snapshot_body m) ])

  unfoldable pub timestamp_change : Repository → Metadata → Result (Option Signed)
  unfolding snapshot_info
  timestamp_change repo md = do
    version ← tuf.refresh_timestamp repo md (snapshot_info repo)
    ok (elim version [ none ↦ none | some v ↦ some (timestamp_body v) ])

  -- `do_snapshot`, `do_timestamp`
  unfoldable pub do_snapshot : Exec Repository (Unit {0})
  unfolding edit snapshot_change
  do_snapshot repo = edit snapshot (snapshot_change repo) repo

  unfoldable pub do_timestamp : Exec Repository (Unit {0})
  unfolding edit timestamp_change
  do_timestamp repo = edit timestamp (timestamp_change repo) repo

  -- `publish`
  unfoldable pub publish : Exec Repository (Unit {0})
  unfolding do_snapshot do_timestamp
  publish = do_snapshot ⨟ do_timestamp

  add_keys : Str → List Str → RootBody → Result RootBody
  add_keys role [] r = ok r
  add_keys role (keyid ∷ keyids) r =
      let rest = add_keys role keyids in
      do key ← backend.public_key keyid; r' ← tuf.add_key keyid key role r; rest r'

  -- One round of the loop of `initialize`
  trust_role : RolePolicy → RootBody → Result RootBody
  unfolding add_keys set_threshold
  trust_role policy r = do
    keyids ← backend.keyids policy.name
    require (not (keyids == [])) publication_error
    r' ← add_keys policy.name keyids r
    set_threshold policy.name policy.threshold r'

  trust_roles : List RolePolicy → RootBody → Result RootBody
  unfolding trust_role
  trust_roles [] r = ok r
  trust_roles (policy ∷ policies) r =
      let rest = trust_roles policies in do r' ← trust_role policy r; rest r'

  -- The body of `with self.edit_root()`
  unfoldable pub new_root : RootBody → Result RootBody
  unfolding trust_roles
  new_root r = trust_roles top_level_policies (record r { consistent_snapshot = true })

  abbrev pub unchanged : TargetsBody → Result TargetsBody
  unchanged t = ok t

  unfoldable pub write_root : Exec Repository (Unit {0})
  unfolding edit update_root new_root
  write_root = edit root (written (update_root new_root))

  unfoldable pub write_targets : (TargetsBody → Result TargetsBody) → Exec Repository (Unit {0})
  unfolding edit update_targets
  write_targets f = edit targets (written (update_targets runtime_error f))

  unfoldable pub initialize : Exec Repository (Unit {0})
  unfolding version_of write_root write_targets publish
  initialize repo =
      if version_of repo root == 0
      then (write_root ⨟ write_targets unchanged ⨟ publish) repo
      else (err publication_error, repo)

  delegate_keys : List Str → List (Str × Bytes) → Result (List (Str × Bytes))
  unfolding set_item
  delegate_keys [] keys = ok keys
  delegate_keys (keyid ∷ keyids) keys =
      let rest = delegate_keys keyids in
      do key ← backend.public_key keyid; rest (set_item keyid key keys)

  -- The body of `with self.edit_targets()` of `add_app`
  unfoldable pub delegate : Str → RolePolicy → List Str → TargetsBody → Result TargetsBody
  unfolding delegate_keys set_item
  delegate app_id policy keyids t = do
    keys ← delegate_keys keyids t.keys
    ok (record t {
      keys = keys;
      roles =
          set_item policy.name
            (record {
              name = policy.name;
              keyids = keyids;
              threshold = policy.threshold;
              terminating = false;
              paths = app_path_pattern app_id ∷ [];
            })
            t.roles;
    })

  unfoldable pub add_app_role : Str → Repository → Repository
  unfolding add_sorted
  add_app_role role repo = record repo { app_roles = add_sorted role repo.app_roles }

  unfoldable pub keys_for : Str → Result (List Str)
  keys_for role = do
    keyids ← backend.keyids role
    require (not (keyids == [])) publication_error
    ok keyids

  -- An edit of the role's own metadata, `publish`, and the result
  unfoldable pub write_app : Str → (Signed → Result Signed) → Str → Exec Repository Str
  unfolding edit publish
  write_app role f result = edit role (written f) ⨟ publish ⨟ pure result

  -- From `self._app_roles.add(role)` on
  unfoldable pub open_app : Str → Exec Repository Str
  unfolding write_app add_app_role
  open_app role repo = write_app role ok role (add_app_role role repo)

  unfoldable pub register_app : Str → RolePolicy → Exec Repository Str
  unfolding keys_for write_targets delegate open_app set_item
  register_app app_id policy repo =
      continue (keys_for policy.name)
        (λ keyids. write_targets (delegate app_id policy keyids) ⨟ open_app policy.name)
        (record repo { policies = set_item policy.name policy repo.policies })

  unfoldable pub add_app : Str → Bool → Exec Repository Str
  unfolding register_app
  add_app app_id critical = continue (app_role_policy app_id critical) (register_app app_id)

  -- The role of an application, if it is delegated
  unfoldable pub delegated_role : Str → Repository → Result Str
  delegated_role app_id repo = do
    role ← app_role_name app_id
    require (contains role repo.app_roles) publication_error
    ok role

  abbrev pub put_file : Str → TargetFile → TargetsBody → Result TargetsBody
  put_file target_path file t = ok (record t { files = set_item target_path file t.files })

  -- `store_payload`, the edit of the role and `publish`
  unfoldable pub publish_file : Str → Str → TargetFile → Bytes → Exec Repository Str
  unfolding store_payload write_app update_targets set_item
  publish_file role target_path file bytes repo =
      write_app role (update_targets assertion_error (put_file target_path file)) target_path
        (store_payload target_path file bytes repo)

  module _ (sha256 : Bytes → Str) (codec : Codec) where
    -- `TargetFile.from_file`, with the custom fields
    unfoldable pub target_file : Bytes → Fields → TargetFile
    target_file bytes custom = record {
      length = length bytes;
      digest = sha256 bytes;
      custom = custom;
    }

    -- What `add_release` checks, and what it reads of the payload: by `TargetFile.from_file`, and by
    -- `store_payload`
    unfoldable pub release_parts :
        TargetKey → Payload → ReleaseInfo → Repository → Result (Str × Bytes × Bytes)
    unfolding delegated_role
    release_parts key payload info repo = do
      require (info.version == key.version) publication_error
      role ← delegated_role key.app_id repo
      measured ← payload.measured
      copied ← payload.copied
      ok (role, measured, copied)

    unfoldable pub publish_release :
        TargetKey → ReleaseInfo → Str × Bytes × Bytes → Exec Repository Str
    unfolding publish_file target_file path
    publish_release key info (role, measured, copied) =
        publish_file role (path key) (target_file measured (to_custom info)) copied

    unfoldable pub add_release : TargetKey → Payload → ReleaseInfo → Exec Repository Str
    unfolding release_parts publish_release
    add_release key payload info repo =
        continue (release_parts key payload info repo) (publish_release key info) repo

    -- What `set_current` checks and builds before it writes: the role, the pointer's path and body,
    -- and its release information
    unfoldable pub pointer_to : TargetKey → Repository → Result (Str × Str × Bytes × Fields)
    unfolding delegated_role path open_role require_targets
    pointer_to key repo = do
      role ← delegated_role key.app_id repo
      channel ← new_channel_key (record {
        app_id = key.app_id;
        channel = key.channel;
        platform = key.platform;
        arch = key.arch;
      })
      md ← open_role tuf role repo
      published ← require_targets md.signed
      from_option (get_item published.files (path key)) publication_error
      pointer ← new_current_release (path key) key.version
      info ← new_release_info (plain_info key.version)
      ok (role, pointer_path channel, to_json codec pointer, to_custom info)

    -- What it writes then
    unfoldable pub publish_pointer : Str × Str × Bytes × Fields → Exec Repository Str
    unfolding publish_file target_file
    publish_pointer (role, target_path, body, custom) =
        publish_file role target_path (target_file body custom) body

    unfoldable pub set_current : TargetKey → Exec Repository Str
    unfolding pointer_to publish_pointer
    set_current key repo = continue (pointer_to key repo) publish_pointer repo
