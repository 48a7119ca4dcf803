-- ===== src/Core/Repository.antt =====
-- packages/dist-core/src/dist_core/repository.py: `FileSystemRepository`, its data and its hooks. The
-- metadata directory is the list of the files written, each by one atomic replacement, the latest
-- first: what it held at an earlier time is a tail of it. A file of metadata is what it parses to.
pub mod Operations
pub mod Order
pub mod Payloads
pub mod Reading
pub mod Published
pub mod Current
pub mod Examples
use dev_tools_distribution_p.Base.{
  ℕ, zero, suc, ◌+◌, ◌*◌, Bool, true, false, not, Option, none, some, List, [], ◌∷◌, ◌++◌,
  if◌then◌else◌, ◌==◌, nat_eq, list_eq, leb, ltb, length, Result, ok, err, ◌>>=◌, ◌>>◌, require,
  from_option, publication_error, os_error,
}
use dev_tools_distribution_p.Base.Exec.{Exec}
use dev_tools_distribution_p.Base.Maps.{get_item, set_item}
use dev_tools_distribution_p.Base.Text.{Str, Bytes, text, slash, decimal, contains_char}
use dev_tools_distribution_p.Base.Json.{Fields}
use dev_tools_distribution_p.Core.Roles.{root, targets, snapshot, timestamp, RolePolicy}

pub record TargetFile : Type 0 where
  pub length : ℕ
  pub digest : Str
  pub custom : Fields

-- A file that an operation opens twice, to measure it and then to copy it: what each opening reads, or
-- raises. A copy that cannot be made leaves a temporary file that nothing names.
pub record Payload : Type 0 where
  pub measured : Result Bytes
  pub copied : Result Bytes

-- One that nobody changes in between
abbrev pub steady : Bytes → Payload
steady bytes = record { measured = ok bytes; copied = ok bytes }

pub record DelegatedRole : Type 0 where
  pub name : Str
  pub keyids : List Str
  pub threshold : ℕ
  pub terminating : Bool
  pub paths : List Str

pub record TargetsBody : Type 0 where
  pub files : List (Str × TargetFile)
  pub keys : List (Str × Bytes)
  pub roles : List (Str × DelegatedRole)

pub record RootRole : Type 0 where
  pub keyids : List Str
  pub threshold : ℕ

pub record RootBody : Type 0 where
  pub consistent_snapshot : Bool
  pub keys : List (Str × Bytes)
  pub roles : List (Str × RootRole)

-- What is signed: the snapshot's `meta` gives the version of each file; the timestamp, the snapshot's.
pub data Signed : Type 0 where
  root_body : RootBody → Signed
  targets_body : TargetsBody → Signed
  snapshot_body : List (Str × ℕ) → Signed
  timestamp_body : ℕ → Signed

pub record Metadata : Type 0 where
  pub version : ℕ
  pub expires : ℕ
  pub signed : Signed
  pub signatures : List Str

-- `SignerBackend`; `sign` is `md.sign` with the signer of a key.
pub record SignerBackend : Type 0 where
  pub keyids : Str → Result (List Str)
  pub public_key : Str → Result Bytes
  pub sign : Str → Result (Unit {0})

pub record Repository : Type 0 where
  pub metadata : List (Str × Metadata)
  pub payloads : List (Str × Bytes)
  pub policies : List (Str × RolePolicy)
  pub versions : List (Str × ℕ)
  pub app_roles : List Str
  pub now : ℕ

-- The parts of the library tuf: what the constructors make, `Root.add_key`, and what `do_snapshot` and
-- `do_timestamp` make of the metadata that is open, or `none` where they leave it as it is.
pub record Tuf : Type 0 where
  pub initial_root : RootBody
  pub initial_snapshot : List (Str × ℕ)
  pub initial_timestamp : ℕ
  pub add_key : Str → Bytes → Str → RootBody → Result RootBody
  pub refresh_snapshot : Repository → Metadata → List (Str × ℕ) → Result (Option (List (Str × ℕ)))
  pub refresh_timestamp : Repository → Metadata → ℕ → Result (Option ℕ)

-- `d.get(role, 0)`
abbrev pub or_zero : Option ℕ → ℕ
or_zero none = 0
or_zero (some n) = n

-- `self._versions.get(role, 0)`
unfoldable pub version_of : Repository → Str → ℕ
unfolding get_item
version_of repo role = or_zero (get_item repo.versions role)

abbrev pub json_name : Str → Str
json_name role = role ++ text ".json"

unfoldable pub versioned : ℕ → Str → Str
versioned version name = decimal version ++ (b'.' ∷ name)

-- `_filename`
unfoldable pub filename : Str → ℕ → Str
unfolding versioned
filename role version =
    if role == timestamp then text "timestamp.json" else versioned version (json_name role)

module _ (tuf : Tuf) where
  -- `_INITIAL.get(role, Targets)()`
  unfoldable pub initial : Str → Signed
  initial role =
      if role == root
      then root_body tuf.initial_root
      else if role == snapshot
      then snapshot_body tuf.initial_snapshot
      else if role == timestamp
      then timestamp_body tuf.initial_timestamp
      else targets_body (record { files = []; keys = []; roles = [] })

  -- `open`, at a version
  unfoldable pub open_at : Str → ℕ → List (Str × Metadata) → Result Metadata
  unfolding initial get_item filename
  open_at role version log =
      if version == 0
      then ok (record { version = 0; expires = 0; signed = initial role; signatures = [] })
      else from_option (get_item log (filename role version)) os_error

  -- `open`
  unfoldable pub open_role : Str → Repository → Result Metadata
  unfolding open_at version_of
  open_role role repo = open_at role (version_of repo role) repo.metadata

-- `_write`, with the unversioned alias of the root
unfoldable pub write_role : Str → ℕ → Metadata → Repository → Repository
unfolding filename
write_role role version md repo =
    let log = (filename role version, md) ∷ repo.metadata in
    record repo { metadata = if role == root then (text "root.json", md) ∷ log else log }

unfoldable pub set_version : Str → ℕ → Repository → Repository
unfolding set_item
set_version role version repo = record repo { versions = set_item role version repo.versions }

unfoldable pub sign_all : SignerBackend → List Str → Result (Unit {0})
sign_all backend [] = ok tt
sign_all backend (keyid ∷ keyids) =
    let rest = sign_all backend keyids in do backend.sign keyid; rest

-- The seconds of a day
abbrev pub day : ℕ
day = 86400

-- What `close` signs, or its exception
unfoldable pub sealed : SignerBackend → Str → Signed → Repository → Result Metadata
unfolding get_item version_of sign_all
sealed backend role signed repo = do
  policy ← from_option (get_item repo.policies role) publication_error
  keyids ← backend.keyids role
  require (leb policy.threshold (length keyids)) publication_error
  sign_all backend keyids
  ok (record {
    version = version_of repo role + 1;
    expires = repo.now + policy.expiry_days * day;
    signed = signed;
    signatures = keyids;
  })

unfoldable pub settle_close : Str → Result Metadata → Exec Repository (Unit {0})
unfolding write_role set_version
settle_close role (err e) repo = (err e, repo)
settle_close role (ok md) repo =
    (ok tt, set_version role md.version (write_role role md.version md repo))

-- `close`
unfoldable pub close_role : SignerBackend → Str → Signed → Exec Repository (Unit {0})
unfolding sealed settle_close
close_role backend role signed repo = settle_close role (sealed backend role signed repo) repo

-- The file names and versions of the roles that have been written
unfoldable pub infos_of : Repository → List Str → List (Str × ℕ)
unfolding version_of
infos_of repo [] = []
infos_of repo (role ∷ roles) =
    let rest = infos_of repo roles in
    if version_of repo role == 0 then rest else (json_name role, version_of repo role) ∷ rest

-- `targets_infos`
unfoldable pub targets_infos : Repository → List (Str × ℕ)
unfolding infos_of
targets_infos repo = infos_of repo (targets ∷ repo.app_roles)

-- `snapshot_info`
unfoldable pub snapshot_info : Repository → ℕ
unfolding get_item
snapshot_info repo = elim (get_item repo.versions snapshot) [ none ↦ 1 | some n ↦ n ]

-- `{dirname}{sep}{digest}.{basename}`, cut at the last slash
unfoldable pub payload_name : Str → Str → Str
unfolding contains_char
payload_name digest [] = digest ++ text "."
payload_name digest (c ∷ path) =
    let rest = payload_name digest path in
    if contains_char slash (c ∷ path) then c ∷ rest else digest ++ text "." ++ (c ∷ path)

-- `store_payload`
unfoldable pub store_payload : Str → TargetFile → Bytes → Repository → Repository
unfolding payload_name set_item
store_payload target_path target_file bytes repo = record repo {
  payloads = set_item (payload_name target_file.digest target_path) bytes repo.payloads;
}
