-- ===== src/Sign/Worker/Publishing.antt =====
-- packages/dist-sign/src/dist_sign/worker.py: what `do_publish` signs.
use dev_tools_distribution_p.Base.{
  false, Option, none, some, List, if◌then◌else◌, ◌==◌, nat_eq, list_eq, length, all, contains,
  Error, Result, ok, err, from_option, publication_error, os_error, ◌≡◌, refl, sym, ◌∙◌, ap, ◌≢◌,
  arith, ==_iff, ==_refl, >>=-eq-ok, require-eq-ok,
}
use mathlib.Core.Path.{subst}
use dev_tools_distribution_p.Base.Json.{Json, str, Fields, end, field, get, truthy, Codec}
use dev_tools_distribution_p.Base.Maps.{get_item, set_item}
use dev_tools_distribution_p.Base.Maps.Laws.{get_item-set_item}
use dev_tools_distribution_p.Base.Text.{Str, Bytes, text}
use dev_tools_distribution_p.Core.Naming.{
  TargetKey, new_target_key, new_channel_key, pointer_path, path, ReleaseInfo, new_release_info,
  plain_info, to_custom, from_json,
}
use dev_tools_distribution_p.Core.Naming.Documents.{IsCodec}
use dev_tools_distribution_p.Core.Naming.Paths.{path-ne-pointer_path}
use dev_tools_distribution_p.Core.Roles.{app_role_name}
use dev_tools_distribution_p.Core.Repository.{
  Payload, Tuf, SignerBackend, Repository, Metadata, targets_body, TargetsBody, TargetFile,
  open_role,
}
use dev_tools_distribution_p.Core.Repository.Operations.{add_release, set_current}
use dev_tools_distribution_p.Core.Repository.Published.{
  then-eq-ok, continue-eq-ok, add_release_lem, Publishes,
}
use dev_tools_distribution_p.Core.Repository.Current.{channel_of, set_current_lem}
use dev_tools_distribution_p.Ingest.Quarantine.{Disk, read}
use dev_tools_distribution_p.Registry.Models.{Source}
use dev_tools_distribution_p.Sign.Worker.{
  Mount, opened, quarantine_path, required, to_str, artifact_of, release_key, report, answer,
  release, publish_key, publish_artifact, do_publish,
}

-- What two writes leave of the first.
get_item-set_item-other :
    {V : Type 0} (k k' : Str) (v v' : V) (items : List (Str × V))
    → k ≢ k'
    → (get_item (set_item k' v' (set_item k v items)) k ≡ some v)
      × (get_item (set_item k' v' (set_item k v items)) k' ≡ some v')
get_item-set_item-other k k' v v' items differ =
    let apart : (k' == k) ≡ false = ground (arith, ==_iff k' k) in
    (
      get_item-set_item k' v' (set_item k v items) k
          ∙ ap (λ b. if b then some v' else get_item (set_item k v items) k) apart
          ∙ get_item-set_item k v items k
          ∙ ap (λ b. if b then some v else get_item items k) (==_refl k),
      get_item-set_item k' v' (set_item k v items) k'
          ∙ ap (λ b. if b then some v' else get_item (set_item k v items) k') (==_refl k'),
    )

-- A key that is accepted has a channel that is.
channel_of-accepted :
    (k : TargetKey) {k' : TargetKey}
    → new_target_key k ≡ ok k'
    → (k' ≡ k) × (new_channel_key (channel_of k) ≡ ok (channel_of k))
unfolding new_target_key new_channel_key
channel_of-accepted k h = ground arith

pair_parts :
    {A B : Type 0} {a a' : A} {b b' : B}
    → ◌≡◌ {A = Result (A × B)} (ok (a, b)) (ok (a', b'))
    → (a ≡ a') × (b ≡ b')
pair_parts e = (cc, cc)

from_option-eq-ok {ℓ} :
    {A : Type ℓ} (o : Option A) (e : Error) {a : A} → from_option o e ≡ ok a → o ≡ some a
from_option-eq-ok none e h = cc
from_option-eq-ok (some b) e h = ground arith

new_release_info-eq-ok : (r : ReleaseInfo) {r' : ReleaseInfo} → new_release_info r ≡ ok r' → r' ≡ r
unfolding new_release_info
new_release_info-eq-ok r h = ground arith

ok_bytes : {a b : Bytes} {r : Result Bytes} → r ≡ ok a → r ≡ ok b → a ≡ b
ok_bytes h k = cc

ok_role : {a b : Str} {r : Result Str} → r ≡ ok a → r ≡ ok b → a ≡ b
ok_role h k = cc

ok_metadata : {a b : Metadata} {r : Result Metadata} → r ≡ ok a → r ≡ ok b → a ≡ b
ok_metadata h k = cc

targets_injective : {a b : TargetsBody} → targets_body a ≡ targets_body b → a ≡ b
targets_injective e = cc

-- Both a release and its channel's pointer stand in the role, read back.
abbrev pub Current : Tuf → Str → Repository → TargetKey → TargetFile → Str → TargetFile → Type 0
Current tuf role repo key file pointer pointer_file =
    (md : Metadata) × (t : TargetsBody) × (open_role tuf role repo ≡ ok md)
    × (md.signed ≡ targets_body t)
    × (get_item t.files (path key) ≡ some file)
    × (get_item t.files pointer ≡ some pointer_file)

both-Current :
    (tuf : Tuf) (role : Str) (a b c : Repository) (key : TargetKey) (pointer : Str)
    (file pointer_file : TargetFile) (bytes body : Bytes)
    → path key ≢ pointer
    → Publishes tuf role a b (path key) file bytes
    → Publishes tuf role b c pointer pointer_file body
    → Current tuf role c key file pointer pointer_file
both-Current tuf role a b c key pointer file pointer_file bytes body differ
      (old, md, t, opened, was, read1, is, stored)
      (old', md', t', opened', was', read', is', stored') =
    let same_md : md ≡ old' = ok_metadata read1 opened' in
    let same_t : record t { files = set_item (path key) file t.files } ≡ t' =
      targets_injective (sym is ∙ ap (λ (m : Metadata). m.signed) same_md ∙ was') in
    let files : t'.files ≡ set_item (path key) file t.files =
      ap (λ (x : TargetsBody). x.files) (sym same_t) in
    let (first, second) =
      get_item-set_item-other (path key) pointer file pointer_file t.files differ in
    (
      md',
      record t' { files = set_item pointer pointer_file t'.files },
      read',
      is',
      ap (λ (l : List (Str × TargetFile)). get_item (set_item pointer pointer_file l) (path key))
            files
          ∙ first,
      ap (λ (l : List (Str × TargetFile)). get_item (set_item pointer pointer_file l) pointer) files
          ∙ second,
    )

module _ (sha256_of : Bytes → Str) (repr : Json → Str) where
  -- A target of these bytes
  abbrev pub file_of : Bytes → Fields → TargetFile
  file_of bytes custom = record { length = length bytes; digest = sha256_of bytes; custom = custom }

  artifact_of-eq-ok :
      (payload : Fields) (root : Str) (disk : Disk) {sha256 : Str} {bytes : Bytes}
      → artifact_of sha256_of repr payload root disk ≡ ok (sha256, bytes)
      → (sha256 ≡ to_str sha256_of repr (get payload (text "sha256")))
        × (read disk (quarantine_path root sha256) ≡ some bytes)
        × (sha256_of bytes ≡ sha256)
  unfolding artifact_of
  artifact_of-eq-ok payload root disk e =
      let wanted = to_str sha256_of repr (get payload (text "sha256")) in
      let (given, r1) =
        require-eq-ok (all (λ name. truthy (get payload name)) required) publication_error _ e in
      let (found, h2, r2) =
        >>=-eq-ok (from_option (read disk (quarantine_path root wanted)) publication_error) _ r1 in
      let (same, r3) = require-eq-ok (sha256_of found == wanted) publication_error _ r2 in
      let (a, b) = pair_parts r3 in
      (
        sym a,
        ap (λ s. read disk (quarantine_path root s)) (sym a)
            ∙ from_option-eq-ok _ publication_error h2
            ∙ ap some b,
        ap sha256_of (sym b) ∙ (==_iff (sha256_of found) wanted).0 same ∙ a,
      )

  -- The names of the source and of the job
  abbrev pub wanted_key : Source → Fields → TargetKey
  wanted_key source payload = record {
    app_id = source.app_id;
    channel = source.channel;
    platform = source.platform;
    arch = source.arch;
    version = to_str sha256_of repr (get payload (text "version"));
    filename = to_str sha256_of repr (get payload (text "filename"));
  }

  release_key-eq-ok :
      (source : Source) (payload : Fields) (repo : Repository) {key : TargetKey}
      {info : ReleaseInfo}
      → release_key sha256_of repr source payload repo ≡ ok (key, info)
      → (new_target_key key ≡ ok key)
        × (key ≡ wanted_key source payload)
        × (info ≡ plain_info key.version)
  unfolding release_key
  release_key-eq-ok source payload repo e =
      let (role, h1, r1) = >>=-eq-ok (app_role_name source.app_id) _ e in
      let (here, r2) = require-eq-ok (contains role repo.app_roles) publication_error _ r1 in
      let (key, h3, r3) = >>=-eq-ok (new_target_key (wanted_key source payload)) _ r2 in
      let (info, h4, r4) = >>=-eq-ok (new_release_info (plain_info key.version)) _ r3 in
      let (a, b) = pair_parts r4 in
      let same : key ≡ wanted_key source payload =
        (channel_of-accepted (wanted_key source payload) h3).0 in
      let accepted : new_target_key key ≡ ok key = ap new_target_key same ∙ h3 in
      let is : info ≡ plain_info key.version = new_release_info-eq-ok (plain_info key.version) h4 in
      (
        ap new_target_key (sym a) ∙ accepted ∙ ap ok a,
        sym a ∙ same,
        sym b ∙ is ∙ ap (λ (k : TargetKey). plain_info k.version) a,
      )

  module _ (tuf : Tuf) (backend : SignerBackend) (codec : Codec) where
    answer-eq-ok :
        (key : TargetKey) (sha256 : Str) (m : Result Str × Repository) {result : Fields}
        → (answer sha256_of repr tuf backend codec key sha256 m).0 ≡ ok result
        → (pointer : Str) × (m.0 ≡ ok pointer)
          × (result ≡ report sha256_of repr key pointer sha256)
          × ((answer sha256_of repr tuf backend codec key sha256 m).1 ≡ m.1)
    unfolding answer
    answer-eq-ok key sha256 (ok pointer, repo) h = (pointer, refl, cc, refl)
    answer-eq-ok key sha256 (err e, repo) h = cc

    -- A release and its pointer, one after the other
    release-Current :
        (key : TargetKey) (payload : Payload) (bytes : Bytes) (repo : Repository) (pointer : Str)
        → IsCodec codec
        → payload.measured ≡ ok bytes
        → new_target_key key ≡ ok key
        → (release sha256_of repr tuf backend codec key (plain_info key.version) payload repo).0
          ≡ ok pointer
        → (body : Bytes) × (custom : Fields) × (role : Str) × (app_role_name key.app_id ≡ ok role)
          × (pointer ≡ pointer_path (channel_of key))
          × Current tuf role
              (release sha256_of repr tuf backend codec key (plain_info key.version) payload repo).1
              key
              (file_of bytes (to_custom (plain_info key.version)))
              (pointer_path (channel_of key))
              (file_of body custom)
          × (from_json codec body ≡ ok (record { target_path = path key; version = key.version }))
    unfolding release
    release-Current key payload bytes repo pointer law steady accepted done =
        let add = add_release tuf backend sha256_of codec key payload (plain_info key.version) in
        let set = set_current tuf backend sha256_of codec key in
        let (p, added, done', ended) = then-eq-ok add set repo done in
        let (
          role, measured, copied, first, second, at_path, same_version, named, here, publishes',
          stored,
        ) =
          add_release_lem tuf backend sha256_of codec key payload (plain_info key.version) repo p
            accepted added in
        let one : measured ≡ bytes = ok_bytes first steady in
        let publishes =
          subst
            (λ b.
              Publishes tuf role repo (add repo).1 (path key)
                (file_of b (to_custom (plain_info key.version))) copied)
            one publishes' in
        let (role', custom, body, named', at_pointer, has, publishes'', reads) =
          set_current_lem tuf backend sha256_of codec key (add repo).1 pointer law done' in
        let one_role : role' ≡ role = ok_role named' named in
        let differ =
          path-ne-pointer_path key (channel_of key) accepted (channel_of-accepted key accepted).1 in
        let moved =
          subst
            (λ r.
              Publishes tuf r (add repo).1 (set (add repo).1).1 pointer (file_of body custom) body)
            one_role publishes'' in
        let moved' =
          subst
            (λ q. Publishes tuf role (add repo).1 (set (add repo).1).1 q (file_of body custom) body)
            at_pointer moved in
        let both =
          both-Current tuf role repo (add repo).1 (set (add repo).1).1 key
            (pointer_path (channel_of key)) _ _ copied body differ publishes moved' in
        (
          body,
          custom,
          role,
          named,
          at_pointer,
          subst
              (λ r.
                Current tuf role r key (file_of bytes (to_custom (plain_info key.version)))
                  (pointer_path (channel_of key)) (file_of body custom))
              (sym ended) both,
          reads,
        )

    -- What `do_publish` signs is what ingestion approved, provided that nobody changes the artifact from
    -- its hashing on to its measuring: it is the quarantined file, whose bytes have the digest that the job
    -- carries, under the names of the source and of the job. When it returns, the role of the source's
    -- application, read back, has that release, with this length and digest, and has the pointer of the
    -- source's channel, whose bytes read as that release; the answer gives the path of the release, that
    -- of the pointer, the version and the digest.
    pub do_publish_lem :
        (source : Source) (payload : Fields) (root : Str) (mount : Mount) (repo : Repository)
        (result : Fields)
        → IsCodec codec
        → read mount.measured
            (quarantine_path root (to_str sha256_of repr (get payload (text "sha256"))))
          ≡ read mount.hashed
              (quarantine_path root (to_str sha256_of repr (get payload (text "sha256"))))
        → (do_publish sha256_of repr tuf backend codec source payload root mount repo).0 ≡ ok result
        → (key : TargetKey) × (bytes body : Bytes) × (custom : Fields) × (role : Str) × (to_str
              sha256_of repr
              (get payload (text "sha256"))
            ≡ sha256_of bytes)
          × (read mount.hashed (quarantine_path root (sha256_of bytes)) ≡ some bytes)
          × (app_role_name source.app_id ≡ ok role)
          × (key ≡ wanted_key source payload)
          × Current tuf role
              (do_publish sha256_of repr tuf backend codec source payload root mount repo).1
              key
              (file_of bytes (to_custom (plain_info key.version)))
              (pointer_path (channel_of key))
              (file_of body custom)
          × (from_json codec body ≡ ok (record { target_path = path key; version = key.version }))
          × (result
              ≡ field (text "target") (str (path key)) (
                  field (text "pointer") (str (pointer_path (channel_of key))) (
                    field
                      (text "version")
                      (str key.version)
                      (field (text "sha256") (str (sha256_of bytes)) end))))
    unfolding do_publish publish_artifact opened report
    do_publish_lem source payload root mount repo result law steady done =
        let (checked, known, done', ended) =
          continue-eq-ok (artifact_of sha256_of repr payload root mount.hashed)
            (publish_artifact sha256_of repr tuf backend codec source payload root mount) repo
            done in
        let (sha256, bytes) = checked in
        let (wanted, there, hashed) = artifact_of-eq-ok payload root mount.hashed known in
        let file : Payload = opened mount (quarantine_path root sha256) in
        let unchanged : file.measured ≡ ok bytes =
          ap (λ (o : Option Bytes). from_option o os_error)
            (ap (λ s. read mount.measured (quarantine_path root s)) wanted
              ∙ steady
              ∙ ap (λ s. read mount.hashed (quarantine_path root s)) (sym wanted)
              ∙ there) in
        let (named, known', done'', end') =
          continue-eq-ok (release_key sha256_of repr source payload repo)
            (publish_key sha256_of repr tuf backend codec sha256 file) repo done' in
        let (key, info) = named in
        let (accepted, same_key, same_info) = release_key-eq-ok source payload repo known' in
        let go = release sha256_of repr tuf backend codec in
        let (pointer, released, is, same_repo) =
          answer-eq-ok key sha256 (go key info file repo) done'' in
        let (body, custom, role, app, at_pointer, current, reads) =
          release-Current key file bytes repo pointer law unchanged accepted
            (ap (λ i. (go key i file repo).0) (sym same_info) ∙ released) in
        let all_ends : (do_publish sha256_of repr tuf backend codec source payload root mount
              repo).1
            ≡ (go key (plain_info key.version) file repo).1 =
          ended ∙ end' ∙ same_repo ∙ ap (λ i. (go key i file repo).1) same_info in
        (
          key,
          bytes,
          body,
          custom,
          role,
          sym wanted ∙ sym hashed,
          ap (λ s. read mount.hashed (quarantine_path root s)) hashed ∙ there,
          ap (λ (k : TargetKey). app_role_name k.app_id) (sym same_key) ∙ app,
          same_key,
          subst
              (λ r.
                Current tuf role r key (file_of bytes (to_custom (plain_info key.version)))
                  (pointer_path (channel_of key)) (file_of body custom))
              (sym all_ends) current,
          reads,
          is
              ∙ ap (λ q. report sha256_of repr key q sha256) at_pointer
              ∙ ap (λ s. report sha256_of repr key (pointer_path (channel_of key)) s) (sym hashed),
        )
