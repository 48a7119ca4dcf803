-- ===== src/Core/Repository/Current.antt =====
-- packages/dist-core/src/dist_core/repository.py: what `set_current` leaves to be read.
use dev_tools_distribution_p.Base.{
  Option, none, some, nat_eq, list_eq, length, ◌≡◌, sym, ◌∙◌, ap, arith, Result, ok, Error,
  >>=-eq-ok, from_option, publication_error,
}
use mathlib.Core.Path.{subst}
use dev_tools_distribution_p.Base.Json.{Codec, Fields}
use dev_tools_distribution_p.Base.Maps.{get_item}
use dev_tools_distribution_p.Base.Text.{Str, Bytes}
use dev_tools_distribution_p.Core.Naming.{TargetKey, path}
use dev_tools_distribution_p.Core.Roles.{app_role_name}
use dev_tools_distribution_p.Core.Repository.{
  Metadata, Signed, root_body, snapshot_body, timestamp_body, targets_body, TargetsBody, TargetFile,
  Repository, Tuf, SignerBackend, open_role,
}
use dev_tools_distribution_p.Core.Repository.Operations.{
  delegated_role, target_file, set_current, publish_pointer, pointer_to, require_targets,
}
use dev_tools_distribution_p.Core.Naming.{
  ChannelKey, new_channel_key, pointer_path, CurrentRelease, new_current_release, to_json,
  from_json, new_release_info, plain_info,
}
use dev_tools_distribution_p.Core.Naming.Documents.{IsCodec, from_json-to_json}
use dev_tools_distribution_p.Core.Repository.Published.{
  continue-eq-ok, delegated_role-eq-ok, publish_file-Publishes, Publishes, HasTarget,
}

abbrev pub channel_of : TargetKey → ChannelKey
channel_of key = record {
  app_id = key.app_id;
  channel = key.channel;
  platform = key.platform;
  arch = key.arch;
}

require_targets-eq-ok :
    (signed : Signed) {t : TargetsBody} → require_targets signed ≡ ok t → signed ≡ targets_body t
unfolding require_targets
require_targets-eq-ok (targets_body t) h = cc
require_targets-eq-ok (root_body t) h = cc
require_targets-eq-ok (snapshot_body t) h = cc
require_targets-eq-ok (timestamp_body t) h = cc

from_option-eq-ok {ℓ} :
    {A : Type ℓ} (o : Option A) (e : Error) {a : A} → from_option o e ≡ ok a → o ≡ some a
from_option-eq-ok none e h = cc
from_option-eq-ok (some b) e h = ground arith

new_channel_key-eq-ok : (k : ChannelKey) {c : ChannelKey} → new_channel_key k ≡ ok c → c ≡ k
unfolding new_channel_key
new_channel_key-eq-ok k h = ground arith

pointer_record :
    (c : Codec)
    → IsCodec c
    → (target_path version : Str) {r : CurrentRelease}
    → new_current_release target_path version ≡ ok r
    → from_json c (to_json c r) ≡ ok (record { target_path = target_path; version = version })
pointer_record c law target_path version {r} h =
    let (e, a, b) = from_json-to_json c law target_path version h in e ∙ ap ok (cc (a, b))

parts :
    {a a' b b' : Str} {c c' : Bytes} {d d' : Fields}
    → ◌≡◌ {A = Result (Str × Str × Bytes × Fields)} (ok (a, b, c, d)) (ok (a', b', c', d'))
    → (a ≡ a') × (b ≡ b') × (c ≡ c')
parts h = (cc, cc, cc)

module _ (tuf : Tuf) (backend : SignerBackend) (sha256 : Bytes → Str) (codec : Codec) where
  pointer_to-eq-ok :
      (key : TargetKey) (repo : Repository) {role target_path : Str} {body : Bytes}
      {custom : Fields}
      → pointer_to tuf backend sha256 codec key repo ≡ ok (role, target_path, body, custom)
      → (delegated_role tuf backend key.app_id repo ≡ ok role)
        × ((md : Metadata) × (t : TargetsBody) × (file : TargetFile) × (pointer : CurrentRelease)
            × (open_role tuf role repo ≡ ok md)
            × (md.signed ≡ targets_body t)
            × (get_item t.files (path key) ≡ some file)
            × (target_path ≡ pointer_path (channel_of key))
            × (new_current_release (path key) key.version ≡ ok pointer)
            × (body ≡ to_json codec pointer))
  unfolding pointer_to
  pointer_to-eq-ok key repo e =
      let (found, known, r1) = >>=-eq-ok (delegated_role tuf backend key.app_id repo) _ e in
      let (channel, h2, r2) = >>=-eq-ok (new_channel_key (channel_of key)) _ r1 in
      let (md, h3, r3) = >>=-eq-ok (open_role tuf found repo) _ r2 in
      let (t, h4, r4) = >>=-eq-ok (require_targets md.signed) _ r3 in
      let (file, h5, r5) =
        >>=-eq-ok (from_option (get_item t.files (path key)) publication_error) _ r4 in
      let (pointer, h6, r6) = >>=-eq-ok (new_current_release (path key) key.version) _ r5 in
      let (info, h7, r7) = >>=-eq-ok (new_release_info (plain_info key.version)) _ r6 in
      let (a, b, c) = parts r7 in
      (
        known ∙ ap ok a,
        (
          md,
          t,
          file,
          pointer,
          ap (λ r. open_role tuf r repo) (sym a) ∙ h3,
          require_targets-eq-ok md.signed h4,
          from_option-eq-ok _ publication_error h5,
          sym b ∙ ap pointer_path (new_channel_key-eq-ok (channel_of key) h2),
          h6,
          sym c,
        ),
      )

  -- `set_current` returns for a release only if the role of its application, as it was, has it among
  -- its targets. The role read back then has the pointer of the channel beside the targets it had, and
  -- the pointer's stored bytes, of the length and digest given there, read as that release.
  pub set_current_lem :
      (key : TargetKey) (repo : Repository) (p : Str)
      → IsCodec codec
      → (set_current tuf backend sha256 codec key repo).0 ≡ ok p
      → (role : Str) × (custom : Fields) × (body : Bytes) × (app_role_name key.app_id ≡ ok role)
        × (p ≡ pointer_path (channel_of key))
        × HasTarget tuf role repo (path key)
        × Publishes tuf role repo
            (set_current tuf backend sha256 codec key repo).1
            p
            (record { length = length body; digest = sha256 body; custom = custom })
            body
        × (from_json codec body ≡ ok (record { target_path = path key; version = key.version }))
  unfolding set_current publish_pointer
  set_current_lem key repo p law done =
      let f = publish_pointer tuf backend sha256 codec in
      let (built, known, done', end) =
        continue-eq-ok (pointer_to tuf backend sha256 codec key repo) f repo done in
      let (role, target_path, body, custom) = built in
      let (delegated, inside) = pointer_to-eq-ok key repo known in
      let (md, t, found, pointer, opened, was, present, at_path, new, written_body) = inside in
      let (named, here, app) = delegated_role-eq-ok tuf backend key.app_id role repo delegated in
      let file : TargetFile = target_file tuf backend sha256 codec body custom in
      let (result, publishes) =
        publish_file-Publishes tuf backend role app target_path p file body repo done' in
      let moved =
        subst (λ r. Publishes tuf role repo r target_path file body) (sym end) publishes in
      (
        role,
        custom,
        body,
        named,
        result ∙ at_path,
        (md, t, found, opened, was, present),
        subst
            (λ q.
              Publishes tuf role repo (set_current tuf backend sha256 codec key repo).1 q file body)
            (sym result) moved,
        ap (from_json codec) written_body ∙ pointer_record codec law (path key) key.version new,
      )
