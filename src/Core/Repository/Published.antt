-- ===== src/Core/Repository/Published.antt =====
-- packages/dist-core/src/dist_core/repository.py: what `add_release` and `set_current` leave to be read.
use dev_tools_distribution_p.Base.{
  true, some, List, ◌∷◌, ◌++◌, if◌then◌else◌, nat_eq, list_eq, length, contains, ◌≡◌, refl, sym,
  ◌∙◌, ap, ◌≢◌, arith, ==_iff, ==_refl, Result, ok, err, Error, >>=-eq-ok, require-eq-ok,
  publication_error, assertion_error,
}
use mathlib.Core.Path.{subst}
use dev_tools_distribution_p.Base.Exec.{Exec, pure, continue, ◌⨟◌}
use dev_tools_distribution_p.Base.Json.{Codec}
use dev_tools_distribution_p.Base.Maps.{get_item, set_item}
use dev_tools_distribution_p.Base.Maps.Laws.{get_item-set_item}
use dev_tools_distribution_p.Base.Text.{Str, Bytes, text, slash}
use dev_tools_distribution_p.Core.Naming.{TargetKey, new_target_key, path, ReleaseInfo, to_custom}
use dev_tools_distribution_p.Core.Roles.{root, snapshot, timestamp, app_role_prefix, app_role_name}
use dev_tools_distribution_p.Core.Repository.{
  Metadata, Signed, root_body, snapshot_body, timestamp_body, targets_body, TargetsBody, TargetFile,
  Payload, Repository, Tuf, SignerBackend, open_role, store_payload, payload_name,
}
use dev_tools_distribution_p.Core.Repository.Operations.{
  edit, written, publish, write_app, update_targets, put_file, publish_file, delegated_role,
  release_parts, publish_release, add_release, target_file,
}
use dev_tools_distribution_p.Core.Repository.Order.Log.{app-ne-snapshot, app-ne-timestamp}
use dev_tools_distribution_p.Core.Naming.Segments.{new_target_key-IsSplit}
use dev_tools_distribution_p.Core.Repository.Payloads.{
  directory, path-directory, payload_name-directory, release_parts-eq-ok,
}
use dev_tools_distribution_p.Core.Repository.Reading.{edit-Alike, publish-Alike, edit-read}

pub then-eq-ok :
    {A B : Type 0} (m : Exec Repository A) (n : Exec Repository B) (repo : Repository) {b : B}
    → ((m ⨟ n) repo).0 ≡ ok b
    → (a : A) × ((m repo).0 ≡ ok a)
      × ((n (m repo).1).0 ≡ ok b)
      × (((m ⨟ n) repo).1 ≡ (n (m repo).1).1)
then-eq-ok {A} {B} m n repo {b} e = go ((m repo).0) refl e
  where
    go :
        (r : Result A)
        → (m repo).0 ≡ r
        → (continue r (λ _. n) (m repo).1).0 ≡ ok b
        → (a : A) × ((m repo).0 ≡ ok a)
          × ((n (m repo).1).0 ≡ ok b)
          × ((continue ((m repo).0) (λ _. n) (m repo).1).1 ≡ (n (m repo).1).1)
    go (err x) h h' = cc
    go (ok a) h h' = (a, h, h', ap (λ r. (continue r (λ _. n) (m repo).1).1) h)

pub continue-eq-ok :
    {A B : Type 0} (r : Result A) (f : A → Exec Repository B) (repo : Repository) {b : B}
    → (continue r f repo).0 ≡ ok b
    → (a : A) × (r ≡ ok a) × ((f a repo).0 ≡ ok b) × ((continue r f repo).1 ≡ (f a repo).1)
continue-eq-ok (err e) f repo h = cc
continue-eq-ok (ok a) f repo h = (a, refl, h, refl)

-- The role, read back, has the targets it had and the file among them, and the payload is stored where
-- a client looks for the file.
abbrev pub Publishes : Tuf → Str → Repository → Repository → Str → TargetFile → Bytes → Type 0
Publishes tuf role repo repo' target_path file bytes =
    (old md : Metadata) × (t : TargetsBody) × (open_role tuf role repo ≡ ok old)
    × (old.signed ≡ targets_body t)
    × (open_role tuf role repo' ≡ ok md)
    × (md.signed ≡ targets_body (record t { files = set_item target_path file t.files }))
    × (get_item repo'.payloads (payload_name file.digest target_path) ≡ some bytes)

-- A role, as it is read, has a target.
abbrev pub HasTarget : Tuf → Str → Repository → Str → Type 0
HasTarget tuf role repo target_path =
    (md : Metadata) × (t : TargetsBody) × (file : TargetFile) × (open_role tuf role repo ≡ ok md)
    × (md.signed ≡ targets_body t)
    × (get_item t.files target_path ≡ some file)

-- The roles that hold releases
pub IsApp : Str → Type 0
IsApp role = (name : Str) × (role ≡ app_role_prefix ++ name)

IsApp-plain : (role : Str) → IsApp role → (role ≢ root) × (role ≢ snapshot) × (role ≢ timestamp)
unfolding IsApp
IsApp-plain role (name, is) = (
  λ e. ground arith,
  λ e. app-ne-snapshot name (sym is ∙ e),
  λ e. app-ne-timestamp name (sym is ∙ e),
)

update_targets-eq-ok :
    (e : Error) (f : TargetsBody → Result TargetsBody) (signed : Signed) {signed' : Signed}
    → update_targets e f signed ≡ ok signed'
    → (t : TargetsBody) × (signed ≡ targets_body t)
      × ((t' : TargetsBody) × (f t ≡ ok t') × (signed' ≡ targets_body t'))
unfolding update_targets
update_targets-eq-ok e f (targets_body t) h =
    let (t', k, l) = >>=-eq-ok (f t) _ h in (t, refl, (t', k, cc))
update_targets-eq-ok e f (root_body t) h = cc
update_targets-eq-ok e f (snapshot_body t) h = cc
update_targets-eq-ok e f (timestamp_body t) h = cc

store_payload-stored :
    (target_path : Str) (file : TargetFile) (bytes : Bytes) (repo : Repository)
    → get_item
        (store_payload target_path file bytes repo).payloads
        (payload_name file.digest target_path)
      ≡ some bytes
unfolding store_payload
store_payload-stored target_path file bytes repo =
    get_item-set_item (payload_name file.digest target_path) bytes repo.payloads
      (payload_name file.digest target_path)
    ∙ ap
        (λ b.
          if b then some bytes else get_item repo.payloads (payload_name file.digest target_path))
        (==_refl (payload_name file.digest target_path))

open_role-store_payload :
    (tuf : Tuf) (role target_path : Str) (file : TargetFile) (bytes : Bytes) (repo : Repository)
    → open_role tuf role (store_payload target_path file bytes repo) ≡ open_role tuf role repo
unfolding open_role store_payload
open_role-store_payload tuf role target_path file bytes repo = refl

app_role_name-prefix :
    (app_id role : Str) → app_role_name app_id ≡ ok role → role ≡ app_role_prefix ++ app_id
unfolding app_role_name
app_role_name-prefix app_id role e = ground arith

module _ (tuf : Tuf) (backend : SignerBackend) (role : Str) (app : IsApp role) where
  write_app-read :
      (f : Signed → Result Signed) (result p : Str) (repo : Repository)
      → (write_app tuf backend role f result repo).0 ≡ ok p
      → (old : Metadata) × (signed : Signed) × (md : Metadata) × (open_role tuf role repo ≡ ok old)
        × (f old.signed ≡ ok signed)
        × (open_role tuf role (write_app tuf backend role f result repo).1 ≡ ok md)
        × (md.signed ≡ signed)
        × (p ≡ result)
        × ((write_app tuf backend role f result repo).1.payloads ≡ repo.payloads)
  unfolding write_app
  write_app-read f result p repo done =
      let (a, b, c) = IsApp-plain role app in
      let e = edit tuf backend role (written tuf backend f) in
      let (u, done1, done2, last) = then-eq-ok e (publish tuf backend ⨟ pure result) repo done in
      let (u', done3, done4, last') =
        then-eq-ok (publish tuf backend) (pure result) (e repo).1 done2 in
      let (old, signed, md, opened, made, read, is) = edit-read tuf backend role a f repo done1 in
      let (same, payloads) = publish-Alike tuf backend role (e repo).1 b c in
      let end : ((e ⨟ publish tuf backend ⨟ pure result) repo).1
          ≡ (publish tuf backend (e repo).1).1 =
        last ∙ last' in
      (
        old,
        signed,
        md,
        opened,
        made,
        ap (open_role tuf role) end ∙ same ∙ read,
        is,
        cc (done4),
        ap (λ (r : Repository). r.payloads) end
            ∙ payloads
            ∙ (edit-Alike tuf backend role snapshot a (λ h. b (sym h)) (λ h. ground arith)
                (written tuf backend f) repo).1,
      )

  pub publish_file-Publishes :
      (target_path p : Str) (file : TargetFile) (bytes : Bytes) (repo : Repository)
      → (publish_file tuf backend role target_path file bytes repo).0 ≡ ok p
      → (p ≡ target_path)
        × Publishes tuf role repo
            (publish_file tuf backend role target_path file bytes repo).1
            target_path
            file
            bytes
  unfolding publish_file
  publish_file-Publishes target_path p file bytes repo done =
      let stored = store_payload target_path file bytes repo in
      let (old, signed, md, opened, made, read, is, same, payloads) =
        write_app-read (update_targets assertion_error (put_file tuf backend target_path file))
          target_path p stored done in
      let (t, was, now) =
        update_targets-eq-ok assertion_error (put_file tuf backend target_path file) old.signed
          made in
      let (t', put, now') = now in
      (
        same,
        (
          old,
          md,
          t,
          sym (open_role-store_payload tuf role target_path file bytes repo) ∙ opened,
          was,
          read,
          is ∙ now' ∙ ap targets_body (cc (put)),
          ap (λ (l : List (Str × Bytes)). get_item l (payload_name file.digest target_path))
                payloads
              ∙ store_payload-stored target_path file bytes repo,
        ),
      )

pub delegated_role-eq-ok :
    (tuf : Tuf) (backend : SignerBackend) (app_id role : Str) (repo : Repository)
    → delegated_role tuf backend app_id repo ≡ ok role
    → (app_role_name app_id ≡ ok role) × (contains role repo.app_roles ≡ true) × IsApp role
unfolding delegated_role IsApp
delegated_role-eq-ok tuf backend app_id role repo e =
    let (found, h, r) = >>=-eq-ok (app_role_name app_id) _ e in
    let (here, is) = require-eq-ok (contains found repo.app_roles) publication_error _ r in
    let same : found ≡ role = cc is in
    (
      h ∙ ap ok same,
      ap (λ x. contains x repo.app_roles) (sym same) ∙ here,
      (app_id, app_role_name-prefix app_id role (h ∙ ap ok same)),
    )

module _ (tuf : Tuf) (backend : SignerBackend) (sha256 : Bytes → Str) (codec : Codec) where
  -- A release that `add_release` returns for, under a key that is accepted, is of the version its path
  -- has, and of an application that was delegated; the application's role, read back, has the targets it
  -- had with the new one among them, under the length and digest that the payload had when it was
  -- measured; and what the payload held when it was copied is stored in the directory of the release,
  -- under a name that is this digest, a dot and the filename, where a client looks for it.
  pub add_release_lem :
      (key : TargetKey) (payload : Payload) (info : ReleaseInfo) (repo : Repository) (p : Str)
      → new_target_key key ≡ ok key
      → (add_release tuf backend sha256 codec key payload info repo).0 ≡ ok p
      → (role : Str) × (measured copied : Bytes) × (payload.measured ≡ ok measured)
        × (payload.copied ≡ ok copied)
        × (p ≡ path key)
        × (info.version ≡ key.version)
        × (app_role_name key.app_id ≡ ok role)
        × (contains role repo.app_roles ≡ true)
        × Publishes tuf role repo
            (add_release tuf backend sha256 codec key payload info repo).1
            (path key)
            (record { length = length measured; digest = sha256 measured; custom = to_custom info })
            copied
        × (get_item
              (add_release tuf backend sha256 codec key payload info repo).1.payloads
              (directory key ++ slash ∷ (sha256 measured ++ text "." ++ key.filename))
            ≡ some copied)
  unfolding add_release publish_release
  add_release_lem key payload info repo p accepted done =
      let f = publish_release tuf backend sha256 codec key info in
      let (parts, known, done', end) =
        continue-eq-ok (release_parts tuf backend sha256 codec key payload info repo) f repo done in
      let (role, measured, copied) = parts in
      let (same, known', first, second) =
        release_parts-eq-ok tuf backend sha256 codec key payload info repo known in
      let file : TargetFile = target_file tuf backend sha256 codec measured (to_custom info) in
      let (named, here, app) = delegated_role-eq-ok tuf backend key.app_id role repo known' in
      let (result, publishes) =
        publish_file-Publishes tuf backend role app (path key) p file copied repo done' in
      let all = subst (λ r. Publishes tuf role repo r (path key) file copied) (sym end) publishes in
      let (old, md, t, opened, was, read, is, stored) = all in
      let place : payload_name (sha256 measured) (path key)
          ≡ directory key ++ slash ∷ (sha256 measured ++ text "." ++ key.filename) =
        ap (payload_name (sha256 measured)) (path-directory key)
        ∙ payload_name-directory (sha256 measured) (directory key) key.filename
            (new_target_key-IsSplit key accepted).filename in
      (
        role,
        measured,
        copied,
        first,
        second,
        result,
        (==_iff info.version key.version).0 same,
        named,
        here,
        all,
        ap (get_item (add_release tuf backend sha256 codec key payload info repo).1.payloads)
              (sym place)
            ∙ stored,
      )
