-- ===== src/Core/Repository/Reading.antt =====
-- packages/dist-core/src/dist_core/repository.py: what an edit leaves to be read, of its own role and of others.
use dev_tools_distribution_p.Base.{
  ℕ, ◌+◌, false, Option, none, some, List, [], if◌then◌else◌, ◌==◌, nat_eq, list_eq, ◌≡◌, refl, sym,
  ◌∙◌, ap, ◌≢◌, arith, ==_iff, ==_refl, Result, ok, err, ◌>>=◌, >>=-eq-ok, from_option, os_error,
}
use dev_tools_distribution_p.Base.Exec.{Exec, continue, ◌⨟◌}
use dev_tools_distribution_p.Base.Maps.{get_item}
use dev_tools_distribution_p.Base.Maps.Laws.{get_item-cons_self}
use dev_tools_distribution_p.Base.Text.{Str}
use dev_tools_distribution_p.Core.Roles.{root, snapshot, timestamp}
use dev_tools_distribution_p.Core.Repository.{
  Metadata, Signed, filename, Repository, Tuf, SignerBackend, version_of, open_at, open_role,
  initial, write_role, set_version, sealed, settle_close, close_role,
}
use dev_tools_distribution_p.Core.Repository.Operations.{
  edit, settle_edit, written, publish, do_snapshot, do_timestamp, snapshot_change, timestamp_change,
}
use dev_tools_distribution_p.Core.Repository.Order.Log.{filename-ne}
use dev_tools_distribution_p.Core.Repository.Order.Steps.{
  sealed-eq-ok, written-ne-none, version_of-set_version, version_of-write_role,
}

==-ne : (s t : Str) → s ≢ t → (s == t) ≡ false
==-ne s t differ = ground (arith, ==_iff s t)

-- What is written for one role is not read for another.
get_item-write_role :
    (role : Str) (n : ℕ) (md : Metadata) (repo : Repository) (other : Str) (m : ℕ)
    → role ≢ root
    → other ≢ role
    → other ≢ timestamp
    → get_item (write_role role n md repo).metadata (filename other m)
      ≡ get_item repo.metadata (filename other m)
unfolding write_role get_item
get_item-write_role role n md repo other m a b c =
    rw (==-ne role root a, ==-ne _ _ (filename-ne role other n m b c)) refl

metadata-set_version :
    (role : Str) (n : ℕ) (repo : Repository) (f : Str)
    → get_item (set_version role n repo).metadata f ≡ get_item repo.metadata f
unfolding set_version
metadata-set_version role n repo f = refl

payloads-after :
    (role : Str) (n : ℕ) (md : Metadata) (repo : Repository)
    → (set_version role n (write_role role n md repo)).payloads ≡ repo.payloads
unfolding set_version write_role
payloads-after role n md repo = refl

get_item-write_role_self :
    (role : Str) (n : ℕ) (md : Metadata) (repo : Repository)
    → role ≢ root
    → get_item (write_role role n md repo).metadata (filename role n) ≡ some md
unfolding write_role
get_item-write_role_self role n md repo a =
    rw (==-ne role root a) (get_item-cons_self (filename role n) md repo.metadata)

-- A role is read, and the payloads are, as before.
abbrev pub Alike : Tuf → Str → Repository → Repository → Type 0
Alike tuf other repo repo' =
    (open_role tuf other repo' ≡ open_role tuf other repo) × (repo'.payloads ≡ repo.payloads)

open_at-agree :
    (tuf : Tuf) (role : Str) (v : ℕ) (log log' : List (Str × Metadata))
    → get_item log' (filename role v) ≡ get_item log (filename role v)
    → open_at tuf role v log' ≡ open_at tuf role v log
unfolding open_at
open_at-agree tuf role v log log' e =
    ap
      (λ o.
        if v == 0
        then ok (record { version = 0; expires = 0; signed = initial tuf role; signatures = [] })
        else from_option o os_error)
      e

open_at-present :
    (tuf : Tuf) (role : Str) (v : ℕ) (log : List (Str × Metadata)) (md : Metadata)
    → (v == 0) ≡ false
    → get_item log (filename role v) ≡ some md
    → open_at tuf role v log ≡ ok md
unfolding open_at
open_at-present tuf role v log md h e =
    ap
      (λ b.
        if b
        then ok (record { version = 0; expires = 0; signed = initial tuf role; signatures = [] })
        else from_option (get_item log (filename role v)) os_error)
      h
    ∙ ap (λ o. from_option o os_error) e

open_role-agree :
    (tuf : Tuf) (role : Str) (repo repo' : Repository)
    → version_of repo' role ≡ version_of repo role
    → get_item repo'.metadata (filename role (version_of repo role))
      ≡ get_item repo.metadata (filename role (version_of repo role))
    → open_role tuf role repo' ≡ open_role tuf role repo
unfolding open_role
open_role-agree tuf role repo repo' v e =
    ap (λ n. open_at tuf role n repo'.metadata) v
    ∙ open_at-agree tuf role (version_of repo role) repo.metadata repo'.metadata e

module _ (tuf : Tuf) (backend : SignerBackend) (role other : Str) (not_root : role ≢ root)
    (differs : other ≢ role) (plain : other ≢ timestamp) where
  after-Alike :
      (md : Metadata) (repo : Repository)
      → Alike tuf other repo (set_version role md.version (write_role role md.version md repo))
  after-Alike md repo = (
    open_role-agree tuf other repo
        (set_version role md.version (write_role role md.version md repo))
        (rw
          (
            version_of-set_version role md.version (write_role role md.version md repo) other,
            ==-ne role other (λ e. differs (sym e)),
            version_of-write_role role md.version md repo other,
          )
          refl)
        (metadata-set_version _ _ _ _
          ∙ get_item-write_role role md.version md repo other (version_of repo other) not_root
              differs plain),
    payloads-after role md.version md repo,
  )

  settle_close-Alike :
      (repo : Repository) (r : Result Metadata) → Alike tuf other repo (settle_close role r repo).1
  unfolding settle_close
  settle_close-Alike repo (err e) = (refl, refl)
  settle_close-Alike repo (ok md) = after-Alike md repo

  settle_edit-Alike :
      (repo : Repository) (r : Result (Option Signed))
      → Alike tuf other repo (settle_edit tuf backend role r repo).1
  unfolding settle_edit close_role
  settle_edit-Alike repo (err e) = (refl, refl)
  settle_edit-Alike repo (ok none) = (refl, refl)
  settle_edit-Alike repo (ok (some signed)) =
      settle_close-Alike repo (sealed backend role signed repo)

  pub edit-Alike :
      (change : Metadata → Result (Option Signed)) (repo : Repository)
      → Alike tuf other repo (edit tuf backend role change repo).1
  unfolding edit
  edit-Alike change repo = settle_edit-Alike repo (open_role tuf role repo >>= change)

then-Alike :
    {A B : Type 0} (tuf : Tuf) (other : Str) (m : Exec Repository A) (n : Exec Repository B)
    (repo : Repository)
    → Alike tuf other repo (m repo).1
    → Alike tuf other (m repo).1 (n (m repo).1).1
    → Alike tuf other repo ((m ⨟ n) repo).1
then-Alike {A} {B} tuf other m n repo a b = go ((m repo).0)
  where
    go : (r : Result A) → Alike tuf other repo (continue r (λ _. n) (m repo).1).1
    go (err e) = a
    go (ok x) = (b.0 ∙ a.0, b.1 ∙ a.1)

pub publish-Alike :
    (tuf : Tuf) (backend : SignerBackend) (other : Str) (repo : Repository)
    → other ≢ snapshot
    → other ≢ timestamp
    → Alike tuf other repo (publish tuf backend repo).1
unfolding publish do_snapshot do_timestamp
publish-Alike tuf backend other repo a b =
    then-Alike tuf other (do_snapshot tuf backend) (do_timestamp tuf backend) repo
      (edit-Alike tuf backend snapshot other (λ e. ground arith) a b
        (snapshot_change tuf backend repo) repo)
      (edit-Alike tuf backend timestamp other (λ e. ground arith) b b
        (timestamp_change tuf backend _) _)

some_ok :
    {a b : Signed}
    → ◌≡◌ {A = Result (Option Signed)} (ok (some a)) (ok (some b))
    → ◌≡◌ {A = Result Signed} (ok a) (ok b)
some_ok e = cc

module _ (tuf : Tuf) (backend : SignerBackend) (role : Str) (not_root : role ≢ root) where
  read_back :
      (md : Metadata) (repo : Repository)
      → md.version ≡ version_of repo role + 1
      → open_role tuf role (set_version role md.version (write_role role md.version md repo))
        ≡ ok md
  unfolding open_role
  read_back md repo next =
      let written_repo = write_role role md.version md repo in
      ap (λ v. open_at tuf role v (set_version role md.version written_repo).metadata)
        (version_of-set_version role md.version written_repo role
          ∙ ap (λ b. if b then md.version else version_of written_repo role) (==_refl role))
      ∙ open_at-present tuf role md.version (set_version role md.version written_repo).metadata md
          (ground (arith, next))
          (metadata-set_version role md.version written_repo (filename role md.version)
            ∙ get_item-write_role_self role md.version md repo not_root)

  settle_close-read :
      (signed : Signed) (repo : Repository) {u : Unit {0}} (r : Result Metadata)
      → sealed backend role signed repo ≡ r
      → (settle_close role r repo).0 ≡ ok u
      → (md : Metadata) × (open_role tuf role (settle_close role r repo).1 ≡ ok md)
        × (md.signed ≡ signed)
  unfolding settle_close
  settle_close-read signed repo (err e) h done = cc
  settle_close-read signed repo (ok md) h done =
      let (next, is) = sealed-eq-ok backend role signed repo md h in
      (md, read_back md repo next, is)

  settle_edit-read :
      (repo : Repository) {u : Unit {0}} (r : Result (Option Signed))
      → r ≢ ok none
      → (settle_edit tuf backend role r repo).0 ≡ ok u
      → (signed : Signed) × (r ≡ ok (some signed))
        × ((md : Metadata) × (open_role tuf role (settle_edit tuf backend role r repo).1 ≡ ok md)
            × (md.signed ≡ signed))
  unfolding settle_edit close_role
  settle_edit-read repo (err e) some_made done = cc
  settle_edit-read repo (ok none) some_made done = absurd (some_made refl)
  settle_edit-read repo (ok (some signed)) some_made done =
      (signed, refl, settle_close-read signed repo (sealed backend role signed repo) refl done)

  -- An edit that returns signed what its body made of what was open, and this is read next.
  pub edit-read :
      (f : Signed → Result Signed) (repo : Repository) {u : Unit {0}}
      → (edit tuf backend role (written tuf backend f) repo).0 ≡ ok u
      → (old : Metadata) × (signed : Signed) × (md : Metadata) × (open_role tuf role repo ≡ ok old)
        × (f old.signed ≡ ok signed)
        × (open_role tuf role (edit tuf backend role (written tuf backend f) repo).1 ≡ ok md)
        × (md.signed ≡ signed)
  unfolding edit
  edit-read f repo done =
      let (signed, made, (md, opened, is)) =
        settle_edit-read repo (open_role tuf role repo >>= written tuf backend f)
          (λ e.
            let (old, h, k) = >>=-eq-ok (open_role tuf role repo) (written tuf backend f) e in
            written-ne-none tuf backend role f old k)
          done in
      let (old, h, k) = >>=-eq-ok (open_role tuf role repo) (written tuf backend f) made in
      let (signed', h', k') = >>=-eq-ok (f old.signed) _ k in
      (old, signed, md, h, h' ∙ some_ok k', opened, is)
