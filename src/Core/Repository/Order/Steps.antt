-- ===== src/Core/Repository/Order/Steps.antt =====
-- packages/dist-core/src/dist_core/repository.py: what one edit keeps of the repository.
use dev_tools_distribution_p.Base.{
  ℕ, ◌+◌, ◌<◌, ◌≤◌, Option, none, some, ◌∷◌, ◌++◌, if◌then◌else◌, ◌==◌, nat_eq, list_eq, leb,
  length, ◌≡◌, refl, sym, ◌∙◌, ap, ◌≢◌, inl, inr, arith, In, Bool-cases, ==_iff, ==_refl, Result,
  ok, err, ◌>>=◌, >>=-eq-ok, require-eq-ok, from_option, publication_error,
}
use dev_tools_distribution_p.Base.Maps.{get_item}
use dev_tools_distribution_p.Base.Maps.Laws.{get_item-set_item, get_item-cons_self}
use dev_tools_distribution_p.Base.Text.{Str, text}
use dev_tools_distribution_p.Core.Roles.{root, targets, app_role_prefix}
use dev_tools_distribution_p.Core.Repository.{
  Metadata, Signed, filename, Repository, Tuf, SignerBackend, version_of, write_role, set_version,
  sealed, settle_close, close_role, open_role, sign_all,
}
use dev_tools_distribution_p.Core.Repository.Operations.{edit, settle_edit, written}
use dev_tools_distribution_p.Core.Repository.Order.{Present}
use dev_tools_distribution_p.Core.Repository.Order.Log.{
  Suits, Ordered, filename-Fits, root-Fits, Present-cons,
}

-- What holds between two writes: each file names what was there when it was written, each role's
-- latest version is on disk, and an application has a role only beside the targets that delegate to it.
pub record Sound (repo : Repository) : Type 0 where
  pub ordered : Ordered repo.metadata
  pub on_disk :
      (role : Str)
      → 0 < version_of repo role
      → Present repo.metadata (filename role (version_of repo role))
  pub delegated :
      (role : Str)
      → In role repo.app_roles
      → (0 < version_of repo targets) × ((name : Str) × (role ≡ app_role_prefix ++ name))

-- Versions only grow, and the roles of the applications stay.
pub record Grows (repo repo' : Repository) : Type 0 where
  pub versions : (role : Str) → version_of repo role ≤ version_of repo' role
  pub app_roles : repo'.app_roles ≡ repo.app_roles

pub Grows-refl : (repo : Repository) → Grows repo repo
Grows-refl repo = record { versions = λ role. omega arith; app_roles = refl }

pub Grows-trans : (a b c : Repository) → Grows a b → Grows b c → Grows a c
Grows-trans a b c g h = record {
  versions = λ role. omega (arith, g.versions role, h.versions role);
  app_roles = h.app_roles ∙ g.app_roles;
}

pub version_of-set_version :
    (role : Str) (n : ℕ) (repo : Repository) (other : Str)
    → version_of (set_version role n repo) other
      ≡ (if role == other then n else version_of repo other)
unfolding version_of set_version
version_of-set_version role n repo other = elim (Bool-cases (role == other)) [
  | inl same ↦ rw (get_item-set_item role n repo.versions other, same) refl
  | inr differ ↦ rw (get_item-set_item role n repo.versions other, differ) refl
]

pub version_of-write_role :
    (role : Str) (n : ℕ) (md : Metadata) (repo : Repository) (other : Str)
    → version_of (write_role role n md repo) other ≡ version_of repo other
unfolding version_of write_role
version_of-write_role role n md repo other = refl

write_role-Ordered :
    (role : Str) (n : ℕ) (md : Metadata) (repo : Repository)
    → Ordered repo.metadata
    → Suits repo.metadata role md.signed
    → Ordered (write_role role n md repo).metadata
unfolding write_role
write_role-Ordered role n md repo o s = elim (Bool-cases (role == root)) [
  | inl same ↦ rw same (root-Fits _ md.signed, (filename-Fits repo.metadata role n md.signed s, o))
  | inr differ ↦ rw differ (filename-Fits repo.metadata role n md.signed s, o)
]

write_role-Present :
    (role : Str) (n : ℕ) (md : Metadata) (repo : Repository) (f : Str)
    → Present repo.metadata f
    → Present (write_role role n md repo).metadata f
unfolding write_role
write_role-Present role n md repo f p =
    let p' = Present-cons (filename role n) md repo.metadata f p in
    elim (Bool-cases (role == root)) [
      | inl same ↦ rw same (Present-cons (text "root.json") md _ f p')
      | inr differ ↦ rw differ p'
    ]

write_role-Present_self :
    (role : Str) (n : ℕ) (md : Metadata) (repo : Repository)
    → Present (write_role role n md repo).metadata (filename role n)
unfolding write_role
write_role-Present_self role n md repo =
    let p : Present ((filename role n, md) ∷ repo.metadata) (filename role n) =
      (md, get_item-cons_self (filename role n) md repo.metadata) in
    elim (Bool-cases (role == root)) [
      | inl same ↦ rw same (Present-cons (text "root.json") md _ (filename role n) p)
      | inr differ ↦ rw differ p
    ]

-- A role that is written with its next version.
module _ (role : Str) (md : Metadata) (repo : Repository)
    (next : md.version ≡ version_of repo role + 1) where
  abbrev after : Repository
  after = set_version role md.version (write_role role md.version md repo)

  version_of-after :
      (other : Str)
      → version_of after other ≡ (if role == other then md.version else version_of repo other)
  version_of-after other =
      rw
        (
          version_of-set_version role md.version (write_role role md.version md repo) other,
          version_of-write_role role md.version md repo other,
        )
        refl

  metadata-after : after.metadata ≡ (write_role role md.version md repo).metadata
  unfolding set_version
  metadata-after = refl

  app_roles-after : after.app_roles ≡ repo.app_roles
  unfolding set_version write_role
  app_roles-after = refl

  after-Grows : Grows repo after
  after-Grows = record {
    versions = λ other. elim (Bool-cases (role == other)) [
      | inl same ↦
          rw (version_of-after other, same)
            (omega (arith, next, ap (version_of repo) ((==_iff role other).0 same)))
      | inr differ ↦ rw (version_of-after other, differ) (omega arith)
    ];
    app_roles = app_roles-after;
  }

  after-on_disk :
      Sound repo
      → (other : Str) → 0 < version_of after other
      → Present after.metadata (filename other (version_of after other))
  unfolding set_version write_role
  after-on_disk s other pos = elim (Bool-cases (role == other)) [
    | inl same ↦
        rw (version_of-after other, same, sym ((==_iff role other).0 same))
          (write_role-Present_self role md.version md repo)
    | inr differ ↦
        let pos' : 0 < version_of repo other = rw (version_of-after other, differ) at pos in
        rw (version_of-after other, differ)
          (write_role-Present role md.version md repo _ (s.on_disk other pos'))
  ]

  after-Sound : Sound repo → Suits repo.metadata role md.signed → Sound after
  after-Sound s suits = record {
    ordered = rw metadata-after (write_role-Ordered role md.version md repo s.ordered suits);
    on_disk = after-on_disk s;
    delegated = λ other here.
        let (a, b) = s.delegated other (rw app_roles-after at here) in
        (omega (arith, after-Grows.versions targets), b);
  }

pub sealed-eq-ok :
    (backend : SignerBackend) (role : Str) (signed : Signed) (repo : Repository) (md : Metadata)
    → sealed backend role signed repo ≡ ok md
    → (md.version ≡ version_of repo role + 1) × (md.signed ≡ signed)
unfolding sealed
sealed-eq-ok backend role signed repo md e =
    let (policy, h1, r1) =
      >>=-eq-ok (from_option (get_item repo.policies role) publication_error) _ e in
    let (keyids, h2, r2) = >>=-eq-ok (backend.keyids role) _ r1 in
    let (h3, r3) = require-eq-ok (leb policy.threshold (length keyids)) publication_error _ r2 in
    let (done, h4, r4) = >>=-eq-ok (sign_all backend keyids) _ r3 in ground arith

-- What an edit keeps, whether it writes, leaves all as it is or raises.
abbrev pub Kept : Repository → Repository → Type 0
Kept repo repo' = Sound repo' × Grows repo repo'

module _ (tuf : Tuf) (backend : SignerBackend) (role : Str) where
  settle_close-Kept :
      (signed : Signed) (repo : Repository)
      → Sound repo
      → Suits repo.metadata role signed
      → (r : Result Metadata) → sealed backend role signed repo ≡ r
      → Kept repo (settle_close role r repo).1
  unfolding settle_close
  settle_close-Kept signed repo s suits (err e) h = (s, Grows-refl repo)
  settle_close-Kept signed repo s suits (ok md) h =
      let (v, is) = sealed-eq-ok backend role signed repo md h in
      (after-Sound role md repo v s (rw is suits), after-Grows role md repo v)

  settle_edit-Kept :
      (repo : Repository)
      → Sound repo
      → (r : Result (Option Signed))
      → ((signed : Signed) → r ≡ ok (some signed) → Suits repo.metadata role signed)
      → Kept repo (settle_edit tuf backend role r repo).1
  unfolding settle_edit close_role
  settle_edit-Kept repo s (err e) suits = (s, Grows-refl repo)
  settle_edit-Kept repo s (ok none) suits = (s, Grows-refl repo)
  settle_edit-Kept repo s (ok (some signed)) suits =
      settle_close-Kept signed repo s (suits signed refl) (sealed backend role signed repo) refl

  pub edit-Kept :
      (change : Metadata → Result (Option Signed)) (repo : Repository)
      → Sound repo
      → ((md : Metadata) (signed : Signed)
          → open_role tuf role repo ≡ ok md
          → change md ≡ ok (some signed)
          → Suits repo.metadata role signed)
      → Kept repo (edit tuf backend role change repo).1
  unfolding edit
  edit-Kept change repo s suits =
      settle_edit-Kept repo s (open_role tuf role repo >>= change) λ signed e.
        let (md, opened, changed) = >>=-eq-ok (open_role tuf role repo) change e in
        suits md signed opened changed

  settle_close-pos :
      (signed : Signed) (repo : Repository) (r : Result Metadata) {u : Unit {0}}
      → sealed backend role signed repo ≡ r
      → (settle_close role r repo).0 ≡ ok u
      → 0 < version_of (settle_close role r repo).1 role
  unfolding settle_close
  settle_close-pos signed repo (err e) h done = cc
  settle_close-pos signed repo (ok md) h done =
      let (v, is) = sealed-eq-ok backend role signed repo md h in
      rw (version_of-after role md repo v role, ==_refl role) (omega (arith, v))

  settle_edit-pos :
      (repo : Repository) (r : Result (Option Signed)) {u : Unit {0}}
      → (r ≡ ok none → 0 < version_of repo role)
      → (settle_edit tuf backend role r repo).0 ≡ ok u
      → 0 < version_of (settle_edit tuf backend role r repo).1 role
  unfolding settle_edit close_role
  settle_edit-pos repo (err e) skip done = cc
  settle_edit-pos repo (ok none) skip done = skip refl
  settle_edit-pos repo (ok (some signed)) skip done =
      settle_close-pos signed repo (sealed backend role signed repo) refl done

  -- An edit that returns leaves the role written, if it is never skipped before that.
  pub edit-pos :
      (change : Metadata → Result (Option Signed)) (repo : Repository) {u : Unit {0}}
      → ((md : Metadata)
          → open_role tuf role repo ≡ ok md
          → change md ≡ ok none
          → 0 < version_of repo role)
      → (edit tuf backend role change repo).0 ≡ ok u
      → 0 < version_of (edit tuf backend role change repo).1 role
  unfolding edit
  edit-pos change repo skip done =
      settle_edit-pos repo (open_role tuf role repo >>= change)
        (λ e.
          let (md, opened, changed) = >>=-eq-ok (open_role tuf role repo) change e in
          skip md opened changed)
        done

  pub written-ne-none :
      (f : Signed → Result Signed) (md : Metadata) → written tuf backend f md ≢ ok none
  written-ne-none f md e = let (signed, h, k) = >>=-eq-ok (f md.signed) _ e in cc
