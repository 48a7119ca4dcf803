-- ===== src/Core/Repository/Order/Publish.antt =====
-- packages/dist-core/src/dist_core/repository.py: `publish`, and the operations that end with it.
use dev_tools_distribution_p.Base.{
  ℕ, ◌<◌, true, false, Option, none, some, List, [], ◌∷◌, ◌==◌, nat_eq, list_eq, ◌≡◌, refl, sym,
  ◌∙◌, ◌≢◌, ◌⊎◌, inl, inr, arith, In, Bool-cases, Result, ok, err, Error, list_beq, >>=-eq-ok,
  from_option, os_error, Option-cases,
}
use dev_tools_distribution_p.Base.Exec.{Exec, continue, ◌⨟◌}
use dev_tools_distribution_p.Base.Maps.{get_item}
use dev_tools_distribution_p.Base.Text.{Str, text}
use dev_tools_distribution_p.Core.Roles.{targets, snapshot, timestamp}
use dev_tools_distribution_p.Core.Repository.{
  Metadata, Signed, snapshot_body, versioned, filename, json_name, Repository, Tuf, SignerBackend,
  version_of, open_role, initial, infos_of, targets_infos, snapshot_info,
}
use dev_tools_distribution_p.Core.Repository.Operations.{
  publish, do_snapshot, do_timestamp, snapshot_change, timestamp_change,
}
use dev_tools_distribution_p.Core.Repository.Order.{Present, Complete}
use dev_tools_distribution_p.Core.Repository.Order.Log.{
  Suits, read-Ordered, filename-role, app-ne-timestamp,
}
use dev_tools_distribution_p.Core.Repository.Order.Steps.{
  Sound, Grows, Grows-trans, Kept, edit-Kept, edit-pos,
}

-- What the code relies on of the library tuf.
pub record TufLaws (tuf : Tuf) : Type 0 where
  -- A snapshot takes each entry from the versions given or, where these lack the name, from the one before.
  pub snapshot_entries :
      (repo : Repository) (md : Metadata) (infos meta : List (Str × ℕ)) (name : Str) (w : ℕ)
      → tuf.refresh_snapshot repo md infos ≡ ok (some meta)
      → In (name, w) meta
      → In (name, w) infos
        ⊎ ((old : List (Str × ℕ)) × (md.signed ≡ snapshot_body old)
            × In (name, w) old
            × ((w' : ℕ) → ¬ In (name, w') infos))
  -- An unsigned snapshot is always made anew.
  pub snapshot_first :
      (repo : Repository) (md : Metadata) (infos : List (Str × ℕ))
      → tuf.refresh_snapshot repo md infos ≡ ok none
      → md.signatures ≢ []
  -- The snapshot that the constructor makes names targets.json only.
  pub snapshot_initial :
      (name : Str) (w : ℕ) → In (name, w) tuf.initial_snapshot → name ≡ text "targets.json"
  -- A timestamp names the version given.
  pub timestamp_version :
      (repo : Repository) (md : Metadata) (v w : ℕ)
      → tuf.refresh_timestamp repo md v ≡ ok (some w)
      → w ≡ v

-- The entries are those of the roles that are written.
infos_of-In :
    (repo : Repository) (roles : List Str) (name : Str) (w : ℕ)
    → In (name, w) (infos_of repo roles)
    → (role : Str) × In role roles × (name ≡ json_name role) × (w ≡ version_of repo role) × (0 < w)
unfolding infos_of
infos_of-In repo [] name w m = elim m [ ]
infos_of-In repo (role ∷ roles) name w m = elim (Bool-cases (version_of repo role == 0)) [
  | inl unwritten ↦
      let (r, h, a, b, c) = infos_of-In repo roles name w (rw unwritten at m) in (r, inr h, a, b, c)
  | inr has ↦ elim (rw has at m) [
    | inl e ↦ (role, inl refl, cc, cc, ground arith)
    | inr later ↦ let (r, h, a, b, c) = infos_of-In repo roles name w later in (r, inr h, a, b, c)
  ]
]

targets_infos-Complete :
    (repo : Repository) → Sound repo → Complete repo.metadata (targets_infos repo)
unfolding targets_infos
targets_infos-Complete repo s name w m =
    let (role, here, e, v, pos) = infos_of-In repo (targets ∷ repo.app_roles) name w m in
    let plain : role ≢ timestamp = λ is. elim here [
      | inl t ↦ cc
      | inr app ↦ let (p, (n, q)) = s.delegated role app in app-ne-timestamp n (sym q ∙ is)
    ] in
    let p : Present repo.metadata (filename role (version_of repo role)) =
      s.on_disk role (omega (arith, v)) in
    let file : filename role (version_of repo role) ≡ versioned w name =
      filename-role role (version_of repo role) plain ∙ (λ i. versioned (sym v i) (sym e i)) in
    rw file at p

-- targets.json is among the versions once the targets are written.
targets-In :
    (repo : Repository)
    → 0 < version_of repo targets
    → In (text "targets.json", version_of repo targets) (targets_infos repo)
unfolding targets_infos infos_of
targets-In repo pos = elim (Bool-cases (version_of repo targets == 0)) [
  | inl e ↦ absurd (ground arith)
  | inr e ↦ rw e (inl refl)
]

from_option-eq-ok {ℓ} :
    {A : Type ℓ} (o : Option A) (e : Error) {a : A} → from_option o e ≡ ok a → o ≡ some a
from_option-eq-ok none e h = cc
from_option-eq-ok (some b) e h = ground arith

-- The snapshot is made anew where none is written, and read where one is.
open_unwritten :
    (tuf : Tuf) (repo : Repository) (md : Metadata)
    → (version_of repo snapshot == 0) ≡ true
    → open_role tuf snapshot repo ≡ ok md
    → (md.signed ≡ snapshot_body tuf.initial_snapshot) × (md.signatures ≡ [])
unfolding open_role initial list_beq
open_unwritten tuf repo md unwritten opened = let e = rw unwritten at opened in (cc (e), cc (e))

open_written :
    (tuf : Tuf) (repo : Repository) (md : Metadata)
    → (version_of repo snapshot == 0) ≡ false
    → open_role tuf snapshot repo ≡ ok md
    → get_item repo.metadata (filename snapshot (version_of repo snapshot)) ≡ some md
unfolding open_role
open_written tuf repo md has opened = from_option-eq-ok _ os_error (rw has at opened)

snapshot-ne-timestamp : snapshot ≢ timestamp
snapshot-ne-timestamp e = cc

snapshot_info_lem :
    (repo : Repository)
    → 0 < version_of repo snapshot
    → snapshot_info repo ≡ version_of repo snapshot
unfolding snapshot_info version_of
snapshot_info_lem repo pos = elim (Option-cases (get_item repo.versions snapshot)) [
  | inl missing ↦ absurd (ground arith)
  | inr (n, there) ↦ ground arith
]

none_made : {signed : Signed} → ◌≡◌ {A = Result (Option Signed)} (ok none) (ok (some signed)) → ⊥
none_made e = cc

some_made : {signed : Signed} → ◌≡◌ {A = Result (Option Signed)} (ok (some signed)) (ok none) → ⊥
some_made e = cc

-- One operation after another, whether the first raises or not
pub then-Kept :
    {A B : Type 0} (m : Exec Repository A) (n : Exec Repository B) (repo : Repository)
    → Kept repo (m repo).1
    → ((a : A)
        → (m repo).0 ≡ ok a
        → Sound (m repo).1
        → Grows repo (m repo).1
        → Kept (m repo).1 (n (m repo).1).1)
    → Kept repo ((m ⨟ n) repo).1
then-Kept {A} {B} m n repo (s, g) next = go ((m repo).0) refl
  where
    go : (r : Result A) → (m repo).0 ≡ r → Kept repo (continue r (λ _. n) (m repo).1).1
    go (err e) h = (s, g)
    go (ok a) h = let (s', g') = next a h s g in (s', Grows-trans repo _ _ g g')

body_made : {a b : Signed} → ◌≡◌ {A = Result (Option Signed)} (ok (some a)) (ok (some b)) → b ≡ a
body_made e = cc

module _ (tuf : Tuf) (laws : TufLaws tuf) (backend : SignerBackend) where
  open_snapshot-Complete :
      (repo : Repository) (md : Metadata) (old : List (Str × ℕ))
      → Sound repo
      → open_role tuf snapshot repo ≡ ok md
      → md.signed ≡ snapshot_body old
      → Complete repo.metadata old
        ⊎ ((name : Str) (w : ℕ) → In (name, w) old → name ≡ text "targets.json")
  open_snapshot-Complete repo md old s opened is =
      elim (Bool-cases (version_of repo snapshot == 0)) [
        | inl unwritten ↦
            let (made, unsigned) = open_unwritten tuf repo md unwritten opened in
            let same : old ≡ tuf.initial_snapshot = cc in inr (rw same laws.snapshot_initial)
        | inr has ↦
            let v = version_of repo snapshot in
            let found = open_written tuf repo md has opened in
            let fits = read-Ordered repo.metadata (filename snapshot v) md s.ordered found in
            let (meta, is', complete) = fits.0 v (filename-role snapshot v snapshot-ne-timestamp) in
            let same : old ≡ meta = cc in inl (rw same complete)
      ]

  snapshot-Complete :
      (repo : Repository) (md : Metadata) (m : List (Str × ℕ))
      → Sound repo
      → 0 < version_of repo targets
      → open_role tuf snapshot repo ≡ ok md
      → tuf.refresh_snapshot repo md (targets_infos repo) ≡ ok (some m)
      → Complete repo.metadata m
  snapshot-Complete repo md m s pos opened made name w here =
      elim (laws.snapshot_entries repo md (targets_infos repo) m name w made here) [
        | inl new ↦ targets_infos-Complete repo s name w new
        | inr (old, is, before, lacks) ↦ elim (open_snapshot-Complete repo md old s opened is) [
          | inl complete ↦ complete name w before
          | inr only ↦
              absurd
                (lacks (version_of repo targets) (rw (only name w before) (targets-In repo pos)))
        ]
      ]

  do_snapshot-Suits :
      (repo : Repository) (md : Metadata) (signed : Signed)
      → Sound repo
      → 0 < version_of repo targets
      → open_role tuf snapshot repo ≡ ok md
      → snapshot_change tuf backend repo md ≡ ok (some signed)
      → Suits repo.metadata snapshot signed
  unfolding snapshot_change
  do_snapshot-Suits repo md signed s pos opened changed =
      let (meta, made, rest) =
        >>=-eq-ok (tuf.refresh_snapshot repo md (targets_infos repo)) _ changed in
      elim (Option-cases meta) [
        | inl nothing ↦ absurd (none_made (rw nothing at rest))
        | inr (m, is) ↦ (
          λ e. (
            m,
            body_made (rw is at rest),
            snapshot-Complete repo md m s pos opened (rw is at made),
          ),
          λ e. absurd (snapshot-ne-timestamp e),
        )
      ]

  do_timestamp-Suits :
      (repo : Repository) (md : Metadata) (signed : Signed)
      → Sound repo
      → 0 < version_of repo snapshot
      → timestamp_change tuf backend repo md ≡ ok (some signed)
      → Suits repo.metadata timestamp signed
  unfolding timestamp_change
  do_timestamp-Suits repo md signed s pos changed =
      let (version, made, rest) =
        >>=-eq-ok (tuf.refresh_timestamp repo md (snapshot_info repo)) _ changed in
      elim (Option-cases version) [
        | inl nothing ↦ absurd (none_made (rw nothing at rest))
        | inr (w, is) ↦
            let v : w ≡ version_of repo snapshot =
              laws.timestamp_version repo md _ w (rw is at made) ∙ snapshot_info_lem repo pos in
            (
              λ e. absurd (snapshot-ne-timestamp (sym e)),
              λ e. (
                w,
                body_made (rw is at rest),
                rw v (
                    rw (filename-role snapshot (version_of repo snapshot) snapshot-ne-timestamp) at
                      (s.on_disk snapshot pos)),
              ),
            )
      ]

  -- A snapshot is left as it is only where one is written.
  skipped :
      (repo : Repository) (md : Metadata)
      → open_role tuf snapshot repo ≡ ok md
      → snapshot_change tuf backend repo md ≡ ok none
      → 0 < version_of repo snapshot
  unfolding snapshot_change
  skipped repo md opened changed =
      let (meta, made, rest) =
        >>=-eq-ok (tuf.refresh_snapshot repo md (targets_infos repo)) _ changed in
      elim (Option-cases meta) [
        | inl nothing ↦ elim (Bool-cases (version_of repo snapshot == 0)) [
          | inl unwritten ↦ absurd (
              laws.snapshot_first repo md _ (rw nothing at made)
                (open_unwritten tuf repo md unwritten opened).1)
          | inr has ↦ ground arith
        ]
        | inr (m, is) ↦ absurd (some_made (rw is at rest))
      ]

  do_snapshot-Kept :
      (repo : Repository)
      → Sound repo
      → 0 < version_of repo targets
      → Kept repo (do_snapshot tuf backend repo).1
  unfolding do_snapshot
  do_snapshot-Kept repo s pos =
      edit-Kept tuf backend snapshot (snapshot_change tuf backend repo) repo s
        (λ md signed opened changed. do_snapshot-Suits repo md signed s pos opened changed)

  do_snapshot-pos :
      (repo : Repository) {u : Unit {0}}
      → (do_snapshot tuf backend repo).0 ≡ ok u
      → 0 < version_of (do_snapshot tuf backend repo).1 snapshot
  unfolding do_snapshot
  do_snapshot-pos repo done =
      edit-pos tuf backend snapshot (snapshot_change tuf backend repo) repo (skipped repo) done

  do_timestamp-Kept :
      (repo : Repository)
      → Sound repo
      → 0 < version_of repo snapshot
      → Kept repo (do_timestamp tuf backend repo).1
  unfolding do_timestamp
  do_timestamp-Kept repo s pos =
      edit-Kept tuf backend timestamp (timestamp_change tuf backend repo) repo s
        (λ md signed opened changed. do_timestamp-Suits repo md signed s pos changed)

  pub publish-Kept :
      (repo : Repository)
      → Sound repo
      → 0 < version_of repo targets
      → Kept repo (publish tuf backend repo).1
  unfolding publish
  publish-Kept repo s pos =
      then-Kept (do_snapshot tuf backend) (do_timestamp tuf backend) repo
        (do_snapshot-Kept repo s pos)
        (λ u done s' g. do_timestamp-Kept _ s' (do_snapshot-pos repo done))
