-- ===== src/Core/Repository/Order/Acts.antt =====
-- packages/dist-core/src/dist_core/repository.py: any sequence of the operations, from an empty directory.
use dev_tools_distribution_p.Base.{ℕ, Bool, List, [], ◌∷◌, ◌++◌, nat_eq, list_eq, ◌≡◌, arith}
use dev_tools_distribution_p.Base.Json.{Codec}
use dev_tools_distribution_p.Base.Maps.{get_item}
use dev_tools_distribution_p.Base.Text.{Str, Bytes}
use dev_tools_distribution_p.Core.Naming.{TargetKey, ReleaseInfo}
use dev_tools_distribution_p.Core.Roles.{RolePolicy, top_level_policies}
use dev_tools_distribution_p.Core.Repository.{
  Payload, Metadata, Repository, Tuf, SignerBackend, version_of,
}
use dev_tools_distribution_p.Core.Repository.Operations.{
  initialize, add_app, add_release, set_current,
}
use dev_tools_distribution_p.Core.Repository.Order.{Served}
use dev_tools_distribution_p.Core.Repository.Order.Log.{Ordered-Served, Ordered-suffix}
use dev_tools_distribution_p.Core.Repository.Order.Steps.{Sound}
use dev_tools_distribution_p.Core.Repository.Order.Publish.{TufLaws}
use dev_tools_distribution_p.Core.Repository.Order.Runs.{
  initialize-Sound, add_app-Sound, add_release-Sound, set_current-Sound, now-Sound,
}

-- The operations; a call raises or returns, and time passes.
pub data Act : Type 0 where
  initialize_it : Act
  wait : ℕ → Act
  add_app_it : Str → Bool → Act
  add_release_it : TargetKey → Payload → ReleaseInfo → Act
  set_current_it : TargetKey → Act

abbrev by_name : List RolePolicy → List (Str × RolePolicy)
by_name [] = []
by_name (policy ∷ policies) = (policy.name, policy) ∷ by_name policies

-- `Repository` over an empty directory
abbrev pub empty_repository : ℕ → Repository
empty_repository now = record {
  metadata = [];
  payloads = [];
  policies = by_name top_level_policies;
  versions = [];
  app_roles = [];
  now = now;
}

empty-Sound : (now : ℕ) → Sound (empty_repository now)
unfolding version_of get_item
empty-Sound now = record {
  ordered = tt;
  on_disk = λ role pos. absurd (omega arith);
  delegated = λ role here. elim here [ ];
}

module _ (tuf : Tuf) (backend : SignerBackend) (sha256 : Bytes → Str) (codec : Codec) where
  -- One operation
  unfoldable pub step : Act → Repository → Repository
  unfolding initialize add_app add_release set_current
  step initialize_it repo = (initialize tuf backend repo).1
  step (wait now) repo = record repo { now = now }
  step (add_app_it app_id critical) repo = (add_app tuf backend app_id critical repo).1
  step (add_release_it key payload info) repo =
      (add_release tuf backend sha256 codec key payload info repo).1
  step (set_current_it key) repo = (set_current tuf backend sha256 codec key repo).1

  unfoldable pub run : List Act → Repository → Repository
  unfolding step
  run [] repo = repo
  run (act ∷ acts) repo = run acts (step act repo)

module _ (tuf : Tuf) (laws : TufLaws tuf) (backend : SignerBackend) (sha256 : Bytes → Str)
    (codec : Codec) where
  step-Sound :
      (act : Act) (repo : Repository) → Sound repo → Sound (step tuf backend sha256 codec act repo)
  unfolding step
  step-Sound initialize_it repo s = initialize-Sound tuf laws backend repo s
  step-Sound (wait now) repo s = now-Sound repo now s
  step-Sound (add_app_it app_id critical) repo s =
      add_app-Sound tuf laws backend app_id critical repo s
  step-Sound (add_release_it key payload info) repo s =
      add_release-Sound tuf laws backend sha256 codec key payload info repo s
  step-Sound (set_current_it key) repo s =
      set_current-Sound tuf laws backend sha256 codec key repo s

  run-Sound :
      (acts : List Act) (repo : Repository)
      → Sound repo
      → Sound (run tuf backend sha256 codec acts repo)
  unfolding run
  run-Sound [] repo s = s
  run-Sound (act ∷ acts) repo s =
      run-Sound acts (step tuf backend sha256 codec act repo) (step-Sound act repo s)

  -- Whatever operations have run on an empty directory, with any of them raising, a client that reads
  -- timestamp.json at any moment (after any of the writes, also those within an operation) finds the
  -- snapshot of the version it names, and each file of the version that this snapshot names.
  pub run-Served :
      (acts : List Act) (now : ℕ) (later earlier : List (Str × Metadata))
      → (run tuf backend sha256 codec acts (empty_repository now)).metadata ≡ later ++ earlier
      → Served earlier
  run-Served acts now later earlier e = Ordered-Served earlier (
      Ordered-suffix later earlier
        (rw e at ((run-Sound acts (empty_repository now) (empty-Sound now)).ordered)))
