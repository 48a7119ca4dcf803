-- ===== src/Sign/Worker/Acts.antt =====
-- packages/dist-sign/src/dist_sign/worker.py over packages/dist-core/src/dist_core/repository.py: what a
-- job does to the repository.
use dev_tools_distribution_p.Base.{
  Option, none, some, [], ◌∷◌, Result, ok, err, ◌≡◌, refl, ◌⊎◌, inl, inr, sym,
}
use mathlib.Core.Path.{subst}
use dev_tools_distribution_p.Base.Exec.{Exec, continue, ◌⨟◌}
use dev_tools_distribution_p.Base.Json.{Json, Fields, Codec}
use dev_tools_distribution_p.Base.Text.{Str, Bytes}
use dev_tools_distribution_p.Core.Naming.{TargetKey, ReleaseInfo}
use dev_tools_distribution_p.Core.Repository.{Payload, Tuf, SignerBackend, Repository}
use dev_tools_distribution_p.Core.Repository.Operations.{add_release, set_current}
use dev_tools_distribution_p.Core.Repository.Order.Acts.{add_release_it, set_current_it, run}
use dev_tools_distribution_p.Registry.Models.{Source, Job}
use dev_tools_distribution_p.Sign.Worker.{
  Mount, Desk, opened, quarantine_path, artifact_of, release_key, answer, release, publish_key,
  publish_artifact, do_publish, run_source, run_job, worked, run_claimed, tick, claims, stale_after,
}
use dev_tools_distribution_p.Registry.Sources.{get_source}
use dev_tools_distribution_p.Registry.Jobs.{claim_job, reset_stale_jobs}

worked_repo : (m : Result (Unit {0}) × Desk) → (continue m.0 worked m.1).1.repo ≡ m.1.repo
worked_repo (err e, desk) = refl
worked_repo (ok u, desk) = refl

module _ (sha256_of : Bytes → Str) (repr : Json → Str) (tuf : Tuf) (backend : SignerBackend)
    (codec : Codec) where
  -- The repository is as it was, or a release was added, or this and then made current.
  abbrev pub Published : Repository → Repository → Type 0
  Published repo repo' =
      (repo' ≡ repo)
      ⊎ ((key : TargetKey) × (info : ReleaseInfo) × (file : Payload) × ((repo'
              ≡ run tuf backend sha256_of codec (add_release_it key file info ∷ []) repo)
            ⊎ (repo'
                ≡ run tuf backend sha256_of codec
                    (add_release_it key file info ∷ set_current_it key ∷ []) repo)))

  continue-Published :
      {A B : Type 0} (r : Result A) (f : A → Exec Repository B) (repo : Repository)
      → ((a : A) → Published repo (f a repo).1)
      → Published repo (continue r f repo).1
  continue-Published (err e) f repo each = inl refl
  continue-Published (ok a) f repo each = each a

  release-Published :
      (key : TargetKey) (info : ReleaseInfo) (file : Payload) (repo : Repository)
      → Published repo (release sha256_of repr tuf backend codec key info file repo).1
  unfolding release run
  release-Published key info file repo = go ((add repo).0)
    where
      add : Exec Repository Str
      add = add_release tuf backend sha256_of codec key file info

      set : Exec Repository Str
      set = set_current tuf backend sha256_of codec key

      go : (r : Result Str) → Published repo (continue r (λ p. set) (add repo).1).1
      go (err e) = inr (key, info, file, inl refl)
      go (ok p) = inr (key, info, file, inr refl)

  answer-same :
      (key : TargetKey) (sha256 : Str) (m : Result Str × Repository)
      → (answer sha256_of repr tuf backend codec key sha256 m).1 ≡ m.1
  unfolding answer
  answer-same key sha256 (ok p, repo) = refl
  answer-same key sha256 (err e, repo) = refl

  publish_key-Published :
      (sha256 : Str) (file : Payload) (named : TargetKey × ReleaseInfo) (repo : Repository)
      → Published repo (publish_key sha256_of repr tuf backend codec sha256 file named repo).1
  unfolding publish_key
  publish_key-Published sha256 file (key, info) repo =
      subst (Published repo)
        (sym (answer-same key sha256 (release sha256_of repr tuf backend codec key info file repo)))
        (release-Published key info file repo)

  publish_artifact-Published :
      (source : Source) (payload : Fields) (root : Str) (mount : Mount) (checked : Str × Bytes)
      (repo : Repository)
      → Published repo
          (publish_artifact sha256_of repr tuf backend codec source payload root mount checked
            repo).1
  unfolding publish_artifact
  publish_artifact-Published source payload root mount (sha256, hashed) repo =
      continue-Published (release_key sha256_of repr source payload repo)
        (publish_key sha256_of repr tuf backend codec sha256
          (opened mount (quarantine_path root sha256)))
        repo
        (λ named.
          publish_key-Published sha256 (opened mount (quarantine_path root sha256)) named repo)

  do_publish-Published :
      (source : Source) (payload : Fields) (root : Str) (mount : Mount) (repo : Repository)
      → Published repo
          (do_publish sha256_of repr tuf backend codec source payload root mount repo).1
  unfolding do_publish
  do_publish-Published source payload root mount repo =
      continue-Published (artifact_of sha256_of repr payload root mount.hashed)
        (publish_artifact sha256_of repr tuf backend codec source payload root mount) repo
        (λ checked. publish_artifact-Published source payload root mount checked repo)

  run_source-Published :
      (job : Job) (root : Str) (mount : Mount) (source : Option Source) (desk : Desk)
      → Published desk.repo
          (run_source sha256_of repr tuf backend codec job root mount source desk).1.repo
  unfolding run_source
  run_source-Published job root mount none desk = inl refl
  run_source-Published job root mount (some source) desk =
      do_publish-Published source job.payload root mount desk.repo

  run_claimed-Published :
      (root : Str) (mount : Mount) (job : Option Job) (desk : Desk)
      → Published desk.repo
          (run_claimed sha256_of repr tuf backend codec root mount job desk).1.repo
  unfolding run_claimed run_job
  run_claimed-Published root mount none desk = inl refl
  run_claimed-Published root mount (some job) desk =
      subst (Published desk.repo)
        (sym (worked_repo (run_job sha256_of repr tuf backend codec job root mount desk)))
        (run_source-Published job root mount (get_source job.source_id desk.db) desk)

  claimed-Published :
      (root : Str) (mount : Mount) (claimed : Result (Option Job)) (desk : Desk)
      → Published desk.repo
          (continue claimed (run_claimed sha256_of repr tuf backend codec root mount) desk).1.repo
  claimed-Published root mount (err e) desk = inl refl
  claimed-Published root mount (ok job) desk = run_claimed-Published root mount job desk

  -- Whatever the registry and quarantine hold, and however quarantine changes meanwhile, and whether the tick returns or raises, the repository
  -- after a tick is what it was, or what the operation `add_release`, or it and then `set_current` of the
  -- same key, make of it: the worker has no other effect on what is served.
  pub tick-Published :
      (root : Str) (mount : Mount) (desk : Desk)
      → Published desk.repo (tick sha256_of repr tuf backend codec root mount desk).1.repo
  unfolding tick
  tick-Published root mount desk =
      let claimed = (reset_stale_jobs stale_after ⨟ claim_job claims) desk.db in
      claimed-Published root mount claimed.0 (record desk { db = claimed.1 })
