-- ===== src/Core/Naming/Rollout.antt =====
-- Staged rollout (`in_rollout` of packages/dist-core/src/dist_core/naming.py).
use dev_tools_distribution_p.Base.{[], ◌∷◌, ◌++◌, ltb, ℕ, ◌<◌, ◌≤◌, ◌≡◌, true, arith, ok}
use dev_tools_distribution_p.Base.Text.{Str, Bytes, encode}
use dev_tools_distribution_p.Base.Json.{pos}
use dev_tools_distribution_p.Core.Naming.{bucket, in_rollout}

module _ (sha256 : Bytes → Bytes) (install_id app_id : Str) where
  bucket-lt : (digest : Bytes) → bucket digest < 100
  unfolding bucket
  bucket-lt (a ∷ b ∷ c ∷ d ∷ rest) = omega arith
  bucket-lt [] = omega arith
  bucket-lt (a ∷ []) = omega arith
  bucket-lt (a ∷ b ∷ []) = omega arith
  bucket-lt (a ∷ b ∷ c ∷ []) = omega arith

  -- For every percentage the test is that the install's bucket lies below it: the early answers at 0
  -- and at 100 agree with the bucket.
  pub in_rollout-bucket :
      (p : ℕ)
      → p ≤ 100
      → in_rollout sha256 install_id app_id (pos p)
        ≡ ok (ltb (bucket (sha256 (encode (install_id ++ b':' ∷ app_id)))) p)
  unfolding in_rollout
  in_rollout-bucket p h = ground (arith, bucket-lt (sha256 (encode (install_id ++ b':' ∷ app_id))))

  -- Widening a rollout keeps every install that was in it: who is in at `p` percent is in at `q`.
  pub in_rollout_mono :
      (p q : ℕ)
      → p ≤ q
      → q ≤ 100
      → in_rollout sha256 install_id app_id (pos p) ≡ ok true
      → in_rollout sha256 install_id app_id (pos q) ≡ ok true
  in_rollout_mono p q h k i = ground (arith, in_rollout-bucket p, in_rollout-bucket q)
