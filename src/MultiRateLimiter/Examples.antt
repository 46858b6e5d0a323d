-- ===== src/MultiRateLimiter/Examples.antt =====
-- The theorems on the rate limiter with several limits at concrete inputs.
use easegress.Prelude.{◌≡◌, refl, some, [], ◌∷◌, arith}
use easegress.Prelude.Int.{pos}
use easegress.RateLimiter
use easegress.RateLimiter.{normal, code, RateLimiter, new_default_policy, new_limiter}
use easegress.MultiRateLimiter.{
  MultiRateLimiter, Answer, new_multi_policy, new_multi, acquire_permission,
}
use easegress.MultiRateLimiter.Single.{single, lift, acquire_permission-single}
use easegress.MultiRateLimiter.Sized.{IsSized, Outcome, acquire_permission-IsSized}

abbrev one_limit : RateLimiter
one_limit = new_limiter new_default_policy 0

acquire_permission-single_example :
    acquire_permission (pos 1 ∷ []) 30000000 (single normal one_limit)
    ≡ lift normal (RateLimiter.acquire_permission (pos 1) 30000000 one_limit)
unfolding new_limiter
acquire_permission-single_example = acquire_permission-single normal one_limit (pos 1) 30000000 refl

-- Three requests and 100 bytes in a second.
abbrev two_limits : MultiRateLimiter
two_limits = new_multi (new_multi_policy (pos 0) (pos 1000000000) (pos 3 ∷ pos 100 ∷ [])) 0

two_limits-IsSized : IsSized two_limits
unfolding new_multi new_multi_policy
two_limits-IsSized = record {
  sized = refl;
  limits = (ground arith, (ground arith, tt));
  period = ground arith;
}

acquire_permission-IsSized_example :
    (m' : MultiRateLimiter) × (a : Answer) × (acquire_permission (pos 1 ∷ pos 60 ∷ []) 5 two_limits
      ≡ some (m', a))
    × IsSized m'
    × Outcome two_limits (pos 1 ∷ pos 60 ∷ []) 5 m' a
acquire_permission-IsSized_example =
    acquire_permission-IsSized two_limits (pos 1 ∷ pos 60 ∷ []) 5 two_limits-IsSized
