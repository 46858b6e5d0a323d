-- ===== src/RateLimiter/Examples.antt =====
-- Calls of a rate limiter at given times.
use easegress.Prelude.{
  ℕ, ◌+◌, ◌-◌, ◌*◌, ◌/◌, ◌≤◌, ◌<◌, ◌≡◌, refl, ◌⊎◌, true, false, some, List, [], ◌∷◌, arith, sum_by,
}
use easegress.Prelude.Int.{pos, quo, ◌*ℤ◌, ◌+ℤ◌, ◌-ℤ◌}
use easegress.RateLimiter.{RateLimiter, new_limiter, normal, limiting, acquire_permission}
use easegress.RateLimiter.Cycles.{
  Rate, Frame, policy_of, meter, taken, most, cycle_at, proceeds_at, limiting_active,
  acquire_permission_proceeds,
}
use easegress.RateLimiter.Slots.{acquire_all, acquire_all-limit, in_period}

-- Two calls in ten units, and a call may wait for twenty.
abbrev two_in_ten : Rate
two_in_ten = record {
  period = 10;
  timeout = 20;
  limit = 2;
  period_pos = omega arith;
  limit_pos = omega arith;
}

abbrev started : Frame
started = record {
  state = limiting;
  start = 100;
  has_listener = true;
  events = [];
  active = limiting_active;
}

abbrev burst : List ℕ
burst = 101 ∷ 101 ∷ 102 ∷ 103 ∷ 103 ∷ 104 ∷ 105 ∷ 111 ∷ 130 ∷ []

acquire_permission_proceeds_example :
    ((most two_in_ten ≤ taken two_in_ten 1 5 (cycle_at two_in_ten started 121))
      × (acquire_permission (pos 1) 121 (meter two_in_ten started 1 5)
          ≡ some (meter two_in_ten started 1 5, false, pos 20)))
    ⊎ ((taken two_in_ten 1 5 (cycle_at two_in_ten started 121) < most two_in_ten)
        × ((f' : Frame) × (acquire_permission (pos 1) 121 (meter two_in_ten started 1 5)
              ≡ some (
                meter two_in_ten f'
                    (cycle_at two_in_ten started 121)
                    (taken two_in_ten 1 5 (cycle_at two_in_ten started 121) + 1),
                true,
                pos (
                    proceeds_at two_in_ten started
                      (cycle_at two_in_ten started 121)
                      (taken two_in_ten 1 5 (cycle_at two_in_ten started 121))
                    - 121),
              ))
            × (f'.start ≡ 100)
            × (121
                < 100
                  + 10
                    * (cycle_at two_in_ten started 121
                        + taken two_in_ten 1 5 (cycle_at two_in_ten started 121) / 2
                        + 1))
            × (proceeds_at two_in_ten started
                  (cycle_at two_in_ten started 121)
                  (taken two_in_ten 1 5 (cycle_at two_in_ten started 121))
                ≤ 121 + 20)))
acquire_permission_proceeds_example =
    acquire_permission_proceeds two_in_ten started 1 5 121 (omega arith) (omega arith)

-- All the calls but the sixth and the seventh of the first period are permitted.
burst_proceeds :
    (r : RateLimiter) × (acquire_all burst (new_limiter (policy_of two_in_ten) 100)
      ≡ some (r, 101 ∷ 101 ∷ 110 ∷ 110 ∷ 120 ∷ 120 ∷ 130 ∷ 130 ∷ []))
unfolding acquire_all new_limiter acquire_permission quo ◌*ℤ◌ ◌+ℤ◌ ◌-ℤ◌
burst_proceeds = (
  record (new_limiter (policy_of two_in_ten) 100) { state = normal; cycle = pos 3; tokens = pos 2 },
  refl,
)

acquire_all-limit_example :
    (r : RateLimiter) × (proceeding : List ℕ) × (acquire_all burst
        (new_limiter (policy_of two_in_ten) 100)
      ≡ some (r, proceeding))
    × (sum_by (in_period two_in_ten 100 1) proceeding ≤ 2)
acquire_all-limit_example = acquire_all-limit two_in_ten 100 1 burst (omega arith)
