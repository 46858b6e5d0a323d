-- ===== src/CircuitBreaker/Results.antt =====
-- pkg/util/circuitbreaker/circuitbreaker.go: the results of calls, and the rate that both windows
-- compute from their counters.
use easegress.Prelude.{ℕ, ◌*◌, ◌/◌, ◌%◌, Option, none, some, u32_mod, ◌==◌, if◌then◌else◌}

-- `CallResultUnknown` is the value of a bucket that nothing was written to.
pub data CallResult : Type 0 where
  unknown success slow failure : CallResult

-- `uint8(part * 100 / total)` over `uint32`: the product wraps, and a zero total panics.
unfoldable pub rate : ℕ → ℕ → Option ℕ
rate part total = if total == 0 then none else some (part * 100 % u32_mod / total % 256)
