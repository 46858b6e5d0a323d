-- ===== src/CircuitBreaker/Window.antt =====
-- pkg/util/circuitbreaker/circuitbreaker.go: the interface `Window`, as the sum of its two
-- implementations, and what the circuit breaker relies on.
pub mod Valid
use easegress.Prelude.{
  ℕ, zero, suc, ◌+◌, ◌*◌, ◌/◌, ◌≤◌, ◌<◌, ◌≡◌, refl, Option, none, some, ◌>>=◌, arith,
}
use easegress.CircuitBreaker.Results.{CallResult}
use easegress.CircuitBreaker.CountWindow.{CountBasedWindow}
use easegress.CircuitBreaker.CountWindow
use easegress.CircuitBreaker.TimeWindow.{TimeBasedWindow}
use easegress.CircuitBreaker.TimeWindow

pub data Window : Type 0 where
  count_based : CountBasedWindow → Window
  time_based : TimeBasedWindow → Window

-- `Push`; `now` is what `nowFunc()` returns, which only the time based window calls.
unfoldable pub push : ℕ → Window → CallResult → Option Window
push now (count_based w) r = CountWindow.push w r >>= λ w'. some (count_based w')
push now (time_based w) r = TimeWindow.push now w r >>= λ w'. some (time_based w')

-- `Total`
abbrev pub total : Window → ℕ
total (count_based w) = w.total
total (time_based w) = w.total

-- `FailureRate` and `SlowRate`
unfoldable pub failure_rate : Window → Option ℕ
failure_rate (count_based w) = CountWindow.failure_rate w
failure_rate (time_based w) = TimeWindow.failure_rate w

unfoldable pub slow_rate : Window → Option ℕ
slow_rate (count_based w) = CountWindow.slow_rate w
slow_rate (time_based w) = TimeWindow.slow_rate w
