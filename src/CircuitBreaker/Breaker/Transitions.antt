-- ===== src/CircuitBreaker/Breaker/Transitions.antt =====
-- pkg/util/circuitbreaker/circuitbreaker.go: what `transitTo` leaves behind, whatever it started
-- from.
use easegress.Prelude.{ℕ, ◌≡◌, ◌≢◌, ◌⊎◌, some, arith, inc32}
use easegress.CircuitBreaker.CountWindow.{new_count_window}
use easegress.CircuitBreaker.Window.{count_based}
use easegress.CircuitBreaker.Breaker.{
  State, closed, half_open, code, Reason, CircuitBreaker, enter, notify, transit_to,
}

pub code_injective : (s s' : State) → code s ≡ code s' → s ≡ s'
code_injective s s' e = ground arith

-- The breaker is in the new state, under its old policy. If that is the old state nothing at all has
-- changed, and otherwise the id is the next one.
pub transit_to_lem :
    (s : State) (why : Reason) (now later : ℕ) (b : CircuitBreaker)
    → let b' = transit_to s why now later b in
      (b'.state ≡ s)
      × (b'.policy ≡ b.policy)
      × ((b.state ≡ s) × (b' ≡ b) ⊎ (b.state ≢ s) × (b'.state_id ≡ inc32 b.state_id))
unfolding transit_to enter notify
transit_to_lem closed why now later b = ground arith
transit_to_lem s why now later b = ground arith

-- The change to half open starts with an empty window for as many results as calls are permitted.
pub transit_to-half_open :
    (s : State) (why : Reason) (now later : ℕ) (b : CircuitBreaker)
    → s ≡ half_open
    → b.state ≢ s
    → let b' = transit_to s why now later b in
      (b'.window
        ≡ some (count_based (new_count_window b.policy.permitted_number_of_calls_in_half_open)))
      × (b'.number_of_calls_in_half_open ≡ 0)
unfolding transit_to enter notify
transit_to-half_open half_open why now later b e ne = ground arith
transit_to-half_open s why now later b e ne = cc
