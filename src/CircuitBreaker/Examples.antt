-- ===== src/CircuitBreaker/Examples.antt =====
-- pkg/util/circuitbreaker/circuitbreaker.go: the theorems at concrete breakers and windows, and tests
-- of the definitions.
use easegress.Prelude.{
  ℕ, ◌+◌, ◌*◌, ◌<◌, ◌≤◌, ◌≡◌, refl, inl, ◌⊎◌, ◌↔◌, ◌/◌, true, Option, none, some, List, [], ◌∷◌,
  ◌++◌, map, false, arith,
}
use easegress.Prelude.Int.{pos}
use easegress.CircuitBreaker.Results.{CallResult, success, slow, failure, rate}
use easegress.CircuitBreaker.Rates.{rate_wraps}
use easegress.CircuitBreaker.CountWindow.{CountBasedWindow, new_count_window}
use easegress.CircuitBreaker.CountWindow
use easegress.CircuitBreaker.CountWindow.Invariant.{new_count_window-Inv}
use easegress.CircuitBreaker.CountWindow.Latest.{push_all-latest}
use easegress.CircuitBreaker.TimeWindow.{TimeBasedWindow, new_time_window, second}
use easegress.CircuitBreaker.TimeWindow
use easegress.CircuitBreaker.TimeWindow.Ring.{History}
use easegress.CircuitBreaker.TimeWindow.Sliding.{push_all-latest_calls}
use easegress.CircuitBreaker.Window
use easegress.CircuitBreaker.Window.{Window, count_based, total}
use easegress.CircuitBreaker.Breaker.{
  disabled, closed, opened, Policy, new_default_policy, CircuitBreaker, new_breaker, set_state,
  transit_to, acquire_permission, call_result, record_result,
}
use easegress.CircuitBreaker.Breaker.Invariant.{IsUsable, Inv, new_breaker-Inv}
use easegress.CircuitBreaker.Breaker.Recording.{record_result-Inv}
use easegress.CircuitBreaker.Breaker.Permission.{acquire_all, quota, acquire_all-quota}
use easegress.CircuitBreaker.Breaker.Decision.{record_result-opened_iff}
use easegress.CircuitBreaker.Breaker.System.{
  System, acquired, acquires, records, Reach, starts, steps, pending,
}
use easegress.CircuitBreaker.Breaker.Accounts.{half_open_accounts}

-- Two places, three results: the oldest leaves.
abbrev three : List CallResult
three = failure ∷ slow ∷ success ∷ []

push_all-latest_example :
    (w : CountBasedWindow) × (CountWindow.push_all (new_count_window 2) three ≡ some w)
    × (w.total ≡ 2)
    × (w.slow_count ≡ 1)
    × (w.failure_count ≡ 0)
push_all-latest_example =
    push_all-latest 2 three (omega arith) (omega arith) ((λ e. cc), ((λ e. cc), ((λ e. cc), tt)))

-- Two buckets; the first call is two seconds old when the last one comes.
abbrev calls : History
calls = (1500000000, failure) ∷ (2500000000, success) ∷ (3100000000, failure) ∷ []

push_all-latest_calls_example :
    (w : TimeBasedWindow) × (TimeWindow.push_all (new_time_window 1200000000 2) calls ≡ some w)
    × (w.total ≡ 2)
    × (w.slow_count ≡ 0)
    × (w.failure_count ≡ 1)
push_all-latest_calls_example = push_all-latest_calls 1200000000 2 calls (omega arith) (omega arith)

rate_wraps_example : (r : ℕ) × (rate 42949673 42949673 ≡ some r) × (r < 100)
rate_wraps_example = rate_wraps 42949673 (omega arith) (omega arith)

abbrev policy : Policy
policy = record {
  failure_rate_threshold = 50;
  slow_call_rate_threshold = 100;
  sliding_window_type = 0;
  sliding_window_size = 2;
  permitted_number_of_calls_in_half_open = 2;
  minimum_number_of_calls = 1;
  slow_call_duration_threshold = pos 60;
  max_wait_duration_in_half_open = pos 0;
  wait_duration_in_open = pos 10;
}

usable : IsUsable policy
usable = omega arith

abbrev at : ℕ → ℕ → ℕ
at t k = t

abbrev start : CircuitBreaker
start = new_breaker policy (at 0)

-- A call while the wait of 10 is not over, and three calls behind it, of which two are permitted.
abbrev forced_open : CircuitBreaker
forced_open = set_state opened (at 0) start

acquire_all-quota_example :
    (acquire_all ((at 5 ∷ []) ++ at 12 ∷ at 12 ∷ at 90 ∷ []) forced_open).1
    ≡ map (λ c. false) (at 5 ∷ []) ++ quota 2 (at 12 ∷ at 12 ∷ at 90 ∷ [])
unfolding set_state new_breaker transit_to
acquire_all-quota_example =
    acquire_all-quota (at 5 ∷ []) (at 12 ∷ at 90 ∷ []) (at 12) forced_open refl (omega arith)
      (refl, tt) refl (refl, (refl, (refl, tt)))

record_result-Inv_example :
    (b : CircuitBreaker) × (record_result (at 5) 1 true (pos 3) start ≡ some b) × Inv policy 5 b
record_result-Inv_example =
    record_result-Inv policy usable 0 5 (at 5) (omega arith, λ k. (omega arith, omega arith)) 1 true
      (pos 3) start
      (new_breaker-Inv policy 0 0 (at 0) usable (omega arith, λ k. (omega arith, omega arith))).0

record_result-opened_iff_example :
    (b : CircuitBreaker) × (record_result (at 5) start.state_id true (pos 3) start ≡ some b)
    × ((b.state ≡ opened) ↔ ((1 ≤ 1) × ((50 ≤ 1 * 100 / 1) ⊎ (100 ≤ 0 * 100 / 1))))
    × ((b.state ≡ opened) ⊎ (b.state ≡ closed))
unfolding new_breaker new_count_window call_result
record_result-opened_iff_example =
    record_result-opened_iff (at 5) true (pos 3) start (new_count_window 2) (λ e. cc) (λ e. cc) refl
      (new_count_window-Inv 2 (omega arith) (omega arith)) (omega arith)

abbrev off : CircuitBreaker
off = record start { state = disabled }

-- A disabled breaker permits a call, and is open after the failure of the call.
off_permits : acquire_permission (at 4) off ≡ (off, true, off.state_id)
unfolding acquire_permission
off_permits = refl

off_opens :
    (b : CircuitBreaker) × (record_result (at 5) off.state_id true (pos 3) off ≡ some b)
    × (b.state ≡ opened)
unfolding new_breaker new_count_window call_result
off_opens =
    let (b, recorded, iff, _) =
      record_result-opened_iff (at 5) true (pos 3) off (new_count_window 2) (λ e. cc) (λ e. cc) refl
        (new_count_window-Inv 2 (omega arith) (omega arith)) (omega arith) in
    (b, recorded, iff.1 (omega arith, inl (omega arith)))

-- A failure opens the breaker, and a call after the wait duration makes it half open.
abbrev made : System
made = record { breaker = start; in_flight = [] }

abbrev called : System
called = acquired (at 1) made

abbrev or_start : Option CircuitBreaker → CircuitBreaker
or_start none = start
or_start (some b) = b

abbrev failed : System
failed = record {
  breaker = or_start (record_result (at 3) 1 true (pos 2) called.breaker);
  in_flight = [];
}

abbrev trying : System
trying = acquired (at 20) failed

trying-Reach : Reach policy trying
unfolding new_breaker acquire_permission record_result CountWindow.push new_count_window Window.push
    Window.failure_rate CountWindow.failure_rate rate
trying-Reach =
    steps
      (steps (steps (starts (at 0)) (acquires made (at 1) (omega arith)))
        (records called (at 3) 0 1 true (pos 2) failed.breaker (omega arith) refl refl))
      (acquires failed (at 20) (omega arith))

half_open_accounts_example :
    (w : Window) × (trying.breaker.window ≡ some w)
    × (total w + pending trying.breaker.state_id trying.in_flight
        ≡ trying.breaker.number_of_calls_in_half_open)
    × (trying.breaker.number_of_calls_in_half_open ≤ 2)
    × (total w < 1)
    × (trying.breaker.number_of_calls_in_half_open ≡ 2
        → 0 < pending trying.breaker.state_id trying.in_flight)
unfolding new_breaker acquire_permission record_result CountWindow.push new_count_window Window.push
    Window.failure_rate CountWindow.failure_rate rate
half_open_accounts_example = half_open_accounts policy trying usable trying-Reach refl

-- The default policy is one that the theorems cover.
new_default_policy-IsUsable : IsUsable new_default_policy
unfolding new_default_policy
new_default_policy-IsUsable = omega arith
