-- ===== src/CircuitBreaker/Breaker/Recording.antt =====
-- pkg/util/circuitbreaker/circuitbreaker.go: `RecordResult` keeps a circuit breaker well formed and
-- does not panic.
use easegress.Prelude.{
  ℕ, ◌≤◌, ◌<◌, ◌≡◌, ◌≢◌, refl, inl, inr, Bool, some, arith, Bool-cases, ltb, leb, ◌==◌,
}
use easegress.Prelude.Int.{ℤ}
use easegress.CircuitBreaker.Results.{CallResult, unknown}
use easegress.CircuitBreaker.Window.{Window, total, slow_rate}
use easegress.CircuitBreaker.Window.Valid.{push-Valid, rates_some}
use easegress.CircuitBreaker.Breaker.{
  closed, opened, code, Policy, CircuitBreaker, recovery, high_failure_rate, high_slow_rate,
  transit_to, call_result, enough_calls, decide_slow, decide_failure, evaluate, record_current,
  record_result,
}
use easegress.CircuitBreaker.Breaker.Invariant.{IsUsable, Inv, Inv-later, Reads, transit_to-Inv}

pub call_result_known : (p : Policy) (e : Bool) (d : ℤ) → call_result p e d ≢ unknown
unfolding call_result
call_result_known p e d = ground arith

enough_calls_pos :
    (p : Policy) (b : CircuitBreaker) → IsUsable p → b.policy ≡ p → 0 < enough_calls b
unfolding enough_calls
enough_calls_pos p b u e = ground arith

module _ (p : Policy) (u : IsUsable p) (t t' : ℕ) (clock : ℕ → ℕ) (reads : Reads t t' clock) where
  decide_slow-Inv :
      (s r : ℕ) (b : CircuitBreaker) → Inv p s b → s ≤ t' → Inv p t' (decide_slow clock b r)
  unfolding decide_slow
  decide_slow-Inv s r b v le =
      let move = transit_to-Inv p u s t' (clock 2) le (reads.1 2).1 in
      elim (Bool-cases (leb b.policy.slow_call_rate_threshold r)) [
        | inl high ↦ rw high (move opened (high_slow_rate r) (clock 1) b v)
        | inr low ↦ elim (Bool-cases (code b.state == 2)) [
          | inl half ↦ rw (low, half) (move closed recovery (clock 1) b v)
          | inr whole ↦ rw (low, whole) (Inv-later p s t' b v le)
        ]
      ]

  decide_failure-Inv :
      (s r q : ℕ) (w : Window) (b : CircuitBreaker)
      → Inv p s b
      → s ≤ t'
      → slow_rate w ≡ some q
      → (b' : CircuitBreaker) × (decide_failure clock b w r ≡ some b') × Inv p t' b'
  unfolding decide_failure
  decide_failure-Inv s r q w b v le e = elim (Bool-cases (leb b.policy.failure_rate_threshold r)) [
    | inl high ↦ (
      transit_to opened (high_failure_rate r) (clock 1) (clock 2) b,
      rw high,
      transit_to-Inv p u s t' (clock 2) le (reads.1 2).1 opened (high_failure_rate r) (clock 1) b v,
    )
    | inr low ↦ (decide_slow clock b q, rw (low, e), decide_slow-Inv s q b v le)
  ]

  evaluate-Inv :
      (s : ℕ) (w : Window) (b : CircuitBreaker)
      → Inv p s b
      → s ≤ t'
      → (b' : CircuitBreaker) × (evaluate clock b w ≡ some b') × Inv p t' b'
  unfolding evaluate
  evaluate-Inv s w b v le = elim (Bool-cases (ltb (total w) (enough_calls b))) [
    | inl few ↦ (b, rw few, Inv-later p s t' b v le)
    | inr many ↦
        let (r, q, e, f) = rates_some w (ground (arith, enough_calls_pos p b u v.follows)) in
        let (b', decided, v') = decide_failure-Inv s r q w b v le f in
        (b', rw (many, e) decided, v')
  ]

  record_current-Inv :
      (r : CallResult) (b : CircuitBreaker)
      → r ≢ unknown
      → Inv p t b
      → (b' : CircuitBreaker) × (record_current clock r b ≡ some b') × Inv p t' b'
  unfolding record_current
  record_current-Inv r b known v =
      let (w, e, valid) = v.window in
      let (w', pushed, valid') = push-Valid t (clock 0) w r valid (reads.1 0).0 known in
      let (b', done, v') =
        evaluate-Inv (clock 0) w' (record b { window = some w' })
          (record { follows = v.follows; window = (w', refl, valid'); capped = v.capped })
          (reads.1 0).1 in
      (b', rw (e, pushed) done, v')

  -- With a usable policy, and clock readings that do not fall behind, `RecordResult` does not panic
  -- and keeps the breaker well formed, for any state's id, error and duration.
  pub record_result-Inv :
      (id : ℕ) (has_err : Bool) (d : ℤ) (b : CircuitBreaker)
      → Inv p t b
      → (b' : CircuitBreaker) × (record_result clock id has_err d b ≡ some b') × Inv p t' b'
  unfolding record_result
  record_result-Inv id has_err d b v = elim (Bool-cases (id == b.state_id)) [
    | inl current ↦
        let (b', done, v') =
          record_current-Inv (call_result b.policy has_err d) b
            (call_result_known b.policy has_err d) v in
        (b', rw current done, v')
    | inr stale ↦ (b, rw stale, Inv-later p t t' b v reads.0)
  ]
