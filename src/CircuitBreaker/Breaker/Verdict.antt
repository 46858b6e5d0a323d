-- ===== src/CircuitBreaker/Breaker/Verdict.antt =====
-- pkg/util/circuitbreaker/circuitbreaker.go: the ways in which the end of `RecordResult` can go.
use easegress.Prelude.{
  ℕ, ◌<◌, ◌≡◌, ◌≢◌, ◌⊎◌, inl, inr, some, arith, Bool-cases, Option-cases, ltb→lt, ltb→lt, ltb, leb,
  ◌==◌,
}
use easegress.CircuitBreaker.Results.{CallResult}
use easegress.CircuitBreaker.Window.{Window, total, push, failure_rate, slow_rate}
use easegress.CircuitBreaker.Breaker.{
  State, closed, half_open, opened, code, Reason, recovery, high_failure_rate, high_slow_rate,
  CircuitBreaker, transit_to, enough_calls, decide_slow, decide_failure, evaluate, record_current,
}

-- What `RecordResult` can do once the result is pushed: nothing, while the results are too few or the
-- state is not half open, or one transition, to open or to closed.
abbrev pub Verdict : (ℕ → ℕ) → CircuitBreaker → Window → CircuitBreaker → Type 0
Verdict clock b w b' =
    ((b' ≡ b) × ((total w < enough_calls b) ⊎ (b.state ≢ half_open)))
    ⊎ ((s : State) × (why : Reason) × (s ≢ half_open)
        × (b' ≡ transit_to s why (clock 1) (clock 2) b))

decide_slow-Verdict :
    (clock : ℕ → ℕ) (b b' : CircuitBreaker) (w : Window) (q : ℕ)
    → decide_slow clock b q ≡ b'
    → Verdict clock b w b'
unfolding decide_slow
decide_slow-Verdict clock b b' w q e = elim (Bool-cases (leb b.policy.slow_call_rate_threshold q)) [
  | inl high ↦ inr (opened, high_slow_rate q, (λ h. cc), ground arith)
  | inr low ↦ elim (Bool-cases (code b.state == 2)) [
    | inl half ↦ inr (closed, recovery, (λ h. cc), ground arith)
    | inr whole ↦ inl (ground arith, inr (λ h. ground arith))
  ]
]

pub evaluate-Verdict :
    (clock : ℕ → ℕ) (b b' : CircuitBreaker) (w : Window)
    → evaluate clock b w ≡ some b'
    → Verdict clock b w b'
unfolding evaluate decide_failure
evaluate-Verdict clock b b' w e = elim (Bool-cases (ltb (total w) (enough_calls b))) [
  | inl few ↦ inl (ground arith, inl (ltb→lt _ _ few))
  | inr many ↦ elim (Option-cases (failure_rate w)) [
    | inl panic ↦ ground arith
    | inr (r, rated) ↦ elim (Bool-cases (leb b.policy.failure_rate_threshold r)) [
      | inl high ↦ inr (opened, high_failure_rate r, (λ h. cc), ground arith)
      | inr low ↦ elim (Option-cases (slow_rate w)) [
        | inl panic ↦ ground arith
        | inr (q, slowly) ↦ decide_slow-Verdict clock b b' w q (ground arith)
      ]
    ]
  ]
]

pub record_current_steps :
    (clock : ℕ → ℕ) (r : CallResult) (b b' : CircuitBreaker)
    → record_current clock r b ≡ some b'
    → (w : Window) × (w' : Window) × (b.window ≡ some w)
      × (push (clock 0) w r ≡ some w')
      × (evaluate clock (record b { window = some w' }) w' ≡ some b')
unfolding record_current
record_current_steps clock r b b' e = elim (Option-cases b.window) [
  | inl nothing ↦ ground arith
  | inr (w, held) ↦ elim (Option-cases (push (clock 0) w r)) [
    | inl panic ↦ ground arith
    | inr (w', pushed) ↦ (w, w', held, pushed, ground arith)
  ]
]
