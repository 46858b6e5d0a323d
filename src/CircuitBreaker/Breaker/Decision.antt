-- ===== src/CircuitBreaker/Breaker/Decision.antt =====
-- pkg/util/circuitbreaker/circuitbreaker.go: when a permission is given, when a closed circuit
-- breaker opens, and what becomes of a disabled one.
use Prim.Native.Nat.{◌*◌, ◌/◌}
use easegress.Prelude.{
  ℕ, ◌≤◌, ◌<◌, ◌≡◌, ◌≢◌, refl, sym, ap, ◌∙◌, ◌⊎◌, ◌↔◌, inl, inr, Bool, true, false, some, List, [],
  ◌∷◌, ◌++◌, drop, arith, Bool-cases, ltb, leb, u32_mod, ◌==◌, sum_by, sum_by-append, sum_by-rotate,
  length, length-append, length-drop, sum_by-le_length,
}
use easegress.Prelude.Int.{ℤ}
use easegress.CircuitBreaker.Results.{CallResult}
use easegress.CircuitBreaker.Rates.{rate_exact}
use easegress.CircuitBreaker.CountWindow.{CountBasedWindow}
use easegress.CircuitBreaker.CountWindow
use easegress.CircuitBreaker.CountWindow.Invariant.{
  Inv, is_recorded, is_slow, is_failure, is_recorded_known,
}
use easegress.CircuitBreaker.CountWindow.Latest.{chronicle, chronicle-length, push-chronicle}
use easegress.CircuitBreaker.Window.{Window, count_based, total, push, failure_rate, slow_rate}
use easegress.CircuitBreaker.Breaker.{
  half_open, opened, code, high_failure_rate, high_slow_rate, Policy, CircuitBreaker, transit_to,
  call_result, enough_calls, decide_slow, decide_failure, evaluate, record_result,
}
use easegress.CircuitBreaker.Breaker.Recording.{call_result_known}
use easegress.CircuitBreaker.Breaker.Transitions.{transit_to_lem}

-- The thresholds that a closed breaker opens at, for `n` results of which `f` failed and `s` were
-- slow.
abbrev Trips : Policy → ℕ → ℕ → ℕ → Type 0
Trips p n f s =
    (p.minimum_number_of_calls ≤ n)
    × ((p.failure_rate_threshold ≤ f * 100 / n) ⊎ (p.slow_call_rate_threshold ≤ s * 100 / n))

-- The end of `RecordResult` in a state that is neither half open nor open.
evaluate_closed :
    (clock : ℕ → ℕ) (b : CircuitBreaker) (w : Window) (n f s : ℕ)
    → (code b.state == 2) ≡ false
    → b.state ≢ opened
    → total w ≡ n
    → failure_rate w ≡ some (f * 100 / n)
    → slow_rate w ≡ some (s * 100 / n)
    → (b' : CircuitBreaker) × (evaluate clock b w ≡ some b')
      × ((b'.state ≡ opened) ↔ Trips b.policy n f s)
      × ((b'.state ≡ opened) ⊎ (b'.state ≡ b.state))
unfolding evaluate decide_failure decide_slow enough_calls
evaluate_closed clock b w n f s whole shut size fails slows =
    elim (Bool-cases (ltb n b.policy.minimum_number_of_calls)) [
      | inl few ↦ (b, rw (whole, size, few), (λ h. absurd (shut h), λ h. ground arith), inr refl)
      | inr many ↦ elim (Bool-cases (leb b.policy.failure_rate_threshold (f * 100 / n))) [
        | inl high ↦
            let (to, _, _) =
              transit_to_lem opened (high_failure_rate (f * 100 / n)) (clock 1) (clock 2) b in
            (
              transit_to opened (high_failure_rate (f * 100 / n)) (clock 1) (clock 2) b,
              rw (whole, size, many, fails) (rw high),
              (λ h. ground arith, λ h. to),
              inl to,
            )
        | inr low ↦ elim (Bool-cases (leb b.policy.slow_call_rate_threshold (s * 100 / n))) [
          | inl high ↦
              let (to, _, _) =
                transit_to_lem opened (high_slow_rate (s * 100 / n)) (clock 1) (clock 2) b in
              (
                transit_to opened (high_slow_rate (s * 100 / n)) (clock 1) (clock 2) b,
                rw (whole, size, many, fails) (rw (low, slows) (rw high)),
                (λ h. ground arith, λ h. to),
                inl to,
              )
          | inr fast ↦ (
            b,
            rw (whole, size, many, fails) (rw (low, slows) (rw fast)),
            (λ h. absurd (shut h), λ h. ground arith),
            inr refl,
          )
        ]
      ]
    ]

-- The results in the window after one more result.
abbrev shifted : CountBasedWindow → CallResult → List CallResult
shifted w r = drop 1 (chronicle w) ++ r ∷ []

is_failure_le : (r : CallResult) → is_failure r ≤ is_recorded r
is_failure_le r = ground arith

is_slow_le : (r : CallResult) → is_slow r ≤ is_recorded r
is_slow_le r = ground arith

is_recorded_le : (r : CallResult) → is_recorded r ≤ 1
is_recorded_le r = ground arith

sum_by-le :
    (f g : CallResult → ℕ) (rs : List CallResult)
    → ((r : CallResult) → f r ≤ g r)
    → sum_by f rs ≤ sum_by g rs
sum_by-le f g [] h = omega arith
sum_by-le f g (r ∷ rs) h = omega (arith, h r, sum_by-le f g rs h)

-- Both rates of a well formed count based window that is small enough for 32 bits.
rates_of :
    (w : CountBasedWindow) (rs : List CallResult)
    → Inv w
    → chronicle w ≡ rs
    → length w.bucket * 100 < u32_mod
    → 0 < sum_by is_recorded rs
    → (w.total ≡ sum_by is_recorded rs)
      × (CountWindow.failure_rate w ≡ some (sum_by is_failure rs * 100 / sum_by is_recorded rs))
      × (CountWindow.slow_rate w ≡ some (sum_by is_slow rs * 100 / sum_by is_recorded rs))
unfolding CountWindow.failure_rate CountWindow.slow_rate
rates_of w rs v e small some_recorded =
    let all : w.total ≡ sum_by is_recorded rs =
      v.total_counts
      ∙ sym (sum_by-rotate is_recorded w.bucket_idx w.bucket)
      ∙ ap (sum_by is_recorded) e in
    let fails : w.failure_count ≡ sum_by is_failure rs =
      v.failure_counts
      ∙ sym (sum_by-rotate is_failure w.bucket_idx w.bucket)
      ∙ ap (sum_by is_failure) e in
    let slows : w.slow_count ≡ sum_by is_slow rs =
      v.slow_counts ∙ sym (sum_by-rotate is_slow w.bucket_idx w.bucket) ∙ ap (sum_by is_slow) e in
    let fits : sum_by is_recorded rs ≤ length w.bucket =
      omega (arith, all, v.total_counts, sum_by-le_length is_recorded w.bucket is_recorded_le) in
    let f = sum_by-le is_failure is_recorded rs is_failure_le in
    let s = sum_by-le is_slow is_recorded rs is_slow_le in
    (
      all,
      rw (fails, all) (rate_exact _ _ f some_recorded (omega arith)).0,
      rw (slows, all) (rate_exact _ _ s some_recorded (omega arith)).0,
    )

window_rates :
    (w : CountBasedWindow)
    → (failure_rate (count_based w) ≡ CountWindow.failure_rate w)
      × (slow_rate (count_based w) ≡ CountWindow.slow_rate w)
unfolding failure_rate slow_rate
window_rates w = (refl, refl)

record_result_run :
    (clock : ℕ → ℕ) (has_err : Bool) (d : ℤ) (b b' : CircuitBreaker) (w w' : CountBasedWindow)
    → b.window ≡ some (count_based w)
    → CountWindow.push w (call_result b.policy has_err d) ≡ some w'
    → evaluate clock (record b { window = some (count_based w') }) (count_based w') ≡ some b'
    → record_result clock b.state_id has_err d b ≡ some b'
unfolding record_result push
record_result_run clock has_err d b b' w w' held pushed done =
    let same : (b.state_id == b.state_id) ≡ true = ground arith in rw (same, held) (rw pushed done)

-- A breaker that is neither half open nor open, with a count based window of at most 42949672 places,
-- to which a call of this state brings its result: `RecordResult` does not panic, and afterwards the
-- breaker is open exactly if the results in the window, the new one included, are as many as the
-- policy's minimum and reach the threshold of the failures or that of the slow calls; otherwise it is
-- in the state that it was in.
pub record_result-opened_iff :
    (clock : ℕ → ℕ) (has_err : Bool) (d : ℤ) (b : CircuitBreaker) (w : CountBasedWindow)
    → b.state ≢ half_open
    → b.state ≢ opened
    → b.window ≡ some (count_based w)
    → Inv w
    → length w.bucket * 100 < u32_mod
    → let rs = shifted w (call_result b.policy has_err d) in
      (b' : CircuitBreaker) × (record_result clock b.state_id has_err d b ≡ some b')
      × ((b'.state ≡ opened)
          ↔ Trips b.policy (sum_by is_recorded rs) (sum_by is_failure rs) (sum_by is_slow rs))
      × ((b'.state ≡ opened) ⊎ (b'.state ≡ b.state))
record_result-opened_iff clock has_err d b w whole shut held v small =
    let r = call_result b.policy has_err d in
    let known = call_result_known b.policy has_err d in
    let (w', pushed, v', moved) = push-chronicle w r v known in
    let some_recorded : 0 < sum_by is_recorded (shifted w r) = omega (
      arith,
      sum_by-append is_recorded (drop 1 (chronicle w)) (r ∷ []),
      is_recorded_known r known,
    ) in
    let same_size : length w'.bucket ≡ length w.bucket = omega (
      arith,
      chronicle-length w,
      chronicle-length w',
      ap length moved,
      length-append (drop 1 (chronicle w)) (r ∷ []),
      length-drop 1 (chronicle w),
      v.index_fits,
    ) in
    let (all, fails, slows) =
      rates_of w' (shifted w r) v' moved (rw same_size small) some_recorded in
    let (b', done, iff, either) =
      evaluate_closed clock (record b { window = some (count_based w') }) (count_based w')
        (sum_by is_recorded (shifted w r)) (sum_by is_failure (shifted w r))
        (sum_by is_slow (shifted w r)) (ground arith) shut all ((window_rates w').0 ∙ fails)
        ((window_rates w').1 ∙ slows) in
    (b', record_result_run clock has_err d b b' w w' held pushed done, iff, either)
