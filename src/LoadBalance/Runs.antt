-- ===== src/LoadBalance/Runs.antt =====
-- pkg/filters/proxies/loadbalance.go: a server under a row of equal results of its health checks.
use easegress.Prelude.{
  ℕ, zero, suc, ◌+◌, ◌≤◌, ◌<◌, ◌≡◌, ◌∙◌, Bool, true, false, arith, leb, ltb, dec_lt,
}
use easegress.Prelude.Int.{pos, pos_part, neg_part, ◌+ℤ◌, ◌-ℤ◌}
use easegress.LoadBalance.{Health, HealthCheckSpec, check_server}

abbrev pub limits : ℕ → ℕ → HealthCheckSpec
limits fails passes = record { fails = pos fails; passes = pos passes }

-- `n` checks with the same result.
abbrev pub check_times : HealthCheckSpec → Bool → ℕ → Health → Health
check_times spec ok zero h = h
check_times spec ok (suc n) h = (check_server spec ok (check_times spec ok n h)).0

failed_lem :
    (fails passes : ℕ) (h : Health)
    → (neg_part (check_server (limits fails passes) false h).0.health_counter
        ≡ suc (neg_part h.health_counter))
      × (fails ≤ suc (neg_part h.health_counter)
          → (check_server (limits fails passes) false h).0.unhealth ≡ true)
unfolding check_server ◌-ℤ◌
failed_lem fails passes h = (ground arith, λ le. ground arith)

passed_lem :
    (fails passes : ℕ) (h : Health)
    → (pos_part (check_server (limits fails passes) true h).0.health_counter
        ≡ suc (pos_part h.health_counter))
      × (passes ≤ suc (pos_part h.health_counter)
          → (check_server (limits fails passes) true h).0.unhealth ≡ false)
unfolding check_server ◌+ℤ◌
passed_lem fails passes h = (ground arith, λ le. ground arith)

failed_times :
    (fails passes n : ℕ) (h : Health)
    → n ≤ neg_part (check_times (limits fails passes) false n h).health_counter
failed_times fails passes zero h = omega arith
failed_times fails passes (suc n) h = omega (
  arith,
  failed_times fails passes n h,
  (failed_lem fails passes (check_times (limits fails passes) false n h)).0,
)

passed_times :
    (fails passes n : ℕ) (h : Health)
    → n ≤ pos_part (check_times (limits fails passes) true n h).health_counter
passed_times fails passes zero h = omega arith
passed_times fails passes (suc n) h = omega (
  arith,
  passed_times fails passes n h,
  (passed_lem fails passes (check_times (limits fails passes) true n h)).0,
)

failed_early :
    (fails passes : ℕ) (h : Health)
    → suc (neg_part h.health_counter) < fails
    → h.unhealth ≡ false
    → (check_server (limits fails passes) false h).0.unhealth ≡ false
unfolding check_server ◌-ℤ◌
failed_early fails passes h early e = rw e (ground arith)

passed_early :
    (fails passes : ℕ) (h : Health)
    → suc (pos_part h.health_counter) < passes
    → h.unhealth ≡ true
    → (check_server (limits fails passes) true h).0.unhealth ≡ true
unfolding check_server ◌+ℤ◌
passed_early fails passes h early e = rw e (ground arith)

failed_exactly :
    (fails passes n : ℕ) (h : Health)
    → neg_part (check_times (limits fails passes) false n h).health_counter
      ≡ n + neg_part h.health_counter
failed_exactly fails passes zero h = omega arith
failed_exactly fails passes (suc n) h = omega (
  arith,
  failed_exactly fails passes n h,
  (failed_lem fails passes (check_times (limits fails passes) false n h)).0,
)

passed_exactly :
    (fails passes n : ℕ) (h : Health)
    → pos_part (check_times (limits fails passes) true n h).health_counter
      ≡ n + pos_part h.health_counter
passed_exactly fails passes zero h = omega arith
passed_exactly fails passes (suc n) h = omega (
  arith,
  passed_exactly fails passes n h,
  (passed_lem fails passes (check_times (limits fails passes) true n h)).0,
)

failed_below :
    (fails passes n : ℕ) (h : Health)
    → n < fails
    → neg_part h.health_counter ≡ 0
    → h.unhealth ≡ false
    → (check_times (limits fails passes) false n h).unhealth ≡ false
failed_below fails passes zero h early fresh e = e
failed_below fails passes (suc n) h early fresh e =
    failed_early fails passes (check_times (limits fails passes) false n h)
      (omega (arith, failed_exactly fails passes n h))
      (failed_below fails passes n h (omega arith) fresh e)

passed_below :
    (fails passes n : ℕ) (h : Health)
    → n < passes
    → pos_part h.health_counter ≡ 0
    → h.unhealth ≡ true
    → (check_times (limits fails passes) true n h).unhealth ≡ true
passed_below fails passes zero h early fresh e = e
passed_below fails passes (suc n) h early fresh e =
    passed_early fails passes (check_times (limits fails passes) true n h)
      (omega (arith, passed_exactly fails passes n h))
      (passed_below fails passes n h (omega arith) fresh e)

-- A healthy server whose last check did not fail, or that was not checked yet, is unhealthy after `n`
-- failed checks in a row exactly if `n` is at least the spec's positive `fails`.
pub check_times_failed :
    (fails passes n : ℕ) (h : Health)
    → 0 < fails
    → neg_part h.health_counter ≡ 0
    → h.unhealth ≡ false
    → (check_times (limits fails passes) false n h).unhealth ≡ leb fails n
check_times_failed fails passes zero h some_fail fresh e = e ∙ ground arith
check_times_failed fails passes (suc n) h some_fail fresh e = elim (dec_lt (suc n) fails) [
  | yes early ↦ failed_below fails passes (suc n) h early fresh e ∙ ground arith
  | no late ↦
      let (_, turns) = failed_lem fails passes (check_times (limits fails passes) false n h) in
      turns (omega (arith, failed_times fails passes n h)) ∙ ground arith
]

-- An unhealthy server whose last check did not pass is unhealthy after `n` passed checks in a row
-- exactly if `n` is less than the spec's positive `passes`.
pub check_times_passed :
    (fails passes n : ℕ) (h : Health)
    → 0 < passes
    → pos_part h.health_counter ≡ 0
    → h.unhealth ≡ true
    → (check_times (limits fails passes) true n h).unhealth ≡ ltb n passes
check_times_passed fails passes zero h some_pass fresh e = e ∙ ground arith
check_times_passed fails passes (suc n) h some_pass fresh e = elim (dec_lt (suc n) passes) [
  | yes early ↦ passed_below fails passes (suc n) h early fresh e ∙ ground arith
  | no late ↦
      let (_, turns) = passed_lem fails passes (check_times (limits fails passes) true n h) in
      turns (omega (arith, passed_times fails passes n h)) ∙ ground arith
]
