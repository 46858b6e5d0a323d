-- ===== src/CircuitBreaker/Rates.antt =====
-- pkg/util/circuitbreaker/circuitbreaker.go: the percentages that the windows report.
use easegress.Prelude.{ℕ, ◌*◌, ◌/◌, ◌≤◌, ◌<◌, ◌≡◌, ◌%◌, some, arith, u32_mod}
use native.Mathlib.Nat.{div-le_of_le-mul, div-lt_iff_lt-mul}
use easegress.CircuitBreaker.Results.{rate}

-- While a hundredfold of the counter fits into 32 bits, the rate of a part of a total is the whole
-- percentage, rounded down, and at most 100.
pub rate_exact :
    (part total : ℕ)
    → part ≤ total
    → 0 < total
    → part * 100 < u32_mod
    → (rate part total ≡ some (part * 100 / total)) × (part * 100 / total ≤ 100)
unfolding rate
rate_exact part total h k b =
    let same : part * 100 % u32_mod ≡ part * 100 = omega arith in
    let small : part * 100 / total ≤ 100 = div-le_of_le-mul total (omega arith) in
    (rw same (ground (arith, small)), small)

rate_small :
    (n : ℕ)
    → u32_mod ≤ n * 100
    → n * 100 % u32_mod / n < 100
    → rate n n ≡ some (n * 100 % u32_mod / n)
unfolding rate
rate_small n h less = ground arith

-- A window in which all calls failed, 42949673 or more of them and fewer than 2^32, reports a failure
-- rate below 100 per cent.
pub rate_wraps :
    (n : ℕ) → u32_mod ≤ n * 100 → n < u32_mod → (r : ℕ) × (rate n n ≡ some r) × (r < 100)
rate_wraps n h k =
    let less : n * 100 % u32_mod / n < 100 = (div-lt_iff_lt-mul (omega arith)).1 (omega arith) in
    (n * 100 % u32_mod / n, rate_small n h less, less)
