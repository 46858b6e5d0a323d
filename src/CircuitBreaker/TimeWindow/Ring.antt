-- ===== src/CircuitBreaker/TimeWindow/Ring.antt =====
-- pkg/util/circuitbreaker/circuitbreaker.go: what the ring of the time based window holds, second by
-- second, of a history of calls.
use easegress.Prelude.{
  ℕ, suc, ◌+◌, ◌/◌, ◌%◌, ◌≤◌, ◌<◌, ◌≡◌, refl, sym, ap, ◌∙◌, some, List, [], ◌∷◌, arith, length,
  get_elem?, set, drop, length-set, sum_by, sum_by-set, rotate, rotate_step, tabulate,
  tabulate_snoc, All, u32_mod, sub32, ◌==◌, if◌then◌else◌,
}
use native.Mathlib.Nat.{mod-lt}
use easegress.CircuitBreaker.Results.{CallResult, slow, failure}
use easegress.CircuitBreaker.TimeWindow.{
  TimeBucket, TimeBasedWindow, empty_bucket, second, evict_first,
}

-- Calls with the time of their results, in the order of the pushes.
abbrev pub History : Type 0
History = List (ℕ × CallResult)

abbrev pub any : CallResult → ℕ
any r = 1

abbrev pub is_slow : CallResult → ℕ
is_slow slow = 1
is_slow _ = 0

abbrev pub is_failure : CallResult → ℕ
is_failure failure = 1
is_failure _ = 0

-- What the calls of one second add up to.
abbrev pub in_second : (CallResult → ℕ) → ℕ → ℕ × CallResult → ℕ
in_second m s e = if e.0 / second == s then m e.1 else 0

abbrev pub calls_in : (CallResult → ℕ) → ℕ → History → ℕ
calls_in m s h = sum_by (in_second m s) h

abbrev pub bucket_at : History → ℕ → TimeBucket
bucket_at h s = record {
  total = calls_in any s h % u32_mod;
  slow_count = calls_in is_slow s h % u32_mod;
  failure_count = calls_in is_failure s h % u32_mod;
}

-- No call is later than the second before `n`.
abbrev pub Before : ℕ → History → Type 0
Before n h = All (λ e. e.0 / second < n) h

calls_in_after :
    (m : CallResult → ℕ) (n s : ℕ) (h : History) → Before n h → n ≤ s → calls_in m s h ≡ 0
calls_in_after m n s [] b k = refl
calls_in_after m n s (e ∷ h) (now, rest) k = ground (arith, calls_in_after m n s h rest k)

pub bucket_at_after : (n s : ℕ) (h : History) → Before n h → n ≤ s → bucket_at h s ≡ empty_bucket
bucket_at_after n s h b k = rw (
  calls_in_after any n s h b k,
  calls_in_after is_slow n s h b k,
  calls_in_after is_failure n s h b k,
)

-- The ring holds, from its first bucket on, the calls of the seconds from `base` on, and the
-- counters are the sums of its buckets.
pub record Ring (h : History) (base size : ℕ) (w : TimeBasedWindow) : Type 0 where
  pub sized : length w.bucket ≡ size
  pub first_fits : w.first_bucket < size
  pub shape : rotate w.first_bucket w.bucket ≡ tabulate (bucket_at h) base size
  pub totals : w.total ≡ sum_by (λ b. b.total) w.bucket % u32_mod
  pub slows : w.slow_count ≡ sum_by (λ b. b.slow_count) w.bucket % u32_mod
  pub failures : w.failure_count ≡ sum_by (λ b. b.failure_count) w.bucket % u32_mod

-- A counter from which an emptied bucket is taken is still the sum of the buckets, although both
-- may have wrapped.
sub32-sum_by :
    (f : TimeBucket → ℕ) (bs : List TimeBucket) (i t : ℕ) (b : TimeBucket)
    → get_elem? bs i ≡ some b
    → f empty_bucket ≡ 0
    → f b < u32_mod
    → t ≡ sum_by f bs % u32_mod
    → sub32 t (f b) ≡ sum_by f (set bs i empty_bucket) % u32_mod
sub32-sum_by f bs i t b e z lt h = omega (arith, sum_by-set f bs i b empty_bucket e)

pub evict_first-Ring :
    (h : History) (base n : ℕ) (w : TimeBasedWindow) (b : TimeBucket)
    → Ring h base (suc n) w
    → Before (base + suc n) h
    → get_elem? w.bucket w.first_bucket ≡ some b
    → Ring h (suc base) (suc n) (evict_first w b)
unfolding evict_first
evict_first-Ring h base n w b v before e =
    let (held, moved) = rotate_step w.bucket w.first_bucket b empty_bucket e in
    let here : b ≡ bucket_at h base = cc (v.shape, held) in
    let rest : drop 1 (rotate w.first_bucket w.bucket) ≡ tabulate (bucket_at h) (suc base) n =
      ap (drop 1) v.shape in
    let free : bucket_at h (suc base + n) ≡ empty_bucket =
      bucket_at_after (base + suc n) (suc base + n) h before (omega arith) in
    record {
      sized = length-set w.bucket w.first_bucket empty_bucket ∙ v.sized;
      first_fits =
          omega (arith, mod-lt (suc w.first_bucket) {m = length w.bucket} (omega arith), v.sized);
      shape = moved ∙ rw (rest, ← free) (sym (tabulate_snoc (bucket_at h) (suc base) n));
      totals =
          sub32-sum_by (λ c. c.total) w.bucket w.first_bucket w.total b e refl
            (rw here (omega arith)) v.totals;
      slows =
          sub32-sum_by (λ c. c.slow_count) w.bucket w.first_bucket w.slow_count b e refl
            (rw here (omega arith)) v.slows;
      failures =
          sub32-sum_by (λ c. c.failure_count) w.bucket w.first_bucket w.failure_count b e refl
            (rw here (omega arith)) v.failures;
    }
