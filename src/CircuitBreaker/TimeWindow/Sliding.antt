-- ===== src/CircuitBreaker/TimeWindow/Sliding.antt =====
-- pkg/util/circuitbreaker/circuitbreaker.go: what the counters of the time based window are after a
-- run of pushes, said of the pushes alone.
use Prim.Native.Nat.{max}
use mathlib.Core.List.{append_assoc, append-nil}
use easegress.Prelude.{
  ℕ, zero, suc, ◌+◌, ◌-◌, ◌*◌, ◌/◌, ◌%◌, ◌≤◌, ◌<◌, ◌≡◌, refl, sym, ap, subst, ◌∙◌, some, [], ◌∷◌,
  ◌++◌, arith, sum_by, sum_by-rotate, sum_by-replicate, replicate, length-replicate, tabulate,
  u32_mod, leb, ltb, if◌then◌else◌,
}
use easegress.CircuitBreaker.Results.{CallResult}
use easegress.CircuitBreaker.TimeWindow.{
  TimeBucket, TimeBasedWindow, empty_bucket, second, new_time_window, push_all,
}
use easegress.CircuitBreaker.TimeWindow.Ring.{
  History, any, is_slow, is_failure, calls_in, bucket_at, Before, Ring,
}
use easegress.CircuitBreaker.TimeWindow.Latest.{push-Ring}

-- The calls of the second `base` and later.
abbrev calls_from : (CallResult → ℕ) → ℕ → History → ℕ
calls_from m base h = sum_by (λ e. if ltb (e.0 / second) base then 0 else m e.1) h

calls_from_end : (m : CallResult → ℕ) (n : ℕ) (h : History) → Before n h → calls_from m n h ≡ 0
calls_from_end m n [] b = refl
calls_from_end m n (e ∷ h) (now, rest) = ground (arith, calls_from_end m n h rest)

calls_from_split :
    (m : CallResult → ℕ) (n : ℕ) (h : History)
    → calls_from m n h ≡ calls_in m n h + calls_from m (suc n) h
calls_from_split m n [] = omega arith
calls_from_split m n (e ∷ h) = ground (arith, calls_from_split m n h)

-- The buckets of consecutive seconds add up to the calls from the first of them on.
sum_by-tabulate :
    (f : TimeBucket → ℕ) (m : CallResult → ℕ) (h : History) (base n : ℕ)
    → ((s : ℕ) → f (bucket_at h s) ≡ calls_in m s h % u32_mod)
    → Before (base + n) h
    → sum_by f (tabulate (bucket_at h) base n) % u32_mod ≡ calls_from m base h % u32_mod
sum_by-tabulate f m h base zero e b =
    rw (calls_from_end m base h (subst (λ k. Before k h) {x = base + 0} (omega arith) b))
sum_by-tabulate f m h base (suc n) e b = omega (
  arith,
  e base,
  calls_from_split m base h,
  sum_by-tabulate f m h (suc base) n e (subst (λ k. Before k h) {x = base + suc n} (omega arith) b),
)

-- The times of the pushes do not fall.
abbrev pub Rising : ℕ → History → Type 0
Rising t [] = Unit
Rising t ((now, r) ∷ es) = (t ≤ now) × Rising now es

abbrev pub end_time : ℕ → History → ℕ
end_time t [] = t
end_time t ((now, r) ∷ es) = end_time now es

push_all-Ring :
    (start size last : ℕ) (h es : History) (w : TimeBasedWindow)
    → let base = max start (last / second + 1 - size) in
      let base' = max start (end_time last es / second + 1 - size) in
      Ring h base size w
      → Before (base + size) h
      → w.begin_at ≡ base * second
      → start ≤ last / second
      → Rising last es
      → (w' : TimeBasedWindow) × (push_all w es ≡ some w')
        × Ring (h ++ es) base' size w'
        × Before (base' + size) (h ++ es)
unfolding push_all
push_all-Ring start size last h [] w v b at le up = (w, refl, rw append-nil v, rw append-nil b)
push_all-Ring start size last h ((now, r) ∷ es) w v b at le (up, rest) =
    let base = max start (last / second + 1 - size) in
    let (u, pushed, v', b', at') =
      push-Ring h base size now r w v b at (omega (arith, v.first_fits)) in
    let same : max base (now / second + 1 - size) ≡ max start (now / second + 1 - size) =
      omega arith in
    let (w', all, v'', b'') =
      push_all-Ring start size now (h ++ (now, r) ∷ []) es u
        (subst (λ k. Ring (h ++ (now, r) ∷ []) k size u) same v')
        (subst (λ k. Before (k + size) (h ++ (now, r) ∷ [])) same b')
        (at' ∙ ap (λ k. k * second) same) (omega arith) rest in
    (w', rw pushed all, rw append_assoc at v'', rw append_assoc at b'')

-- The calls that are not older than `size` seconds, the current one included.
abbrev pub latest_calls : (CallResult → ℕ) → ℕ → ℕ → History → ℕ
latest_calls m size now es =
    sum_by (λ e. if leb (e.0 / second + size) (now / second) then 0 else m e.1) es

latest_calls_lem :
    (m : CallResult → ℕ) (start size now last : ℕ) (es : History)
    → start ≤ last / second
    → Rising last es
    → calls_from m (max start (now / second + 1 - size)) es ≡ latest_calls m size now es
latest_calls_lem m start size now last [] le up = refl
latest_calls_lem m start size now last ((t, r) ∷ es) le (up, rest) =
    ground (arith, latest_calls_lem m start size now t es (omega arith) rest)

tabulate_nothing : (base n : ℕ) → tabulate (bucket_at []) base n ≡ replicate n empty_bucket
tabulate_nothing base zero = refl
tabulate_nothing base (suc n) = ap (◌∷◌ empty_bucket) (tabulate_nothing (suc base) n)

pub new_time_window-Ring :
    (now base size : ℕ) → 0 < size → Ring [] base size (new_time_window now size)
unfolding new_time_window
new_time_window-Ring now base size h = record {
  sized = length-replicate size empty_bucket;
  first_fits = h;
  shape = append-nil (replicate size empty_bucket) ∙ sym (tabulate_nothing base size);
  totals = rw (sum_by-replicate (λ b. b.total) size empty_bucket refl);
  slows = rw (sum_by-replicate (λ b. b.slow_count) size empty_bucket refl);
  failures = rw (sum_by-replicate (λ b. b.failure_count) size empty_bucket refl);
}

pub new_time_window-begin_at :
    (now size : ℕ) → (new_time_window now size).begin_at ≡ now / second * second
unfolding new_time_window
new_time_window-begin_at now size = omega arith

-- A counter of the window as a count of the pushes.
counter-latest_calls :
    (f : TimeBucket → ℕ) (m : CallResult → ℕ) (created size t : ℕ) (es : History)
    (w : TimeBasedWindow)
    → let base = max (created / second) (end_time created es / second + 1 - size) in
      Ring es base size w
      → Before (base + size) es
      → Rising created es
      → ((s : ℕ) → f (bucket_at es s) ≡ calls_in m s es % u32_mod)
      → t ≡ sum_by f w.bucket % u32_mod
      → t ≡ latest_calls m size (end_time created es) es % u32_mod
counter-latest_calls f m created size t es w v b up e h =
    let base = max (created / second) (end_time created es / second + 1 - size) in
    h
    ∙ ap (λ k. k % u32_mod) (sym (sum_by-rotate f w.first_bucket w.bucket) ∙ ap (sum_by f) v.shape)
    ∙ sum_by-tabulate f m es base size e b
    ∙ ap (λ k. k % u32_mod)
        (latest_calls_lem m (created / second) size (end_time created es) created es (omega arith)
          up)

-- A new window of any positive size into which results were pushed at times that do not fall: no
-- push panics, and the window counts, modulo 2^32, the results of the latest `size` seconds, all of
-- them, the slow ones and the failures.
pub push_all-latest_calls :
    (created size : ℕ) (es : History)
    → 0 < size
    → Rising created es
    → let now = end_time created es in
      (w : TimeBasedWindow) × (push_all (new_time_window created size) es ≡ some w)
      × (w.total ≡ latest_calls any size now es % u32_mod)
      × (w.slow_count ≡ latest_calls is_slow size now es % u32_mod)
      × (w.failure_count ≡ latest_calls is_failure size now es % u32_mod)
push_all-latest_calls created size es h up =
    let base = max (created / second) (created / second + 1 - size) in
    let same : created / second ≡ base = omega arith in
    let (w, all, v, b) =
      push_all-Ring (created / second) size created [] es (new_time_window created size)
        (new_time_window-Ring created base size h) tt
        (new_time_window-begin_at created size ∙ ap (λ k. k * second) same) (omega arith) up in
    (
      w,
      all,
      counter-latest_calls (λ c. c.total) any created size w.total es w v b up (λ s. refl) v.totals,
      counter-latest_calls (λ c. c.slow_count) is_slow created size w.slow_count es w v b up
          (λ s. refl) v.slows,
      counter-latest_calls (λ c. c.failure_count) is_failure created size w.failure_count es w v b
          up (λ s. refl) v.failures,
    )
