-- ===== src/CircuitBreaker/TimeWindow/Latest.antt =====
-- pkg/util/circuitbreaker/circuitbreaker.go: the time based window counts the calls of the latest
-- seconds, as many as it has buckets.
use Prim.Native.Nat.{max}
use easegress.Prelude.{
  ℕ, ◌+◌, ◌-◌, ◌*◌, ◌/◌, ◌%◌, ◌≤◌, ◌<◌, ◌≡◌, ◌≢◌, sym, ap, ◌∙◌, some, List, [], ◌∷◌, ◌++◌, arith,
  length, get_elem?, set, length-set, sum_by, sum_by-append, sum_by-set, rotate, rotate-set,
  get_elem?-rotate, tabulate, get_elem?-tabulate, set-tabulate, u32_mod,
}
use easegress.Prelude.Int.{pos, ◌+ℤ◌}
use easegress.CircuitBreaker.Results.{CallResult, slow}
use easegress.CircuitBreaker.TimeWindow.{
  TimeBucket, TimeBasedWindow, second, count_bucket, count_window, record_at, push, ring_index,
}
use easegress.CircuitBreaker.TimeWindow.Ring.{
  History, any, is_slow, is_failure, in_second, calls_in, bucket_at, Before, Ring,
}
use easegress.CircuitBreaker.TimeWindow.Evict.{Before-mono, seconds_since_lem, evict-Ring}

-- A result adds one to the counters that its kind has, in the window and in the bucket alike.
calls_in_snoc :
    (m : CallResult → ℕ) (s now : ℕ) (r : CallResult) (h : History)
    → calls_in m s (h ++ (now, r) ∷ []) ≡ calls_in m s h + in_second m s (now, r)
calls_in_snoc m s now r h = omega (arith, sum_by-append (in_second m s) h ((now, r) ∷ []))

bucket_at_other :
    (h : History) (now j : ℕ) (r : CallResult)
    → j ≢ now / second
    → bucket_at h j ≡ bucket_at (h ++ (now, r) ∷ []) j
bucket_at_other h now j r ne =
    rw
      (
        calls_in_snoc any j now r h,
        calls_in_snoc is_slow j now r h,
        calls_in_snoc is_failure j now r h,
      )
      (ground arith)

bucket_at_now :
    (h : History) (now j : ℕ) (r : CallResult)
    → j ≡ now / second
    → count_bucket r (bucket_at h j) ≡ bucket_at (h ++ (now, r) ∷ []) j
unfolding count_bucket
bucket_at_now h now j slow e =
    rw
      (
        calls_in_snoc any j now slow h,
        calls_in_snoc is_slow j now slow h,
        calls_in_snoc is_failure j now slow h,
      )
      (ground arith)
bucket_at_now h now j r e =
    rw
      (
        calls_in_snoc any j now r h,
        calls_in_snoc is_slow j now r h,
        calls_in_snoc is_failure j now r h,
      )
      (ground arith)

Before-snoc :
    (n now : ℕ) (r : CallResult) (h : History)
    → Before n h
    → now / second < n
    → Before n (h ++ (now, r) ∷ [])
Before-snoc n now r [] b lt = (lt, tt)
Before-snoc n now r (e ∷ h) (one, rest) lt = (one, Before-snoc n now r h rest lt)

-- The counters of the window after a result.
record Counted (w u : TimeBasedWindow) (r : CallResult) : Type 0 where
  bucket : u.bucket ≡ w.bucket
  first : u.first_bucket ≡ w.first_bucket
  begin : u.begin_at ≡ w.begin_at
  totals : u.total ≡ (w.total + any r) % u32_mod
  slows : (w.slow_count < u32_mod) → u.slow_count ≡ (w.slow_count + is_slow r) % u32_mod
  failures :
      (w.failure_count < u32_mod) → u.failure_count ≡ (w.failure_count + is_failure r) % u32_mod

count_window-Counted : (w : TimeBasedWindow) (r : CallResult) → Counted w (count_window r w) r
unfolding count_window
count_window-Counted w slow = ground arith
count_window-Counted w r = ground arith

sum_counts :
    (f : TimeBucket → ℕ) (bs : List TimeBucket) (i t d : ℕ) (b b' : TimeBucket)
    → get_elem? bs i ≡ some b
    → f b' ≡ (f b + d) % u32_mod
    → t ≡ sum_by f bs % u32_mod
    → (t + d) % u32_mod ≡ sum_by f (set bs i b') % u32_mod
sum_counts f bs i t d b b' e one h = omega (arith, sum_by-set f bs i b b' e)

count_bucket_adds :
    (r : CallResult) (b : TimeBucket)
    → b.slow_count < u32_mod
    → b.failure_count < u32_mod
    → ((count_bucket r b).total ≡ (b.total + any r) % u32_mod)
      × ((count_bucket r b).slow_count ≡ (b.slow_count + is_slow r) % u32_mod)
      × ((count_bucket r b).failure_count ≡ (b.failure_count + is_failure r) % u32_mod)
unfolding count_bucket
count_bucket_adds slow b p q = ground arith
count_bucket_adds r b p q = ground arith

ring_index_lem :
    (first s n : ℕ) → 0 < n → ring_index (pos first +ℤ pos s) n ≡ some ((first + s) % n)
unfolding ring_index ◌+ℤ◌
ring_index_lem first s n h = ground arith

module _ (h : History) (base size now : ℕ) (r : CallResult) (w : TimeBasedWindow)
    (v : Ring h base size w) (at : w.begin_at ≡ base * second) (le : base ≤ now / second)
    (lt : now / second < base + size) where
  -- Where the result goes: the place `s` behind the first bucket, and the bucket's new value.
  abbrev s : ℕ
  s = now / second - base

  abbrev idx : ℕ
  idx = (w.first_bucket + s) % length w.bucket

  abbrev added : TimeBucket
  added = count_bucket r (bucket_at h (base + s))

  abbrev recorded : TimeBasedWindow
  recorded = record (count_window r w) { bucket = set w.bucket idx added }

  recorded_bucket : get_elem? w.bucket idx ≡ some (bucket_at h (base + s))
  recorded_bucket =
      sym (
        get_elem?-rotate w.first_bucket s w.bucket (omega (arith, v.first_fits, v.sized))
          (omega (arith, v.sized)))
      ∙ ap (λ l. get_elem? l s) v.shape
      ∙ get_elem?-tabulate (bucket_at h) base size s (omega arith)

  recorded_shape :
      rotate recorded.first_bucket recorded.bucket
      ≡ tabulate (bucket_at (h ++ (now, r) ∷ [])) base size
  recorded_shape = rw (count_window-Counted w r).first (
      rotate-set w.first_bucket s w.bucket added (omega (arith, v.first_fits, v.sized))
        (omega (arith, v.sized))
      ∙ ap (λ l. set l s added) v.shape
      ∙ ap (set (tabulate (bucket_at h) base size) s)
          (bucket_at_now h now (base + s) r (omega arith))
      ∙ set-tabulate (bucket_at h) (bucket_at (h ++ (now, r) ∷ [])) base size s
          (λ j ne. bucket_at_other h now j r (omega arith)))

  recorded-Ring : Ring (h ++ (now, r) ∷ []) base size recorded
  recorded-Ring =
      let c = count_window-Counted w r in
      let e = recorded_bucket in
      let adds = count_bucket_adds r (bucket_at h (base + s)) (omega arith) (omega arith) in
      record {
        sized = length-set w.bucket idx added ∙ v.sized;
        first_fits = rw c.first v.first_fits;
        shape = recorded_shape;
        totals =
            c.totals
            ∙ sum_counts (λ x. x.total) w.bucket idx w.total (any r) _ added e adds.0 v.totals;
        slows =
            c.slows (omega (arith, v.slows))
            ∙ sum_counts (λ x. x.slow_count) w.bucket idx w.slow_count (is_slow r) _ added e adds.1
                v.slows;
        failures =
            c.failures (omega (arith, v.failures))
            ∙ sum_counts (λ x. x.failure_count) w.bucket idx w.failure_count (is_failure r) _ added
                e adds.2 v.failures;
      }

  -- A result recorded at a second of the window joins the calls of that second.
  record_at-Ring :
      (w' : TimeBasedWindow) × (record_at now r w ≡ some w')
      × Ring (h ++ (now, r) ∷ []) base size w'
      × (w'.begin_at ≡ base * second)
  unfolding record_at
  record_at-Ring = (
    recorded,
    rw
        (
          seconds_since_lem now w.begin_at base at le,
          ring_index_lem w.first_bucket s (length w.bucket) (omega (arith, v.sized)),
          record_at,
        )
        (rw recorded_bucket),
    recorded-Ring,
    (count_window-Counted w r).begin ∙ at,
  )

-- `Push` at a time that is not before the window's begin.
pub push-Ring :
    (h : History) (base size now : ℕ) (r : CallResult) (w : TimeBasedWindow)
    → Ring h base size w
    → Before (base + size) h
    → w.begin_at ≡ base * second
    → base ≤ now / second
    → let base' = max base (now / second + 1 - size) in
      (w' : TimeBasedWindow) × (push now w r ≡ some w')
      × Ring (h ++ (now, r) ∷ []) base' size w'
      × Before (base' + size) (h ++ (now, r) ∷ [])
      × (w'.begin_at ≡ base' * second)
unfolding push
push-Ring h base size now r w v b at le =
    let base' = max base (now / second + 1 - size) in
    let (u, gone, v', at') = evict-Ring h base size now w v b at le in
    let (w', placed, v'', at'') =
      record_at-Ring h base' size now r u v' at' (omega (arith, v.first_fits)) (omega arith) in
    let b' = Before-mono (base + size) (base' + size) h b (omega arith) in
    (w', rw (gone, push) placed, v'', Before-snoc (base' + size) now r h b' (omega arith), at'')
