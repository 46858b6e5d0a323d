-- ===== src/CircuitBreaker/CountWindow/Invariant.antt =====
-- pkg/util/circuitbreaker/circuitbreaker.go: the counters of the count based window agree with its
-- buckets.
use easegress.Prelude.{
  ℕ, ◌+◌, ◌≤◌, ◌<◌, ◌≡◌, ◌≢◌, refl, some, arith, length, get_elem?, set, length-set,
  length-replicate, sum_by, sum_by-set, sum_by-replicate, sum_by-le_length, le_sum_by,
  get_elem?-some, u32_mod,
}
use easegress.CircuitBreaker.Results.{CallResult, unknown, success, slow, failure}
use easegress.CircuitBreaker.CountWindow.{
  CountBasedWindow, new_count_window, evict, admit, place, push,
}

-- What a result adds to each counter.
abbrev pub is_recorded : CallResult → ℕ
is_recorded unknown = 0
is_recorded _ = 1

abbrev pub is_slow : CallResult → ℕ
is_slow slow = 1
is_slow _ = 0

abbrev pub is_failure : CallResult → ℕ
is_failure failure = 1
is_failure _ = 0

pub record Inv (w : CountBasedWindow) : Type 0 where
  pub index_fits : w.bucket_idx < length w.bucket
  pub size_fits : length w.bucket < u32_mod
  pub total_counts : w.total ≡ sum_by is_recorded w.bucket
  pub slow_counts : w.slow_count ≡ sum_by is_slow w.bucket
  pub failure_counts : w.failure_count ≡ sum_by is_failure w.bucket

pub new_count_window-Inv : (size : ℕ) → 0 < size → size < u32_mod → Inv (new_count_window size)
unfolding new_count_window
new_count_window-Inv size h k = record {
  index_fits = omega (arith, length-replicate size unknown);
  size_fits = omega (arith, length-replicate size unknown);
  total_counts = omega (arith, sum_by-replicate is_recorded size unknown refl);
  slow_counts = omega (arith, sum_by-replicate is_slow size unknown refl);
  failure_counts = omega (arith, sum_by-replicate is_failure size unknown refl);
}

is_recorded_le : (r : CallResult) → is_recorded r ≤ 1
is_recorded_le r = ground arith

is_slow_le : (r : CallResult) → is_slow r ≤ 1
is_slow_le r = ground arith

is_failure_le : (r : CallResult) → is_failure r ≤ 1
is_failure_le r = ground arith

-- The buckets and the index after a push, and the counters before they wrap.
record Fields (w u : CountBasedWindow) (r old : CallResult) : Type 0 where
  buckets : u.bucket ≡ w.bucket
  index : u.bucket_idx ≡ w.bucket_idx
  totals : u.total + is_recorded old ≡ w.total + 1
  slows : u.slow_count + is_slow old ≡ w.slow_count + is_slow r
  failures : u.failure_count + is_failure old ≡ w.failure_count + is_failure r

exchange-Fields :
    (w : CountBasedWindow) (r old : CallResult)
    → w.total + 1 < u32_mod + is_recorded old
    → w.slow_count + is_slow r < u32_mod + is_slow old
    → w.failure_count + is_failure r < u32_mod + is_failure old
    → is_recorded old ≤ w.total
    → is_slow old ≤ w.slow_count
    → is_failure old ≤ w.failure_count
    → Fields w (admit r (evict old w)) r old
unfolding admit evict
exchange-Fields w success old a b c d f g = ground arith
exchange-Fields w r unknown a b c d f g = ground arith
exchange-Fields w r old a b c d f g = ground arith

pub is_recorded_known : (r : CallResult) → r ≢ unknown → is_recorded r ≡ 1
is_recorded_known r h = ground arith

-- A push of a result keeps the counters right.
placed-Inv :
    (w : CountBasedWindow) (r old : CallResult)
    → Inv w
    → r ≢ unknown
    → get_elem? w.bucket w.bucket_idx ≡ some old
    → Inv (place r (admit r (evict old w)))
unfolding place
placed-Inv w r old v known e =
    let one = is_recorded_known r known in
    let a = sum_by-set is_recorded w.bucket w.bucket_idx old r e in
    let b = sum_by-set is_slow w.bucket w.bucket_idx old r e in
    let c = sum_by-set is_failure w.bucket w.bucket_idx old r e in
    let len = length-set w.bucket w.bucket_idx r in
    let a' = sum_by-le_length is_recorded (set w.bucket w.bucket_idx r) is_recorded_le in
    let b' = sum_by-le_length is_slow (set w.bucket w.bucket_idx r) is_slow_le in
    let c' = sum_by-le_length is_failure (set w.bucket w.bucket_idx r) is_failure_le in
    let f : Fields w (admit r (evict old w)) r old =
      exchange-Fields w r old (omega arith) (omega arith) (omega arith)
        (omega (arith, le_sum_by is_recorded w.bucket w.bucket_idx old e))
        (omega (arith, le_sum_by is_slow w.bucket w.bucket_idx old e))
        (omega (arith, le_sum_by is_failure w.bucket w.bucket_idx old e)) in
    rw (f.buckets, f.index)
      (record {
        index_fits = ground arith;
        size_fits = omega arith;
        total_counts = omega arith;
        slow_counts = omega arith;
        failure_counts = omega arith;
      })

placed-place :
    (w : CountBasedWindow) (r old : CallResult)
    → ((place r (admit r (evict old w))).bucket ≡ (place r w).bucket)
      × ((place r (admit r (evict old w))).bucket_idx ≡ (place r w).bucket_idx)
unfolding place admit evict
placed-place w success old = ground arith
placed-place w r unknown = ground arith
placed-place w r old = ground arith

-- On a well formed window `Push` does not panic, and leaves a well formed window: the index is back
-- in the ring and the counters count the buckets. The ring itself moves as `place` says.
pub push-Inv :
    (w : CountBasedWindow) (r : CallResult)
    → Inv w
    → r ≢ unknown
    → (w' : CountBasedWindow) × (push w r ≡ some w')
      × Inv w'
      × (w'.bucket ≡ (place r w).bucket)
      × (w'.bucket_idx ≡ (place r w).bucket_idx)
unfolding push
push-Inv w r v known =
    let (old, e) = get_elem?-some w.bucket w.bucket_idx v.index_fits in
    let (same, at) = placed-place w r old in
    (place r (admit r (evict old w)), rw e, placed-Inv w r old v known e, same, at)
