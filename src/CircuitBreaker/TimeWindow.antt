-- ===== src/CircuitBreaker/TimeWindow.antt =====
-- pkg/util/circuitbreaker/circuitbreaker.go: `TimeBasedWindow`, a ring of one bucket for each of
-- the latest seconds. A time is the number of nanoseconds since the zero time, and `nowFunc()` is an
-- argument. `none` is a Go panic. The counters are `uint32` and wrap.
pub mod Ring
pub mod Evict
pub mod Latest
pub mod Sliding
use easegress.Prelude.{
  ℕ, zero, suc, ◌+◌, ◌-◌, ◌*◌, ◌/◌, ◌%◌, Bool, Option, none, some, ◌>>=◌, List, [], ◌∷◌, length,
  get_elem?, set, replicate, inc32, sub32, ltb, leb, ◌==◌, if◌then◌else◌,
}
use easegress.Prelude.Int.{ℤ, pos, negsuc, negate, ◌+ℤ◌}
use easegress.CircuitBreaker.Results.{CallResult, unknown, success, slow, failure, rate}

pub record TimeBucket : Type 0 where
  pub total : ℕ
  pub slow_count : ℕ
  pub failure_count : ℕ

abbrev pub empty_bucket : TimeBucket
empty_bucket = record { total = 0; slow_count = 0; failure_count = 0 }

pub record TimeBasedWindow : Type 0 where
  pub total : ℕ
  pub slow_count : ℕ
  pub failure_count : ℕ
  pub begin_at : ℕ
  pub first_bucket : ℕ
  pub bucket : List TimeBucket

-- `time.Second`
abbrev pub second : ℕ
second = 1000000000

-- `NewTimeBasedWindow`; the window begins at `nowFunc().Truncate(time.Second)`.
unfoldable pub new_time_window : ℕ → ℕ → TimeBasedWindow
new_time_window now size = record {
  total = 0;
  slow_count = 0;
  failure_count = 0;
  begin_at = now - now % second;
  first_bucket = 0;
  bucket = replicate size empty_bucket;
}

-- `Reset`
unfoldable pub reset : ℕ → TimeBasedWindow → TimeBasedWindow
unfolding new_time_window
reset now w = new_time_window now (length w.bucket)

-- `int(now.Sub(beginAt) / time.Second)`, negative when the clock was set back.
pub seconds_since : ℕ → ℕ → ℤ
seconds_since now begin =
    if leb begin now then pos ((now - begin) / second) else negate ((begin - now) / second)

-- One round of the loop of `evict`: the first bucket leaves the counters and is emptied.
pub evict_first : TimeBasedWindow → TimeBucket → TimeBasedWindow
evict_first w b = record w {
  total = sub32 w.total b.total;
  slow_count = sub32 w.slow_count b.slow_count;
  failure_count = sub32 w.failure_count b.failure_count;
  bucket = set w.bucket w.first_bucket empty_bucket;
  first_bucket = suc w.first_bucket % length w.bucket;
}

pub evict_loop : ℕ → TimeBasedWindow → Option TimeBasedWindow
unfolding evict_first
evict_loop zero w = some w
evict_loop (suc n) w = get_elem? w.bucket w.first_bucket >>= λ b. evict_loop n (evict_first w b)

-- The rest of `evict` for a number of seconds that is not negative.
pub evict_for : ℕ → TimeBasedWindow → Option TimeBasedWindow
evict_for seconds w =
    let size = length w.bucket in
    let evicts = seconds - size + 1 in
    let moved = record w { begin_at = w.begin_at + evicts * second } in
    if ltb seconds size then some w else evict_loop (if ltb size evicts then size else evicts) moved

-- `evict`; a negative number of seconds is less than the size of the window.
unfoldable pub evict : ℕ → TimeBasedWindow → Option TimeBasedWindow
unfolding seconds_since evict_for
evict now w = elim (seconds_since now w.begin_at) [
  | pos seconds ↦ evict_for seconds w
  | negsuc _ ↦ some w
]

-- `idx %= len(bucket)` and the access at `idx`: a zero length panics, and so does a negative index.
pub ring_index : ℤ → ℕ → Option ℕ
ring_index (pos n) len = if len == 0 then none else some (n % len)
ring_index (negsuc n) len = if len == 0 then none else if suc n % len == 0 then some 0 else none

-- What a result adds to the window and to its bucket.
pub count_window : CallResult → TimeBasedWindow → TimeBasedWindow
count_window slow w = record w { total = inc32 w.total; slow_count = inc32 w.slow_count }
count_window failure w = record w { total = inc32 w.total; failure_count = inc32 w.failure_count }
count_window _ w = record w { total = inc32 w.total }

pub count_bucket : CallResult → TimeBucket → TimeBucket
count_bucket slow b = record b { total = inc32 b.total; slow_count = inc32 b.slow_count }
count_bucket failure b = record b { total = inc32 b.total; failure_count = inc32 b.failure_count }
count_bucket _ b = record b { total = inc32 b.total }

-- The part of `Push` behind `evict`.
pub record_at : ℕ → CallResult → TimeBasedWindow → Option TimeBasedWindow
unfolding ring_index seconds_since count_window count_bucket ◌+ℤ◌
record_at now r w = do
  idx ← ring_index (pos w.first_bucket +ℤ seconds_since now w.begin_at) (length w.bucket)
  b ← get_elem? w.bucket idx
  some (record (count_window r w) { bucket = set w.bucket idx (count_bucket r b) })

-- `Push`
unfoldable pub push : ℕ → TimeBasedWindow → CallResult → Option TimeBasedWindow
unfolding evict record_at
push now w r = evict now w >>= λ w'. record_at now r w'

-- `FailureRate` and `SlowRate`
unfoldable pub failure_rate : TimeBasedWindow → Option ℕ
failure_rate w = rate w.failure_count w.total

unfoldable pub slow_rate : TimeBasedWindow → Option ℕ
slow_rate w = rate w.slow_count w.total

-- A run of results with the times of their pushes.
unfoldable pub push_all : TimeBasedWindow → List (ℕ × CallResult) → Option TimeBasedWindow
push_all w [] = some w
push_all w ((now, r) ∷ es) = push now w r >>= λ w'. push_all w' es
