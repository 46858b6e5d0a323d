-- ===== src/CircuitBreaker/CountWindow.antt =====
-- pkg/util/circuitbreaker/circuitbreaker.go: `CountBasedWindow`, a ring of the latest call results
-- with counters that are kept up to date. `none` is a Go panic (an index out of range, a division
-- by zero). The counters are `uint32` and wrap.
pub mod Invariant
pub mod Latest
pub mod Filling
use easegress.Prelude.{
  ℕ, suc, ◌+◌, Option, none, some, ◌>>=◌, List, [], ◌∷◌, length, get_elem?, set, replicate, inc32,
  dec32, leb, if◌then◌else◌,
}
use easegress.CircuitBreaker.Results.{CallResult, unknown, success, slow, failure, rate}

pub record CountBasedWindow : Type 0 where
  pub total : ℕ
  pub slow_count : ℕ
  pub failure_count : ℕ
  pub bucket_idx : ℕ
  pub bucket : List CallResult

-- `NewCountBasedWindow`
unfoldable pub new_count_window : ℕ → CountBasedWindow
new_count_window size = record {
  total = 0;
  slow_count = 0;
  failure_count = 0;
  bucket_idx = 0;
  bucket = replicate size unknown;
}

-- `Reset`
unfoldable pub reset : CountBasedWindow → CountBasedWindow
unfolding new_count_window
reset w = new_count_window (length w.bucket)

-- The first `switch` of `Push`: the result that stood in the bucket leaves the counters.
pub evict : CallResult → CountBasedWindow → CountBasedWindow
evict unknown w = w
evict success w = record w { total = dec32 w.total }
evict slow w = record w { slow_count = dec32 w.slow_count; total = dec32 w.total }
evict failure w = record w { failure_count = dec32 w.failure_count; total = dec32 w.total }

-- `total++` and the second `switch` of `Push`.
pub admit : CallResult → CountBasedWindow → CountBasedWindow
admit slow w = record w { total = inc32 w.total; slow_count = inc32 w.slow_count }
admit failure w = record w { total = inc32 w.total; failure_count = inc32 w.failure_count }
admit _ w = record w { total = inc32 w.total }

-- The last lines of `Push`: the result is stored and the index steps round the ring.
pub place : CallResult → CountBasedWindow → CountBasedWindow
place r w =
    let next = suc w.bucket_idx in
    record w {
      bucket = set w.bucket w.bucket_idx r;
      bucket_idx = if leb (length w.bucket) next then 0 else next;
    }

-- `Push`
unfoldable pub push : CountBasedWindow → CallResult → Option CountBasedWindow
unfolding evict admit place
push w r = do old ← get_elem? w.bucket w.bucket_idx; some (place r (admit r (evict old w)))

-- `FailureRate` and `SlowRate`
unfoldable pub failure_rate : CountBasedWindow → Option ℕ
failure_rate w = rate w.failure_count w.total

unfoldable pub slow_rate : CountBasedWindow → Option ℕ
slow_rate w = rate w.slow_count w.total

-- A run of results pushed one after another.
unfoldable pub push_all : CountBasedWindow → List CallResult → Option CountBasedWindow
push_all w [] = some w
push_all w (r ∷ rs) = push w r >>= λ w'. push_all w' rs
