-- ===== src/CircuitBreaker/Window/Valid.antt =====
-- pkg/util/circuitbreaker/circuitbreaker.go: a window of either kind that was made by its
-- constructor and pushed into does not panic.
use Prim.Native.Nat.{max}
use easegress.Prelude.{ℕ, ◌+◌, ◌-◌, ◌*◌, ◌/◌, ◌%◌, ◌≤◌, ◌<◌, ◌≡◌, ◌≢◌, some, [], arith, u32_mod}
use easegress.CircuitBreaker.Results.{CallResult, unknown, rate}
use easegress.CircuitBreaker.CountWindow.{CountBasedWindow, new_count_window}
use easegress.CircuitBreaker.CountWindow.Invariant.{Inv, push-Inv}
use easegress.CircuitBreaker.CountWindow
use easegress.CircuitBreaker.TimeWindow.{TimeBasedWindow, new_time_window, second}
use easegress.CircuitBreaker.TimeWindow.Ring.{History, Before, Ring}
use easegress.CircuitBreaker.TimeWindow.Latest.{push-Ring}
use easegress.CircuitBreaker.TimeWindow.Sliding.{new_time_window-Ring, new_time_window-begin_at}
use easegress.CircuitBreaker.TimeWindow
use easegress.CircuitBreaker.Window.{
  Window, count_based, time_based, push, total, failure_rate, slow_rate,
}

-- The ring of a time based window at the time `t`.
pub record Timed (t : ℕ) (w : TimeBasedWindow) : Type 0 where
  pub history : History
  pub base : ℕ
  pub size : ℕ
  pub ring : Ring history base size w
  pub before : Before (base + size) history
  pub begins : w.begin_at ≡ base * second
  pub begun : base ≤ t / second

-- A window that is well formed at the time `t`.
abbrev pub Valid : ℕ → Window → Type 0
Valid t (count_based w) = Inv w
Valid t (time_based w) = Timed t w

Timed-later : (t t' : ℕ) (w : TimeBasedWindow) → Timed t w → t ≤ t' → Timed t' w
Timed-later t t' w v le = record {
  history = v.history;
  base = v.base;
  size = v.size;
  ring = v.ring;
  before = v.before;
  begins = v.begins;
  begun = omega (arith, v.begun);
}

pub Valid-later : (t t' : ℕ) (w : Window) → Valid t w → t ≤ t' → Valid t' w
Valid-later t t' (count_based w) v le = v
Valid-later t t' (time_based w) v le = Timed-later t t' w v le

pub new_time_window-Timed : (now size : ℕ) → 0 < size → Timed now (new_time_window now size)
new_time_window-Timed now size h = record {
  history = [];
  base = now / second;
  size = size;
  ring = new_time_window-Ring now (now / second) size h;
  before = tt;
  begins = new_time_window-begin_at now size;
  begun = omega arith;
}

push-Timed :
    (t now : ℕ) (w : TimeBasedWindow) (r : CallResult)
    → Timed t w
    → t ≤ now
    → (w' : TimeBasedWindow) × (TimeWindow.push now w r ≡ some w') × Timed now w'
push-Timed t now w r v le =
    let (w', e, ring, before, begins) =
      push-Ring v.history v.base v.size now r w v.ring v.before v.begins (omega (arith, v.begun)) in
    let fits : 0 < v.size = omega (arith, v.ring.first_fits) in
    (
      w',
      e,
      record {
        history = _;
        base = max v.base (now / second + 1 - v.size);
        size = v.size;
        ring = ring;
        before = before;
        begins = begins;
        begun = omega (arith, v.begun);
      },
    )

-- `Push` does not panic, and the window stays well formed.
pub push-Valid :
    (t now : ℕ) (w : Window) (r : CallResult)
    → Valid t w
    → t ≤ now
    → r ≢ unknown
    → (w' : Window) × (push now w r ≡ some w') × Valid now w'
unfolding push
push-Valid t now (count_based w) r v le known =
    let (w', e, v', same, at) = push-Inv w r v known in (count_based w', rw e, v')
push-Valid t now (time_based w) r v le known =
    let (w', e, v') = push-Timed t now w r v le in (time_based w', rw e, v')

rate-some : (part total : ℕ) → 0 < total → (r : ℕ) × (rate part total ≡ some r)
unfolding rate
rate-some part total h = (part * 100 % u32_mod / total % 256, ground arith)

-- A window that is not empty has both rates.
pub rates_some :
    (w : Window)
    → 0 < total w
    → (r : ℕ) × (s : ℕ) × (failure_rate w ≡ some r) × (slow_rate w ≡ some s)
unfolding failure_rate slow_rate CountWindow.failure_rate CountWindow.slow_rate
    TimeWindow.failure_rate TimeWindow.slow_rate
rates_some (count_based w) h =
    let (r, e) = rate-some w.failure_count w.total h in
    let (s, f) = rate-some w.slow_count w.total h in (r, s, e, f)
rates_some (time_based w) h =
    let (r, e) = rate-some w.failure_count w.total h in
    let (s, f) = rate-some w.slow_count w.total h in (r, s, e, f)
