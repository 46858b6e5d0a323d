-- ===== src/CircuitBreaker/Breaker.antt =====
-- pkg/util/circuitbreaker/circuitbreaker.go: `CircuitBreaker`. Each operation holds the lock from
-- its first access to its last, so it is one function on the breaker's state. `clock` holds
-- what the calls of `nowFunc()` within the operation return, numbered as they stand in the source, in
-- nanoseconds. A duration is an integer.
-- `none` is a Go panic. The goroutine of the listener is the list of the events it is started with.
pub mod Invariant
pub mod Recording
pub mod Transitions
pub mod System
pub mod HalfOpen
pub mod Verdict
pub mod Accounts
pub mod Permission
pub mod Decision
use easegress.Prelude.{
  ℕ, ◌+◌, ◌-◌, ◌<◌, Bool, true, false, ◌&&◌, Option, none, some, ◌>>=◌, List, [], ◌∷◌, ltb, leb,
  ◌==◌, if◌then◌else◌, inc32,
}
use easegress.Prelude.Int.{ℤ, pos, sub_ℕ, ltb_ℤ}
use easegress.CircuitBreaker.Results.{CallResult, success, slow, failure}
use easegress.CircuitBreaker.CountWindow.{new_count_window}
use easegress.CircuitBreaker.TimeWindow.{new_time_window}
use easegress.CircuitBreaker.Window.{
  Window, count_based, time_based, push, total, failure_rate, slow_rate,
}

pub data State : Type 0 where
  disabled closed half_open opened force_open : State

-- The values of the `State` constants, by which Go compares them.
abbrev pub code : State → ℕ
code disabled = 0
code closed = 1
code half_open = 2
code opened = 3
code force_open = 4

-- The reasons of the transitions; the two rates are printed into the source's texts.
pub data Reason : Type 0 where
  initialization force_transition wait_elapsed max_wait_elapsed recovery : Reason
  high_failure_rate high_slow_rate : ℕ → Reason

pub record Policy : Type 0 where
  pub failure_rate_threshold : ℕ  -- uint8
  pub slow_call_rate_threshold : ℕ  -- uint8
  pub sliding_window_type : ℕ  -- uint8; 0 is `CountBased`
  pub sliding_window_size : ℕ  -- uint32
  pub permitted_number_of_calls_in_half_open : ℕ  -- uint32
  pub minimum_number_of_calls : ℕ  -- uint32
  pub slow_call_duration_threshold : ℤ
  pub max_wait_duration_in_half_open : ℤ
  pub wait_duration_in_open : ℤ

-- `NewDefaultPolicy`; `time.Minute` is 60000000000 nanoseconds.
unfoldable pub new_default_policy : Policy
new_default_policy = record {
  failure_rate_threshold = 50;
  slow_call_rate_threshold = 100;
  sliding_window_type = 0;
  sliding_window_size = 100;
  permitted_number_of_calls_in_half_open = 10;
  minimum_number_of_calls = 100;
  slow_call_duration_threshold = pos 60000000000;
  max_wait_duration_in_half_open = pos 0;
  wait_duration_in_open = pos 60000000000;
}

pub record Event : Type 0 where
  pub time : ℕ
  pub old_state : State
  pub new_state : State
  pub reason : Reason

pub record CircuitBreaker : Type 0 where
  pub policy : Policy
  pub state : State
  pub transit_time : ℕ
  pub window : Option Window
  pub number_of_calls_in_half_open : ℕ  -- uint32
  pub state_id : ℕ  -- uint32
  pub has_listener : Bool
  pub events : List Event

-- The windows that `transitTo` makes: at the change to closed by the policy's type, at the change to
-- half open always count based, with the counter of the permitted calls set back.
enter : State → ℕ → CircuitBreaker → CircuitBreaker
enter closed now b =
    let size = b.policy.sliding_window_size in
    record b {
      window = some (
          if b.policy.sliding_window_type == 0
          then count_based (new_count_window size)
          else time_based (new_time_window now size));
    }
enter half_open now b = record b {
  window = some (count_based (new_count_window b.policy.permitted_number_of_calls_in_half_open));
  number_of_calls_in_half_open = 0;
}
enter _ now b = b

notify : State → State → Reason → CircuitBreaker → CircuitBreaker
notify old new why b =
    let e : Event = record {
      time = b.transit_time;
      old_state = old;
      new_state = new;
      reason = why;
    } in
    if b.has_listener then record b { events = e ∷ b.events } else b

-- `transitTo`; `now` is read for the time of the transition and `later` for a new time based window.
unfoldable pub transit_to : State → Reason → ℕ → ℕ → CircuitBreaker → CircuitBreaker
unfolding enter notify
transit_to new why now later b =
    let moved = record b { state = new; transit_time = now; state_id = inc32 b.state_id } in
    if code new == code b.state then b else notify b.state new why (enter new later moved)

-- `&CircuitBreaker{policy: policy}`: the zero values are the state disabled and no window.
abbrev zero_breaker : Policy → CircuitBreaker
zero_breaker p = record {
  policy = p;
  state = disabled;
  transit_time = 0;
  window = none;
  number_of_calls_in_half_open = 0;
  state_id = 0;
  has_listener = false;
  events = [];
}

-- `New`
unfoldable pub new_breaker : Policy → (ℕ → ℕ) → CircuitBreaker
unfolding transit_to
new_breaker p clock = transit_to closed initialization (clock 0) (clock 1) (zero_breaker p)

-- `SetState`
unfoldable pub set_state : State → (ℕ → ℕ) → CircuitBreaker → CircuitBreaker
unfolding transit_to
set_state s clock b = transit_to s force_transition (clock 0) (clock 1) b

-- `SetStateListener`
unfoldable pub set_state_listener : Bool → CircuitBreaker → CircuitBreaker
set_state_listener l b = record b { has_listener = l }

-- `nowFunc().Sub(t)`
abbrev pub since : ℕ → ℕ → ℤ
since t now = sub_ℕ now t

-- The last part of `AcquirePermission`, in the state half open.
half_open_permission : (ℕ → ℕ) → CircuitBreaker → CircuitBreaker × Bool
half_open_permission clock b =
    let calls = b.number_of_calls_in_half_open in
    let wait = b.policy.max_wait_duration_in_half_open in
    if ltb calls b.policy.permitted_number_of_calls_in_half_open
    then (record b { number_of_calls_in_half_open = inc32 calls }, true)
    else if ltb_ℤ (pos 0) wait && ltb_ℤ wait (since b.transit_time (clock 2))
    then (transit_to opened max_wait_elapsed (clock 3) (clock 4) b, false)
    else (b, false)

open_permission : (ℕ → ℕ) → CircuitBreaker → CircuitBreaker × Bool
open_permission clock b =
    if ltb_ℤ (since b.transit_time (clock 0)) b.policy.wait_duration_in_open
    then (b, false)
    else half_open_permission clock (transit_to half_open wait_elapsed (clock 1) (clock 2) b)

permission : State → (ℕ → ℕ) → CircuitBreaker → CircuitBreaker × Bool
permission disabled clock b = (b, true)
permission force_open clock b = (b, false)
permission closed clock b = (b, true)
permission opened clock b = open_permission clock b
permission half_open clock b = half_open_permission clock b

-- `AcquirePermission`: the breaker, whether the call is permitted, and the state's id.
unfoldable pub acquire_permission : (ℕ → ℕ) → CircuitBreaker → CircuitBreaker × Bool × ℕ
unfolding permission open_permission half_open_permission transit_to
acquire_permission clock b =
    let (b', permitted) = permission b.state clock b in (b', permitted, b'.state_id)

-- The result that `RecordResult` computes from the error and the duration of a call.
unfoldable pub call_result : Policy → Bool → ℤ → CallResult
call_result p has_err d =
    if has_err then failure else if ltb_ℤ d p.slow_call_duration_threshold then success else slow

-- How many results `RecordResult` waits for.
unfoldable pub enough_calls : CircuitBreaker → ℕ
enough_calls b =
    let least = b.policy.minimum_number_of_calls in
    let permitted = b.policy.permitted_number_of_calls_in_half_open in
    if code b.state == 2 && ltb permitted least then permitted else least

-- The `if` at the end of `RecordResult`. The slow rate is asked for only if the failure rate passes.
decide_slow : (ℕ → ℕ) → CircuitBreaker → ℕ → CircuitBreaker
decide_slow clock b r =
    if leb b.policy.slow_call_rate_threshold r
    then transit_to opened (high_slow_rate r) (clock 1) (clock 2) b
    else if code b.state == 2
    then transit_to closed recovery (clock 1) (clock 2) b
    else b

decide_failure : (ℕ → ℕ) → CircuitBreaker → Window → ℕ → Option CircuitBreaker
decide_failure clock b w r =
    if leb b.policy.failure_rate_threshold r
    then some (transit_to opened (high_failure_rate r) (clock 1) (clock 2) b)
    else (slow_rate w >>= λ s. some (decide_slow clock b s))

pub evaluate : (ℕ → ℕ) → CircuitBreaker → Window → Option CircuitBreaker
evaluate clock b w =
    if ltb (total w) (enough_calls b)
    then some b
    else (failure_rate w >>= λ r. decide_failure clock b w r)

-- The part of `RecordResult` behind the check of the state's id.
pub record_current : (ℕ → ℕ) → CallResult → CircuitBreaker → Option CircuitBreaker
unfolding evaluate decide_failure decide_slow enough_calls transit_to
record_current clock r b = do
  w ← b.window
  w' ← push (clock 0) w r
  evaluate clock (record b { window = some w' }) w'

-- `RecordResult`
unfoldable pub record_result : (ℕ → ℕ) → ℕ → Bool → ℤ → CircuitBreaker → Option CircuitBreaker
unfolding record_current call_result
record_result clock id has_err d b =
    if id == b.state_id then record_current clock (call_result b.policy has_err d) b else some b

-- How the function that `Execute` calls ends.
pub data CallEnd : Type 0 where
  returns errs panics : CallEnd

pub data Executed : Type 0 where
  rejected : Executed
  finished : CallEnd → Executed

abbrev failed : CallEnd → Bool
failed returns = false
failed _ = true

-- `Execute`. The function runs outside the lock: `meanwhile` is what other goroutines do to the
-- breaker until it ends, `d` is how long it takes. A panic of the function is recorded as an error
-- and goes on.
unfoldable pub execute :
    (ℕ → ℕ)
    → (ℕ → ℕ)
    → (CircuitBreaker → CircuitBreaker)
    → CallEnd
    → ℤ
    → CircuitBreaker
    → Option (CircuitBreaker × Executed)
unfolding record_result acquire_permission
execute before after meanwhile end d b =
    let (b', permitted, id) = acquire_permission before b in
    if permitted
    then (record_result after id (failed end) d (meanwhile b') >>= λ b''. some (b'', finished end))
    else some (b', rejected)
