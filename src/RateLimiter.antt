-- ===== src/RateLimiter.antt =====
-- pkg/util/ratelimiter/ratelimiter.go: the rate limiter. Each operation holds the lock, so it is one
-- function on the limiter's state; the clock's reading is its argument, in nanoseconds. `int` and
-- `time.Duration` are integers without a bound. `none` is a Go panic.
pub mod Cycles
pub mod Slots
mod Examples
use easegress.Prelude.{
  ℕ, Bool, true, false, Option, none, some, ◌>>=◌, List, [], ◌∷◌, ◌==◌, if◌then◌else◌,
}
use easegress.Prelude.Int.{ℤ, pos, ◌+ℤ◌, ◌-ℤ◌, ◌*ℤ◌, sub_ℕ, ltb_ℤ, leb_ℤ, quo}

pub data State : Type 0 where
  normal limiting disabled : State

-- The values of the `State` constants, by which Go compares them.
abbrev pub code : State → ℕ
code normal = 0
code limiting = 1
code disabled = 2

pub record Policy : Type 0 where
  pub timeout_duration : ℤ
  pub limit_refresh_period : ℤ
  pub limit_for_period : ℤ

pub record Event : Type 0 where
  pub time : ℕ
  pub state : State

pub record RateLimiter : Type 0 where
  pub state : State
  pub policy : Policy
  pub start_time : ℕ
  pub cycle : ℤ
  pub tokens : ℤ
  pub has_listener : Bool
  pub events : List Event  -- what the listener's goroutines are started with

-- `NewDefaultPolicy`
unfoldable pub new_default_policy : Policy
new_default_policy = record {
  timeout_duration = pos 100000000;
  limit_refresh_period = pos 10000000;
  limit_for_period = pos 50;
}

-- `New`
unfoldable pub new_limiter : Policy → ℕ → RateLimiter
new_limiter p now = record {
  state = normal;
  policy = p;
  start_time = now;
  cycle = pos 0;
  tokens = pos 0;
  has_listener = false;
  events = [];
}

-- `SetState`; a limiter that was disabled starts its cycles anew.
unfoldable pub set_state : State → ℕ → RateLimiter → RateLimiter
set_state s now r =
    let fresh = record r { cycle = pos 0; tokens = pos 0; start_time = now } in
    let r' = if code r.state == 2 then fresh else r in
    if code r.state == code s then r else record r' { state = s }

-- `SetStateListener`, with a listener or with nil.
unfoldable pub set_state_listener : Bool → RateLimiter → RateLimiter
set_state_listener has_listener r = record r { has_listener = has_listener }

-- `notifyListener`
abbrev pub notify_listener : ℕ → State → RateLimiter → RateLimiter
notify_listener now s r =
    if r.has_listener then record r { events = record { time = now; state = s } ∷ r.events } else r

-- The change to another state, which the listener hears of.
unfoldable pub turn : State → ℕ → RateLimiter → RateLimiter
turn s now r =
    let turned = record r { state = s } in
    if code r.state == code s then r else notify_listener now s turned

-- The tokens that have been permitted from the beginning of the current cycle, at least 0.
unfoldable pub used_tokens : ℤ → RateLimiter → ℤ
used_tokens cycle r =
    let tokens = r.tokens -ℤ (cycle -ℤ r.cycle) *ℤ r.policy.limit_for_period in
    if ltb_ℤ tokens (pos 0) then pos 0 else tokens

-- `maxTokens`, those that may be reserved in later cycles included.
unfoldable pub max_tokens : Policy → Option ℤ
max_tokens p = quo p.timeout_duration p.limit_refresh_period >>= λ cycles.
    some (p.limit_for_period *ℤ (cycles +ℤ pos 1))

-- How long a caller waits whose token is taken from a later cycle.
unfoldable pub time_to_wait : ℕ → ℤ → ℤ → RateLimiter → Option ℤ
time_to_wait now cycle tokens r = quo tokens r.policy.limit_for_period >>= λ ahead.
    some (pos r.start_time +ℤ r.policy.limit_refresh_period *ℤ (cycle +ℤ ahead) -ℤ pos now)

-- The part of `acquirePermission` behind the rejection.
unfoldable pub permit : ℤ → ℕ → ℤ → ℤ → RateLimiter → Option (RateLimiter × Bool × ℤ)
unfolding turn time_to_wait
permit count now cycle tokens r =
    let r' = record r { tokens = tokens +ℤ count; cycle = cycle } in
    if ltb_ℤ tokens r.policy.limit_for_period
    then some (turn normal now r', true, pos 0)
    else (time_to_wait now cycle tokens r >>= λ d. some (turn limiting now r', true, d))

-- `acquirePermission` in a state that is not disabled.
unfoldable pub acquire_active : ℤ → ℕ → RateLimiter → Option (RateLimiter × Bool × ℤ)
unfolding used_tokens max_tokens permit
acquire_active count now r = do
  most ← max_tokens r.policy
  cycle ← quo (sub_ℕ now r.start_time) r.policy.limit_refresh_period
  let tokens = used_tokens cycle r
  if leb_ℤ most tokens
      then some (r, false, r.policy.timeout_duration)
      else permit count now cycle tokens r

-- `acquirePermission` for `count` tokens: the limiter, whether the call is permitted, and for how
-- long it has to wait. `AcquirePermission` is that for one token, `AcquireNPermission` for several.
unfoldable pub acquire_permission : ℤ → ℕ → RateLimiter → Option (RateLimiter × Bool × ℤ)
unfolding acquire_active
acquire_permission count now r =
    if code r.state == 2 then some (r, true, pos 0) else acquire_active count now r

-- `WaitPermission`: whether the call is permitted, and for how long it has slept.
unfoldable pub wait_permission : ℕ → RateLimiter → Option (RateLimiter × Bool × ℤ)
unfolding acquire_permission
wait_permission now r = do
  (r', permitted, d) ← acquire_permission (pos 1) now r
  some (r', permitted, if ltb_ℤ (pos 0) d then d else pos 0)
