-- ===== src/MultiRateLimiter.antt =====
-- pkg/util/ratelimiter/multiratelimiter.go: the rate limiter with several limits, one for each kind of
-- tokens. It is read as RateLimiter is: the clock's reading is an argument, integers have no bound,
-- and `none` is a Go panic, here also for an index out of range.
pub mod Single
pub mod Sized
mod Examples
use easegress.Prelude.{
  ℕ, Bool, true, false, not, ◌&&◌, Option, none, some, ◌>>=◌, List, [], ◌∷◌, map, ◌==◌,
  if◌then◌else◌, length, replicate,
}
use easegress.Prelude.Int.{ℤ, pos, ◌+ℤ◌, ◌-ℤ◌, ◌*ℤ◌, sub_ℕ, ltb_ℤ, leb_ℤ, quo}
use easegress.RateLimiter.{State, normal, limiting, disabled, code}

pub record MultiPolicy : Type 0 where
  pub timeout_duration : ℤ
  pub limit_refresh_period : ℤ
  pub limit_for_period : List ℤ

pub record MultiRateLimiter : Type 0 where
  pub state : State
  pub policy : MultiPolicy
  pub start_time : ℕ
  pub cycle : ℤ
  pub tokens : List ℤ

-- What a call returns: whether it is permitted and a duration, or the error on the number of counts.
pub data Answer : Type 0 where
  answer : Bool → ℤ → Answer
  bad_count : Answer

-- `NewMultiPolicy`
unfoldable pub new_multi_policy : ℤ → ℤ → List ℤ → MultiPolicy
new_multi_policy timeout refresh limit = record {
  timeout_duration = timeout;
  limit_refresh_period = refresh;
  limit_for_period = limit;
}

-- `NewMulti`
unfoldable pub new_multi : MultiPolicy → ℕ → MultiRateLimiter
new_multi p now = record {
  state = normal;
  policy = p;
  start_time = now;
  cycle = pos 0;
  tokens = replicate (length p.limit_for_period) (pos 0);
}

-- `SetState`
unfoldable pub set_state : State → ℕ → MultiRateLimiter → MultiRateLimiter
set_state s now r =
    let zeros = replicate (length r.policy.limit_for_period) (pos 0) in
    let fresh = record r { cycle = pos 0; tokens = zeros; start_time = now } in
    let r' = if code r.state == 2 then fresh else r in
    if code r.state == code s then r else record r' { state = s }

-- The tokens of each kind from the beginning of the current cycle, which is `ahead` cycles later.
unfoldable pub used_tokens : ℤ → List ℤ → List ℤ → Option (List ℤ)
used_tokens ahead [] limits = some []
used_tokens ahead (token ∷ tokens) [] = none
used_tokens ahead (token ∷ tokens) (limit ∷ limits) =
    let new_token = token -ℤ ahead *ℤ limit in
    used_tokens ahead tokens limits >>= λ rest.
    some ((if ltb_ℤ new_token (pos 0) then pos 0 else new_token) ∷ rest)

-- Whether one kind of tokens has reached its bound. The loop ends there.
unfoldable pub some_reached : List ℤ → List ℤ → Option Bool
some_reached [] bounds = some false
some_reached (token ∷ tokens) [] = none
some_reached (token ∷ tokens) (bound ∷ bounds) =
    let rest = some_reached tokens bounds in if leb_ℤ bound token then some true else rest

-- `rl.tokens[i] = tokens[i] + count[i]`
unfoldable pub add_counts : List ℤ → List ℤ → Option (List ℤ)
add_counts [] counts = some []
add_counts (token ∷ tokens) [] = none
add_counts (token ∷ tokens) (count ∷ counts) =
    add_counts tokens counts >>= λ rest. some ((token +ℤ count) ∷ rest)

-- The longest of the waits, at least the one given.
unfoldable pub longest_wait : ℕ → ℤ → MultiRateLimiter → List ℤ → List ℤ → ℤ → Option ℤ
longest_wait now cycle r [] limits time_to_wait = some time_to_wait
longest_wait now cycle r (token ∷ tokens) [] time_to_wait = none
longest_wait now cycle r (token ∷ tokens) (limit ∷ limits) time_to_wait =
    quo token limit >>= λ ahead.
    let d = r.policy.limit_refresh_period *ℤ (cycle +ℤ ahead) in
    let wait = pos r.start_time +ℤ d -ℤ pos now in
    longest_wait now cycle r tokens limits (if ltb_ℤ time_to_wait wait then wait else time_to_wait)

-- The part behind the rejection, with the tokens of the current cycle.
unfoldable pub permit :
    List ℤ → ℕ → ℤ → List ℤ → MultiRateLimiter → Option (MultiRateLimiter × Answer)
unfolding add_counts some_reached longest_wait
permit count now cycle tokens r = do
  tokens' ← add_counts tokens count
  let r' = record r { tokens = tokens'; cycle = cycle }
  taken ← some_reached tokens r.policy.limit_for_period
  if not taken
      then some (record r' { state = normal }, answer true (pos 0))
      else (longest_wait now cycle r tokens r.policy.limit_for_period (pos 0) >>= λ d.
          some (r', answer true d))

-- `AcquirePermission` in a state that is not disabled, with as many counts as limits.
unfoldable pub acquire_active : List ℤ → ℕ → MultiRateLimiter → Option (MultiRateLimiter × Answer)
unfolding used_tokens some_reached permit
acquire_active count now r = do
  cycles ← quo r.policy.timeout_duration r.policy.limit_refresh_period
  let max_tokens = map (λ limit. limit *ℤ (cycles +ℤ pos 1)) r.policy.limit_for_period
  cycle ← quo (sub_ℕ now r.start_time) r.policy.limit_refresh_period
  tokens ← used_tokens (cycle -ℤ r.cycle) r.tokens r.policy.limit_for_period
  reached ← some_reached tokens max_tokens
  if reached
      then some (r, answer false r.policy.timeout_duration)
      else permit count now cycle tokens r

unfoldable pub acquire_permission :
    List ℤ → ℕ → MultiRateLimiter → Option (MultiRateLimiter × Answer)
unfolding acquire_active
acquire_permission count now r =
    if code r.state == 2
    then some (r, answer true (pos 0))
    else if length count == length r.policy.limit_for_period
    then acquire_active count now r
    else some (r, bad_count)

-- `WaitPermission`: whether the call is permitted, `none` for the error, and how long it has slept.
abbrev pub waited : Answer → Option Bool
waited (answer permitted d) = some permitted
waited bad_count = none

abbrev pub slept : Answer → ℤ
slept (answer permitted d) = if ltb_ℤ (pos 0) d then d else pos 0
slept bad_count = pos 0

unfoldable pub wait_permission :
    List ℤ → ℕ → MultiRateLimiter → Option (MultiRateLimiter × Option Bool × ℤ)
unfolding acquire_permission
wait_permission count now r =
    acquire_permission count now r >>= λ (r', a). some (r', waited a, slept a)
