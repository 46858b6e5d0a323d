-- ===== src/RateLimiter/Cycles.antt =====
-- pkg/util/ratelimiter/ratelimiter.go: `acquirePermission` computed, for a policy and a clock that
-- Go's numbers stand for as natural numbers: the durations and the limit are not negative, the clock
-- does not fall behind the start of the limiter or its last cycle.
use native.Mathlib.Nat.{
  mul-div-le, lt-mul-div-succ, div-eq_of_lt, le-div_iff_mul-le, div-lt_iff_lt-mul, mul-le-mul_left,
}
use easegress.Prelude.{
  ℕ, ◌+◌, ◌-◌, ◌*◌, ◌/◌, ◌≤◌, ◌<◌, ◌≡◌, ◌≢◌, refl, sym, ap, ◌⊎◌, inl, inr, Bool, true, false, some,
  List, arith, Bool-cases, dec_lt, subst, ◌∷◌, ◌==◌,
}
use easegress.Prelude.Int.{
  pos, sub_ℕ, ltb_ℤ, leb_ℤ, quo, +ℤ-pos, -ℤ-pos, *ℤ-pos, quo-pos, sub_ℕ-pos, clamp-pos,
}
use easegress.RateLimiter.{
  State, normal, limiting, disabled, code, Policy, Event, RateLimiter, turn, used_tokens,
  max_tokens, time_to_wait, permit, acquire_active, acquire_permission,
}

-- A policy in natural numbers, with a positive period and a positive limit.
pub record Rate : Type 0 where
  pub period : ℕ
  pub timeout : ℕ
  pub limit : ℕ
  pub period_pos : 0 < period
  pub limit_pos : 0 < limit

abbrev pub policy_of : Rate → Policy
policy_of q = record {
  timeout_duration = pos q.timeout;
  limit_refresh_period = pos q.period;
  limit_for_period = pos q.limit;
}

-- What a limiter keeps besides its cycle and its tokens.
pub record Frame : Type 0 where
  pub state : State
  pub start : ℕ
  pub has_listener : Bool
  pub events : List Event
  pub active : state ≢ disabled

abbrev pub meter : Rate → Frame → ℕ → ℕ → RateLimiter
meter q f c k = record {
  state = f.state;
  policy = policy_of q;
  start_time = f.start;
  cycle = pos c;
  tokens = pos k;
  has_listener = f.has_listener;
  events = f.events;
}

-- The tokens that are taken, of the current cycle and of later ones, when the cycle is `n`.
abbrev pub taken : Rate → ℕ → ℕ → ℕ → ℕ
taken q c k n = k - (n - c) * q.limit

-- How many may be taken: those of the cycles that begin within the timeout.
abbrev pub most : Rate → ℕ
most q = q.limit * (q.timeout / q.period + 1)

max_tokens_lem : (q : Rate) → max_tokens (policy_of q) ≡ some (pos (most q))
unfolding max_tokens
max_tokens_lem q =
    rw (quo-pos q.timeout q.period q.period_pos)
      (rw (+ℤ-pos (q.timeout / q.period) 1) (rw (*ℤ-pos q.limit (q.timeout / q.period + 1))))

used_tokens_lem :
    (q : Rate) (f : Frame) (c k n : ℕ)
    → c ≤ n
    → used_tokens (pos n) (meter q f c k) ≡ pos (taken q c k n)
unfolding used_tokens
used_tokens_lem q f c k n le =
    rw (-ℤ-pos n c le) (rw (*ℤ-pos (n - c) q.limit) (clamp-pos k ((n - c) * q.limit)))

abbrev pub cycle_at : Rate → Frame → ℕ → ℕ
cycle_at q f now = (now - f.start) / q.period

cycle_lem :
    (q : Rate) (f : Frame) (now : ℕ)
    → f.start ≤ now
    → quo (sub_ℕ now f.start) (pos q.period) ≡ some (pos (cycle_at q f now))
cycle_lem q f now le = rw (sub_ℕ-pos now f.start le) (quo-pos (now - f.start) q.period q.period_pos)

-- When the call proceeds: at the beginning of the cycle that its token is taken from.
abbrev pub proceeds_at : Rate → Frame → ℕ → ℕ → ℕ
proceeds_at q f n t = f.start + q.period * (n + t / q.limit)

time_to_wait_lem :
    (q : Rate) (f : Frame) (c k n t now : ℕ)
    → now ≤ proceeds_at q f n t
    → time_to_wait now (pos n) (pos t) (meter q f c k) ≡ some (pos (proceeds_at q f n t - now))
unfolding time_to_wait
time_to_wait_lem q f c k n t now le = rw (quo-pos t q.limit q.limit_pos) (
    rw (+ℤ-pos n (t / q.limit)) (
      rw (*ℤ-pos q.period (n + t / q.limit)) (
        rw (+ℤ-pos f.start (q.period * (n + t / q.limit)))
          (rw (-ℤ-pos (proceeds_at q f n t) now le)))))

-- A change of the state keeps the start, the policy, the cycle and the tokens.
pub turn_lem :
    (q : Rate) (f : Frame) (c k now : ℕ) (s : State)
    → s ≢ disabled
    → (f' : Frame) × (turn s now (meter q f c k) ≡ meter q f' c k) × (f'.start ≡ f.start)
unfolding turn
turn_lem q f c k now s a = elim (Bool-cases (code f.state == code s)) [
  | inl e ↦ (f, rw e refl, refl)
  | inr e ↦ elim (Bool-cases f.has_listener) [
    | inl h ↦ (
      record {
        state = s;
        start = f.start;
        has_listener = f.has_listener;
        events = record { time = now; state = s } ∷ f.events;
        active = a;
      },
      rw (e, h) refl,
      refl,
    )
    | inr h ↦ (
      record {
        state = s;
        start = f.start;
        has_listener = f.has_listener;
        events = f.events;
        active = a;
      },
      rw (e, h) refl,
      refl,
    )
  ]
]

code_active : (s : State) → s ≢ disabled → (code s == 2) ≡ false
code_active normal a = refl
code_active limiting a = refl
code_active disabled a = absurd (a refl)

pub normal_active : normal ≢ disabled
normal_active e = absurd (subst (λ s. code s ≡ 2 → ⊥) e (λ h. omega arith) refl)

pub limiting_active : limiting ≢ disabled
limiting_active e = absurd (subst (λ s. code s ≡ 2 → ⊥) e (λ h. omega arith) refl)

-- The clock stands in the current cycle.
pub cycle_bounds :
    (q : Rate) (f : Frame) (now : ℕ)
    → f.start ≤ now
    → (f.start + q.period * cycle_at q f now ≤ now)
      × (now < f.start + q.period * (cycle_at q f now + 1))
cycle_bounds q f now le = (
  omega (arith, mul-div-le (now - f.start) q.period),
  omega (arith, lt-mul-div-succ (now - f.start) q.period_pos),
)

proceeds_now :
    (q : Rate) (f : Frame) (t now : ℕ)
    → f.start ≤ now
    → t < q.limit
    → proceeds_at q f (cycle_at q f now) t - now ≡ 0
proceeds_now q f t now le free =
    let (at, before) = cycle_bounds q f now le in rw (div-eq_of_lt free) (omega arith)

proceeds_later :
    (q : Rate) (f : Frame) (t now : ℕ)
    → f.start ≤ now
    → q.limit ≤ t
    → now ≤ proceeds_at q f (cycle_at q f now) t
proceeds_later q f t now le full =
    let (at, before) = cycle_bounds q f now le in
    let ahead : 1 ≤ t / q.limit = (le-div_iff_mul-le q.limit_pos).1 (omega arith) in
    let far =
      mul-le-mul_left {m = cycle_at q f now + 1} {n = cycle_at q f now + t / q.limit} q.period
        (omega arith) in
    omega arith

permit_lem :
    (q : Rate) (f : Frame) (c k t now : ℕ)
    → f.start ≤ now
    → (f' : Frame) × (permit (pos 1) now (pos (cycle_at q f now)) (pos t) (meter q f c k)
        ≡ some (
          meter q f' (cycle_at q f now) (t + 1),
          true,
          pos (proceeds_at q f (cycle_at q f now) t - now),
        ))
      × (f'.start ≡ f.start)
unfolding permit
permit_lem q f c k t now le = elim (dec_lt t q.limit) [
  | yes e ↦
      let (f', turned, same) = turn_lem q f (cycle_at q f now) (t + 1) now normal normal_active in
      let free : ltb_ℤ (pos t) (pos q.limit) ≡ true = ground arith in
      (
        f',
        rw (free, +ℤ-pos t 1, turned)
            (ap (λ d. some (meter q f' (cycle_at q f now) (t + 1), true, pos d))
              (sym (proceeds_now q f t now le (omega arith)))),
        same,
      )
  | no e ↦
      let (f', turned, same) =
        turn_lem q f (cycle_at q f now) (t + 1) now limiting limiting_active in
      let later : ltb_ℤ (pos t) (pos q.limit) ≡ false = ground arith in
      (
        f',
        rw
            (
              later,
              +ℤ-pos t 1,
              turned,
              time_to_wait_lem q f c k (cycle_at q f now) t now
                  (proceeds_later q f t now le (omega arith)),
            )
            refl,
        same,
      )
]

pub rejected_lem :
    (q : Rate) (f : Frame) (c k now : ℕ)
    → f.start ≤ now
    → c ≤ cycle_at q f now
    → most q ≤ taken q c k (cycle_at q f now)
    → acquire_permission (pos 1) now (meter q f c k) ≡ some (meter q f c k, false, pos q.timeout)
unfolding acquire_permission acquire_active
rejected_lem q f c k now le ge full =
    let over : leb_ℤ (pos (most q)) (pos (taken q c k (cycle_at q f now))) ≡ true = ground arith in
    rw (code_active f.state f.active) (
      rw (max_tokens_lem q) (
        rw (cycle_lem q f now le)
          (rw (used_tokens_lem q f c k (cycle_at q f now) ge) (rw over refl))))

pub granted_lem :
    (q : Rate) (f : Frame) (c k now : ℕ)
    → f.start ≤ now
    → c ≤ cycle_at q f now
    → taken q c k (cycle_at q f now) < most q
    → (f' : Frame) × (acquire_permission (pos 1) now (meter q f c k)
        ≡ some (
          meter q f' (cycle_at q f now) (taken q c k (cycle_at q f now) + 1),
          true,
          pos (proceeds_at q f (cycle_at q f now) (taken q c k (cycle_at q f now)) - now),
        ))
      × (f'.start ≡ f.start)
unfolding acquire_permission acquire_active
granted_lem q f c k now le ge free =
    let under : leb_ℤ (pos (most q)) (pos (taken q c k (cycle_at q f now))) ≡ false =
      ground arith in
    rw (code_active f.state f.active) (
      rw (max_tokens_lem q) (
        rw (cycle_lem q f now le) (
          rw (used_tokens_lem q f c k (cycle_at q f now) ge)
            (rw under (permit_lem q f c k (taken q c k (cycle_at q f now)) now le)))))

not_past :
    (q : Rate) (f : Frame) (t now : ℕ)
    → f.start ≤ now
    → now < f.start + q.period * (cycle_at q f now + t / q.limit + 1)
not_past q f t now le =
    let (at, before) = cycle_bounds q f now le in
    let far =
      mul-le-mul_left {m = cycle_at q f now + 1} {n = cycle_at q f now + t / q.limit + 1} q.period
        (omega arith) in
    omega arith

-- A token that is not refused is of a cycle that begins within the timeout.
pub wait_lem :
    (q : Rate) (f : Frame) (t now : ℕ)
    → f.start ≤ now
    → t < most q
    → proceeds_at q f (cycle_at q f now) t ≤ now + q.timeout
wait_lem q f t now le free =
    let (at, before) = cycle_bounds q f now le in
    let ahead : t / q.limit < q.timeout / q.period + 1 =
      (div-lt_iff_lt-mul q.limit_pos).1 (omega arith) in
    let far = mul-le-mul_left {m = t / q.limit} {n = q.timeout / q.period} q.period (omega arith) in
    omega (arith, mul-div-le q.timeout q.period)

-- For a limiter that is not disabled, with a positive period and limit, and a clock that is behind
-- neither its start nor its last cycle, a call of AcquirePermission when the clock shows `now`: with
-- all the tokens of this cycle and of those that begin
-- within the timeout taken it is rejected and nothing changes; otherwise it takes the next token,
-- and waits for the beginning of that token's cycle unless it has come, not longer than the timeout.
pub acquire_permission_proceeds :
    (q : Rate) (f : Frame) (c k now : ℕ)
    → f.start ≤ now
    → c ≤ cycle_at q f now
    → ((most q ≤ taken q c k (cycle_at q f now))
        × (acquire_permission (pos 1) now (meter q f c k)
            ≡ some (meter q f c k, false, pos q.timeout)))
      ⊎ ((taken q c k (cycle_at q f now) < most q)
          × ((f' : Frame) × (acquire_permission (pos 1) now (meter q f c k)
                ≡ some (
                  meter q f' (cycle_at q f now) (taken q c k (cycle_at q f now) + 1),
                  true,
                  pos (proceeds_at q f (cycle_at q f now) (taken q c k (cycle_at q f now)) - now),
                ))
              × (f'.start ≡ f.start)
              × (now
                  < f.start
                    + q.period * (cycle_at q f now + taken q c k (cycle_at q f now) / q.limit + 1))
              × (proceeds_at q f (cycle_at q f now) (taken q c k (cycle_at q f now))
                  ≤ now + q.timeout)))
acquire_permission_proceeds q f c k now le ge =
    let n = cycle_at q f now in
    let t = taken q c k n in
    elim (dec_lt t (most q)) [
      | yes free ↦
          let (f', result, same) = granted_lem q f c k now le ge free in
          inr (free, (f', result, same, not_past q f t now le, wait_lem q f t now le free))
      | no full ↦ inl (omega arith, rejected_lem q f c k now le ge (omega arith))
    ]
