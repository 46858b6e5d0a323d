-- ===== src/CircuitBreaker/Breaker/Invariant.antt =====
-- pkg/util/circuitbreaker/circuitbreaker.go: what holds of a circuit breaker between two operations,
-- and that no operation panics.
use easegress.Prelude.{
  ℕ, ◌≤◌, ◌<◌, ◌≡◌, refl, inl, inr, Option, some, arith, u32_mod, inc32, Bool-cases, ltb→lt, ap,
  ◌&&◌, ltb, ◌==◌, if◌then◌else◌,
}
use easegress.Prelude.Int.{pos, ltb_ℤ}
use easegress.CircuitBreaker.CountWindow.{new_count_window}
use easegress.CircuitBreaker.CountWindow.Invariant.{new_count_window-Inv}
use easegress.CircuitBreaker.TimeWindow.{new_time_window}
use easegress.CircuitBreaker.Window.{Window, count_based, time_based}
use easegress.CircuitBreaker.Window.Valid.{Valid, Valid-later, new_time_window-Timed}
use easegress.CircuitBreaker.Breaker.{
  State, closed, half_open, opened, code, Reason, wait_elapsed, max_wait_elapsed, force_transition,
  since, Policy, CircuitBreaker, zero_breaker, enter, notify, transit_to, new_breaker, set_state,
  half_open_permission, open_permission, permission, acquire_permission,
}

-- A policy that the breaker can work with: windows with room, and results to wait for.
pub record IsUsable (p : Policy) : Type 0 where
  pub size_pos : 0 < p.sliding_window_size
  pub size_fits : p.sliding_window_size < u32_mod
  pub permitted_pos : 0 < p.permitted_number_of_calls_in_half_open
  pub permitted_fits : p.permitted_number_of_calls_in_half_open < u32_mod
  pub minimum_pos : 0 < p.minimum_number_of_calls

-- The policy, the window and the counter of a breaker at the time `t`: there is a window, and in the
-- state half open not more calls are permitted than the policy says.
pub record Sound (p : Policy) (t : ℕ) (q : Policy) (w? : Option Window) (calls : ℕ) : Type 0 where
  pub follows : q ≡ p
  pub window : (w : Window) × (w? ≡ some w) × Valid t w
  pub capped : calls ≤ p.permitted_number_of_calls_in_half_open

abbrev pub Inv : Policy → ℕ → CircuitBreaker → Type 0
Inv p t b = Sound p t b.policy b.window b.number_of_calls_in_half_open

pub Inv-later : (p : Policy) (t t' : ℕ) (b : CircuitBreaker) → Inv p t b → t ≤ t' → Inv p t' b
Inv-later p t t' b v le = record {
  follows = v.follows;
  window = (v.window.0, v.window.1, Valid-later t t' v.window.0 v.window.2 le);
  capped = v.capped;
}

new_window-Valid :
    (p : Policy) (now : ℕ)
    → IsUsable p
    → Valid now (
        if p.sliding_window_type == 0
        then count_based (new_count_window p.sliding_window_size)
        else time_based (new_time_window now p.sliding_window_size))
new_window-Valid p now u = elim (Bool-cases (p.sliding_window_type == 0)) [
  | inl count ↦ rw count (new_count_window-Inv p.sliding_window_size u.size_pos u.size_fits)
  | inr time ↦ rw time (new_time_window-Timed now p.sliding_window_size u.size_pos)
]

notify-Inv :
    (p : Policy) (t : ℕ) (old new : State) (why : Reason) (b : CircuitBreaker)
    → Inv p t b
    → Inv p t (notify old new why b)
unfolding notify
notify-Inv p t old new why b v = elim (Bool-cases b.has_listener) [
  | inl yes_listener ↦ rw yes_listener v
  | inr no_listener ↦ rw no_listener v
]

module _ (p : Policy) (u : IsUsable p) (t t' later : ℕ) (le : t ≤ t') (le' : later ≤ t') where
  -- The windows that the states closed and half open start with.
  enter_closed-Inv :
      (b : CircuitBreaker)
      → b.policy ≡ p
      → b.number_of_calls_in_half_open ≤ p.permitted_number_of_calls_in_half_open
      → Inv p t' (enter closed later b)
  unfolding enter
  enter_closed-Inv b e c = record {
    follows = e;
    window = (_, refl, rw e (Valid-later later t' _ (new_window-Valid p later u) le'));
    capped = c;
  }

  enter-Inv : (s : State) (b : CircuitBreaker) → Inv p t b → Inv p t' (enter s later b)
  unfolding enter
  enter-Inv closed b v = enter_closed-Inv b v.follows v.capped
  enter-Inv half_open b v = record {
    follows = v.follows;
    window = (
      _,
      refl,
      rw v.follows (
          new_count_window-Inv p.permitted_number_of_calls_in_half_open u.permitted_pos
            u.permitted_fits),
    );
    capped = omega arith;
  }
  enter-Inv s b v = Inv-later p t t' b v le

  -- A transition keeps the invariant.
  pub transit_to-Inv :
      (s : State) (why : Reason) (now : ℕ) (b : CircuitBreaker)
      → Inv p t b
      → Inv p t' (transit_to s why now later b)
  unfolding transit_to
  transit_to-Inv s why now b v = elim (Bool-cases (code s == code b.state)) [
    | inl same ↦ rw same (Inv-later p t t' b v le)
    | inr other ↦
        let moved : CircuitBreaker = record b {
          state = s;
          transit_time = now;
          state_id = inc32 b.state_id;
        } in
        rw other (notify-Inv p t' b.state s why (enter s later moved) (enter-Inv s moved v))
  ]

-- The readings of the clock in one operation lie between its start and its end.
abbrev pub Reads : ℕ → ℕ → (ℕ → ℕ) → Type 0
Reads t t' clock = (t ≤ t') × ((k : ℕ) → (t ≤ clock k) × (clock k ≤ t'))

-- A new breaker is in the state closed and well formed.
pub new_breaker-Inv :
    (p : Policy) (t t' : ℕ) (clock : ℕ → ℕ)
    → IsUsable p
    → Reads t t' clock
    → Inv p t' (new_breaker p clock) × ((new_breaker p clock).state ≡ closed)
unfolding new_breaker notify enter
new_breaker-Inv p t t' clock u r =
    (enter_closed-Inv p u t t' (clock 1) r.0 (r.1 1).1 (zero_breaker p) refl (omega arith), refl)

module _ (p : Policy) (u : IsUsable p) (t t' : ℕ) (clock : ℕ → ℕ) (reads : Reads t t' clock) where
  half_open_permission-Inv :
      (s : ℕ) (b : CircuitBreaker) → Inv p s b → s ≤ t' → Inv p t' (half_open_permission clock b).0
  unfolding half_open_permission
  half_open_permission-Inv s b v le =
      let calls = b.number_of_calls_in_half_open in
      let wait = b.policy.max_wait_duration_in_half_open in
      elim (Bool-cases (ltb calls b.policy.permitted_number_of_calls_in_half_open)) [
        | inl free ↦
            let room : calls < p.permitted_number_of_calls_in_half_open =
              rw (ap (λ q. q.permitted_number_of_calls_in_half_open) v.follows) at
                (ltb→lt calls _ free) in
            rw free (record {
              follows = v.follows;
              window = (Inv-later p s t' b v le).window;
              capped = omega (arith, u.permitted_fits);
            })
        | inr full ↦
            elim (Bool-cases (ltb_ℤ (pos 0) wait && ltb_ℤ wait (since b.transit_time (clock 2)))) [
              | inl late ↦
                  rw (full, late)
                    (transit_to-Inv p u s t' (clock 4) le (reads.1 4).1 opened max_wait_elapsed
                      (clock 3) b v)
              | inr early ↦ rw (full, early) (Inv-later p s t' b v le)
            ]
      ]

  open_permission-Inv : (b : CircuitBreaker) → Inv p t b → Inv p t' (open_permission clock b).0
  unfolding open_permission
  open_permission-Inv b v =
      elim (Bool-cases (ltb_ℤ (since b.transit_time (clock 0)) b.policy.wait_duration_in_open)) [
        | inl early ↦ rw early (Inv-later p t t' b v reads.0)
        | inr late ↦ rw late (
            half_open_permission-Inv t' (transit_to half_open wait_elapsed (clock 1) (clock 2) b)
              (transit_to-Inv p u t t' (clock 2) reads.0 (reads.1 2).1 half_open wait_elapsed
                (clock 1) b v)
              (omega arith))
      ]

  permission-Inv : (s : State) (b : CircuitBreaker) → Inv p t b → Inv p t' (permission s clock b).0
  unfolding permission
  permission-Inv opened b v = open_permission-Inv b v
  permission-Inv half_open b v = half_open_permission-Inv t b v reads.0
  permission-Inv s b v = Inv-later p t t' b v reads.0

  -- Asking for a permission keeps the breaker well formed; `AcquirePermission` cannot panic.
  pub acquire_permission-Inv :
      (b : CircuitBreaker) → Inv p t b → Inv p t' (acquire_permission clock b).0
  unfolding acquire_permission
  acquire_permission-Inv b v = permission-Inv b.state b v

  pub set_state-Inv : (s : State) (b : CircuitBreaker) → Inv p t b → Inv p t' (set_state s clock b)
  unfolding set_state
  set_state-Inv s b v =
      transit_to-Inv p u t t' (clock 1) reads.0 (reads.1 1).1 s force_transition (clock 0) b v
