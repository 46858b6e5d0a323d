-- ===== src/CircuitBreaker/Breaker/HalfOpen.antt =====
-- pkg/util/circuitbreaker/circuitbreaker.go: the accounts of the state half open, under any
-- interleaving of the operations.
use easegress.Prelude.{
  ℕ, zero, suc, ◌+◌, ◌≤◌, ◌<◌, ◌≡◌, ◌≢◌, refl, sym, ap, ◌∙◌, inl, inr, ◌&&◌, some, List, [], ◌∷◌,
  length, arith, Bool-cases, All, ltb→lt, ltb, u32_mod, inc32, if◌then◌else◌,
}
use easegress.Prelude.Int.{pos, ltb_ℤ}
use easegress.CircuitBreaker.Results.{CallResult}
use easegress.CircuitBreaker.CountWindow.{CountBasedWindow, new_count_window}
use easegress.CircuitBreaker.CountWindow.Filling.{Filled, new_count_window-Filled}
use easegress.CircuitBreaker.Window.{count_based}
use easegress.CircuitBreaker.Breaker.{
  State, disabled, closed, half_open, opened, force_open, Reason, max_wait_elapsed, wait_elapsed,
  Policy, CircuitBreaker, since, transit_to, half_open_permission, open_permission, permission,
  acquire_permission,
}
use easegress.CircuitBreaker.Breaker.Invariant.{IsUsable}
use easegress.CircuitBreaker.Breaker.Transitions.{transit_to_lem, transit_to-half_open}
use easegress.CircuitBreaker.Breaker.System.{
  System, after_permission, acquired, remove_at, HasIds, pending,
}

abbrev pub permitted_calls : Policy → ℕ
permitted_calls p = p.permitted_number_of_calls_in_half_open

-- How many results the state half open waits for.
abbrev pub enough : Policy → ℕ
enough p =
    if ltb (permitted_calls p) p.minimum_number_of_calls
    then permitted_calls p
    else p.minimum_number_of_calls

-- Half open, the window holds the results of all the calls that were permitted in this state and
-- are not in flight any more; they are too few to decide, and never more than are permitted.
pub record IsAccounted (p : Policy) (b : CircuitBreaker) (l : List ℕ) : Type 0 where
  pub results : List CallResult
  pub ring : CountBasedWindow
  pub window : b.window ≡ some (count_based ring)
  pub filled : Filled (permitted_calls p) results ring
  pub accounts : length results + pending b.state_id l ≡ b.number_of_calls_in_half_open
  pub capped : b.number_of_calls_in_half_open ≤ permitted_calls p
  pub undecided : length results < enough p

pub record IsOrderly (p : Policy) (s : System) : Type 0 where
  pub follows : s.breaker.policy ≡ p
  pub old_ids : All (λ id. id ≤ s.breaker.state_id) s.in_flight
  pub half : s.breaker.state ≡ half_open → IsAccounted p s.breaker s.in_flight

pub All-le : (m n : ℕ) (l : List ℕ) → All (λ id. id ≤ m) l → m ≤ n → All (λ id. id ≤ n) l
All-le m n [] a le = tt
All-le m n (x ∷ l) (one, rest) le = (omega arith, All-le m n l rest le)

pending_none : (m n : ℕ) (l : List ℕ) → All (λ id. id ≤ m) l → m < n → pending n l ≡ 0
pending_none m n [] a lt = refl
pending_none m n (x ∷ l) (one, rest) lt = ground (arith, pending_none m n l rest lt)

pub All-remove_at :
    (n : ℕ) (l : List ℕ) (i : ℕ) → All (λ id. id ≤ n) l → All (λ id. id ≤ n) (remove_at l i)
All-remove_at n [] i a = tt
All-remove_at n (x ∷ l) zero (one, rest) = rest
All-remove_at n (x ∷ l) (suc i) (one, rest) = (one, All-remove_at n l i rest)

module _ (p : Policy) (u : IsUsable p) where
  pub enough_pos : 0 < enough p
  enough_pos = ground (arith, u)

  pub enough_le : enough p ≤ permitted_calls p
  enough_le = ground arith

  -- A transition starts the accounts anew if it is one to half open.
  pub transit_to-IsOrderly :
      (s : State) (why : Reason) (now later : ℕ) (b : CircuitBreaker) (l : List ℕ)
      → IsOrderly p (record { breaker = b; in_flight = l })
      → b.state_id + 1 < u32_mod
      → IsOrderly p (record { breaker = transit_to s why now later b; in_flight = l })
  transit_to-IsOrderly s why now later b l v ids =
      let (at, same, moved) = transit_to_lem s why now later b in
      elim moved [
        | inl (stays, e) ↦ rw e v
        | inr (other, next) ↦
            let id : (transit_to s why now later b).state_id ≡ suc b.state_id =
              next ∙ omega arith in
            record {
              follows = same ∙ v.follows;
              old_ids = rw id (All-le b.state_id (suc b.state_id) l v.old_ids (omega arith));
              half = λ h.
                  let (window, none_yet) =
                    transit_to-half_open s why now later b (sym at ∙ h) other in
                  record {
                    results = [];
                    ring = new_count_window (permitted_calls p);
                    window =
                        window
                        ∙ ap (λ q. some (count_based (new_count_window (permitted_calls q))))
                            v.follows;
                    filled =
                        new_count_window-Filled (permitted_calls p) u.permitted_pos
                          u.permitted_fits;
                    accounts =
                        rw (id, none_yet)
                          (omega (
                            arith,
                            pending_none b.state_id (suc b.state_id) l v.old_ids (omega arith),
                          ));
                    capped = omega (arith, none_yet);
                    undecided = enough_pos;
                  };
            }
      ]

  place_taken :
      (clock : ℕ → ℕ) (b : CircuitBreaker) (l : List ℕ)
      → IsOrderly p (record { breaker = b; in_flight = l })
      → b.state ≡ half_open
      → b.number_of_calls_in_half_open < permitted_calls p
      → IsOrderly p (record {
        breaker = record b { number_of_calls_in_half_open = inc32 b.number_of_calls_in_half_open };
        in_flight = b.state_id ∷ l;
      })
  place_taken clock b l v half free =
      let a = v.half half in
      record {
        follows = v.follows;
        old_ids = (omega arith, v.old_ids);
        half = λ h. record {
          results = a.results;
          ring = a.ring;
          window = a.window;
          filled = a.filled;
          accounts = ground (arith, a.accounts, u.permitted_fits);
          capped = omega (arith, u.permitted_fits);
          undecided = a.undecided;
        };
      }

  not_half_open_permitted :
      (b : CircuitBreaker) (l : List ℕ)
      → IsOrderly p (record { breaker = b; in_flight = l })
      → b.state ≢ half_open
      → IsOrderly p (record { breaker = b; in_flight = b.state_id ∷ l })
  not_half_open_permitted b l v other = record {
    follows = v.follows;
    old_ids = (omega arith, v.old_ids);
    half = λ h. absurd (other h);
  }

  -- In the state half open a permission takes a free place, or ends the state, or changes nothing.
  half_open_permission-IsOrderly :
      (clock : ℕ → ℕ) (b : CircuitBreaker) (l : List ℕ)
      → IsOrderly p (record { breaker = b; in_flight = l })
      → b.state ≡ half_open
      → b.state_id + 1 < u32_mod
      → IsOrderly p (after_permission (half_open_permission clock b) l)
  unfolding half_open_permission
  half_open_permission-IsOrderly clock b l v half ids =
      let calls = b.number_of_calls_in_half_open in
      let wait = b.policy.max_wait_duration_in_half_open in
      elim (Bool-cases (ltb calls (permitted_calls b.policy))) [
        | inl free ↦ rw free (
            place_taken clock b l v half
              (rw (ap permitted_calls v.follows) at (ltb→lt calls _ free)))
        | inr full ↦
            elim (Bool-cases (ltb_ℤ (pos 0) wait && ltb_ℤ wait (since b.transit_time (clock 2)))) [
              | inl late ↦
                  rw (full, late)
                    (transit_to-IsOrderly opened max_wait_elapsed (clock 3) (clock 4) b l v ids)
              | inr early ↦ rw (full, early) v
            ]
      ]

  permission-IsOrderly :
      (clock : ℕ → ℕ) (s : State) (b : CircuitBreaker) (l : List ℕ)
      → IsOrderly p (record { breaker = b; in_flight = l })
      → b.state ≡ s
      → b.state_id + 2 < u32_mod
      → IsOrderly p (after_permission (permission s clock b) l)
  unfolding permission open_permission
  permission-IsOrderly clock disabled b l v e ids = not_half_open_permitted b l v (λ h. cc)
  permission-IsOrderly clock closed b l v e ids = not_half_open_permitted b l v (λ h. cc)
  permission-IsOrderly clock force_open b l v e ids = v
  permission-IsOrderly clock half_open b l v e ids =
      half_open_permission-IsOrderly clock b l v e (omega arith)
  permission-IsOrderly clock opened b l v e ids =
      let b' = transit_to half_open wait_elapsed (clock 1) (clock 2) b in
      let (at, same, moved) = transit_to_lem half_open wait_elapsed (clock 1) (clock 2) b in
      elim (Bool-cases (ltb_ℤ (since b.transit_time (clock 0)) b.policy.wait_duration_in_open)) [
        | inl early ↦ rw early v
        | inr late ↦ rw late (
            half_open_permission-IsOrderly clock b' l
              (transit_to-IsOrderly half_open wait_elapsed (clock 1) (clock 2) b l v (omega arith))
              at (ground arith))
      ]

  -- Acquiring a permission, in any state.
  pub acquired-IsOrderly :
      (clock : ℕ → ℕ) (s : System) → IsOrderly p s → HasIds s → IsOrderly p (acquired clock s)
  unfolding acquire_permission
  acquired-IsOrderly clock s v ids =
      permission-IsOrderly clock s.breaker.state s.breaker s.in_flight v refl ids
