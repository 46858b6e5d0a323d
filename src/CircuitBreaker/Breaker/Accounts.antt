-- ===== src/CircuitBreaker/Breaker/Accounts.antt =====
-- pkg/util/circuitbreaker/circuitbreaker.go: the state half open keeps its accounts while results are
-- recorded, so along every run of the breaker.
use easegress.Prelude.{
  ℕ, ◌+◌, ◌≤◌, ◌<◌, ◌≡◌, ◌≢◌, refl, sym, ap, subst, ◌∙◌, ◌⊎◌, inl, inr, Bool, some, List, [], ◌∷◌,
  ◌++◌, length, length-append, get_elem?, arith, Bool-cases, ==_iff, u32_mod, inc32, ◌==◌,
}
use easegress.Prelude.Int.{ℤ}
use easegress.CircuitBreaker.Results.{CallResult, unknown}
use easegress.CircuitBreaker.CountWindow.{CountBasedWindow}
use easegress.CircuitBreaker.CountWindow.Filling.{Filled, push-Filled, total-Filled}
use easegress.CircuitBreaker.Window.{Window, count_based, total, push}
use easegress.CircuitBreaker.Breaker.{
  State, half_open, Reason, force_transition, Policy, CircuitBreaker, transit_to, set_state,
  new_breaker, call_result, enough_calls, record_current, record_result,
}
use easegress.CircuitBreaker.Breaker.Invariant.{IsUsable}
use easegress.CircuitBreaker.Breaker.Recording.{call_result_known}
use easegress.CircuitBreaker.Breaker.Transitions.{transit_to_lem}
use easegress.CircuitBreaker.Breaker.System.{
  System, remove_at, Step, acquires, records, forces, Reach, starts, steps, pending,
  pending-remove_at,
}
use easegress.CircuitBreaker.Breaker.HalfOpen.{
  permitted_calls, enough, IsAccounted, IsOrderly, enough_le, All-le, transit_to-IsOrderly,
  acquired-IsOrderly, All-remove_at,
}
use easegress.CircuitBreaker.Breaker.Verdict.{evaluate-Verdict, record_current_steps}

-- A push into the count based window of the state half open, with room left.
push_half_open :
    (n now : ℕ) (rs : List CallResult) (r : CallResult) (ring : CountBasedWindow) (w w' : Window)
    → Filled n rs ring
    → length rs < n
    → r ≢ unknown
    → w ≡ count_based ring
    → push now w r ≡ some w'
    → (ring' : CountBasedWindow) × (w' ≡ count_based ring') × Filled n (rs ++ r ∷ []) ring'
unfolding push
push_half_open n now rs r ring w w' v room known e pushed =
    let (ring', into, v') = push-Filled n rs r ring v room known in
    let stored : push now (count_based ring) r ≡ some (count_based ring') = rw into in
    (ring', cc, v')

enough_calls_lem :
    (p : Policy) (b : CircuitBreaker)
    → b.policy ≡ p
    → b.state ≡ half_open
    → enough_calls b ≡ enough p
unfolding enough_calls
enough_calls_lem p b e h = rw (e, h)

-- One result more, one call in flight less.
recorded-IsAccounted :
    (p : Policy) (now : ℕ) (r : CallResult) (b : CircuitBreaker) (l : List ℕ) (i : ℕ)
    (w w' : Window)
    → IsAccounted p b l
    → get_elem? l i ≡ some b.state_id
    → r ≢ unknown
    → b.window ≡ some w
    → push now w r ≡ some w'
    → total w' < enough p
    → IsAccounted p (record b { window = some w' }) (remove_at l i)
recorded-IsAccounted p now r b l i w w' a at known held pushed few =
    let room : length a.results < permitted_calls p = ground (arith, a.undecided) in
    let (ring', e, filled) =
      push_half_open (permitted_calls p) now a.results r a.ring w w' a.filled room known
        (cc a.window) pushed in
    let longer = length-append a.results (r ∷ []) in
    let size : total w' ≡ length (a.results ++ r ∷ []) =
      rw e (total-Filled (permitted_calls p) (a.results ++ r ∷ []) ring' filled) in
    record {
      results = a.results ++ r ∷ [];
      ring = ring';
      window = ap some e;
      filled = filled;
      accounts = ground (arith, a.accounts, longer, pending-remove_at b.state_id b.state_id l i at);
      capped = a.capped;
      undecided = omega arith;
    }

module _ (p : Policy) (u : IsUsable p) (clock : ℕ → ℕ) (b : CircuitBreaker) (l : List ℕ)
    (v : IsOrderly p (record { breaker = b; in_flight = l })) (i : ℕ) where
  abbrev rest : List ℕ
  rest = remove_at l i

  -- The breaker with the result pushed, where the state is not half open, or no verdict is due.
  pushed-IsOrderly :
      (r : CallResult) (w w' : Window)
      → get_elem? l i ≡ some b.state_id
      → r ≢ unknown
      → b.window ≡ some w
      → push (clock 0) w r ≡ some w'
      → (total w' < enough_calls b) ⊎ (b.state ≢ half_open)
      → IsOrderly p (record { breaker = record b { window = some w' }; in_flight = rest })
  pushed-IsOrderly r w w' at known held pushed why = record {
    follows = v.follows;
    old_ids = All-remove_at b.state_id l i v.old_ids;
    half = λ h. elim why [
      | inl few ↦
          recorded-IsAccounted p (clock 0) r b l i w w' (v.half h) at known held pushed
            (rw (← enough_calls_lem p b v.follows h) few)
      | inr other ↦ absurd (other h)
    ];
  }

  -- A transition out of the state half open.
  left-IsOrderly :
      (s : State) (why : Reason) (w' : Window)
      → s ≢ half_open
      → b.state_id + 1 < u32_mod
      → IsOrderly p (record {
        breaker = transit_to s why (clock 1) (clock 2) (record b { window = some w' });
        in_flight = rest;
      })
  left-IsOrderly s why w' other ids =
      let b1 : CircuitBreaker = record b { window = some w' } in
      let (at, same, moved) = transit_to_lem s why (clock 1) (clock 2) b1 in
      record {
        follows = same ∙ v.follows;
        old_ids = elim moved [
          | inl (stays, e) ↦ rw e (All-remove_at b.state_id l i v.old_ids)
          | inr (leaves, next) ↦ rw next (
              All-le b.state_id (inc32 b.state_id) rest (All-remove_at b.state_id l i v.old_ids)
                (omega arith))
        ];
        half = λ h. absurd (other (sym at ∙ h));
      }

  -- The result of a call of an earlier state leaves the accounts alone.
  stale-IsOrderly :
      (id : ℕ)
      → get_elem? l i ≡ some id
      → id ≢ b.state_id
      → IsOrderly p (record { breaker = b; in_flight = rest })
  stale-IsOrderly id at stale = record {
    follows = v.follows;
    old_ids = All-remove_at b.state_id l i v.old_ids;
    half = λ h.
        let a = v.half h in
        record {
          results = a.results;
          ring = a.ring;
          window = a.window;
          filled = a.filled;
          accounts = ground (arith, a.accounts, pending-remove_at b.state_id id l i at);
          capped = a.capped;
          undecided = a.undecided;
        };
  }

  recorded-IsOrderly :
      (id : ℕ) (e : Bool) (d : ℤ) (b' : CircuitBreaker)
      → b.state_id + 2 < u32_mod
      → get_elem? l i ≡ some id
      → record_result clock id e d b ≡ some b'
      → IsOrderly p (record { breaker = b'; in_flight = rest })
  unfolding record_result
  recorded-IsOrderly id e d b' ids at done = elim (Bool-cases (id == b.state_id)) [
    | inr stale ↦
        let same : b ≡ b' = ground arith in
        subst (λ c. IsOrderly p (record { breaker = c; in_flight = rest })) same
          (stale-IsOrderly id at (ground arith))
    | inl current ↦
        let r = call_result b.policy e d in
        let run : record_current clock r b ≡ some b' = ground arith in
        let here : id ≡ b.state_id = (==_iff id b.state_id).0 current in
        let (w, w', held, pushed, judged) = record_current_steps clock r b b' run in
        let known = call_result_known b.policy e d in
        elim (evaluate-Verdict clock (record b { window = some w' }) b' w' judged) [
          | inl (same, why) ↦
              subst (λ c. IsOrderly p (record { breaker = c; in_flight = rest })) (sym same)
                (pushed-IsOrderly r w w' (at ∙ ap some here) known held pushed why)
          | inr (s, why, other, same) ↦
              subst (λ c. IsOrderly p (record { breaker = c; in_flight = rest })) (sym same)
                (left-IsOrderly s why w' other (omega arith))
        ]
  ]

new_breaker-IsOrderly :
    (p : Policy) (clock : ℕ → ℕ)
    → IsOrderly p (record { breaker = new_breaker p clock; in_flight = [] })
unfolding new_breaker transit_to
new_breaker-IsOrderly p clock = record { follows = refl; old_ids = tt; half = λ h. cc }

Step-IsOrderly :
    (p : Policy) {s s' : System} → IsUsable p → Step s s' → IsOrderly p s → IsOrderly p s'
unfolding set_state
Step-IsOrderly p u (acquires s clock ids) v = acquired-IsOrderly p u clock s v ids
Step-IsOrderly p u (records s clock i id e d b ids at done) v =
    recorded-IsOrderly p u clock s.breaker s.in_flight v i id e d b ids at done
Step-IsOrderly p u (forces s state clock ids) v =
    transit_to-IsOrderly p u state force_transition (clock 0) (clock 1) s.breaker s.in_flight v
      (omega arith)

Reach-IsOrderly : (p : Policy) {s : System} → IsUsable p → Reach p s → IsOrderly p s
Reach-IsOrderly p u (starts clock) = new_breaker-IsOrderly p clock
Reach-IsOrderly p u (steps r st) = Step-IsOrderly p u st (Reach-IsOrderly p u r)

-- A breaker with a usable policy, made by `New` and used by concurrent calls in any order, in the
-- state half open, while its ids have not wrapped: the results in its window and the calls of this
-- state that are still in flight add up to the permissions given; these are not more than the policy
-- permits; the results are too few for a decision; and if all permissions are given, a call is still
-- in flight whose result will decide.
pub half_open_accounts :
    (p : Policy) (s : System)
    → IsUsable p
    → Reach p s
    → s.breaker.state ≡ half_open
    → let b = s.breaker in
      let waiting = pending b.state_id s.in_flight in
      (w : Window) × (b.window ≡ some w)
      × (total w + waiting ≡ b.number_of_calls_in_half_open)
      × (b.number_of_calls_in_half_open ≤ permitted_calls p)
      × (total w < enough p)
      × (b.number_of_calls_in_half_open ≡ permitted_calls p → 0 < waiting)
half_open_accounts p s u r h =
    let a = (Reach-IsOrderly p u r).half h in
    let size = total-Filled (permitted_calls p) a.results a.ring a.filled in
    let few = enough_le p u in
    (
      count_based a.ring,
      a.window,
      omega (arith, a.accounts),
      a.capped,
      omega (arith, a.undecided),
      λ e. omega (arith, a.accounts, a.undecided),
    )
