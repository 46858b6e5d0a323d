-- ===== src/CircuitBreaker/Breaker/System.antt =====
-- pkg/util/circuitbreaker/circuitbreaker.go: a circuit breaker under concurrent `Execute`s, as the
-- steps that its lock makes atomic: a permission is acquired, a permitted call ends and its result
-- is recorded, a state is forced. A call in flight is the state's id that it was permitted with.
use easegress.Prelude.{
  ℕ, zero, suc, ◌+◌, ◌<◌, ◌≡◌, Bool, some, List, [], ◌∷◌, get_elem?, sum_by, arith, u32_mod, ◌==◌,
  if◌then◌else◌,
}
use easegress.Prelude.Int.{ℤ}
use easegress.CircuitBreaker.Breaker.{
  State, Policy, CircuitBreaker, new_breaker, set_state, acquire_permission, record_result,
}

pub record System : Type 0 where
  pub breaker : CircuitBreaker
  pub in_flight : List ℕ

-- A permitted call is in flight from then on.
abbrev pub after_permission : CircuitBreaker × Bool → List ℕ → System
after_permission r l = record { breaker = r.0; in_flight = if r.1 then r.0.state_id ∷ l else l }

abbrev pub acquired : (ℕ → ℕ) → System → System
acquired clock s =
    let r = acquire_permission clock s.breaker in
    record { breaker = r.0; in_flight = if r.1 then r.2 ∷ s.in_flight else s.in_flight }

abbrev pub remove_at : List ℕ → ℕ → List ℕ
remove_at [] i = []
remove_at (x ∷ xs) zero = xs
remove_at (x ∷ xs) (suc i) = x ∷ remove_at xs i

-- The ids do not wrap: fewer than 2^32 - 2 transitions have been made.
abbrev pub HasIds : System → Type 0
HasIds s = s.breaker.state_id + 2 < u32_mod

pub data Step : System → System → Type 0 where
  acquires : (s : System) (clock : ℕ → ℕ) → HasIds s → Step s (acquired clock s)
  records :
      (s : System) (clock : ℕ → ℕ) (i id : ℕ) (has_err : Bool) (d : ℤ) (b : CircuitBreaker)
      → HasIds s
      → get_elem? s.in_flight i ≡ some id
      → record_result clock id has_err d s.breaker ≡ some b
      → Step s (record { breaker = b; in_flight = remove_at s.in_flight i })
  forces :
      (s : System) (state : State) (clock : ℕ → ℕ)
      → HasIds s
      → Step s (record { breaker = set_state state clock s.breaker; in_flight = s.in_flight })

-- What a breaker made by `New` can come to.
pub data Reach (p : Policy) : System → Type 0 where
  starts : (clock : ℕ → ℕ) → Reach p (record { breaker = new_breaker p clock; in_flight = [] })
  steps : {s s' : System} → Reach p s → Step s s' → Reach p s'

-- How many calls in flight were permitted under the id.
abbrev pub pending : ℕ → List ℕ → ℕ
pending id l = sum_by (λ j. if j == id then 1 else 0) l

pub pending-remove_at :
    (id x : ℕ) (l : List ℕ) (i : ℕ)
    → get_elem? l i ≡ some x
    → pending id (remove_at l i) + (if x == id then 1 else 0) ≡ pending id l
pending-remove_at id x [] i e = cc
pending-remove_at id x (y ∷ l) zero e = ground arith
pending-remove_at id x (y ∷ l) (suc i) e = ground (arith, pending-remove_at id x l i e)
