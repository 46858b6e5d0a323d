-- ===== src/CircuitBreaker/Breaker/Permission.antt =====
-- pkg/util/circuitbreaker/circuitbreaker.go: the calls that an open breaker permits, one after the
-- other and before any result is recorded.
use easegress.Prelude.{
  ℕ, zero, suc, ◌+◌, ◌<◌, ◌≡◌, refl, sym, ap, subst, ◌∙◌, Bool, true, false, ◌&&◌, List, [], ◌∷◌,
  ◌++◌, map, arith, All, ltb, u32_mod, inc32,
}
use easegress.Prelude.Int.{pos, ltb_ℤ}
use easegress.CircuitBreaker.Breaker.{
  State, half_open, opened, wait_elapsed, Policy, CircuitBreaker, since, transit_to,
  half_open_permission, open_permission, permission, acquire_permission,
}

-- The breaker after the calls, and whether each is permitted.
unfoldable pub acquire_all : List (ℕ → ℕ) → CircuitBreaker → CircuitBreaker × List Bool
acquire_all [] b = (b, [])
acquire_all (clock ∷ clocks) b =
    let (b', permitted, _) = acquire_permission clock b in
    let (b'', answers) = acquire_all clocks b' in (b'', permitted ∷ answers)

-- So many calls are permitted, and the others are not.
abbrev pub quota : ℕ → List (ℕ → ℕ) → List Bool
quota free [] = []
quota zero (clock ∷ clocks) = false ∷ quota zero clocks
quota (suc free) (clock ∷ clocks) = true ∷ quota free clocks

-- The wait duration of a breaker that has been open since `since_when` is not over.
abbrev pub IsEarly : Policy → ℕ → (ℕ → ℕ) → Type 0
IsEarly p since_when clock = ltb_ℤ (since since_when (clock 0)) p.wait_duration_in_open ≡ true

-- The maximal wait of a breaker that has been half open since `since_when` is not over, or not set.
abbrev pub HasTime : Policy → ℕ → (ℕ → ℕ) → Type 0
HasTime p since_when clock =
    (ltb_ℤ (pos 0) p.max_wait_duration_in_half_open
      && ltb_ℤ p.max_wait_duration_in_half_open (since since_when (clock 2)))
    ≡ false

abbrev with_id : CircuitBreaker × Bool → CircuitBreaker × Bool × ℕ
with_id (b, permitted) = (b, permitted, b.state_id)

acquire_permission_state :
    (clock : ℕ → ℕ) (b : CircuitBreaker) (s : State)
    → b.state ≡ s
    → acquire_permission clock b ≡ with_id (permission s clock b)
unfolding acquire_permission
acquire_permission_state clock b s h = ap (λ t. with_id (permission t clock b)) h

half_open_free :
    (clock : ℕ → ℕ) (b : CircuitBreaker)
    → b.state ≡ half_open
    → ltb b.number_of_calls_in_half_open b.policy.permitted_number_of_calls_in_half_open ≡ true
    → acquire_permission clock b ≡ (
      record b { number_of_calls_in_half_open = inc32 b.number_of_calls_in_half_open },
      true,
      b.state_id,
    )
unfolding permission half_open_permission
half_open_free clock b h free =
    acquire_permission_state clock b half_open h ∙ ap with_id (rw (free, half_open_permission) refl)

half_open_full :
    (clock : ℕ → ℕ) (b : CircuitBreaker)
    → b.state ≡ half_open
    → ltb b.number_of_calls_in_half_open b.policy.permitted_number_of_calls_in_half_open ≡ false
    → HasTime b.policy b.transit_time clock
    → acquire_permission clock b ≡ (b, false, b.state_id)
unfolding permission half_open_permission
half_open_full clock b h full time =
    acquire_permission_state clock b half_open h
    ∙ ap with_id (rw (full, half_open_permission) (rw time refl))

acquire_all-cons :
    (clock : ℕ → ℕ) (clocks : List (ℕ → ℕ)) (b b' : CircuitBreaker) (permitted : Bool) (id : ℕ)
    → acquire_permission clock b ≡ (b', permitted, id)
    → (acquire_all (clock ∷ clocks) b).1 ≡ permitted ∷ (acquire_all clocks b').1
unfolding acquire_all
acquire_all-cons clock clocks b b' permitted id e = rw e refl

half_open_quota :
    (clocks : List (ℕ → ℕ)) (b : CircuitBreaker) (free : ℕ)
    → b.state ≡ half_open
    → b.number_of_calls_in_half_open + free ≡ b.policy.permitted_number_of_calls_in_half_open
    → b.policy.permitted_number_of_calls_in_half_open < u32_mod
    → All (HasTime b.policy b.transit_time) clocks
    → (acquire_all clocks b).1 ≡ quota free clocks
unfolding acquire_all
half_open_quota [] b free h k small time = refl
half_open_quota (clock ∷ clocks) b zero h k small (time, times) =
    acquire_all-cons clock clocks b b false b.state_id
      (half_open_full clock b h (ground arith) time)
    ∙ ap (λ answers. false ∷ answers) (half_open_quota clocks b zero h k small times)
half_open_quota (clock ∷ clocks) b (suc free) h k small (time, times) =
    let b' = record b { number_of_calls_in_half_open = inc32 b.number_of_calls_in_half_open } in
    acquire_all-cons clock clocks b b' true b.state_id (half_open_free clock b h (ground arith))
    ∙ ap (λ answers. true ∷ answers) (half_open_quota clocks b' free h (omega arith) small times)

opened_early :
    (clock : ℕ → ℕ) (b : CircuitBreaker)
    → b.state ≡ opened
    → IsEarly b.policy b.transit_time clock
    → acquire_permission clock b ≡ (b, false, b.state_id)
unfolding permission open_permission
opened_early clock b h early =
    acquire_permission_state clock b opened h ∙ ap with_id (rw (early, open_permission) refl)

-- The breaker that an open one turns to once the wait is over.
abbrev turned : (ℕ → ℕ) → CircuitBreaker → CircuitBreaker
turned clock b = transit_to half_open wait_elapsed (clock 1) (clock 2) b

turned_lem :
    (clock : ℕ → ℕ) (b : CircuitBreaker)
    → b.state ≡ opened
    → ((turned clock b).state ≡ half_open)
      × ((turned clock b).policy ≡ b.policy)
      × ((turned clock b).transit_time ≡ clock 1)
      × ((turned clock b).number_of_calls_in_half_open ≡ 0)
unfolding transit_to
turned_lem clock b h = ground arith

opened_late :
    (clock : ℕ → ℕ) (b : CircuitBreaker)
    → b.state ≡ opened
    → ltb_ℤ (since b.transit_time (clock 0)) b.policy.wait_duration_in_open ≡ false
    → acquire_permission clock b ≡ acquire_permission clock (turned clock b)
unfolding permission open_permission
opened_late clock b h late =
    acquire_permission_state clock b opened h
    ∙ ap with_id (rw (late, open_permission) refl)
    ∙ sym (acquire_permission_state clock (turned clock b) half_open (turned_lem clock b h).0)

-- An open breaker rejects the calls that are early. Once the wait duration is over, which the call
-- with `clock` is the first to see, it permits as many calls as the policy says for the state half
-- open, fewer than 2^32, and then none, as long as no result is recorded and the maximal wait in the
-- state half open, if it is set, is not over.
pub acquire_all-quota :
    (early late : List (ℕ → ℕ)) (clock : ℕ → ℕ) (b : CircuitBreaker)
    → b.state ≡ opened
    → b.policy.permitted_number_of_calls_in_half_open < u32_mod
    → All (IsEarly b.policy b.transit_time) early
    → ltb_ℤ (since b.transit_time (clock 0)) b.policy.wait_duration_in_open ≡ false
    → All (HasTime b.policy (clock 1)) (clock ∷ late)
    → (acquire_all (early ++ clock ∷ late) b).1
      ≡ map (λ c. false) early
        ++ quota b.policy.permitted_number_of_calls_in_half_open (clock ∷ late)
unfolding acquire_all
acquire_all-quota [] late clock b h small early over time =
    let b' = turned clock b in
    let (half, policy, start, none_yet) = turned_lem clock b h in
    ap (λ (x : CircuitBreaker × Bool × ℕ). x.1 ∷ (acquire_all late x.0).1)
      (opened_late clock b h over)
    ∙ half_open_quota (clock ∷ late) b' b.policy.permitted_number_of_calls_in_half_open half
        (rw (none_yet, policy) (omega arith)) (rw policy small)
        (subst (λ (p : Policy). All (HasTime p b'.transit_time) (clock ∷ late)) (sym policy)
          (subst (λ (t : ℕ). All (HasTime b.policy t) (clock ∷ late)) (sym start) time))
acquire_all-quota (c ∷ early) late clock b h small (soon, sooner) over time =
    acquire_all-cons c (early ++ clock ∷ late) b b false b.state_id (opened_early c b h soon)
    ∙ ap (λ answers. false ∷ answers)
        (acquire_all-quota early late clock b h small sooner over time)
