-- ===== src/MultiRateLimiter/Sized.antt =====
-- The calls of the rate limiter with several limits on every path, errors included.
use easegress.Prelude.{
  ℕ, suc, ◌/◌, ◌≡◌, ◌≢◌, ◌⊎◌, refl, sym, ap, ◌∙◌, true, false, Option, some, inl, inr, List, [],
  ◌∷◌, map, arith, ◌==◌, ==_iff, if◌then◌else◌, length, length-map, All, clash, Bool-cases,
}
use easegress.Prelude.Int.{ℤ, pos, negsuc, ◌+ℤ◌, ◌-ℤ◌, ◌*ℤ◌, sub_ℕ, ltb_ℤ, leb_ℤ, quo, negate}
use easegress.RateLimiter.{State, normal, limiting, disabled, code}
use easegress.MultiRateLimiter.{
  MultiRateLimiter, Answer, answer, bad_count, used_tokens, some_reached, add_counts, longest_wait,
  permit, acquire_active, acquire_permission,
}

-- A count for each limit, and no limit or period of zero.
pub record IsSized (m : MultiRateLimiter) : Type 0 where
  pub sized : length m.tokens ≡ length m.policy.limit_for_period
  pub limits : All (λ limit. limit ≢ pos 0) m.policy.limit_for_period
  pub period : m.policy.limit_refresh_period ≢ pos 0

abbrev Found {ℓ} : {A : Type ℓ} → Option A → Type ℓ
Found {A} o = (a : A) × (o ≡ some a)

quo_total : (a b : ℤ) → b ≢ pos 0 → Found (quo a b)
unfolding quo
quo_total (pos a) (negsuc b) h = (_, refl)
quo_total (negsuc a) (negsuc b) h = (_, refl)
quo_total (pos a) (pos b) h = elim (Bool-cases (b == 0)) [
  | inl zero ↦ absurd (h (ap pos ((==_iff b 0).0 zero)))
  | inr more ↦ (pos (a / b), rw more refl)
]
quo_total (negsuc a) (pos b) h = elim (Bool-cases (b == 0)) [
  | inl zero ↦ absurd (h (ap pos ((==_iff b 0).0 zero)))
  | inr more ↦ (negate (suc a / b), rw more refl)
]

-- The tokens of each kind that are taken of the current cycle and later ones, `ahead` cycles after
-- those of the limiter.
abbrev pub still_taken : ℤ → List ℤ → List ℤ → List ℤ
still_taken ahead [] limits = []
still_taken ahead (t ∷ ts) [] = []
still_taken ahead (t ∷ ts) (l ∷ ls) =
    let left = t -ℤ ahead *ℤ l in
    (if ltb_ℤ left (pos 0) then pos 0 else left) ∷ still_taken ahead ts ls

-- One kind has reached its bound.
abbrev pub Reached : List ℤ → List ℤ → Type 0
Reached [] bounds = ⊥
Reached (t ∷ ts) [] = ⊥
Reached (t ∷ ts) (b ∷ bs) = (leb_ℤ b t ≡ true) ⊎ Reached ts bs

abbrev pub sums : List ℤ → List ℤ → List ℤ
sums [] counts = []
sums (t ∷ ts) [] = []
sums (t ∷ ts) (c ∷ cs) = (t +ℤ c) ∷ sums ts cs

used_tokens_total :
    (ahead : ℤ) (tokens limits : List ℤ)
    → length tokens ≡ length limits
    → (used_tokens ahead tokens limits ≡ some (still_taken ahead tokens limits))
      × (length (still_taken ahead tokens limits) ≡ length limits)
unfolding used_tokens
used_tokens_total ahead [] [] h = (refl, refl)
used_tokens_total ahead [] (l ∷ ls) h = absurd (omega arith)
used_tokens_total ahead (t ∷ ts) [] h = absurd (omega arith)
used_tokens_total ahead (t ∷ ts) (l ∷ ls) h =
    let (e, k) = used_tokens_total ahead ts ls (omega arith) in (rw e refl, omega arith)

some_reached_total :
    (tokens bounds : List ℤ)
    → length tokens ≡ length bounds
    → ((some_reached tokens bounds ≡ some true) × Reached tokens bounds)
      ⊎ ((some_reached tokens bounds ≡ some false) × ¬ Reached tokens bounds)
unfolding some_reached
some_reached_total [] bounds h = inr (refl, λ r. r)
some_reached_total (t ∷ ts) [] h = absurd (omega arith)
some_reached_total (t ∷ ts) (b ∷ bs) h = elim (Bool-cases (leb_ℤ b t)) [
  | inl y ↦ inl (rw y refl, inl y)
  | inr n ↦ elim (some_reached_total ts bs (omega arith)) [
    | inl (e, r) ↦ inl (rw n e, inr r)
    | inr (e, r) ↦ inr (rw n e, λ x. elim x [ inl y ↦ clash y n | inr later ↦ r later ])
  ]
]

add_counts_total :
    (tokens counts : List ℤ)
    → length tokens ≡ length counts
    → (add_counts tokens counts ≡ some (sums tokens counts))
      × (length (sums tokens counts) ≡ length tokens)
unfolding add_counts
add_counts_total [] counts h = (refl, refl)
add_counts_total (t ∷ ts) [] h = absurd (omega arith)
add_counts_total (t ∷ ts) (c ∷ cs) h =
    let (e, k) = add_counts_total ts cs (omega arith) in (rw e refl, omega arith)

longest_wait_total :
    (now : ℕ) (cycle : ℤ) (r : MultiRateLimiter) (tokens limits : List ℤ) (d : ℤ)
    → length tokens ≡ length limits
    → All (λ limit. limit ≢ pos 0) limits
    → Found (longest_wait now cycle r tokens limits d)
unfolding longest_wait
longest_wait_total now cycle r [] limits d h k = (d, refl)
longest_wait_total now cycle r (t ∷ ts) [] d h k = absurd (omega arith)
longest_wait_total now cycle r (t ∷ ts) (l ∷ ls) d h k =
    let (ahead, e) = quo_total t l k.0 in
    let wait = pos r.start_time +ℤ r.policy.limit_refresh_period *ℤ (cycle +ℤ ahead) -ℤ pos now in
    rw e (longest_wait_total now cycle r ts ls (if ltb_ℤ d wait then wait else d) (omega arith) k.1)

-- A permission takes the counted tokens, and makes the caller wait only if a kind has no free token
-- in the current cycle.
abbrev Permission : MultiRateLimiter → List ℤ → ℤ → List ℤ → MultiRateLimiter → Answer → Type 0
Permission m count cycle tokens m' a =
    (d : ℤ) × (a ≡ answer true d)
    × (m'.tokens ≡ sums tokens count)
    × (m'.cycle ≡ cycle)
    × (¬ Reached tokens m.policy.limit_for_period → d ≡ pos 0)

permit_total :
    (m : MultiRateLimiter) (count : List ℤ) (now : ℕ) (cycle : ℤ) (tokens : List ℤ)
    → IsSized m
    → length tokens ≡ length m.policy.limit_for_period
    → length count ≡ length m.policy.limit_for_period
    → (m' : MultiRateLimiter) × (a : Answer) × (permit count now cycle tokens m ≡ some (m', a))
      × IsSized m'
      × Permission m count cycle tokens m' a
unfolding permit
permit_total m count now cycle tokens h k c =
    let (e, l) = add_counts_total tokens count (k ∙ sym c) in
    let m' = record m { tokens = sums tokens count; cycle = cycle } in
    elim (some_reached_total tokens m.policy.limit_for_period k) [
      | inl (full, r) ↦
          let (d, e') =
            longest_wait_total now cycle m tokens m.policy.limit_for_period (pos 0) k h.limits in
          (
            m',
            answer true d,
            rw (e, full, e') refl,
            record { sized = l ∙ k; limits = h.limits; period = h.period },
            (d, refl, refl, refl, λ n. absurd (n r)),
          )
      | inr (free, _) ↦ (
        record m' { state = normal },
        answer true (pos 0),
        rw (e, free) refl,
        record { sized = l ∙ k; limits = h.limits; period = h.period },
        (pos 0, refl, refl, refl, λ n. refl),
      )
    ]

-- What a call of a limiter that is not disabled, with a count for each limit, does: a rejection,
-- which leaves the limiter as it is, if a kind has reached its limit times the cycles within the
-- timeout and the current one, and otherwise a permission.
abbrev Decided : MultiRateLimiter → List ℤ → ℕ → MultiRateLimiter → Answer → Type 0
Decided m count now m' a =
    let limits = m.policy.limit_for_period in
    (cycles : ℤ) × (cycle : ℤ) × (quo m.policy.timeout_duration m.policy.limit_refresh_period
      ≡ some cycles)
    × (quo (sub_ℕ now m.start_time) m.policy.limit_refresh_period ≡ some cycle)
    × let tokens = still_taken (cycle -ℤ m.cycle) m.tokens limits in
      let most = map (λ limit. limit *ℤ (cycles +ℤ pos 1)) limits in
      (Reached tokens most × (a ≡ answer false m.policy.timeout_duration) × (m' ≡ m))
      ⊎ ((¬ Reached tokens most) × Permission m count cycle tokens m' a)

active_total :
    (m : MultiRateLimiter) (count : List ℤ) (now : ℕ)
    → IsSized m
    → length count ≡ length m.policy.limit_for_period
    → (m' : MultiRateLimiter) × (a : Answer) × (acquire_active count now m ≡ some (m', a))
      × IsSized m'
      × Decided m count now m' a
unfolding acquire_active
active_total m count now h c =
    let limits = m.policy.limit_for_period in
    let (cycles, e1) = quo_total m.policy.timeout_duration m.policy.limit_refresh_period h.period in
    let (cycle, e2) = quo_total (sub_ℕ now m.start_time) m.policy.limit_refresh_period h.period in
    let tokens = still_taken (cycle -ℤ m.cycle) m.tokens limits in
    let (e3, k) = used_tokens_total (cycle -ℤ m.cycle) m.tokens limits h.sized in
    let most = map (λ limit. limit *ℤ (cycles +ℤ pos 1)) limits in
    elim (some_reached_total tokens most
      (k ∙ sym (length-map limits (λ limit. limit *ℤ (cycles +ℤ pos 1))))) [
        | inl (full, r) ↦ (
          m,
          answer false m.policy.timeout_duration,
          rw (e1, e2, e3, full) refl,
          h,
          (cycles, cycle, e1, e2, inl (r, refl, refl)),
        )
        | inr (room, n) ↦
            let (m', a, e5, h', p) = permit_total m count now cycle tokens h k c in
            (m', a, rw (e1, e2, e3, room) e5, h', (cycles, cycle, e1, e2, inr (n, p)))
      ]

-- What a call comes to: the permission of a disabled limiter, or the error for a wrong number of
-- counts, which leave the limiter as it is, or what is decided by the tokens.
abbrev pub Outcome : MultiRateLimiter → List ℤ → ℕ → MultiRateLimiter → Answer → Type 0
Outcome m count now m' a =
    ((m.state ≡ disabled) × (a ≡ answer true (pos 0)) × (m' ≡ m))
    ⊎ ((m.state ≢ disabled)
        × (length count ≢ length m.policy.limit_for_period)
        × (a ≡ bad_count)
        × (m' ≡ m))
    ⊎ ((m.state ≢ disabled)
        × (length count ≡ length m.policy.limit_for_period)
        × Decided m count now m' a)

off_or_on :
    (s : State) → ((code s == 2) ≡ true) × (s ≡ disabled) ⊎ ((code s == 2) ≡ false) × (s ≢ disabled)
off_or_on normal = inr (refl, λ e. cc)
off_or_on limiting = inr (refl, λ e. cc)
off_or_on disabled = inl (refl, refl)

-- A call of a limiter that has a count of tokens for each limit, no limit of zero and a period that
-- is not zero does not panic, and keeps the limiter so. If the limiter is disabled it is permitted,
-- and if there is not one count for each limit it is the error, without a change. Otherwise it is
-- rejected with the timeout, without a change, exactly if of one kind as many tokens are taken, from
-- the current cycle on, as the limit allows for that cycle and the whole cycles of the timeout. If
-- not, it is permitted, adds its counts to the taken tokens, and need not wait if each kind has taken
-- less than its limit.
pub acquire_permission-IsSized :
    (m : MultiRateLimiter) (count : List ℤ) (now : ℕ)
    → IsSized m
    → (m' : MultiRateLimiter) × (a : Answer) × (acquire_permission count now m ≡ some (m', a))
      × IsSized m'
      × Outcome m count now m' a
unfolding acquire_permission
acquire_permission-IsSized m count now h = elim (off_or_on m.state) [
  | inl (off, d) ↦ (m, answer true (pos 0), rw off refl, h, inl (d, refl, refl))
  | inr (on, d) ↦ elim (Bool-cases (length count == length m.policy.limit_for_period)) [
    | inl fits ↦
        let c = (==_iff (length count) (length m.policy.limit_for_period)).0 fits in
        let (m', a, e, h', decided) = active_total m count now h c in
        (m', a, rw (on, fits) e, h', inr (inr (d, c, decided)))
    | inr differs ↦ (
      m,
      bad_count,
      rw (on, differs) refl,
      h,
      inr (
          inl (
            d,
            λ c. clash ((==_iff (length count) (length m.policy.limit_for_period)).1 c) differs,
            refl,
            refl,
          )),
    )
  ]
]
