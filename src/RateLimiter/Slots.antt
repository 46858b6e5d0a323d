-- ===== src/RateLimiter/Slots.antt =====
-- pkg/util/ratelimiter/ratelimiter.go: a limiter under any sequence of calls. The tokens of all the
-- cycles form one row of slots, `limit` for each cycle, and every permitted call takes a later slot.
use native.Mathlib.Nat.{mul-le-mul_left, le-div_iff_mul-le, div-add-mod, mod-lt}
use easegress.Prelude.{
  ℕ, ◌+◌, ◌-◌, ◌*◌, ◌/◌, ◌≤◌, ◌<◌, ◌≡◌, refl, ◌∙◌, ◌⊎◌, inl, inr, false, Option, some, ◌>>=◌, List,
  [], ◌∷◌, arith, ltb, leb, dec_lt, subst, if◌then◌else◌, sum_by,
}
use easegress.Prelude.Int.{pos, pos_part}
use easegress.RateLimiter.{RateLimiter, new_limiter, acquire_permission, normal}
use easegress.RateLimiter.Cycles.{
  Rate, policy_of, Frame, normal_active, meter, taken, cycle_at, proceeds_at, cycle_bounds,
  acquire_permission_proceeds,
}

-- Calls of `AcquirePermission` at the given times: the limiter, and when the permitted calls proceed,
-- each after it has waited as long as it was told.
unfoldable pub acquire_all : List ℕ → RateLimiter → Option (RateLimiter × List ℕ)
unfolding acquire_permission
acquire_all [] r = some (r, [])
acquire_all (now ∷ times) r = do
  (r', permitted, d) ← acquire_permission (pos 1) now r
  (r'', proceeding) ← acquire_all times r'
  some (r'', if permitted then (now + pos_part d) ∷ proceeding else proceeding)

-- The clock does not go back.
abbrev pub Monotone : ℕ → List ℕ → Type 0
Monotone t [] = Unit
Monotone t (now ∷ times) = (t ≤ now) × Monotone now times

-- 1 for a time in the `j`th refresh period of a limiter that was started at `s`.
abbrev pub in_period : Rate → ℕ → ℕ → ℕ → ℕ
in_period q s j p =
    if leb (s + q.period * j) p then (if ltb p (s + q.period * (j + 1)) then 1 else 0) else 0

-- A time in the period `n`.
in_period_of :
    (q : Rate) (s j n p : ℕ)
    → s + q.period * n ≤ p
    → p < s + q.period * (n + 1)
    → (in_period q s j p ≡ 0) ⊎ ((in_period q s j p ≡ 1) × (n ≡ j))
in_period_of q s j n p le lt = elim (dec_lt n j) [
  | yes early ↦
      let far = mul-le-mul_left {m = n + 1} {n = j} q.period (omega arith) in inl (ground arith)
  | no not_early ↦ elim (dec_lt j n) [
    | yes late ↦
        let far = mul-le-mul_left {m = j + 1} {n = n} q.period (omega arith) in inl (ground arith)
    | no not_late ↦
        let same : n ≡ j = omega arith in
        inr (subst (λ k. in_period q s k p ≡ 1) same (ground arith), same)
  ]
]

-- The slots of the cycle `j` that a limiter has left whose next free slot is `free`.
left : Rate → ℕ → ℕ → ℕ
left q j free = if leb (j * q.limit) free then (j + 1) * q.limit - free else q.limit

-- A token counted from the cycle `n` is a slot of the cycle that it is said to be of.
slot_cycle :
    (q : Rate) (n t : ℕ)
    → ((n + t / q.limit) * q.limit ≤ n * q.limit + t)
      × (n * q.limit + t < (n + t / q.limit + 1) * q.limit)
slot_cycle q n t = (
  omega (arith, div-add-mod t q.limit),
  omega (arith, div-add-mod t q.limit, mod-lt t q.limit_pos),
)

-- Taking a slot.
left_taken :
    (q : Rate) (j free n slot : ℕ)
    → free ≤ slot
    → n * q.limit ≤ slot
    → slot < (n + 1) * q.limit
    → (left q j (slot + 1) ≤ left q j free) × (n ≡ j → left q j (slot + 1) + 1 ≤ left q j free)
unfolding left
left_taken q j free n slot le at before =
    (ground arith, λ e. subst (λ k. left q k (slot + 1) + 1 ≤ left q k free) e (ground arith))

free_slot : Rate → ℕ → ℕ → ℕ
free_slot q c k = c * q.limit + k

later_slot : (q : Rate) (c k n : ℕ) → c ≤ n → free_slot q c k ≤ n * q.limit + taken q c k n
unfolding free_slot
later_slot q c k n le =
    let split : n * q.limit ≡ c * q.limit + (n - c) * q.limit =
      subst (λ m. m * q.limit ≡ c * q.limit + (n - c) * q.limit) {x = c + (n - c)} (omega arith)
        (omega arith) in
    omega arith

-- A permitted call that proceeds in its token's cycle uses up one of the slots of that cycle.
granted_left :
    (q : Rate) (s j c k n p : ℕ)
    → c ≤ n
    → s + q.period * (n + taken q c k n / q.limit) ≤ p
    → p < s + q.period * (n + taken q c k n / q.limit + 1)
    → in_period q s j p + left q j (free_slot q n (taken q c k n + 1)) ≤ left q j (free_slot q c k)
unfolding free_slot
granted_left q s j c k n p ge from until =
    let t = taken q c k n in
    let (at, before) = slot_cycle q n t in
    let (kept, used) =
      left_taken q j (free_slot q c k) (n + t / q.limit) (n * q.limit + t) (later_slot q c k n ge)
        at before in
    let next : n * q.limit + t + 1 ≡ free_slot q n (t + 1) = omega arith in
    let fewer = subst (λ m. left q j m ≤ left q j (free_slot q c k)) next kept in
    elim (in_period_of q s j (n + t / q.limit) p from until) [
      | inl outside ↦ omega arith
      | inr (inside, same) ↦
          omega (arith, subst (λ m. left q j m + 1 ≤ left q j (free_slot q c k)) next (used same))
    ]

-- However the calls come, no cycle gets more of them than it has slots left.
acquire_all-left :
    (q : Rate) (f : Frame) (c k t s j : ℕ) (times : List ℕ)
    → f.start ≡ s
    → s + q.period * c ≤ t
    → Monotone t times
    → (r : RateLimiter) × (proceeding : List ℕ) × (acquire_all times (meter q f c k)
        ≡ some (r, proceeding))
      × (sum_by (in_period q s j) proceeding ≤ left q j (free_slot q c k))
unfolding acquire_all
acquire_all-left q f c k t s j [] e le monotone = (meter q f c k, [], refl, omega arith)
acquire_all-left q f c k t s j (now ∷ times) e le (later, monotone) =
    let n = cycle_at q f now in
    let started : f.start ≤ now = omega arith in
    let ge : c ≤ n = (le-div_iff_mul-le q.period_pos).1 (omega arith) in
    let (at, before) = cycle_bounds q f now started in
    elim (acquire_permission_proceeds q f c k now started ge) [
      | inl (full, rejected) ↦
          let (r, proceeding, result, bound) =
            acquire_all-left q f c k now s j times e (omega arith) monotone in
          (r, proceeding, rw (rejected, result) refl, bound)
      | inr (free, (f', granted, same, until, _)) ↦
          let t = taken q c k n in
          let (r, proceeding, result, bound) =
            acquire_all-left q f' n (t + 1) now s j times (same ∙ e) (omega arith) monotone in
          let p = now + (proceeds_at q f n t - now) in
          let one = granted_left q s j c k n p ge (omega arith) (omega arith) in
          (r, p ∷ proceeding, rw (granted, result) refl, omega arith)
    ]

left-fresh : (q : Rate) (j : ℕ) → left q j (free_slot q 0 0) ≤ q.limit
unfolding left free_slot
left-fresh q j = ground arith

-- For a limiter with a positive period and limit, and calls of AcquirePermission that do not go back
-- in time: no call panics, and in every refresh period at most `limit` of the permitted calls
-- proceed, each proceeding after the wait that it was told.
pub acquire_all-limit :
    (q : Rate) (s j : ℕ) (times : List ℕ)
    → Monotone s times
    → (r : RateLimiter) × (proceeding : List ℕ) × (acquire_all times (new_limiter (policy_of q) s)
        ≡ some (r, proceeding))
      × (sum_by (in_period q s j) proceeding ≤ q.limit)
unfolding new_limiter
acquire_all-limit q s j times monotone =
    let f : Frame = record {
      state = normal;
      start = s;
      has_listener = false;
      events = [];
      active = normal_active;
    } in
    let (r, proceeding, result, bound) =
      acquire_all-left q f 0 0 s s j times refl (omega arith) monotone in
    (r, proceeding, result, omega (arith, left-fresh q j))
