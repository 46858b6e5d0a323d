-- ===== src/MultiRateLimiter/Single.antt =====
-- With one limit the rate limiter for several limits does what the rate limiter does.
use easegress.Prelude.{
  ℕ, ◌≡◌, refl, sym, ap, ◌∙◌, Bool, true, not, Option, none, some, inl, inr, [], ◌∷◌, arith, ◌==◌,
  if◌then◌else◌, Bool-cases, Option-cases,
}
use easegress.Prelude.Int.{ℤ, pos, ◌+ℤ◌, ◌-ℤ◌, ◌*ℤ◌, sub_ℕ, ltb_ℤ, leb_ℤ, quo}
use easegress.RateLimiter
use easegress.RateLimiter.{State, normal, limiting, disabled, code, RateLimiter, Policy}
use easegress.MultiRateLimiter.{
  MultiRateLimiter, Answer, answer, used_tokens, longest_wait, permit, acquire_active,
  acquire_permission,
}

-- The limiter for several limits that has the one limit of a rate limiter, in the state `s`.
abbrev pub single : State → RateLimiter → MultiRateLimiter
single s r = record {
  state = s;
  policy = record {
    timeout_duration = r.policy.timeout_duration;
    limit_refresh_period = r.policy.limit_refresh_period;
    limit_for_period = r.policy.limit_for_period ∷ [];
  };
  start_time = r.start_time;
  cycle = r.cycle;
  tokens = r.tokens ∷ [];
}

-- A limiter for several limits turns to normal with a permission that need not wait, and never to
-- limiting. Its waits are not negative.
abbrev pub after : State → Bool → RateLimiter → State
after s permitted r = if permitted then (if code r.state == 0 then normal else s) else s

abbrev pub at_least_0 : ℤ → ℤ
at_least_0 d = if ltb_ℤ (pos 0) d then d else pos 0

abbrev pub lift : State → Option (RateLimiter × Bool × ℤ) → Option (MultiRateLimiter × Answer)
lift s none = none
lift s (some (r, permitted, d)) =
    some (single (after s permitted r) r, answer permitted (if permitted then at_least_0 d else d))

code_inj : (s t : State) → (code s == code t) ≡ true → s ≡ t
code_inj normal normal h = refl
code_inj normal limiting h = ground arith
code_inj normal disabled h = ground arith
code_inj limiting normal h = ground arith
code_inj limiting limiting h = refl
code_inj limiting disabled h = ground arith
code_inj disabled normal h = ground arith
code_inj disabled limiting h = ground arith
code_inj disabled disabled h = refl

-- The turn to a state changes nothing that the other limiter has.
turn-single :
    (s t : State) (now : ℕ) (r : RateLimiter) → single s (RateLimiter.turn t now r) ≡ single s r
unfolding RateLimiter.turn
turn-single s t now r = elim (Bool-cases (code r.state == code t)) [
  | inl e ↦ rw e refl
  | inr e ↦ elim (Bool-cases r.has_listener) [ inl l ↦ rw (e, l) refl | inr l ↦ rw (e, l) refl ]
]

turn_state : (t : State) (now : ℕ) (r : RateLimiter) → (RateLimiter.turn t now r).state ≡ t
unfolding RateLimiter.turn
turn_state t now r = elim (Bool-cases (code r.state == code t)) [
  | inl e ↦ rw e (code_inj r.state t e)
  | inr e ↦ elim (Bool-cases r.has_listener) [ inl l ↦ rw (e, l) refl | inr l ↦ rw (e, l) refl ]
]

turned :
    (s t : State) (now : ℕ) (r : RateLimiter)
    → single (after s true (RateLimiter.turn t now r)) (RateLimiter.turn t now r)
      ≡ single (if code t == 0 then normal else s) r
turned s t now r =
    ap (λ (u : State). single (if code u == 0 then normal else s) (RateLimiter.turn t now r))
      (turn_state t now r)
    ∙ turn-single (if code t == 0 then normal else s) t now r

ltb-leb : (a b : ℤ) → ltb_ℤ a b ≡ not (leb_ℤ b a)
ltb-leb a b = ground arith

permit-single :
    (s : State) (r : RateLimiter) (count : ℤ) (now : ℕ) (cycle tokens : ℤ)
    → permit (count ∷ []) now cycle (tokens ∷ []) (single s r)
      ≡ lift s (RateLimiter.permit count now cycle tokens r)
unfolding RateLimiter.permit permit
permit-single s r count now cycle tokens =
    let r' = record r { tokens = tokens +ℤ count; cycle = cycle } in
    elim (Bool-cases (leb_ℤ r.policy.limit_for_period tokens)) [
      | inl taken ↦ elim (Option-cases (quo tokens r.policy.limit_for_period)) [
        | inl panic ↦
            rw (ltb-leb tokens r.policy.limit_for_period, taken) (rw (panic, longest_wait) refl)
        | inr (ahead, e) ↦
            let wait =
              pos r.start_time +ℤ r.policy.limit_refresh_period *ℤ (cycle +ℤ ahead) -ℤ pos now in
            rw (ltb-leb tokens r.policy.limit_for_period, taken)
              (rw (e, longest_wait)
                (ap (λ (x : MultiRateLimiter). some (x, answer true (at_least_0 wait)))
                  (sym (turned s limiting now r'))))
      ]
      | inr free ↦
          rw (ltb-leb tokens r.policy.limit_for_period, free)
            (ap (λ (x : MultiRateLimiter). some (x, answer true (pos 0)))
              (sym (turned s normal now r')))
    ]

active_single :
    (s : State) (r : RateLimiter) (count : ℤ) (now : ℕ)
    → acquire_active (count ∷ []) now (single s r) ≡ lift s (RateLimiter.acquire_active count now r)
unfolding RateLimiter.acquire_active acquire_active
active_single s r count now =
    elim (Option-cases (quo r.policy.timeout_duration r.policy.limit_refresh_period)) [
      | inl panic ↦ rw (panic, RateLimiter.max_tokens) refl
      | inr (cycles, e) ↦
          elim (Option-cases (quo (sub_ℕ now r.start_time) r.policy.limit_refresh_period)) [
            | inl panic ↦ rw (e, RateLimiter.max_tokens) (rw panic refl)
            | inr (cycle, e') ↦
                let most = r.policy.limit_for_period *ℤ (cycles +ℤ pos 1) in
                let tokens = RateLimiter.used_tokens cycle r in
                rw (e, RateLimiter.max_tokens)
                  (rw (e', used_tokens)
                    (elim (Bool-cases (leb_ℤ most tokens)) [
                      | inl full ↦ rw full refl
                      | inr room ↦ rw room (permit-single s r count now cycle tokens)
                    ]))
          ]
    ]

off_after : (s t : State) → (code t == 2) ≡ true → s ≡ (if code t == 0 then normal else s)
off_after s normal h = ground arith
off_after s limiting h = refl
off_after s disabled h = refl

-- A call for a number of tokens, of two limiters with the same single limit that are both disabled or
-- both not, comes out as with the rate limiter: a panic, the same rejection, or a permission, with
-- the same wait if this is not negative and with none otherwise. Afterwards the limiter has the
-- start, cycle and tokens that the rate limiter has. Its state is normal if the rate limiter permits
-- and is normal then, and is as it was otherwise: it never turns to limiting.
pub acquire_permission-single :
    (s : State) (r : RateLimiter) (count : ℤ) (now : ℕ)
    → (code s == 2) ≡ (code r.state == 2)
    → acquire_permission (count ∷ []) now (single s r)
      ≡ lift s (RateLimiter.acquire_permission count now r)
unfolding RateLimiter.acquire_permission acquire_permission
acquire_permission-single s r count now h = elim (Bool-cases (code r.state == 2)) [
  | inl off ↦
      rw (h ∙ off, off)
        (ap (λ (u : State). some (single u r, answer true (pos 0))) (off_after s r.state off))
  | inr on ↦ rw (h ∙ on, on) (active_single s r count now)
]
