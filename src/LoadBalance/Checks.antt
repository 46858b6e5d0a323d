-- ===== src/LoadBalance/Checks.antt =====
-- pkg/filters/proxies/loadbalance.go: the group of the healthy servers under health checks.
use easegress.Prelude.{
  ◌≡◌, refl, sym, ap, ◌∙◌, inl, inr, Bool, true, false, not, ◌&&◌, ◌||◌, List, [], ◌∷◌, map,
  if◌then◌else◌, Bool-cases, clash,
}
use easegress.Prelude.Int.{pos}
use easegress.LoadBalance.{
  Server, Health, new_server_group, HealthCheckSpec, check_server, healthy, Balancer, new_balancer,
  check_all, check_servers,
}

and_not : (u t : Bool) → t ≡ false → (u && not t) ≡ u
and_not u true e = absurd (clash refl e)
and_not true false e = refl
and_not false false e = refl

or_false : (u t : Bool) → t ≡ false → (u || t) ≡ u
or_false u true e = absurd (clash refl e)
or_false true false e = refl
or_false false false e = refl

or_parts : (a b : Bool) → (a || b) ≡ false → (a ≡ false) × (b ≡ false)
or_parts true b e = absurd (clash refl e)
or_parts false b e = (refl, e)

-- A check that does not report a change leaves the health as it was.
check_server-same :
    (spec : HealthCheckSpec) (ok : Bool) (h : Health)
    → (check_server spec ok h).1 ≡ false
    → (check_server spec ok h).0.unhealth ≡ h.unhealth
unfolding check_server
check_server-same spec true h e = and_not h.unhealth _ e
check_server-same spec false h e = or_false h.unhealth _ e

check_all-same :
    (spec : HealthCheckSpec) (check : Server → Bool) (ss : List (Server × Health))
    → (check_all spec check ss).1 ≡ false
    → healthy (check_all spec check ss).0 ≡ healthy ss
unfolding check_all
check_all-same spec check [] e = refl
check_all-same spec check ((s, h) ∷ ss) e =
    let (quiet, rest) = or_parts (check_server spec (check s) h).1 (check_all spec check ss).1 e in
    let kept = check_server-same spec (check s) h quiet in
    ap
      (λ b.
        if b
        then healthy (check_all spec check ss).0
        else (s ∷ healthy (check_all spec check ss).0))
      kept
    ∙ ap (λ hs. if h.unhealth then hs else (s ∷ hs)) (check_all-same spec check ss rest)

-- `n` rounds of checks, each with its own results.
abbrev pub check_rounds : HealthCheckSpec → List (Server → Bool) → Balancer → Balancer
check_rounds spec [] b = b
check_rounds spec (check ∷ checks) b = check_rounds spec checks (check_servers spec check b)

-- The group that requests are spread over is that of the servers that are healthy.
abbrev pub IsCurrent : Balancer → Type 0
IsCurrent b = b.healthy_servers ≡ new_server_group (healthy b.servers)

check_servers-IsCurrent :
    (spec : HealthCheckSpec) (check : Server → Bool) (b : Balancer)
    → IsCurrent b
    → IsCurrent (check_servers spec check b)
unfolding check_servers
check_servers-IsCurrent spec check b current =
    elim (Bool-cases (check_all spec check b.servers).1) [
      | inl e ↦ rw e refl
      | inr e ↦ rw e (current ∙ ap new_server_group (sym (check_all-same spec check b.servers e)))
    ]

check_rounds-IsCurrent :
    (spec : HealthCheckSpec) (checks : List (Server → Bool)) (b : Balancer)
    → IsCurrent b
    → IsCurrent (check_rounds spec checks b)
check_rounds-IsCurrent spec [] b current = current
check_rounds-IsCurrent spec (check ∷ checks) b current =
    check_rounds-IsCurrent spec checks (check_servers spec check b)
      (check_servers-IsCurrent spec check b current)

new_healthy :
    (ss : List Server)
    → healthy (map (λ s. (s, record { unhealth = false; health_counter = pos 0 })) ss) ≡ ss
new_healthy [] = refl
new_healthy (s ∷ ss) = ap (◌∷◌ s) (new_healthy ss)

-- After any number of rounds of health checks, with any results, the group that a balancer spreads
-- requests over is that of the servers that are healthy, with the sum of their weights, though the
-- group is only replaced in the rounds that report a change.
pub new_balancer-IsCurrent :
    (spec : HealthCheckSpec) (checks : List (Server → Bool)) (servers : List Server)
    → IsCurrent (check_rounds spec checks (new_balancer servers))
new_balancer-IsCurrent spec checks servers =
    check_rounds-IsCurrent spec checks (new_balancer servers)
      (ap new_server_group (sym (new_healthy servers)))
