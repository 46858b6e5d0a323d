-- ===== src/LoadBalance/Choice.antt =====
-- pkg/filters/proxies/loadbalance.go: which server the policies choose.
use easegress.Prelude.{
  ℕ, suc, ◌+◌, ◌-◌, ◌≤◌, ◌<◌, ◌≡◌, refl, inl, inr, some, List, [], ◌∷◌, take, arith, Bool-cases,
  ltb, get_elem?, sum_by,
}
use easegress.LoadBalance.{Server, new_server_group, choose_weighted}

abbrev pub weights : List Server → ℕ
weights = sum_by (λ s. s.weight)

-- For every number below the total weight of a group, which is what `rand.Intn` gives, the choice by
-- weight does not panic, and the server is the one at a place up to which the weights sum to at most
-- the number, while with its own weight they are more.
pub choose_weighted-weights :
    (w : ℕ) (servers : List Server)
    → w < (new_server_group servers).total_weight
    → (i : ℕ) × (server : Server) × (choose_weighted w servers ≡ some server)
      × (get_elem? servers i ≡ some server)
      × (weights (take i servers) ≤ w)
      × (w < weights (take i servers) + server.weight)
unfolding choose_weighted
choose_weighted-weights w [] less = absurd (omega arith)
choose_weighted-weights w (s ∷ servers) less = elim (Bool-cases (ltb w s.weight)) [
  | inl e ↦ (0, s, rw e refl, refl, omega arith, ground arith)
  | inr e ↦
      let beyond : s.weight ≤ w = ground arith in
      let (i, server, chosen, at, from, until) =
        choose_weighted-weights (w - s.weight) servers (omega arith) in
      (suc i, server, rw e chosen, at, omega arith, omega arith)
]
