-- ===== src/LoadBalance/Examples.antt =====
-- Three servers with weights.
use easegress.Prelude.{
  none, ◌%◌, ◌^◌, rotate, ℕ, ◌+◌, ◌≤◌, ◌<◌, ◌≡◌, refl, Bool, true, false, some, List, [], ◌∷◌, take,
  get_elem?, arith, if◌then◌else◌,
}
use text.Mathlib.Text.{◌==◌}
use easegress.Prelude.Int.{pos, ◌+ℤ◌, ◌-ℤ◌}
use easegress.LoadBalance.{
  choose_round_robin, new_server_group, Server, HealthCheckSpec, new_balancer, check_servers,
  choose_weighted,
}
use easegress.LoadBalance.Turns.{serve, serve-rotate}
use easegress.LoadBalance.Choice.{weights, choose_weighted-weights}
use easegress.LoadBalance.Checks.{check_rounds, IsCurrent, new_balancer-IsCurrent}

abbrev three : List Server
three =
    record { url = "a"; weight = 1 }
    ∷ record { url = "b"; weight = 0 }
    ∷ record { url = "c"; weight = 4 }
    ∷ []

abbrev twice : HealthCheckSpec
twice = record { fails = pos 2; passes = pos 1 }

abbrev all_but_a : Server → Bool
all_but_a s = if s.url == "a" then false else true

-- After two failures the first server is left out.
a_fails :
    (check_rounds twice
      (all_but_a ∷ all_but_a ∷ [])
      (new_balancer three)).healthy_servers.total_weight
    ≡ 4
unfolding check_servers ◌+ℤ◌ ◌-ℤ◌
a_fails = refl

choose_weighted-weights_example :
    (i : ℕ) × (server : Server) × (choose_weighted 3 three ≡ some server)
    × (get_elem? three i ≡ some server)
    × (weights (take i three) ≤ 3)
    × (3 < weights (take i three) + server.weight)
choose_weighted-weights_example = choose_weighted-weights 3 three (omega arith)

new_balancer-IsCurrent_example :
    IsCurrent (check_rounds twice (all_but_a ∷ all_but_a ∷ []) (new_balancer three))
new_balancer-IsCurrent_example = new_balancer-IsCurrent twice (all_but_a ∷ all_but_a ∷ []) three

-- After 2^63 choices the counter is a negative int, and with three servers the next one panics.
past_the_sign : choose_round_robin (2 ^ 63) (new_server_group three) ≡ none
unfolding choose_round_robin
past_the_sign = refl

serve-rotate_example : serve 3 4 (new_server_group three) ≡ some (rotate (4 % 3) three)
serve-rotate_example = serve-rotate three 4 (omega arith) (omega arith)
