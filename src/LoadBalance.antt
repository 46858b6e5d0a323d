-- ===== src/LoadBalance.antt =====
-- pkg/filters/proxies/loadbalance.go and server.go: server groups, the choice by round robin, at random
-- and at random by weight, and the health checks. Weights are not negative, as the schema of a server
-- says; random numbers and the results of health checks are arguments; `none` is a Go panic.
pub mod Choice
pub mod Checks
pub mod Turns
pub mod Runs
mod Examples
use easegress.Prelude.{
  ℕ, suc, ◌+◌, ◌-◌, ◌%◌, ◌^◌, Bool, true, false, not, ◌&&◌, ◌||◌, Option, none, some, ◌>>=◌, List,
  [], ◌∷◌, map, String, ltb, ◌==◌, if◌then◌else◌, length, get_elem?, sum_by,
}
use easegress.Prelude.Int.{ℤ, pos, negsuc, ◌+ℤ◌, ◌-ℤ◌, ltb_ℤ, leb_ℤ}

-- `Server`, what of it never changes and load balancing reads, and its health. The groups of servers
-- share their servers through pointers, so the health stands once, in the balancer.
pub record Server : Type 0 where
  pub url : String
  pub weight : ℕ

pub record Health : Type 0 where
  pub unhealth : Bool
  pub health_counter : ℤ

pub record ServerGroup : Type 0 where
  pub total_weight : ℕ
  pub servers : List Server

-- `newServerGroup`
abbrev pub new_server_group : List Server → ServerGroup
new_server_group servers = record {
  total_weight = sum_by (λ s. s.weight) servers;
  servers = servers;
}

-- `RandomLoadBalancePolicy.ChooseServer` with the number that `rand.Intn` gives.
unfoldable pub choose_random : ℕ → ServerGroup → Option Server
choose_random w sg = get_elem? sg.servers w

-- The conversion of an uint64 to an int, and an index that is an int's remainder: below 0 it panics.
abbrev pub index_of : ℕ → ℕ → Option ℕ
index_of counter n =
    if n == 0
    then none
    else if ltb counter (2 ^ 63)
    then some (counter % n)
    else if (2 ^ 64 - counter) % n == 0
    then some 0
    else none

-- `RoundRobinLoadBalancePolicy.ChooseServer`: the counter afterwards and the server.
unfoldable pub choose_round_robin : ℕ → ServerGroup → Option (ℕ × Server)
choose_round_robin counter sg = do
  i ← index_of counter (length sg.servers)
  server ← get_elem? sg.servers i
  some ((counter + 1) % 2 ^ 64, server)

-- `WeightedRandomLoadBalancePolicy.ChooseServer` with the number that `rand.Intn` gives; a server is
-- chosen when the number less the weights so far falls below 0.
unfoldable pub choose_weighted : ℕ → List Server → Option Server
choose_weighted w [] = none
choose_weighted w (server ∷ servers) =
    let later = choose_weighted (w - server.weight) servers in
    if ltb w server.weight then some server else later

-- `HealthCheckSpec`, what of it `checkServers` reads.
pub record HealthCheckSpec : Type 0 where
  pub fails : ℤ
  pub passes : ℤ

-- One server in the loop of `checkServers`, after its check: the server, and whether its health has
-- changed.
unfoldable pub check_server : HealthCheckSpec → Bool → Health → Health × Bool
check_server spec true h =
    let counter = (if ltb_ℤ h.health_counter (pos 0) then pos 0 else h.health_counter) +ℤ pos 1 in
    let turns = h.unhealth && leb_ℤ spec.passes counter in
    (record { health_counter = counter; unhealth = h.unhealth && not turns }, turns)
check_server spec false h =
    let counter = (if ltb_ℤ (pos 0) h.health_counter then pos 0 else h.health_counter) -ℤ pos 1 in
    let turns = not h.unhealth && leb_ℤ counter (pos 0 -ℤ spec.fails) in
    (record { health_counter = counter; unhealth = h.unhealth || turns }, turns)

-- The servers that are healthy, in their order.
abbrev pub healthy : List (Server × Health) → List Server
healthy [] = []
healthy ((s, h) ∷ ss) = if h.unhealth then healthy ss else (s ∷ healthy ss)

pub record Balancer : Type 0 where
  pub servers : List (Server × Health)
  pub healthy_servers : ServerGroup

-- `NewGeneralLoadBalancer`
abbrev pub new_balancer : List Server → Balancer
new_balancer servers = record {
  servers = map (λ s. (s, record { unhealth = false; health_counter = pos 0 })) servers;
  healthy_servers = new_server_group servers;
}

-- The loop of `checkServers`; `check` is the health checker's result for each server.
unfoldable pub check_all :
    HealthCheckSpec → (Server → Bool) → List (Server × Health) → List (Server × Health) × Bool
unfolding check_server
check_all spec check [] = ([], false)
check_all spec check ((s, h) ∷ ss) =
    let (h', turned) = check_server spec (check s) h in
    let (ss', changed) = check_all spec check ss in ((s, h') ∷ ss', turned || changed)

-- `checkServers`: the group is replaced only if some server's health has changed.
unfoldable pub check_servers : HealthCheckSpec → (Server → Bool) → Balancer → Balancer
unfolding check_all
check_servers spec check b =
    let (servers, changed) = check_all spec check b.servers in
    if changed
    then record { servers = servers; healthy_servers = new_server_group (healthy servers) }
    else record b { servers = servers }
