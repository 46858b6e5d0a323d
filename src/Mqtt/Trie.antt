-- ===== src/Mqtt/Trie.antt =====
-- The subscriptions of the MQTT proxy as a tree of topic levels: `levelTopicManager` and
-- `topicNode` of pkg/object/mqttproxy/topicmgr.go.
use easegress.Prelude.{
  ℕ, ◌≡◌, ◌↔◌, refl, Bool, true, false, ◌||◌, Option, none, some, List, [], ◌∷◌, ◌++◌, arith,
  if◌then◌else◌,
}
use easegress.Prelude.Keys.{Key, Bytes, nat_key, list_key}
use easegress.Prelude.Dict
use easegress.Prelude.Dict.{Dict}
pub mod Subscriptions
pub mod Shape
pub mod Matching
mod Visit
mod Rounds
pub mod Search
pub mod Requests

-- The text of one level of a topic, and the two wildcards.
abbrev pub Level : Type 0
Level = Bytes

abbrev pub hash : Level
hash = b'#' ∷ []

abbrev pub plus : Level
plus = b'+' ∷ []

abbrev pub same : Bytes → Bytes → Bool
same a b = (list_key {A = ℕ}).same a b

pub same_level_iff : (a b : Level) → (same a b ≡ true) ↔ (a ≡ b)
same_level_iff = (list_key {A = ℕ}).same_iff

abbrev pub ClientId : Type 0
ClientId = Bytes

-- The quality of service that each client asked for.
abbrev pub Clients : Type 0
Clients = Dict ClientId ℕ

-- `nodes` of a node is a Go map from a level to the node below it.
mutual
  pub data Node : Type 0 where
    node : Clients → Nodes → Node

  pub data Nodes : Type 0 where
    no_nodes : Nodes
    child : Level → Node → Nodes → Nodes

abbrev pub clients_of : Node → Clients
clients_of (node cs ns) = cs

abbrev pub nodes_of : Node → Nodes
nodes_of (node cs ns) = ns

abbrev pub new_node : Node
new_node = node [] no_nodes

-- The map operations of `nodes`: the look-up, the deletion and the write of a key.
unfoldable pub find_node : Nodes → Level → Option Node
find_node no_nodes k = none
find_node (child l n ns) k = if same l k then some n else find_node ns k

unfoldable pub delete_node : Nodes → Level → Nodes
delete_node no_nodes k = no_nodes
delete_node (child l n ns) k = if same l k then delete_node ns k else child l n (delete_node ns k)

unfoldable pub put_node : Nodes → Level → Node → Nodes
put_node ns k n = child k n (delete_node ns k)

abbrev pub node_or_new : Option Node → Node
node_or_new none = new_node
node_or_new (some n) = n

unfoldable pub insert : Node → List Level → ℕ → ClientId → Node
insert (node cs ns) [] qos id = node (Dict.put cs id qos) ns
insert (node cs ns) (l ∷ ls) qos id =
    node cs (put_node ns l (insert (node_or_new (find_node ns l)) ls qos id))

-- len(node.clients) == 0 && len(node.nodes) == 0
unfoldable pub is_bare : Node → Bool
is_bare (node [] no_nodes) = true
is_bare (node [] (child l n ns)) = false
is_bare (node (c ∷ cs) ns) = false

-- What the deletion loop does to the entry of one level, when the node below it is now `n`.
unfoldable pub prune : Nodes → Level → Node → Nodes
unfolding is_bare
prune ns l n = if is_bare n then delete_node ns l else put_node ns l n

-- `none` is the early return on a level that has no node.
unfoldable pub remove_below : Node → List Level → ClientId → Option Node
remove_below (node cs ns) [] id = some (node (Dict.delete cs id) ns)
remove_below (node cs ns) (l ∷ ls) id = elim (find_node ns l) [
  | none ↦ none
  | some n ↦ elim (remove_below n ls id) [ none ↦ none | some n' ↦ some (node cs (prune ns l n')) ]
]

unfoldable pub remove : Node → List Level → ClientId → Node
unfolding remove_below
remove root ls id = elim (remove_below root ls id) [ none ↦ root | some r ↦ r ]

unfoldable pub add_clients : Clients → Clients → Clients
add_clients [] ans = ans
add_clients ((id, qos) ∷ cs) ans = Dict.put (add_clients cs ans) id qos

-- The nodes of the next level that a search has reached, and the clients that it has found.
abbrev pub Front : Type 0
Front = List Node × Clients

unfoldable pub visit : Level → Level → Node → Front → Front
unfolding add_clients
visit topic_level l n (next, out) =
    if same l hash
    then (next, add_clients (clients_of n) out)
    else if same l plus || same l topic_level
    then (next ++ n ∷ [], out)
    else (next, out)

unfoldable pub visit_nodes : Level → Nodes → Front → Front
unfolding visit
visit_nodes t no_nodes s = s
visit_nodes t (child l n ns) s = visit_nodes t ns (visit t l n s)

unfoldable pub visit_level : Level → List Node → Front → Front
unfolding visit_nodes
visit_level t [] s = s
visit_level t (n ∷ current) s = visit_level t current (visit_nodes t (nodes_of n) s)

-- The end of the levels: the clients of each node, and those of a `#` one level below.
unfoldable pub add_end : Node → Clients → Clients
unfolding add_clients find_node
add_end n out = elim (find_node (nodes_of n) hash) [
  | none ↦ add_clients (clients_of n) out
  | some val ↦ add_clients (clients_of val) (add_clients (clients_of n) out)
]

unfoldable pub add_ends : List Node → Clients → Clients
unfolding add_end
add_ends [] out = out
add_ends (n ∷ current) out = add_ends current (add_end n out)

unfoldable pub search_levels : List Level → List Node → Clients → Clients
unfolding visit_level add_ends
search_levels [] current out = add_ends current out
search_levels (l ∷ ls) current out =
    let (next, out') = visit_level l current ([], out) in
    elim next [ [] ↦ out' | n ∷ more ↦ search_levels ls (n ∷ more) out' ]

unfoldable pub find_subscribers : Node → List Level → Clients
unfolding search_levels
find_subscribers root levels = search_levels levels (root ∷ []) []

-- `qoss[i]` out of range is a panic.
unfoldable pub subscribe : Node → List (List Level) → List ℕ → ClientId → Option Node
unfolding insert
subscribe root [] qoss id = some root
subscribe root (l ∷ ls) [] id = none
subscribe root (l ∷ ls) (q ∷ qoss) id = subscribe (insert root l q id) ls qoss id

unfoldable pub unsubscribe : Node → List (List Level) → ClientId → Node
unfolding remove
unsubscribe root [] id = root
unsubscribe root (l ∷ ls) id = unsubscribe (remove root l id) ls id
