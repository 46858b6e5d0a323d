-- ===== src/Mqtt/Trie/Subscriptions.antt =====
-- What a tree of topic levels holds: the subscription of a client to a topic filter, and what
-- `insert` and `remove` change of it.
use easegress.Prelude.{
  ℕ, ◌≡◌, refl, Bool, true, ◌&&◌, Option, none, some, List, [], ◌∷◌, arith, if◌then◌else◌, inl, inr,
  Bool-cases, Option-cases,
}
use easegress.Prelude.Keys.{lists_same, list_key, nat_key}
use easegress.Prelude.Dict.{get, get-put, get-delete}
use easegress.Mqtt.Trie.{
  Level, Clients, ClientId, Node, Nodes, node, no_nodes, child, same, same_level_iff, find_node,
  delete_node, put_node, node_or_new, new_node, insert, is_bare, prune, remove_below, remove,
}

-- The quality of service with which a client is subscribed to a filter.
unfoldable pub qos_of : Node → List Level → ClientId → Option ℕ
qos_of (node cs ns) [] id = get cs id
qos_of (node cs ns) (l ∷ ls) id = elim (find_node ns l) [ none ↦ none | some n ↦ qos_of n ls id ]

abbrev pub same_filter : List Level → List Level → Bool
same_filter fs gs = (list_key {A = Level}).same fs gs

pub find_node-delete_node :
    (ns : Nodes) (k j : Level)
    → find_node (delete_node ns k) j ≡ (if same k j then none else find_node ns j)
unfolding find_node delete_node
find_node-delete_node no_nodes k j = ground arith
find_node-delete_node (child l n ns) k j = ground (
  arith,
  same_level_iff l k,
  same_level_iff k j,
  same_level_iff l j,
  find_node-delete_node ns k j,
)

pub find_node-put_node :
    (ns : Nodes) (k j : Level) (n : Node)
    → find_node (put_node ns k n) j ≡ (if same k j then some n else find_node ns j)
unfolding find_node put_node
find_node-put_node ns k j n = ground (arith, find_node-delete_node ns k j)

-- A node that is missing and a new one hold the same.
qos_of-node_or_new :
    (o : Option Node) (ls : List Level) (id : ClientId)
    → qos_of (node_or_new o) ls id ≡ elim o [ none ↦ none | some n ↦ qos_of n ls id ]
unfolding qos_of get find_node
qos_of-node_or_new none [] id = refl
qos_of-node_or_new none (l ∷ ls) id = refl
qos_of-node_or_new (some n) ls id = refl

pub qos_of-new_node : (g : List Level) (who : ClientId) → qos_of new_node g who ≡ none
unfolding qos_of get find_node
qos_of-new_node [] who = refl
qos_of-new_node (l ∷ g) who = refl

-- A subscription adds the one pair of filter and client, and changes no other.
pub qos_of-insert :
    (root : Node) (fs gs : List Level) (qos : ℕ) (id who : ClientId)
    → qos_of (insert root fs qos id) gs who
      ≡ (if same_filter fs gs && same id who then some qos else qos_of root gs who)
unfolding qos_of insert lists_same
qos_of-insert (node cs ns) [] [] qos id who = get-put cs id who qos
qos_of-insert (node cs ns) [] (g ∷ gs) qos id who = refl
qos_of-insert (node cs ns) (f ∷ fs) [] qos id who = refl
qos_of-insert (node cs ns) (f ∷ fs) (g ∷ gs) qos id who = elim (Bool-cases (same f g)) [
  | inl e ↦ ground (
    arith,
    find_node-put_node ns f g (insert (node_or_new (find_node ns f)) fs qos id),
    same_level_iff f g,
    qos_of-insert (node_or_new (find_node ns f)) fs gs qos id who,
    qos_of-node_or_new (find_node ns f) gs who,
  )
  | inr e ↦
      ground (arith, find_node-put_node ns f g (insert (node_or_new (find_node ns f)) fs qos id))
]

-- A node without clients and nodes holds nothing.
qos_of-bare :
    (n : Node) (ls : List Level) (id : ClientId) → is_bare n ≡ true → qos_of n ls id ≡ none
unfolding qos_of is_bare get find_node
qos_of-bare (node [] no_nodes) [] id h = refl
qos_of-bare (node [] no_nodes) (l ∷ ls) id h = refl
qos_of-bare (node [] (child l n ns)) ls id h = cc
qos_of-bare (node (c ∷ cs) ns) ls id h = cc

-- Whether a level is pruned or kept, what is below it is what the node there holds.
qos_of-prune :
    (cs : Clients) (ns : Nodes) (l g : Level) (n : Node) (gs : List Level) (who : ClientId)
    → qos_of (node cs (prune ns l n)) (g ∷ gs) who
      ≡ (if same l g then qos_of n gs who else qos_of (node cs ns) (g ∷ gs) who)
unfolding qos_of prune
qos_of-prune cs ns l g n gs who =
    ground (arith, find_node-delete_node ns l g, find_node-put_node ns l g n, qos_of-bare n gs who)

-- A removal that ends early has nothing to remove.
remove_below-none :
    (n : Node) (fs : List Level) (id who : ClientId)
    → remove_below n fs id ≡ none
    → qos_of n fs who ≡ none
unfolding qos_of remove_below
remove_below-none (node cs ns) [] id who h = cc
remove_below-none (node cs ns) (f ∷ fs) id who h = elim (Option-cases (find_node ns f)) [
  | inl e ↦ rw (e, qos_of) refl
  | inr (n, e) ↦ ground (arith, remove_below-none n fs id who)
]

-- A removal below a level found a node there, and prunes the level of what is left of it.
pub remove_below-cons :
    (cs : Clients) (ns : Nodes) (r : Node) (f : Level) (fs : List Level) (id : ClientId)
    → remove_below (node cs ns) (f ∷ fs) id ≡ some r
    → (n : Node) × (n' : Node) × (find_node ns f ≡ some n)
      × (remove_below n fs id ≡ some n')
      × (r ≡ node cs (prune ns f n'))
unfolding remove_below
remove_below-cons cs ns r f fs id h = elim (Option-cases (find_node ns f)) [
  | inl e ↦ ground arith
  | inr (n, e) ↦ elim (Option-cases (remove_below n fs id)) [
    | inl e' ↦ ground arith
    | inr (n', e') ↦ (n, n', e, e', ground arith)
  ]
]

remove_below-some :
    (n r : Node) (fs gs : List Level) (id who : ClientId)
    → remove_below n fs id ≡ some r
    → qos_of r gs who ≡ (if same_filter fs gs && same id who then none else qos_of n gs who)
unfolding remove_below lists_same qos_of
remove_below-some (node cs ns) r [] [] id who h = ground (arith, get-delete cs id who)
remove_below-some (node cs ns) r [] (g ∷ gs) id who h = ground arith
remove_below-some (node cs ns) r (f ∷ fs) [] id who h =
    let (n, n', _, _, e) = remove_below-cons cs ns r f fs id h in ground arith
remove_below-some (node cs ns) r (f ∷ fs) (g ∷ gs) id who h =
    let (n, n', found, below, e) = remove_below-cons cs ns r f fs id h in
    ground (
      arith,
      same_level_iff f g,
      qos_of-prune cs ns f g n' gs who,
      remove_below-some n n' fs gs id who below,
    )

-- A removal takes away the one pair of filter and client, and changes no other.
pub qos_of-remove :
    (root : Node) (fs gs : List Level) (id who : ClientId)
    → qos_of (remove root fs id) gs who
      ≡ (if same_filter fs gs && same id who then none else qos_of root gs who)
unfolding remove
qos_of-remove root fs gs id who = elim (Option-cases (remove_below root fs id)) [
  | inl e ↦ ground (arith, remove_below-none root fs id who, (list_key {A = Level}).same_iff fs gs)
  | inr (r, e) ↦ ground (arith, remove_below-some root r fs gs id who)
]
