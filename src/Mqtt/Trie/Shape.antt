-- ===== src/Mqtt/Trie/Shape.antt =====
-- The shape of a tree of topic levels: a node has one child for each level, and no child without
-- clients and without children stays in the tree.
use easegress.Prelude.{
  ℕ, ◌≡◌, refl, sym, subst, ◌∙◌, false, none, some, List, [], ◌∷◌, arith, inl, inr, Bool-cases,
  Option-cases,
}
use mathlib.Core.Option.{none-ne-some}
use easegress.Prelude.Keys.{same_refl, list_key, nat_key}
use easegress.Prelude.Dict.{get, put}
use easegress.Mqtt.Trie.{
  Level, ClientId, Node, Nodes, node, no_nodes, child, same, same_level_iff, find_node, delete_node,
  put_node, node_or_new, new_node, insert, is_bare, prune, remove_below, remove,
}
use easegress.Mqtt.Trie.Subscriptions.{qos_of, find_node-delete_node, remove_below-cons}

unfoldable mutual
  pub IsTrie : Node → Type 0
  IsTrie (node cs ns) = AreTries ns

  pub AreTries : Nodes → Type 0
  AreTries no_nodes = Unit
  AreTries (child l n ns) = (find_node ns l ≡ none) × IsTrie n × (is_bare n ≡ false) × AreTries ns

pub new_node-IsTrie : IsTrie new_node
unfolding IsTrie
new_node-IsTrie = tt

pub find_node-IsTrie :
    (ns : Nodes) (k : Level) (n : Node) → AreTries ns → find_node ns k ≡ some n → IsTrie n
unfolding IsTrie find_node
find_node-IsTrie no_nodes k n h e = cc
find_node-IsTrie (child l m ns) k n h e = elim (Bool-cases (same l k)) [
  | inl s ↦ subst IsTrie (ground arith) h.1
  | inr s ↦ find_node-IsTrie ns k n h.3 (ground arith)
]

delete_node-AreTries : (ns : Nodes) (k : Level) → AreTries ns → AreTries (delete_node ns k)
unfolding IsTrie delete_node
delete_node-AreTries no_nodes k h = tt
delete_node-AreTries (child l n ns) k h = elim (Bool-cases (same l k)) [
  | inl s ↦ rw s (delete_node-AreTries ns k h.3)
  | inr s ↦
      rw s (ground (arith, find_node-delete_node ns k l), h.1, h.2, delete_node-AreTries ns k h.3)
]

put_node-AreTries :
    (ns : Nodes) (k : Level) (n : Node)
    → AreTries ns
    → IsTrie n
    → is_bare n ≡ false
    → AreTries (put_node ns k n)
unfolding IsTrie put_node
put_node-AreTries ns k n h t b = (
  ground (arith, find_node-delete_node ns k k, same_level_iff k k),
  t,
  b,
  delete_node-AreTries ns k h,
)

node_or_new-IsTrie : (ns : Nodes) (k : Level) → AreTries ns → IsTrie (node_or_new (find_node ns k))
node_or_new-IsTrie ns k h = elim (Option-cases (find_node ns k)) [
  | inl e ↦ rw e new_node-IsTrie
  | inr (n, e) ↦ rw e (find_node-IsTrie ns k n h e)
]

-- After a subscription the node is not bare.
insert_busy :
    (n : Node) (fs : List Level) (qos : ℕ) (id : ClientId) → is_bare (insert n fs qos id) ≡ false
unfolding is_bare insert put put_node
insert_busy (node cs ns) [] qos id = refl
insert_busy (node [] ns) (f ∷ fs) qos id = refl
insert_busy (node (c ∷ cs) ns) (f ∷ fs) qos id = refl

pub insert-IsTrie :
    (root : Node) (fs : List Level) (qos : ℕ) (id : ClientId)
    → IsTrie root
    → IsTrie (insert root fs qos id)
unfolding IsTrie insert
insert-IsTrie (node cs ns) [] qos id h = h
insert-IsTrie (node cs ns) (f ∷ fs) qos id h =
    let n = node_or_new (find_node ns f) in
    put_node-AreTries ns f _ h
      (insert-IsTrie (node_or_new (find_node ns f)) fs qos id (node_or_new-IsTrie ns f h))
      (insert_busy n fs qos id)

prune-AreTries :
    (ns : Nodes) (k : Level) (n : Node) → AreTries ns → IsTrie n → AreTries (prune ns k n)
unfolding prune
prune-AreTries ns k n h t = elim (Bool-cases (is_bare n)) [
  | inl b ↦ rw b (delete_node-AreTries ns k h)
  | inr b ↦ rw b (put_node-AreTries ns k n h t b)
]

remove_below-IsTrie :
    (n r : Node) (fs : List Level) (id : ClientId)
    → IsTrie n
    → remove_below n fs id ≡ some r
    → IsTrie r
unfolding IsTrie remove_below
remove_below-IsTrie (node cs ns) r [] id h e = ground arith
remove_below-IsTrie (node cs ns) r (f ∷ fs) id h e =
    let (n, n', found, below, same_r) = remove_below-cons cs ns r f fs id e in
    subst IsTrie (sym same_r) (
      prune-AreTries ns f n' h
        (remove_below-IsTrie n n' fs id (find_node-IsTrie ns f n h found) below))

pub remove-IsTrie :
    (root : Node) (fs : List Level) (id : ClientId) → IsTrie root → IsTrie (remove root fs id)
unfolding remove
remove-IsTrie root fs id h = elim (Option-cases (remove_below root fs id)) [
  | inl e ↦ rw (e, remove) h
  | inr (r, e) ↦ rw (e, remove) (remove_below-IsTrie root r fs id h e)
]

-- A node that is kept holds a subscription, its own or one below it.
mutual
  unfolding IsTrie is_bare qos_of get find_node

  busy_holds :
      (n : Node)
      → IsTrie n
      → is_bare n ≡ false
      → (fs : List Level) × (id : ClientId) × (q : ℕ) × (qos_of n fs id ≡ some q)
  busy_holds (node ((id, q) ∷ cs) ns) h b = ([], id, q, rw (same_refl id) refl)
  busy_holds (node [] no_nodes) h b = cc
  busy_holds (node [] (child l n ns)) h b =
      let (fs, id, q, e) = busy_holds n h.1 h.2 in (l ∷ fs, id, q, rw (same_refl l, qos_of) e)

-- A tree of this shape in which no client has a subscription is the empty tree.
pub unsubscribed-new_node :
    (root : Node)
    → IsTrie root
    → ((fs : List Level) (id : ClientId) → qos_of root fs id ≡ none)
    → root ≡ new_node
unfolding is_bare
unsubscribed-new_node (node [] no_nodes) h none_left = refl
unsubscribed-new_node (node [] (child l n ns)) h none_left =
    let (fs, id, q, e) = busy_holds (node [] (child l n ns)) h refl in
    absurd (none-ne-some q (sym (none_left fs id) ∙ e))
unsubscribed-new_node (node (c ∷ cs) ns) h none_left =
    let (fs, id, q, e) = busy_holds (node (c ∷ cs) ns) h refl in
    absurd (none-ne-some q (sym (none_left fs id) ∙ e))
