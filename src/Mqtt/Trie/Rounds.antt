-- ===== src/Mqtt/Trie/Rounds.antt =====
-- What one round of `findSubscribers` does: all children of the nodes that it has reached.
use easegress.Prelude.{ℕ, ◌⊎◌, sym, subst, List, [], ◌∷◌, ◌++◌, arith, inl, inr, Bool-cases, All}
use easegress.Prelude.Keys.{list_key, nat_key}
use easegress.Prelude.Dict.{get}
use easegress.Mqtt.Trie.{
  Level, ClientId, Clients, Node, Nodes, node, no_nodes, child, same, same_level_iff, nodes_of,
  find_node, Front, visit, visit_nodes, visit_level,
}
use easegress.Mqtt.Trie.Subscriptions.{qos_of}
use easegress.Mqtt.Trie.Shape.{IsTrie, AreTries}
use easegress.Mqtt.Trie.Matching.{Matches, Subscribed, Among, Below, Below-child, Below-head}
use easegress.Mqtt.Trie.Visit.{Held, Head, visit_cases, visit_sound, visit_complete}

visit_nodes_sound :
    (t : Level) (ns : Nodes) (s : Front) (ts : List Level) (id : ClientId) (q : ℕ)
    → AreTries ns
    → Held (visit_nodes t ns s) ts id q
    → Held s ts id q ⊎ Below ns (t ∷ ts) id q
unfolding visit_nodes IsTrie
visit_nodes_sound t no_nodes s ts id q h held = inl held
visit_nodes_sound t (child l n ns) s ts id q h held =
    elim (visit_nodes_sound t ns (visit t l n s) ts id q h.3 held) [
      | inl before ↦ elim (visit_sound t l n s.0 s.1 ts id q before) [
        | inl held' ↦ inl held'
        | inr (fs, e, m) ↦ inr (Below-head l n ns fs (t ∷ ts) id q e m)
      ]
      | inr below ↦ inr (Below-child l n ns (t ∷ ts) id q h below)
    ]

-- A subscription below a list of nodes is below the first or below the others.
Below-split :
    (l : Level) (n : Node) (ns : Nodes) (ts : List Level) (id : ClientId) (q : ℕ)
    → Below (child l n ns) ts id q
    → Head n l ts id q ⊎ Below ns ts id q
unfolding qos_of find_node get
Below-split l n ns ts id q ([], e, m) = cc
Below-split l n ns ts id q (f ∷ fs, e, m) = elim (Bool-cases (same l f)) [
  | inl s ↦
      inl (fs, ground arith, subst (λ k. Matches (k ∷ fs) ts) (sym ((same_level_iff l f).0 s)) m)
  | inr s ↦ inr (f ∷ fs, ground arith, m)
]

visit_nodes_complete :
    (t : Level) (ns : Nodes) (s : Front) (ts : List Level) (id : ClientId) (q : ℕ)
    → Held s ts id q ⊎ Below ns (t ∷ ts) id q
    → (q' : ℕ) × Held (visit_nodes t ns s) ts id q'
unfolding visit_nodes qos_of find_node get
visit_nodes_complete t no_nodes s ts id q (inl held) = (q, held)
visit_nodes_complete t no_nodes s ts id q (inr ([], e, m)) = cc
visit_nodes_complete t no_nodes s ts id q (inr (f ∷ fs, e, m)) = cc
visit_nodes_complete t (child l n ns) s ts id q (inl held) =
    let (q', held') = visit_complete t l n s.0 s.1 ts id q (inl held) in
    visit_nodes_complete t ns (visit t l n s) ts id q' (inl held')
visit_nodes_complete t (child l n ns) s ts id q (inr below) =
    elim (Below-split l n ns (t ∷ ts) id q below) [
      | inl head ↦
          let (q', held') = visit_complete t l n s.0 s.1 ts id q (inr head) in
          visit_nodes_complete t ns (visit t l n s) ts id q' (inl held')
      | inr rest ↦ visit_nodes_complete t ns (visit t l n s) ts id q (inr rest)
    ]

-- A subscription to a filter of at least one level is one below the nodes of the node.
Below-Subscribed :
    (n : Node) (t : Level) (ts : List Level) (id : ClientId) (q : ℕ)
    → Below (nodes_of n) (t ∷ ts) id q
    → Subscribed n (t ∷ ts) id q
unfolding qos_of get
Below-Subscribed (node cs ns) t ts id q ([], e, m) = cc
Below-Subscribed (node cs ns) t ts id q (f ∷ fs, e, m) = (f ∷ fs, e, m)

Subscribed-Below :
    (n : Node) (t : Level) (ts : List Level) (id : ClientId) (q : ℕ)
    → Subscribed n (t ∷ ts) id q
    → Below (nodes_of n) (t ∷ ts) id q
unfolding qos_of
Subscribed-Below (node cs ns) t ts id q ([], e, m) = absurd m
Subscribed-Below (node cs ns) t ts id q (f ∷ fs, e, m) = (f ∷ fs, e, m)

nodes_of-AreTries : (n : Node) → IsTrie n → AreTries (nodes_of n)
unfolding IsTrie
nodes_of-AreTries (node cs ns) h = h

pub visit_level_sound :
    (t : Level) (current : List Node) (s : Front) (ts : List Level) (id : ClientId) (q : ℕ)
    → All IsTrie current
    → Held (visit_level t current s) ts id q
    → Held s ts id q ⊎ Among current (t ∷ ts) id q
unfolding visit_level
visit_level_sound t [] s ts id q h held = inl held
visit_level_sound t (n ∷ current) s ts id q h held =
    elim (visit_level_sound t current (visit_nodes t (nodes_of n) s) ts id q h.1 held) [
      | inl before ↦
          elim (visit_nodes_sound t (nodes_of n) s ts id q (nodes_of-AreTries n h.0) before) [
            | inl held' ↦ inl held'
            | inr below ↦ inr (inl (Below-Subscribed n t ts id q below))
          ]
      | inr among ↦ inr (inr among)
    ]

pub visit_level_complete :
    (t : Level) (current : List Node) (s : Front) (ts : List Level) (id : ClientId) (q : ℕ)
    → Held s ts id q ⊎ Among current (t ∷ ts) id q
    → (q' : ℕ) × Held (visit_level t current s) ts id q'
unfolding visit_level
visit_level_complete t [] s ts id q (inl held) = (q, held)
visit_level_complete t [] s ts id q (inr none_left) = absurd none_left
visit_level_complete t (n ∷ current) s ts id q (inl held) =
    let (q', held') = visit_nodes_complete t (nodes_of n) s ts id q (inl held) in
    visit_level_complete t current (visit_nodes t (nodes_of n) s) ts id q' (inl held')
visit_level_complete t (n ∷ current) s ts id q (inr (inl subscribed)) =
    let (q', held') =
      visit_nodes_complete t (nodes_of n) s ts id q
        (inr (Subscribed-Below n t ts id q subscribed)) in
    visit_level_complete t current (visit_nodes t (nodes_of n) s) ts id q' (inl held')
visit_level_complete t (n ∷ current) s ts id q (inr (inr among)) =
    visit_level_complete t current (visit_nodes t (nodes_of n) s) ts id q (inr among)

-- The nodes that a search goes on to are trees too.
All-append : (ns : List Node) (n : Node) → All IsTrie ns → IsTrie n → All IsTrie (ns ++ n ∷ [])
All-append [] n h t = (t, tt)
All-append (m ∷ ns) n h t = (h.0, All-append ns n h.1 t)

visit-All :
    (t l : Level) (n : Node) (next : List Node) (out : Clients)
    → All IsTrie next
    → IsTrie n
    → All IsTrie (visit t l n (next, out)).0
visit-All t l n next out h k = elim (visit_cases t l n next out) [
  | inl (_, e) ↦ rw e h
  | inr (inl (_, _, e)) ↦ rw e (All-append next n h k)
  | inr (inr (_, _, _, e)) ↦ rw e h
]

visit_nodes-All :
    (t : Level) (ns : Nodes) (s : Front)
    → AreTries ns
    → All IsTrie s.0
    → All IsTrie (visit_nodes t ns s).0
unfolding visit_nodes IsTrie
visit_nodes-All t no_nodes s h k = k
visit_nodes-All t (child l n ns) s h k =
    visit_nodes-All t ns (visit t l n s) h.3 (visit-All t l n s.0 s.1 k h.1)

pub visit_level-All :
    (t : Level) (current : List Node) (s : Front)
    → All IsTrie current
    → All IsTrie s.0
    → All IsTrie (visit_level t current s).0
unfolding visit_level
visit_level-All t [] s h k = k
visit_level-All t (n ∷ current) s h k =
    visit_level-All t current (visit_nodes t (nodes_of n) s) h.1
      (visit_nodes-All t (nodes_of n) s (nodes_of-AreTries n h.0) k)
