-- ===== src/Mqtt/Trie/Matching.antt =====
-- Which topic filters match a topic, and the subscriptions of a tree to such filters.
use easegress.Prelude.{
  ℕ, ◌≡◌, ◌≢◌, ◌⊎◌, refl, Option, none, some, List, [], ◌∷◌, arith, inl, inr, Bool-cases,
  Option-cases,
}
use easegress.Prelude.Keys.{same_refl, list_key, nat_key}
use easegress.Prelude.Dict.{get, get-put}
use easegress.Mqtt.Trie.{
  Level, ClientId, Clients, Node, Nodes, node, child, same, same_level_iff, hash, plus, clients_of,
  find_node, add_clients,
}
use easegress.Mqtt.Trie.Subscriptions.{qos_of}
use easegress.Mqtt.Trie.Shape.{IsTrie, AreTries}

-- A filter matches a topic: `+` stands for one level, and a `#` at the end for any number of
-- levels, also for none.
abbrev pub Matches : List Level → List Level → Type 0
Matches [] [] = Unit {0}
Matches [] (t ∷ ts) = ⊥
Matches (f ∷ fs) [] = (f ≡ hash) × (fs ≡ [])
Matches (f ∷ fs) (t ∷ ts) =
    ((f ≡ hash) × (fs ≡ [])) ⊎ ((f ≢ hash) × ((f ≡ plus) ⊎ (f ≡ t)) × Matches fs ts)

-- A client is subscribed below a node to a filter that matches the levels.
abbrev pub Subscribed : Node → List Level → ClientId → ℕ → Type 0
Subscribed n ts id qos = (fs : List Level) × (qos_of n fs id ≡ some qos) × Matches fs ts

-- The same of one of several nodes.
abbrev pub Among : List Node → List Level → ClientId → ℕ → Type 0
Among [] ts id qos = ⊥
Among (n ∷ ns) ts id qos = Subscribed n ts id qos ⊎ Among ns ts id qos

abbrev pub or_else : Option ℕ → Option ℕ → Option ℕ
or_else none o = o
or_else (some a) o = some a

pub get-add_clients :
    (cs ans : Clients) (id : ClientId)
    → get (add_clients cs ans) id ≡ or_else (get cs id) (get ans id)
unfolding add_clients get
get-add_clients [] ans id = refl
get-add_clients ((k, v) ∷ cs) ans id =
    ground (arith, get-put (add_clients cs ans) k id v, get-add_clients cs ans id)

pub added_sound :
    (n : Node) (out : Clients) (id : ClientId) (q : ℕ)
    → get (add_clients (clients_of n) out) id ≡ some q
    → (get out id ≡ some q) ⊎ (qos_of n [] id ≡ some q)
unfolding qos_of
added_sound (node cs ns) out id q h = elim (Option-cases (get cs id)) [
  | inl e ↦ inl (ground (arith, get-add_clients cs out id))
  | inr (q', e) ↦ inr (ground (arith, get-add_clients cs out id))
]

pub added_complete :
    (n : Node) (out : Clients) (id : ClientId) (q : ℕ)
    → (get out id ≡ some q) ⊎ (qos_of n [] id ≡ some q)
    → (q' : ℕ) × (get (add_clients (clients_of n) out) id ≡ some q')
unfolding qos_of
added_complete (node cs ns) out id q h = elim (Option-cases (get cs id)) [
  | inl e ↦ (q, ground (arith, get-add_clients cs out id))
  | inr (q', e) ↦ (q', ground (arith, get-add_clients cs out id))
]

-- The nodes below `ns` hold what a node with these nodes and no clients holds.
abbrev pub Below : Nodes → List Level → ClientId → ℕ → Type 0
Below ns ts id qos = Subscribed (node [] ns) ts id qos

-- A subscription below the later nodes is one below all, since levels are not repeated.
pub Below-child :
    (l : Level) (n : Node) (ns : Nodes) (ts : List Level) (id : ClientId) (q : ℕ)
    → AreTries (child l n ns)
    → Below ns ts id q
    → Below (child l n ns) ts id q
unfolding qos_of find_node get IsTrie
Below-child l n ns ts id q h ([], e, m) = cc
Below-child l n ns ts id q h (f ∷ fs, e, m) = elim (Bool-cases (same l f)) [
  | inl s ↦ ground (arith, same_level_iff l f)
  | inr s ↦ (f ∷ fs, rw (s, qos_of) e, m)
]

pub Below-head :
    (l : Level) (n : Node) (ns : Nodes) (fs ts : List Level) (id : ClientId) (q : ℕ)
    → qos_of n fs id ≡ some q
    → Matches (l ∷ fs) ts
    → Below (child l n ns) ts id q
unfolding find_node qos_of
Below-head l n ns fs ts id q e m = (l ∷ fs, rw (same_refl l, qos_of) e, m)
