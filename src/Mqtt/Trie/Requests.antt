-- ===== src/Mqtt/Trie/Requests.antt =====
-- Requests of one client for several filters: `subscribe` and `unsubscribe` of
-- `levelTopicManager`.
use easegress.Prelude.{
  ℕ, ◌≤◌, ◌≡◌, refl, subst, Bool, false, ◌&&◌, ◌||◌, Option, none, some, List, [], ◌∷◌, arith,
  if◌then◌else◌, length,
}
use mathlib.Core.Option.{some-injective}
use easegress.Mqtt.Trie.{Level, ClientId, Node, same, insert, remove, subscribe, unsubscribe}
use easegress.Mqtt.Trie.Subscriptions.{qos_of, same_filter, qos_of-insert, qos_of-remove}
use easegress.Mqtt.Trie.Shape.{IsTrie, insert-IsTrie, remove-IsTrie}

-- The quality of service of the last request for a filter, `old` if there is none.
unfoldable pub latest : List (List Level) → List ℕ → List Level → Option ℕ → Option ℕ
latest [] qoss g old = old
latest (l ∷ ls) [] g old = old
latest (l ∷ ls) (q ∷ qoss) g old = latest ls qoss g (if same_filter l g then some q else old)

unfoldable pub requested : List (List Level) → List Level → Bool
requested [] g = false
requested (l ∷ ls) g = same_filter l g || requested ls g

-- A request for several filters sets the quality of service of each for the one client. There is
-- a panic only if there are fewer qualities than filters.
pub qos_of-subscribe :
    (root r : Node) (ls : List (List Level)) (qoss : List ℕ) (id who : ClientId) (g : List Level)
    → subscribe root ls qoss id ≡ some r
    → qos_of r g who
      ≡ (if same id who then latest ls qoss g (qos_of root g who) else qos_of root g who)
unfolding subscribe latest
qos_of-subscribe root r [] qoss id who g h = ground arith
qos_of-subscribe root r (l ∷ ls) [] id who g h = cc
qos_of-subscribe root r (l ∷ ls) (q ∷ qoss) id who g h = ground (
  arith,
  qos_of-subscribe (insert root l q id) r ls qoss id who g,
  qos_of-insert root l g q id who,
)

pub subscribe_total :
    (root : Node) (ls : List (List Level)) (qoss : List ℕ) (id : ClientId)
    → length ls ≤ length qoss
    → (r : Node) × (subscribe root ls qoss id ≡ some r)
unfolding subscribe
subscribe_total root [] qoss id h = (root, refl)
subscribe_total root (l ∷ ls) [] id h = absurd (omega arith)
subscribe_total root (l ∷ ls) (q ∷ qoss) id h =
    subscribe_total (insert root l q id) ls qoss id (omega arith)

pub subscribe-IsTrie :
    (root r : Node) (ls : List (List Level)) (qoss : List ℕ) (id : ClientId)
    → IsTrie root
    → subscribe root ls qoss id ≡ some r
    → IsTrie r
unfolding subscribe
subscribe-IsTrie root r [] qoss id h e = subst IsTrie (some-injective root r e) h
subscribe-IsTrie root r (l ∷ ls) [] id h e = cc
subscribe-IsTrie root r (l ∷ ls) (q ∷ qoss) id h e =
    subscribe-IsTrie (insert root l q id) r ls qoss id (insert-IsTrie root l q id h) e

-- A request to end several subscriptions ends those of the one client.
pub qos_of-unsubscribe :
    (root : Node) (ls : List (List Level)) (id who : ClientId) (g : List Level)
    → qos_of (unsubscribe root ls id) g who
      ≡ (if requested ls g && same id who then none else qos_of root g who)
unfolding unsubscribe requested
qos_of-unsubscribe root [] id who g = refl
qos_of-unsubscribe root (l ∷ ls) id who g =
    ground (arith, qos_of-unsubscribe (remove root l id) ls id who g, qos_of-remove root l g id who)

pub unsubscribe-IsTrie :
    (root : Node) (ls : List (List Level)) (id : ClientId)
    → IsTrie root
    → IsTrie (unsubscribe root ls id)
unfolding unsubscribe
unsubscribe-IsTrie root [] id h = h
unsubscribe-IsTrie root (l ∷ ls) id h =
    unsubscribe-IsTrie (remove root l id) ls id (remove-IsTrie root l id h)
