-- ===== src/Mqtt/Examples.antt =====
-- The theorems on the MQTT topics at concrete inputs.
use easegress.Prelude.{
  ℕ, ◌≡◌, ◌⊎◌, ◌↔◌, refl, true, ◌&&◌, none, some, List, [], ◌∷◌, arith, if◌then◌else◌, inl, inr,
  Bool-cases,
}
use easegress.Prelude.Keys.{Bytes, list_key, nat_key}
use easegress.Prelude.Dict
use easegress.Prelude.Dict.{Dict, get-put}
use easegress.Mqtt.Trie
use easegress.Mqtt.Trie.{
  Level, ClientId, Clients, Node, new_node, insert, remove, plus, hash, same, same_level_iff,
}
use easegress.Mqtt.Trie.Subscriptions.{qos_of, same_filter, qos_of-remove}
use easegress.Mqtt.Trie.Shape.{IsTrie, new_node-IsTrie, insert-IsTrie}
use easegress.Mqtt.Trie.Requests.{requested, latest}
use easegress.Mqtt.Trie.Matching.{Matches, Subscribed}
use easegress.Mqtt.Trie.Search.{find_subscribers-Matches}
use easegress.Mqtt.Topics.{split_topic}
use easegress.Mqtt.Topics.Pieces.{join, has_wild}
use easegress.Mqtt.Topics.RoundTrip.{is_filter, has, split_topic-join}
use easegress.Mqtt.LevelCache.{LruCache, IsCoherent, get_all, split_all, get_all-split_all}
use easegress.Mqtt.NoCache
use easegress.Mqtt.NoCache.{new_manager}
use easegress.Mqtt.NoCache.Requests.{view, IsValid, is_some, subscribed, subscribe-view}
use easegress.Mqtt.NoCache.Delivery.{
  Request, to_subscribe, to_unsubscribe, to_find, run-new_node, meaning, nobody, run, delivery,
}

abbrev sport : Level
sport = b's' ∷ []

abbrev tennis : Level
tennis = b't' ∷ []

abbrev sport_tennis : Bytes
sport_tennis = b's' ∷ b'/' ∷ b't' ∷ []

abbrev any_tennis : Bytes
any_tennis = b'+' ∷ b'/' ∷ b't' ∷ []

abbrev ann : ClientId
ann = b'a' ∷ []

-- A cache that keeps every entry.
find-put :
    (c : Dict Bytes (List Level)) (k j : Bytes) (v w : List Level)
    → Dict.get (Dict.put c k v) j ≡ some w
    → ((k ≡ j) × (v ≡ w)) ⊎ (Dict.get c j ≡ some w)
find-put c k j v w h = elim (Bool-cases (same k j)) [
  | inl e ↦ inl ((same_level_iff k j).0 e, ground (arith, get-put c k j v))
  | inr e ↦ inr (ground (arith, get-put c k j v))
]

abbrev keep_all : LruCache
keep_all = record {
  Cache = Dict Bytes (List Level);
  find = λ c k. Dict.get c k;
  lru_get = λ c k. c;
  lru_add = λ c k v. Dict.put c k v;
  find-lru_get = λ c k j v h. h;
  find-lru_add = find-put;
}

abbrev no_entry : Dict Bytes (List Level)
no_entry = []

no_entry-IsCoherent : IsCoherent keep_all no_entry
unfolding Dict.get
no_entry-IsCoherent k v h = cc

split_topic-join_example :
    (split_topic any_tennis ≡ some (plus ∷ tennis ∷ []))
    ↔ ((is_filter (plus ∷ tennis ∷ []) ≡ true) × (join (plus ∷ tennis ∷ []) ≡ any_tennis))
split_topic-join_example = split_topic-join any_tennis (plus ∷ tennis ∷ [])

split_any_tennis : split_topic any_tennis ≡ some (plus ∷ tennis ∷ [])
unfolding is_filter join has has_wild
split_any_tennis = (split_topic-join any_tennis (plus ∷ tennis ∷ [])).1 (refl, refl)

split_sport_tennis : split_topic sport_tennis ≡ some (sport ∷ tennis ∷ [])
unfolding is_filter join has has_wild
split_sport_tennis = (split_topic-join sport_tennis (sport ∷ tennis ∷ [])).1 (refl, refl)

get_all-split_all_example :
    ((get_all keep_all no_entry (any_tennis ∷ any_tennis ∷ [])).0
      ≡ split_all (any_tennis ∷ any_tennis ∷ []))
    × IsCoherent keep_all (get_all keep_all no_entry (any_tennis ∷ any_tennis ∷ [])).1
get_all-split_all_example =
    get_all-split_all keep_all no_entry (any_tennis ∷ any_tennis ∷ []) no_entry-IsCoherent

abbrev one_client : Node
one_client = insert new_node (plus ∷ tennis ∷ []) 1 ann

one_client-IsTrie : IsTrie one_client
one_client-IsTrie = insert-IsTrie new_node (plus ∷ tennis ∷ []) 1 ann new_node-IsTrie

qos_of-remove_example :
    qos_of (remove one_client (plus ∷ tennis ∷ []) ann) (plus ∷ tennis ∷ []) ann ≡ (
      if same_filter (plus ∷ tennis ∷ []) (plus ∷ tennis ∷ []) && same ann ann
      then none
      else qos_of one_client (plus ∷ tennis ∷ []) ann)
qos_of-remove_example = qos_of-remove one_client (plus ∷ tennis ∷ []) (plus ∷ tennis ∷ []) ann ann

find_subscribers-Matches_example :
    ((Dict.get (Trie.find_subscribers one_client (sport ∷ tennis ∷ [])) ann ≡ none)
      × ¬ ((q : ℕ) × Subscribed one_client (sport ∷ tennis ∷ []) ann q))
    ⊎ ((q : ℕ) × (Dict.get (Trie.find_subscribers one_client (sport ∷ tennis ∷ [])) ann ≡ some q)
        × Subscribed one_client (sport ∷ tennis ∷ []) ann q)
find_subscribers-Matches_example =
    find_subscribers-Matches one_client (sport ∷ tennis ∷ []) ann one_client-IsTrie

abbrev requests : List Request
requests = to_subscribe (any_tennis ∷ []) (1 ∷ []) ann ∷ to_find sport_tennis ∷ []

delivery_example :
    (m : NoCache.Manager keep_all) × (found : Clients) × (run keep_all
        (new_manager keep_all no_entry)
        requests
      ≡ some m)
    × ((NoCache.find_subscribers keep_all m sport_tennis).0 ≡ some found)
    × (((Dict.get found ann ≡ none)
          × ¬ (
              (q : ℕ) × (g : List Level) × (meaning nobody requests g ann ≡ some q)
              × Matches g (sport ∷ tennis ∷ [])))
        ⊎ ((q : ℕ) × (Dict.get found ann ≡ some q)
            × ((g : List Level) × (meaning nobody requests g ann ≡ some q)
                × Matches g (sport ∷ tennis ∷ []))))
delivery_example =
    delivery keep_all no_entry requests sport_tennis (sport ∷ tennis ∷ []) ann no_entry-IsCoherent
      (omega arith, (tt, tt)) split_sport_tennis

new_manager-IsValid : IsValid keep_all (new_manager keep_all no_entry)
unfolding new_manager
new_manager-IsValid = record { trie = new_node-IsTrie; coherent = no_entry-IsCoherent }

subscribe-view_example :
    (m' : NoCache.Manager keep_all) × (NoCache.subscribe keep_all
        (new_manager keep_all no_entry)
        (any_tennis ∷ [])
        (1 ∷ [])
        ann
      ≡ some (is_some (split_all (any_tennis ∷ [])), m'))
    × IsValid keep_all m'
    × ((g : List Level) (who : ClientId)
        → view keep_all m' g who
          ≡ subscribed
              (view keep_all (new_manager keep_all no_entry))
              (split_all (any_tennis ∷ []))
              (1 ∷ [])
              ann
              g
              who)
subscribe-view_example =
    subscribe-view keep_all (new_manager keep_all no_entry) (any_tennis ∷ []) (1 ∷ []) ann
      new_manager-IsValid (omega arith)

-- A subscription that is ended.
abbrev ended : List Request
ended = to_subscribe (any_tennis ∷ []) (1 ∷ []) ann ∷ to_unsubscribe (any_tennis ∷ []) ann ∷ []

split_one : split_all (any_tennis ∷ []) ≡ some ((plus ∷ tennis ∷ []) ∷ [])
unfolding split_all
split_one = rw split_any_tennis refl

ended_for_all : (g : List Level) (who : ClientId) → meaning nobody ended g who ≡ none
unfolding meaning requested latest
ended_for_all g who = rw split_one (ground arith)

run-new_node_example :
    (m : NoCache.Manager keep_all) × (run keep_all (new_manager keep_all no_entry) ended ≡ some m)
    × (m.topic_mgr ≡ new_node)
run-new_node_example =
    run-new_node keep_all no_entry ended no_entry-IsCoherent (omega arith, (tt, tt)) ended_for_all
