-- ===== src/Mqtt/CachedTopics.antt =====
-- The topic manager that keeps the clients of the topics that were published:
-- pkg/object/mqttproxy/cachetopicmgr.go. One goroutine, `update`, makes the changes, in the order
-- of `writeCh`. The levels of a topic are those of `splitTopic`, which the cache of split topics
-- gives too.
use easegress.Prelude.{
  ℕ, ◌≡◌, Bool, true, false, Option, none, some, ◌>>=◌, List, [], ◌∷◌, ◌++◌, if◌then◌else◌,
}
use easegress.Prelude.Keys.{Bytes, list_key, nat_key}
use easegress.Prelude.Dict
use easegress.Prelude.Dict.{Dict}
use easegress.Mqtt.Trie
use easegress.Mqtt.Trie.{Level, ClientId, Clients, Node, new_node}
use easegress.Mqtt.Topics.{split_topic}
use easegress.Mqtt.TopicMatch.{is_topic_match}
mod Examples
mod Entries
mod Hits
mod Sync
pub mod Totals
pub mod Answers
pub mod Losses
pub mod Leftovers

-- What the map of a client keeps for a topic: a quality of service, or all those of a request.
pub data Kept : Type 0 where
  kept_qos : ℕ → Kept
  kept_qoss : List ℕ → Kept

abbrev pub TopicMapper : Type 0
TopicMapper = Dict Bytes Clients

abbrev pub ClientMap : Type 0
ClientMap = Dict Bytes Kept

abbrev pub ClientMapper : Type 0
ClientMapper = Dict ClientId ClientMap

pub record CachedTopicManager : Type 0 where
  pub topic_mgr : Node
  pub topic_mapper : TopicMapper
  pub client_mapper : ClientMapper

unfoldable pub new_manager : CachedTopicManager
new_manager = record { topic_mgr = new_node; topic_mapper = []; client_mapper = [] }

-- The answer kept for a topic, or else that of the tree with the operation that `writeCh` gets.
-- `none` is the error.
pub data TopicOp : Type 0 where
  subscribe_op : List (List Level) → List ℕ → ClientId → TopicOp
  unsubscribe_op : List (List Level) → ClientId → TopicOp
  publish_op : Bytes → List Level → TopicOp
  disconnect_op : List (List Level) → ClientId → TopicOp

unfoldable pub find_subscribers : CachedTopicManager → Bytes → Option (Clients × List TopicOp)
find_subscribers m topic = elim (Dict.get m.topic_mapper topic) [
  | some clients ↦ some (clients, [])
  | none ↦ elim (split_topic topic) [
    | none ↦ none
    | some levels ↦ some (Trie.find_subscribers m.topic_mgr levels, publish_op topic levels ∷ [])
  ]
]

-- The levels of a topic in the map. An error of the cache of split topics is ignored.
unfoldable pub levels_or_nil : Bytes → List Level
levels_or_nil topic = elim (split_topic topic) [ none ↦ [] | some levels ↦ levels ]

abbrev pub repeated : Bool → Bytes → List Bytes → List Bytes
repeated true topic ts = topic ∷ ts
repeated false topic ts = ts

-- The inner loop of `processSubscribe`: the clients of one topic, and the topic for each match.
unfoldable pub match_subscribed :
    Bytes
    → List (List Level)
    → List ℕ
    → ClientId
    → Clients × List Bytes
    → Option (Clients × List Bytes)
unfolding levels_or_nil
match_subscribed topic [] qoss id s = some s
match_subscribed topic (levels ∷ all) [] id (value, hits) =
    is_topic_match (levels_or_nil topic) levels >>= λ hit.
    if hit then none else match_subscribed topic all [] id (value, hits)
match_subscribed topic (levels ∷ all) (q ∷ qoss) id (value, hits) =
    is_topic_match (levels_or_nil topic) levels >>= λ hit.
    match_subscribed topic all qoss id
      (if hit then (Dict.put value id q, hits ++ topic ∷ []) else (value, hits))

-- `topicMapper.Range` of `processSubscribe`.
unfoldable pub range_subscribed :
    TopicMapper → List (List Level) → List ℕ → ClientId → Option (TopicMapper × List Bytes)
unfolding match_subscribed
range_subscribed [] all qoss id = some ([], [])
range_subscribed ((topic, value) ∷ d) all qoss id =
    match_subscribed topic all qoss id (value, []) >>= λ (value', hits).
    range_subscribed d all qoss id >>= λ (d', hits'). some ((topic, value') ∷ d', hits ++ hits')

-- Load, or else an empty map.
abbrev pub or_empty {ℓ} : {A : Type ℓ} → Option (List A) → List A
or_empty none = []
or_empty (some d) = d

unfoldable pub store_all : ClientMap → List Bytes → Kept → ClientMap
store_all m [] k = m
store_all m (topic ∷ ts) k = store_all (Dict.put m topic k) ts k

unfoldable pub process_subscribe :
    CachedTopicManager → List (List Level) → List ℕ → ClientId → Option CachedTopicManager
unfolding range_subscribed store_all
process_subscribe m all qoss id = Trie.subscribe m.topic_mgr all qoss id >>= λ root.
    range_subscribed m.topic_mapper all qoss id >>= λ (mapper, hits). some (record {
      topic_mgr = root;
      topic_mapper = mapper;
      client_mapper =
          Dict.put m.client_mapper id
            (store_all (or_empty (Dict.get m.client_mapper id)) hits (kept_qoss qoss));
    })

-- `Delete` of a client in the map of a topic, if the topic has one.
unfoldable pub delete_client : TopicMapper → Bytes → ClientId → TopicMapper
delete_client d topic id = elim (Dict.get d topic) [
  | none ↦ d
  | some value ↦ Dict.put d topic (Dict.delete value id)
]

-- The topics of a client that a filter of the request matches, once for each such filter.
unfoldable pub match_unsubscribed : Bytes → List (List Level) → Option (List Bytes)
unfolding levels_or_nil
match_unsubscribed topic [] = some []
match_unsubscribed topic (levels ∷ all) = is_topic_match (levels_or_nil topic) levels >>= λ hit.
    match_unsubscribed topic all >>= λ hits. some (if hit then topic ∷ hits else hits)

unfoldable pub range_unsubscribed : ClientMap → List (List Level) → Option (List Bytes)
unfolding match_unsubscribed
range_unsubscribed [] all = some []
range_unsubscribed ((topic, k) ∷ d) all = match_unsubscribed topic all >>= λ hits.
    range_unsubscribed d all >>= λ hits'. some (hits ++ hits')

unfoldable pub drop_topics :
    CachedTopicManager → List Bytes → ClientId → ClientMap → CachedTopicManager
unfolding delete_client
drop_topics m [] id value = record m { client_mapper = Dict.put m.client_mapper id value }
drop_topics m (topic ∷ ts) id value =
    drop_topics (record m { topic_mapper = delete_client m.topic_mapper topic id }) ts id
      (Dict.delete value topic)

unfoldable pub process_unsubscribe :
    CachedTopicManager → List (List Level) → ClientId → Option CachedTopicManager
unfolding range_unsubscribed drop_topics
process_unsubscribe m all id =
    let m' = record m { topic_mgr = Trie.unsubscribe m.topic_mgr all id } in
    elim (Dict.get m.client_mapper id) [
      | none ↦ some m'
      | some value ↦ range_unsubscribed value all >>= λ hits. some (drop_topics m' hits id value)
    ]

-- The loop of `processPublish`.
unfoldable pub publish_all : Bytes → Clients → Clients → ClientMapper → Clients × ClientMapper
publish_all topic [] topic_map mapper = (topic_map, mapper)
publish_all topic ((cid, q) ∷ cs) topic_map mapper =
    publish_all topic cs (Dict.put topic_map cid q)
      (Dict.put mapper cid (Dict.put (or_empty (Dict.get mapper cid)) topic (kept_qos q)))

unfoldable pub process_publish : CachedTopicManager → Bytes → List Level → CachedTopicManager
unfolding publish_all
process_publish m topic levels =
    let (topic_map, mapper) =
      publish_all topic (Trie.find_subscribers m.topic_mgr levels)
        (or_empty (Dict.get m.topic_mapper topic)) m.client_mapper in
    record m { topic_mapper = Dict.put m.topic_mapper topic topic_map; client_mapper = mapper }

-- `value.Range` of `processDisconnect`.
unfoldable pub delete_everywhere : TopicMapper → ClientMap → ClientId → TopicMapper
unfolding delete_client
delete_everywhere d [] id = d
delete_everywhere d ((topic, k) ∷ value) id = delete_everywhere (delete_client d topic id) value id

unfoldable pub process_disconnect :
    CachedTopicManager → List (List Level) → ClientId → CachedTopicManager
unfolding delete_everywhere
process_disconnect m all id =
    let m' = record m { topic_mgr = Trie.unsubscribe m.topic_mgr all id } in
    elim (Dict.get m.client_mapper id) [
      | none ↦ m'
      | some value ↦ record m' {
        topic_mapper = delete_everywhere m.topic_mapper value id;
        client_mapper = Dict.delete m.client_mapper id;
      }
    ]

-- One round of `update`. `none` is a panic.
unfoldable pub update : CachedTopicManager → TopicOp → Option CachedTopicManager
unfolding process_subscribe process_unsubscribe process_publish process_disconnect
update m (subscribe_op all qoss id) = process_subscribe m all qoss id
update m (unsubscribe_op all id) = process_unsubscribe m all id
update m (publish_op topic levels) = some (process_publish m topic levels)
update m (disconnect_op all id) = some (process_disconnect m all id)
