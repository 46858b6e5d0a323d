-- ===== src/Mqtt/CachedTopics/Totals.antt =====
-- No operation of the caching topic manager panics, if it brings what it should.
use easegress.Prelude.{
  ℕ, ◌≤◌, ◌≡◌, refl, true, false, List, [], ◌∷◌, ◌++◌, arith, if◌then◌else◌, inl, inr, length,
  Option-cases,
}
use easegress.Prelude.Keys.{Bytes, list_key, nat_key}
use easegress.Prelude.Dict.{get, put}
use easegress.Mqtt.Trie
use easegress.Mqtt.Trie.{Level, ClientId, Clients, Node, same, same_level_iff}
use easegress.Mqtt.Trie.Requests.{subscribe_total}
use easegress.Mqtt.Topics.RoundTrip.{is_filter}
use easegress.Mqtt.TopicMatch.{is_topic_match}
use easegress.Mqtt.TopicMatch.Decision.{is_topic_match-Matches}
use easegress.Mqtt.CachedTopics.{
  TopicOp, subscribe_op, unsubscribe_op, publish_op, disconnect_op, update, match_subscribed,
  match_unsubscribed, ClientMap, CachedTopicManager, TopicMapper, kept_qoss, or_empty,
  levels_or_nil, store_all, range_subscribed, process_subscribe, range_unsubscribed, drop_topics,
  process_unsubscribe, process_publish, process_disconnect,
}
use easegress.Mqtt.CachedTopics.Entries.{Found}
use easegress.Mqtt.CachedTopics.Sync.{AreFilters}

-- What an operation brings: filters that have been split, a quality of service for each to subscribe
-- to, and the levels of the topic.
abbrev pub IsGood : TopicOp → Type 0
IsGood (subscribe_op all qoss id) = AreFilters all × (length all ≤ length qoss)
IsGood (unsubscribe_op all id) = AreFilters all
IsGood (publish_op topic levels) = levels ≡ levels_or_nil topic
IsGood (disconnect_op all id) = AreFilters all

is_topic_match_total : (ts l : List Level) → is_filter l ≡ true → Found (is_topic_match ts l)
is_topic_match_total ts l f = elim (is_topic_match-Matches ts l f) [
  | inl (e, _, _) ↦ (true, e)
  | inr (e, _) ↦ (false, e)
]

match_subscribed_total :
    (topic : Bytes) (all : List (List Level)) (qoss : List ℕ) (id : ClientId)
    (s : Clients × List Bytes)
    → AreFilters all
    → length all ≤ length qoss
    → Found (match_subscribed topic all qoss id s)
unfolding match_subscribed
match_subscribed_total topic [] qoss id s f h = (s, refl)
match_subscribed_total topic (l ∷ all) [] id s f h = absurd (omega arith)
match_subscribed_total topic (l ∷ all) (q ∷ qoss) id (v, hs) f h =
    let (hit, e) = is_topic_match_total (levels_or_nil topic) l f.0 in
    let s' = if hit then (put v id q, hs ++ topic ∷ []) else (v, hs) in
    let (r, e') = match_subscribed_total topic all qoss id s' f.1 (omega arith) in (r, rw e e')

range_subscribed_total :
    (d : TopicMapper) (all : List (List Level)) (qoss : List ℕ) (id : ClientId)
    → AreFilters all
    → length all ≤ length qoss
    → Found (range_subscribed d all qoss id)
unfolding range_subscribed
range_subscribed_total [] all qoss id f h = (([], []), refl)
range_subscribed_total ((topic, v) ∷ d) all qoss id f h =
    let (r, e) = match_subscribed_total topic all qoss id (v, []) f h in
    let (r', e') = range_subscribed_total d all qoss id f h in
    (((topic, r.0) ∷ r'.0, r.1 ++ r'.1), rw (e, e') refl)

match_unsubscribed_total :
    (topic : Bytes) (all : List (List Level))
    → AreFilters all
    → Found (match_unsubscribed topic all)
unfolding match_unsubscribed
match_unsubscribed_total topic [] f = ([], refl)
match_unsubscribed_total topic (l ∷ all) f =
    let (hit, e) = is_topic_match_total (levels_or_nil topic) l f.0 in
    let (hs, e') = match_unsubscribed_total topic all f.1 in
    (if hit then topic ∷ hs else hs, rw (e, e') refl)

range_unsubscribed_total :
    (d : ClientMap) (all : List (List Level)) → AreFilters all → Found (range_unsubscribed d all)
unfolding range_unsubscribed
range_unsubscribed_total [] all f = ([], refl)
range_unsubscribed_total ((topic, k) ∷ d) all f =
    let (hs, e) = match_unsubscribed_total topic all f in
    let (hs', e') = range_unsubscribed_total d all f in (hs ++ hs', rw (e, e') refl)

-- No operation panics.
pub update_total : (m : CachedTopicManager) (op : TopicOp) → IsGood op → Found (update m op)
unfolding update process_subscribe process_unsubscribe
update_total m (subscribe_op all qoss id) (f, h) =
    let (root, e) = subscribe_total m.topic_mgr all qoss id h in
    let (r, e') = range_subscribed_total m.topic_mapper all qoss id f h in
    (
      record {
        topic_mgr = root;
        topic_mapper = r.0;
        client_mapper =
            put m.client_mapper id
              (store_all (or_empty (get m.client_mapper id)) r.1 (kept_qoss qoss));
      },
      rw (e, e') refl,
    )
update_total m (unsubscribe_op all id) f = elim (Option-cases (get m.client_mapper id)) [
  | inl no_map ↦ (
    record m { topic_mgr = Trie.unsubscribe m.topic_mgr all id },
    rw (no_map, process_unsubscribe) refl,
  )
  | inr (value, mapped) ↦
      let (hits, e) = range_unsubscribed_total value all f in
      (
        drop_topics (record m { topic_mgr = Trie.unsubscribe m.topic_mgr all id }) hits id value,
        rw (mapped, process_unsubscribe) (rw e refl),
      )
]
update_total m (publish_op topic levels) h = (process_publish m topic levels, refl)
update_total m (disconnect_op all id) h = (process_disconnect m all id, refl)
