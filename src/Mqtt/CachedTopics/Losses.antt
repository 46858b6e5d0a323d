-- ===== src/Mqtt/CachedTopics/Losses.antt =====
-- Two requests after which the answer kept for a topic misses a client that is subscribed to it.
use easegress.Prelude.{
  ℕ, ◌≤◌, ◌<◌, ◌≡◌, refl, sym, ap, subst, ◌∙◌, true, false, Option, none, some, List, [], ◌∷◌,
  arith, inl, inr, length, Bool-cases, Option-cases,
}
use mathlib.Core.Option.{none-ne-some}
use easegress.Prelude.Keys.{Bytes, list_key, nat_key, same_refl}
use easegress.Prelude.Dict.{get, put, delete, get-put}
use easegress.Mqtt.Trie
use easegress.Mqtt.Trie.{Level, ClientId, Clients, Node, same, same_level_iff}
use easegress.Mqtt.Trie.Subscriptions.{qos_of, same_filter}
use easegress.Mqtt.Trie.Matching.{Matches, Subscribed}
use easegress.Mqtt.Trie.Requests.{latest, requested, qos_of-subscribe, qos_of-unsubscribe}
use easegress.Mqtt.Topics.RoundTrip.{is_filter}
use easegress.Mqtt.TopicMatch.Decision.{is_topic_match-Matches}
use easegress.Mqtt.CachedTopics.{
  TopicOp, subscribe_op, unsubscribe_op, find_subscribers, update, ClientMap, CachedTopicManager,
  TopicMapper, kept_qoss, or_empty, levels_or_nil, store_all, range_subscribed, drop_topics,
  delete_client, process_unsubscribe,
}
use easegress.Mqtt.CachedTopics.Entries.{Found, entry}
use easegress.Mqtt.CachedTopics.Hits.{range_subscribed_sound, range_subscribed-cons}
use easegress.Mqtt.CachedTopics.Sync.Subscribing.{process_subscribe_parts}
use easegress.Mqtt.CachedTopics.Sync.Unsubscribing.{
  process_unsubscribe_entries, process_unsubscribe_parts, process_unsubscribe_tree,
}
use easegress.Mqtt.CachedTopics.Answers.{Reach, Reach-IsSynced}

-- A topic that has an answer keeps one.
delete_client_keeps :
    (d : TopicMapper) (t topic : Bytes) (id : ClientId)
    → Found (get d topic)
    → Found (get (delete_client d t id) topic)
unfolding delete_client
delete_client_keeps d t topic id (v, f) = elim (Option-cases (get d t)) [
  | inl e ↦ rw (e, delete_client) (v, f)
  | inr (w, e) ↦
      rw (e, delete_client)
        (elim (Bool-cases (same t topic)) [
          | inl here ↦ (delete w id, get-put d t topic (delete w id) ∙ rw here refl)
          | inr other ↦ (v, get-put d t topic (delete w id) ∙ rw other f)
        ])
]

drop_topics_keeps :
    (m : CachedTopicManager) (ts : List Bytes) (id : ClientId) (value : ClientMap) (topic : Bytes)
    → Found (get m.topic_mapper topic)
    → Found (get (drop_topics m ts id value).topic_mapper topic)
unfolding drop_topics
drop_topics_keeps m [] id value topic f = f
drop_topics_keeps m (t ∷ ts) id value topic f =
    drop_topics_keeps (record m { topic_mapper = delete_client m.topic_mapper t id }) ts id
      (delete value t) topic (delete_client_keeps m.topic_mapper t topic id f)

process_unsubscribe_keeps :
    (m m' : CachedTopicManager) (all : List (List Level)) (id : ClientId) (topic : Bytes)
    → process_unsubscribe m all id ≡ some m'
    → Found (get m.topic_mapper topic)
    → Found (get m'.topic_mapper topic)
process_unsubscribe_keeps m m' all id topic e f = elim (process_unsubscribe_parts m m' all id e) [
  | inl (_, e') ↦ subst (λ (x : CachedTopicManager). Found (get x.topic_mapper topic)) e' f
  | inr (value, hits, _, _, e') ↦
      subst (λ (x : CachedTopicManager). Found (get x.topic_mapper topic)) e'
        (drop_topics_keeps (record m { topic_mgr = Trie.unsubscribe m.topic_mgr all id }) hits id
          value topic f)
]

range_subscribed_keeps :
    (d d' : TopicMapper) (all : List (List Level)) (qoss : List ℕ) (id : ClientId)
    (hits : List Bytes) (topic : Bytes)
    → range_subscribed d all qoss id ≡ some (d', hits)
    → Found (get d topic)
    → Found (get d' topic)
unfolding get
range_subscribed_keeps [] d' all qoss id hits topic e (v, f) = cc
range_subscribed_keeps ((t, v) ∷ d) d' all qoss id hits topic e (w, f) =
    let (v', hs, d1, hs1, _, e', same_d, _) = range_subscribed-cons t v d d' all qoss id hits e in
    subst (λ x. Found (get x topic)) same_d
      (elim (Bool-cases (same t topic)) [
        | inl here ↦ rw here (v', refl)
        | inr other ↦
            rw other (range_subscribed_keeps d d1 all qoss id hs1 topic e' (w, ground arith))
      ])

-- The answer that is kept for a topic.
kept_answer :
    (m : CachedTopicManager) (topic : Bytes) (id : ClientId)
    → Found (get m.topic_mapper topic)
    → entry m.topic_mapper topic id ≡ none
    → (clients : Clients) × (find_subscribers m topic ≡ some (clients, []))
      × (get clients id ≡ none)
unfolding find_subscribers entry
kept_answer m topic id (clients, f) e = (
  clients,
  rw (f, find_subscribers) refl,
  ap (λ (x : Option Clients). get (or_empty x) id) (sym f) ∙ e,
)

-- After any operations from the start, a client that ends one of two subscriptions, whose filter
-- matches a topic with a kept answer and is not longer than the topic, is no longer in the answer,
-- though its other subscription, with another filter, matches the topic too and stands.
pub unsubscribe_loses :
    (ops : List TopicOp) (m m' : CachedTopicManager) (f g : List Level) (id : ClientId)
    (topic : Bytes) (q : ℕ)
    → Reach ops m
    → Found (get m.topic_mapper topic)
    → is_filter f ≡ true
    → same_filter f g ≡ false
    → Matches f (levels_or_nil topic)
    → length f ≤ length (levels_or_nil topic)
    → Matches g (levels_or_nil topic)
    → qos_of m.topic_mgr g id ≡ some q
    → update m (unsubscribe_op (f ∷ []) id) ≡ some m'
    → ((clients : Clients) × (find_subscribers m' topic ≡ some (clients, []))
        × (get clients id ≡ none))
      × Subscribed m'.topic_mgr (levels_or_nil topic) id q
unfolding update requested
unsubscribe_loses ops m m' f g id topic q r kept filter differs fits short fits' has e = (
  kept_answer m' topic id (process_unsubscribe_keeps m m' (f ∷ []) id topic e kept)
      (elim (Option-cases (entry m'.topic_mapper topic id)) [
        | inl gone ↦ gone
        | inr found ↦
            let (_, _, clear) =
              process_unsubscribe_entries m m' (f ∷ []) id topic id (Reach-IsSynced ops m r) e
                found in
            elim (is_topic_match-Matches (levels_or_nil topic) f filter) [
              | inl (y, _, _) ↦ absurd (clear (same_refl id) (inl y))
              | inr (_, no_way) ↦ absurd (no_way (fits, short))
            ]
      ]),
  (
    g,
    ap (λ root. qos_of root g id) (process_unsubscribe_tree m m' (f ∷ []) id e)
        ∙ qos_of-unsubscribe m.topic_mgr (f ∷ []) id id g
        ∙ rw (differs, has) refl,
    fits',
  ),
)

-- A client that subscribes to a filter which matches a topic with an answer, and is longer than the
-- topic, as `a/#` is for `a`, is not in the answer if it was not before, though it is subscribed.
pub subscribe_misses :
    (m m' : CachedTopicManager) (f : List Level) (id : ClientId) (topic : Bytes) (q : ℕ)
    → Found (get m.topic_mapper topic)
    → entry m.topic_mapper topic id ≡ none
    → is_filter f ≡ true
    → Matches f (levels_or_nil topic)
    → length (levels_or_nil topic) < length f
    → update m (subscribe_op (f ∷ []) (q ∷ []) id) ≡ some m'
    → ((clients : Clients) × (find_subscribers m' topic ≡ some (clients, []))
        × (get clients id ≡ none))
      × Subscribed m'.topic_mgr (levels_or_nil topic) id q
unfolding update latest
subscribe_misses m m' f id topic q kept absent filter fits longer e =
    let (root, d', hits, e1, e2, e3) = process_subscribe_parts m m' (f ∷ []) (q ∷ []) id e in
    let m1 : CachedTopicManager = record {
      topic_mgr = root;
      topic_mapper = d';
      client_mapper =
          put m.client_mapper id
            (store_all (or_empty (get m.client_mapper id)) hits (kept_qoss (q ∷ [])));
    } in
    (
      subst
          (λ (x : CachedTopicManager).
            (clients : Clients) × (find_subscribers x topic ≡ some (clients, []))
            × (get clients id ≡ none))
          e3
          (kept_answer m1 topic id
            (range_subscribed_keeps m.topic_mapper d' (f ∷ []) (q ∷ []) id hits topic e2 kept)
            (elim (Option-cases (entry d' topic id)) [
              | inl gone ↦ gone
              | inr found ↦
                  elim (range_subscribed_sound m.topic_mapper d' (f ∷ []) (q ∷ []) id hits topic id
                    e2 found) [
                      | inl (q', was) ↦ absurd (none-ne-some q' (sym absent ∙ was))
                      | inr (_, _, inr nothing) ↦ absurd nothing
                      | inr (_, _, inl y) ↦
                          elim (is_topic_match-Matches (levels_or_nil topic) f filter) [
                            | inl (_, _, short) ↦ absurd (omega arith)
                            | inr (n, _) ↦ cc
                          ]
                    ]
            ])),
      (
        f,
        ap (λ (x : CachedTopicManager). qos_of x.topic_mgr f id) (sym e3)
            ∙ qos_of-subscribe m.topic_mgr root (f ∷ []) (q ∷ []) id id f e1
            ∙ rw (same_refl id, same_refl f) refl,
        fits,
      ),
    )
