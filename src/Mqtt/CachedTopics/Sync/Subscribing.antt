-- ===== src/Mqtt/CachedTopics/Sync/Subscribing.antt =====
-- `processSubscribe` keeps the maps in step.
use easegress.Prelude.{
  ℕ, ◌≤◌, ◌≡◌, refl, sym, subst, ◌∙◌, some, bind_some, List, ◌∷◌, inl, inr, length, Bool-cases,
}
use mathlib.Core.Option.{some-injective}
use easegress.Prelude.Keys.{Bytes, list_key, nat_key}
use easegress.Prelude.Dict.{get, put}
use easegress.Mqtt.Trie
use easegress.Mqtt.Trie.{Level, ClientId, Clients, Node, same, same_level_iff}
use easegress.Mqtt.Trie.Subscriptions.{qos_of}
use easegress.Mqtt.Trie.Requests.{qos_of-subscribe, subscribe-IsTrie}
use easegress.Mqtt.CachedTopics.{
  TopicOp, subscribe_op, CachedTopicManager, TopicMapper, ClientMapper, Kept, kept_qoss, or_empty,
  levels_or_nil, store_all, range_subscribed, process_subscribe,
}
use easegress.Mqtt.CachedTopics.Entries.{Found, entry, contains, entry-put, get-store_all}
use easegress.Mqtt.CachedTopics.Hits.{range_subscribed_sound}
use easegress.Mqtt.CachedTopics.Sync.{Holds, IsSynced, AreFilters, latest_some, Hit-latest}

-- A subscription keeps those that are there.
Holds-subscribe :
    (root r : Node) (all : List (List Level)) (qoss : List ℕ) (id who : ClientId) (t : Bytes)
    → Trie.subscribe root all qoss id ≡ some r
    → Holds root t who
    → Holds r t who
Holds-subscribe root r all qoss id who t h (q, (g, e, m)) =
    let k = qos_of-subscribe root r all qoss id who g h in
    elim (Bool-cases (same id who)) [
      | inl me ↦ let (q', e') = latest_some all qoss g q in (q', (g, k ∙ rw (me, e) e', m))
      | inr other ↦ (q, (g, k ∙ rw other e, m))
    ]

subscribed_index :
    (d d' : TopicMapper) (mapper : ClientMapper) (all : List (List Level)) (qoss : List ℕ)
    (id : ClientId) (hits : List Bytes) (t : Bytes) (who : ClientId) (k : Kept)
    → range_subscribed d all qoss id ≡ some (d', hits)
    → (Found (entry d t who) → Found (entry mapper who t))
    → Found (entry d' t who)
    → Found (entry (put mapper id (store_all (or_empty (get mapper id)) hits k)) who t)
unfolding entry
subscribed_index d d' mapper all qoss id hits t who k e old f =
    let value = store_all (or_empty (get mapper id)) hits k in
    let law = entry-put mapper id who t value in
    let stored = get-store_all (or_empty (get mapper id)) hits k t in
    elim (range_subscribed_sound d d' all qoss id hits t who e f) [
      | inl was ↦
          let (k', g) = old was in
          elim (Bool-cases (same id who)) [
            | inl me ↦ elim (Bool-cases (contains hits t)) [
              | inl noted ↦ (k, law ∙ rw me (stored ∙ rw noted refl))
              | inr missed ↦ (
                k',
                law
                    ∙ rw me (
                        stored
                        ∙ rw missed (
                            subst (λ x. entry mapper x t ≡ some k')
                              (sym ((same_level_iff id who).0 me)) g)),
              )
            ]
            | inr other ↦ (k', law ∙ rw other g)
          ]
      | inr (me, noted, _) ↦ (k, law ∙ rw me (stored ∙ rw noted refl))
    ]

pub process_subscribe_parts :
    (m m' : CachedTopicManager) (all : List (List Level)) (qoss : List ℕ) (id : ClientId)
    → process_subscribe m all qoss id ≡ some m'
    → (root : Node) × (d' : TopicMapper) × (hits : List Bytes) × (Trie.subscribe m.topic_mgr all
          qoss id
        ≡ some root)
      × (range_subscribed m.topic_mapper all qoss id ≡ some (d', hits))
      × (record {
        topic_mgr = root;
        topic_mapper = d';
        client_mapper =
            put m.client_mapper id
              (store_all (or_empty (get m.client_mapper id)) hits (kept_qoss qoss));
      }
          ≡ m')
unfolding process_subscribe
process_subscribe_parts m m' all qoss id e =
    let (root, e1, h1) = bind_some (Trie.subscribe m.topic_mgr all qoss id) _ m' e in
    let (r, e2, h2) = bind_some (range_subscribed m.topic_mapper all qoss id) _ m' h1 in
    (root, r.0, r.1, e1, e2, some-injective _ m' h2)

pub process_subscribe-IsSynced :
    {ops : List TopicOp} (m m' : CachedTopicManager) (all : List (List Level)) (qoss : List ℕ)
    (id : ClientId)
    → IsSynced ops m
    → AreFilters all
    → length all ≤ length qoss
    → process_subscribe m all qoss id ≡ some m'
    → IsSynced (subscribe_op all qoss id ∷ ops) m'
process_subscribe-IsSynced {ops} m m' all qoss id h f enough e =
    let (root, d', hits, e1, e2, e3) = process_subscribe_parts m m' all qoss id e in
    subst (IsSynced (subscribe_op all qoss id ∷ ops)) e3 (record {
      trie = subscribe-IsTrie m.topic_mgr root all qoss id h.trie e1;
      indexed = λ t who found.
          subscribed_index m.topic_mapper d' m.client_mapper all qoss id hits t who (kept_qoss qoss)
            e2 (h.indexed t who) found;
      sound = λ t who found.
          elim (range_subscribed_sound m.topic_mapper d' all qoss id hits t who e2 found) [
            | inl was ↦ elim (h.sound t who was) [
              | inl holds ↦ inl (Holds-subscribe m.topic_mgr root all qoss id who t e1 holds)
              | inr ended ↦ inr ended
            ]
            | inr (me, _, hit) ↦
                let (g, fits, asked) = Hit-latest (levels_or_nil t) all qoss f enough hit in
                let (q, e4) = asked (qos_of m.topic_mgr g who) in
                inl
                  (q, (g, qos_of-subscribe m.topic_mgr root all qoss id who g e1 ∙ rw me e4, fits))
          ];
    })
