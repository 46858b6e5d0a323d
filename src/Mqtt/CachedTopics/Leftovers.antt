-- ===== src/Mqtt/CachedTopics/Leftovers.antt =====
-- `processUnsubscribe` for filters that isTopicMatch does not take to match a topic.
use easegress.Prelude.{
  ℕ, ◌<◌, ◌≡◌, refl, sym, ap, subst, ◌∙◌, true, Option, some, bind_some, List, [], ◌∷◌, arith, inl,
  inr, length, clash, Bool-cases, Option-cases,
}
use mathlib.Core.Option.{none-ne-some}
use easegress.Prelude.Keys.{Bytes, list_key, nat_key, same_refl}
use easegress.Prelude.Dict.{get}
use easegress.Mqtt.Trie.{Level, ClientId, Clients, same, same_level_iff}
use easegress.Mqtt.Trie.Subscriptions.{qos_of, same_filter}
use easegress.Mqtt.Trie.Matching.{Matches, Subscribed}
use easegress.Mqtt.Trie.Requests.{requested, qos_of-unsubscribe}
use easegress.Mqtt.Topics.RoundTrip.{is_filter}
use easegress.Mqtt.TopicMatch.{is_topic_match}
use easegress.Mqtt.TopicMatch.Decision.{is_topic_match-Matches}
use easegress.Mqtt.CachedTopics.{
  unsubscribe_op, find_subscribers, update, ClientMap, CachedTopicManager, or_empty, levels_or_nil,
  match_unsubscribed, range_unsubscribed, process_unsubscribe,
}
use easegress.Mqtt.CachedTopics.Entries.{entry, contains, contains-append}
use easegress.Mqtt.CachedTopics.Hits.{Hit, drop_topics_entries}
use easegress.Mqtt.CachedTopics.Sync.Unsubscribing.{
  process_unsubscribe_parts, process_unsubscribe_tree,
}

-- The topics that are noted are taken to match.
match_unsubscribed_sound :
    (topic : Bytes) (all : List (List Level)) (hits : List Bytes) (t : Bytes)
    → match_unsubscribed topic all ≡ some hits
    → contains hits t ≡ true
    → (same topic t ≡ true) × Hit (levels_or_nil topic) all
unfolding match_unsubscribed contains
match_unsubscribed_sound topic [] hits t h c = cc
match_unsubscribed_sound topic (l ∷ all) hits t h c =
    let (b, e, h') = bind_some (is_topic_match (levels_or_nil topic) l) _ hits h in
    let (hs, e', h'') = bind_some (match_unsubscribed topic all) _ hits h' in
    elim (Bool-cases b) [
      | inl y ↦ elim (Bool-cases (same topic t)) [
        | inl here ↦ (here, inl (ground arith))
        | inr other ↦
            let (here, hit) = match_unsubscribed_sound topic all hs t e' (ground arith) in
            (here, inr hit)
      ]
      | inr n ↦
          let (here, hit) = match_unsubscribed_sound topic all hs t e' (ground arith) in
          (here, inr hit)
    ]

range_unsubscribed_sound :
    (d : ClientMap) (all : List (List Level)) (hits : List Bytes) (t : Bytes)
    → range_unsubscribed d all ≡ some hits
    → contains hits t ≡ true
    → Hit (levels_or_nil t) all
unfolding range_unsubscribed contains
range_unsubscribed_sound [] all hits t h c = cc
range_unsubscribed_sound ((topic, k) ∷ d) all hits t h c =
    let (hs, e, h') = bind_some (match_unsubscribed topic all) _ hits h in
    let (hs', e', h'') = bind_some (range_unsubscribed d all) _ hits h' in
    elim (Bool-cases (contains hs t)) [
      | inl here ↦
          let (s, hit) = match_unsubscribed_sound topic all hs t e here in
          subst (λ x. Hit (levels_or_nil x) all) ((same_level_iff topic t).0 s) hit
      | inr n ↦ range_unsubscribed_sound d all hs' t e' (ground (arith, contains-append hs hs' t))
    ]

-- A topic that no filter of the request is taken to match keeps its clients.
process_unsubscribe_kept :
    (m m' : CachedTopicManager) (all : List (List Level)) (id who : ClientId) (t : Bytes)
    → process_unsubscribe m all id ≡ some m'
    → ¬ Hit (levels_or_nil t) all
    → entry m'.topic_mapper t who ≡ entry m.topic_mapper t who
process_unsubscribe_kept m m' all id who t e clear =
    elim (process_unsubscribe_parts m m' all id e) [
      | inl (_, e') ↦ ap (λ (x : CachedTopicManager). entry x.topic_mapper t who) (sym e')
      | inr (value, hits, _, ranged, e') ↦
          let (a, _, _) = drop_topics_entries (record m { topic_mgr = _ }) hits id value t who in
          ap (λ (x : CachedTopicManager). entry x.topic_mapper t who) (sym e')
          ∙ a
          ∙ elim (Bool-cases (contains hits t)) [
            | inl noted ↦ absurd (clear (range_unsubscribed_sound value all hits t ranged noted))
            | inr n ↦ rw n refl
          ]
    ]

longer_misses : (ts f : List Level) → is_filter f ≡ true → length ts < length f → ¬ Hit ts (f ∷ [])
longer_misses ts f filter longer (inl y) = elim (is_topic_match-Matches ts f filter) [
  | inl (_, _, short) ↦ omega arith
  | inr (n, _) ↦ cc
]
longer_misses ts f filter longer (inr none_left) = none_left

found_in :
    (m : CachedTopicManager) (topic : Bytes) (id : ClientId) (q : ℕ)
    → entry m.topic_mapper topic id ≡ some q
    → (clients : Clients) × (find_subscribers m topic ≡ some (clients, []))
      × (get clients id ≡ some q)
unfolding find_subscribers entry get
found_in m topic id q e = elim (Option-cases (get m.topic_mapper topic)) [
  | inl absent ↦
      absurd (none-ne-some q (sym (ap (λ (x : Option Clients). get (or_empty x) id) absent) ∙ e))
  | inr (clients, here) ↦ (
    clients,
    rw (here, find_subscribers) refl,
    sym (ap (λ (x : Option Clients). get (or_empty x) id) here) ∙ e,
  )
]

-- A client in the kept answer for a topic that ends its one subscription to a filter matching the
-- topic, where this filter is longer than the topic, as `a/#` is for `a`, stays in the answer,
-- though it has no subscription left to a filter that matches the topic.
pub unsubscribe_stays :
    (m m' : CachedTopicManager) (f : List Level) (id : ClientId) (topic : Bytes) (q : ℕ)
    → entry m.topic_mapper topic id ≡ some q
    → is_filter f ≡ true
    → length (levels_or_nil topic) < length f
    → ((g : List Level) (q' : ℕ)
        → qos_of m.topic_mgr g id ≡ some q'
        → Matches g (levels_or_nil topic)
        → same_filter f g ≡ true)
    → update m (unsubscribe_op (f ∷ []) id) ≡ some m'
    → ((clients : Clients) × (find_subscribers m' topic ≡ some (clients, []))
        × (get clients id ≡ some q))
      × ¬ ((q' : ℕ) × Subscribed m'.topic_mgr (levels_or_nil topic) id q')
unfolding update requested
unsubscribe_stays m m' f id topic q kept filter longer only e = (
  found_in m' topic id q (
      process_unsubscribe_kept m m' (f ∷ []) id id topic e
        (longer_misses (levels_or_nil topic) f filter longer)
      ∙ kept),
  λ (q', (g, has, fits)).
      let k =
        sym (
          ap (λ root. qos_of root g id) (process_unsubscribe_tree m m' (f ∷ []) id e)
          ∙ qos_of-unsubscribe m.topic_mgr (f ∷ []) id id g)
        ∙ has in
      elim (Bool-cases (same_filter f g)) [
        | inl one ↦ absurd (none-ne-some q' (sym (rw (one, same_refl id) refl) ∙ k))
        | inr other ↦ clash (only g q' (sym (rw other refl) ∙ k) fits) other
      ],
)
