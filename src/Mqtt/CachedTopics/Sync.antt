-- ===== src/Mqtt/CachedTopics/Sync.antt =====
-- What holds of the caching topic manager between two operations, and that each operation keeps it.
use easegress.Prelude.{
  ℕ, ◌≤◌, ◌<◌, ◌≡◌, ◌⊎◌, refl, sym, ap, subst, ◌∙◌, Bool, true, false, ◌&&◌, ◌||◌, Option, none,
  some, ◌>>=◌, bind_some, List, [], ◌∷◌, ◌++◌, arith, if◌then◌else◌, inl, inr, length, clash,
  Bool-cases, Option-cases, All,
}
use mathlib.Core.Option.{none-ne-some, some-injective}
use easegress.Prelude.Keys.{Bytes, list_key, nat_key, same_refl}
use easegress.Prelude.Dict.{Dict, get, put, delete, get-put}
use easegress.Mqtt.Trie
use easegress.Mqtt.Trie.{Level, ClientId, Clients, Node, same, same_level_iff}
use easegress.Mqtt.Trie.Subscriptions.{qos_of, same_filter}
use easegress.Mqtt.Trie.Shape.{IsTrie}
use easegress.Mqtt.Trie.Matching.{Matches, Subscribed}
use easegress.Mqtt.Trie.Search.{find_subscribers-Matches}
use easegress.Mqtt.Trie.Requests.{
  latest, requested, qos_of-subscribe, subscribe-IsTrie, qos_of-unsubscribe, unsubscribe-IsTrie,
}
use easegress.Mqtt.Topics.RoundTrip.{is_filter}
use easegress.Mqtt.TopicMatch.{is_topic_match}
use easegress.Mqtt.TopicMatch.Decision.{is_topic_match-Matches}
use easegress.Mqtt.CachedTopics.{
  TopicOp, subscribe_op, unsubscribe_op, publish_op, disconnect_op, CachedTopicManager, TopicMapper,
  ClientMapper, Kept, kept_qoss, or_empty, levels_or_nil, store_all, range_subscribed,
  process_subscribe, range_unsubscribed, drop_topics, process_unsubscribe, publish_all,
  process_publish, delete_everywhere, process_disconnect,
}
use easegress.Mqtt.CachedTopics.Entries.{
  Found, entry, contains, entry-put, entry-delete, topics_of, get-topics_of,
  entry-delete_everywhere, get-store_all, publish_all_clients, publish_all_index,
}
use easegress.Mqtt.CachedTopics.Hits.{
  Hit, range_subscribed_sound, range_unsubscribed_complete, drop_topics_entries,
}
pub mod Subscribing
pub mod Unsubscribing
pub mod Publishing

-- A client is subscribed to a filter that matches a topic.
abbrev pub Holds : Node → Bytes → ClientId → Type 0
Holds root t who = (q : ℕ) × Subscribed root (levels_or_nil t) who q

-- One of the filters matches a topic and is longer than it, as `a/#` is for `a`.
abbrev pub Longer : List Level → List (List Level) → Type 0
Longer ts [] = ⊥
Longer ts (l ∷ all) = (Matches l ts × (length ts < length l)) ⊎ Longer ts all

-- Among the operations, the latest first, the client has asked to unsubscribe from such a filter, and
-- has not disconnected since.
abbrev pub HasEndedLonger : List TopicOp → Bytes → ClientId → Type 0
HasEndedLonger [] t who = ⊥
HasEndedLonger (subscribe_op all qoss id ∷ ops) t who = HasEndedLonger ops t who
HasEndedLonger (unsubscribe_op all id ∷ ops) t who =
    ((same id who ≡ true) × Longer (levels_or_nil t) all) ⊎ HasEndedLonger ops t who
HasEndedLonger (publish_op topic levels ∷ ops) t who = HasEndedLonger ops t who
HasEndedLonger (disconnect_op all id ∷ ops) t who = (same id who ≡ false) × HasEndedLonger ops t who

-- After the operations a topic is in the map of each client that is kept for it, and each such client
-- is subscribed to a filter that matches the topic, or has asked to unsubscribe from a longer one.
pub record IsSynced (ops : List TopicOp) (m : CachedTopicManager) : Type 0 where
  pub trie : IsTrie m.topic_mgr
  pub indexed :
      (t : Bytes) (who : ClientId)
      → Found (entry m.topic_mapper t who)
      → Found (entry m.client_mapper who t)
  pub sound :
      (t : Bytes) (who : ClientId)
      → Found (entry m.topic_mapper t who)
      → Holds m.topic_mgr t who ⊎ HasEndedLonger ops t who

abbrev pub AreFilters : List (List Level) → Type 0
AreFilters = All (λ l. is_filter l ≡ true)

-- A later request for the filter leaves a subscription to it in place.
pub latest_some :
    (all : List (List Level)) (qoss : List ℕ) (g : List Level) (q : ℕ)
    → Found (latest all qoss g (some q))
unfolding latest
latest_some [] qoss g q = (q, refl)
latest_some (l ∷ all) [] g q = (q, refl)
latest_some (l ∷ all) (q' ∷ qoss) g q = elim (Bool-cases (same_filter l g)) [
  | inl e ↦ rw e (latest_some all qoss g q')
  | inr e ↦ rw e (latest_some all qoss g q)
]

-- A filter of the request that is taken to match a topic does, and is asked for.
pub Hit-latest :
    (ts : List Level) (all : List (List Level)) (qoss : List ℕ)
    → AreFilters all
    → length all ≤ length qoss
    → Hit ts all
    → (g : List Level) × Matches g ts × ((old : Option ℕ) → Found (latest all qoss g old))
unfolding latest
Hit-latest ts [] qoss f h hit = absurd hit
Hit-latest ts (l ∷ all) [] f h hit = absurd (omega arith)
Hit-latest ts (l ∷ all) (q ∷ qoss) f h (inr hit) =
    let (g, m, found) = Hit-latest ts all qoss f.1 (omega arith) hit in
    (g, m, λ old. found (if same_filter l g then some q else old))
Hit-latest ts (l ∷ all) (q ∷ qoss) f h (inl fits) = elim (is_topic_match-Matches ts l f.0) [
  | inl (_, m, _) ↦ (l, m, λ old. rw (same_refl l) (latest_some all qoss l q))
  | inr (e, _) ↦ cc
]
