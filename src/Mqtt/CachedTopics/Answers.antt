-- ===== src/Mqtt/CachedTopics/Answers.antt =====
-- What the caching topic manager answers after any operations of `update`.
use easegress.Prelude.{
  ℕ, ◌≡◌, refl, sym, ap, subst, ◌∙◌, none, some, List, [], ◌∷◌, ◌⊎◌, arith, if◌then◌else◌, inl, inr,
  Option-cases,
}
use mathlib.Core.Option.{none-ne-some, some-injective}
use easegress.Prelude.Keys.{Bytes, list_key, nat_key}
use easegress.Prelude.Dict.{get}
use easegress.Mqtt.Trie
use easegress.Mqtt.Trie.{Level, ClientId, Clients, Node, same, same_level_iff}
use easegress.Mqtt.Trie.Matching.{Subscribed}
use easegress.Mqtt.Trie.Search.{find_subscribers-Matches}
use easegress.Mqtt.CachedTopics.{
  TopicOp, subscribe_op, unsubscribe_op, publish_op, disconnect_op, new_manager, find_subscribers,
  update, CachedTopicManager, levels_or_nil, process_publish, process_disconnect,
}
use easegress.Mqtt.CachedTopics.Entries.{entry}
use easegress.Mqtt.CachedTopics.Sync.Subscribing.{process_subscribe-IsSynced}
use easegress.Mqtt.CachedTopics.Sync.Unsubscribing.{process_unsubscribe-IsSynced}
use easegress.Mqtt.CachedTopics.Sync.Publishing.{
  process_publish-IsSynced, process_disconnect-IsSynced, process_disconnect_entries,
}
use easegress.Mqtt.Trie.Shape.{new_node-IsTrie}
use easegress.Mqtt.Topics.{split_topic}
use easegress.Mqtt.CachedTopics.Totals.{IsGood, update_total}
use easegress.Mqtt.CachedTopics.Sync.{IsSynced, HasEndedLonger}

update-IsSynced :
    {ops : List TopicOp} (m m' : CachedTopicManager) (op : TopicOp)
    → IsSynced ops m
    → IsGood op
    → update m op ≡ some m'
    → IsSynced (op ∷ ops) m'
unfolding update
update-IsSynced m m' (subscribe_op all qoss id) h (f, n) e =
    process_subscribe-IsSynced m m' all qoss id h f n e
update-IsSynced m m' (unsubscribe_op all id) h f e = process_unsubscribe-IsSynced m m' all id h f e
update-IsSynced {ops} m m' (publish_op topic levels) h g e =
    subst
      (λ ls.
        IsSynced (publish_op topic ls ∷ ops) (process_publish m topic ls)
        → IsSynced (publish_op topic levels ∷ ops) m')
      g
      (subst (IsSynced (publish_op topic levels ∷ ops))
        (some-injective (process_publish m topic levels) m' e))
      (process_publish-IsSynced m topic h)
update-IsSynced {ops} m m' (disconnect_op all id) h f e =
    subst (IsSynced (disconnect_op all id ∷ ops))
      (some-injective (process_disconnect m all id) m' e) (process_disconnect-IsSynced m all id h f)

-- An operation that brings filters and levels that have been split, and a quality for each filter
-- to subscribe to, does not panic. It keeps the tree's shape, a topic in the map of each client that
-- is kept for it, and each such client subscribed to a filter that matches the topic, but for those
-- who, since they last disconnected, have asked to unsubscribe from a filter that matches the topic
-- and is longer than it, as `a/#` is for `a`.
pub update-keeps :
    (ops : List TopicOp) (m : CachedTopicManager) (op : TopicOp)
    → IsSynced ops m
    → IsGood op
    → (m' : CachedTopicManager) × (update m op ≡ some m') × IsSynced (op ∷ ops) m'
update-keeps ops m op h g =
    let (m', e) = update_total m op g in (m', e, update-IsSynced m m' op h g e)

-- What `update` gets to by operations, the latest first, with what the code that sends them gives
-- them.
pub data Reach : List TopicOp → CachedTopicManager → Type 0 where
  start : (m : CachedTopicManager) → m ≡ new_manager → Reach [] m
  after_op :
      (ops : List TopicOp) (m m' : CachedTopicManager) (op : TopicOp)
      → Reach ops m
      → IsGood op
      → update m op ≡ some m'
      → Reach (op ∷ ops) m'

pub new_manager-IsSynced : IsSynced [] new_manager
unfolding new_manager entry get
new_manager-IsSynced = record {
  trie = new_node-IsTrie;
  indexed = λ t who (q, f). cc;
  sound = λ t who (q, f). cc;
}

pub Reach-IsSynced : (ops : List TopicOp) (m : CachedTopicManager) → Reach ops m → IsSynced ops m
Reach-IsSynced _ m (start _ e) = subst (IsSynced []) (sym e) new_manager-IsSynced
Reach-IsSynced _ m (after_op ops k _ op r g e) = update-IsSynced k m op (Reach-IsSynced ops k r) g e

found_for :
    (m : CachedTopicManager) (topic : Bytes) (clients : Clients) (ops : List TopicOp)
    (levels : List Level) (who : ClientId) (q : ℕ)
    → get m.topic_mapper topic ≡ none
    → split_topic topic ≡ some levels
    → find_subscribers m topic ≡ some (clients, ops)
    → get clients who ≡ some q
    → get (Trie.find_subscribers m.topic_mgr levels) who ≡ some q
unfolding find_subscribers
found_for m topic clients ops levels who q absent good e f = ground arith

-- After any operations from the start, whoever is in an answer for a topic, kept or just found, is
-- subscribed to a filter that matches the topic, or has, since the last disconnection, asked to
-- unsubscribe from a filter that matches the topic and is longer than it, as `a/#` is for `a`.
pub answer-Matches :
    (past : List TopicOp) (m : CachedTopicManager) (topic : Bytes) (clients : Clients)
    (ops : List TopicOp) (who : ClientId) (q : ℕ)
    → Reach past m
    → find_subscribers m topic ≡ some (clients, ops)
    → get clients who ≡ some q
    → ((q' : ℕ) × Subscribed m.topic_mgr (levels_or_nil topic) who q')
      ⊎ HasEndedLonger past topic who
unfolding find_subscribers levels_or_nil entry
answer-Matches past m topic clients ops who q r e f =
    let h = Reach-IsSynced past m r in
    elim (Option-cases (get m.topic_mapper topic)) [
      | inr (kept, here) ↦ h.sound topic who (q, ground arith)
      | inl absent ↦ elim (Option-cases (split_topic topic)) [
        | inl bad ↦ ground arith
        | inr (levels, good) ↦ elim (find_subscribers-Matches m.topic_mgr levels who h.trie) [
          | inl (missing, _) ↦ absurd (
              none-ne-some q
                (sym missing ∙ found_for m topic clients ops levels who q absent good e f))
          | inr (q', _, s) ↦
              inl (
                q',
                subst (λ ts. Subscribed m.topic_mgr ts who q') (rw (good, levels_or_nil) refl) s,
              )
        ]
      ]
    ]

-- After any operations from the start and then a disconnection, the client is in no answer that is
-- kept, and the other clients are in all in which they were.
pub disconnect-forgets :
    (ops : List TopicOp) (m m' : CachedTopicManager) (all : List (List Level)) (id who : ClientId)
    (topic : Bytes)
    → Reach ops m
    → update m (disconnect_op all id) ≡ some m'
    → entry m'.topic_mapper topic who
      ≡ (if same id who then none else entry m.topic_mapper topic who)
unfolding update
disconnect-forgets ops m m' all id who topic r e =
    ap (λ (x : CachedTopicManager). entry x.topic_mapper topic who)
      (sym (some-injective (process_disconnect m all id) m' e))
    ∙ process_disconnect_entries m all id topic who (Reach-IsSynced ops m r)
