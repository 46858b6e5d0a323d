-- ===== src/Mqtt/CachedTopics/Examples.antt =====
-- The theorems on the caching topic manager at concrete inputs.
use easegress.Prelude.{
  ℕ, ◌≤◌, ◌<◌, ◌≡◌, ◌⊎◌, refl, sym, subst, ◌∙◌, Bool-cases, true, false, none, some, List, [], ◌∷◌,
  arith, if◌then◌else◌, inl, inr, length,
}
use mathlib.Core.Option.{none-ne-some}
use easegress.Prelude.Keys.{Bytes, list_key, nat_key, lists_same}
use easegress.Prelude.Dict.{get, put, delete}
use easegress.Mqtt.Trie
use easegress.Mqtt.Trie.{
  Level, ClientId, Clients, Node, node, child, no_nodes, new_node, plus, hash, same,
}
use easegress.Mqtt.Trie.Subscriptions.{qos_of, same_filter, qos_of-insert, qos_of-new_node}
use easegress.Mqtt.Trie.Matching.{Matches, Subscribed}
use easegress.Mqtt.Topics.{split_topic}
use easegress.Mqtt.Topics.Pieces.{has_wild}
use easegress.Mqtt.Topics.RoundTrip.{is_filter, has}
use easegress.Mqtt.TopicMatch.{is_topic_match}
use easegress.Mqtt.TopicMatch.Decision.{is_topic_match-Matches}
use easegress.Mqtt.CachedTopics.{
  CachedTopicManager, TopicOp, new_manager, subscribe_op, unsubscribe_op, publish_op, disconnect_op,
  kept_qos, levels_or_nil, update, find_subscribers,
}
use easegress.Mqtt.CachedTopics.Entries.{Found, entry}
use easegress.Mqtt.CachedTopics.Sync.{IsSynced, HasEndedLonger}
use easegress.Mqtt.CachedTopics.Answers.{
  Reach, start, after_op, new_manager-IsSynced, update-keeps, answer-Matches, disconnect-forgets,
}
use easegress.Mqtt.CachedTopics.Leftovers.{unsubscribe_stays}
use easegress.Mqtt.CachedTopics.Losses.{unsubscribe_loses, subscribe_misses}

abbrev sport : Level
sport = b's' ∷ []

abbrev tennis : Level
tennis = b't' ∷ []

abbrev sport_tennis : Bytes
sport_tennis = b's' ∷ b'/' ∷ b't' ∷ []

abbrev bob : ClientId
bob = b'b' ∷ []

abbrev both_filters : List (List Level)
both_filters = (plus ∷ tennis ∷ []) ∷ (sport ∷ tennis ∷ []) ∷ []

sport_tennis_levels : levels_or_nil sport_tennis ≡ sport ∷ tennis ∷ []
unfolding levels_or_nil split_topic
sport_tennis_levels = refl

any_tennis : is_filter (plus ∷ tennis ∷ []) ≡ true
unfolding is_filter has has_wild
any_tennis = refl

sport-tennis_filter : is_filter (sport ∷ tennis ∷ []) ≡ true
unfolding is_filter has has_wild
sport-tennis_filter = refl

is_topic_match-Matches_example :
    ((is_topic_match (sport ∷ tennis ∷ []) (plus ∷ tennis ∷ []) ≡ some true)
      × Matches (plus ∷ tennis ∷ []) (sport ∷ tennis ∷ [])
      × (length (plus ∷ tennis ∷ []) ≤ length (sport ∷ tennis ∷ [])))
    ⊎ ((is_topic_match (sport ∷ tennis ∷ []) (plus ∷ tennis ∷ []) ≡ some false)
        × ¬ (
            Matches (plus ∷ tennis ∷ []) (sport ∷ tennis ∷ [])
            × (length (plus ∷ tennis ∷ []) ≤ length (sport ∷ tennis ∷ []))))
is_topic_match-Matches_example =
    is_topic_match-Matches (sport ∷ tennis ∷ []) (plus ∷ tennis ∷ []) any_tennis

update-keeps_example :
    (m' : CachedTopicManager) × (update new_manager (subscribe_op both_filters (1 ∷ 2 ∷ []) bob)
      ≡ some m')
    × IsSynced (subscribe_op both_filters (1 ∷ 2 ∷ []) bob ∷ []) m'
update-keeps_example =
    update-keeps [] new_manager (subscribe_op both_filters (1 ∷ 2 ∷ []) bob) new_manager-IsSynced
      ((any_tennis, (sport-tennis_filter, tt)), omega arith)

-- `bob` subscribes to both filters, and a message is published.
abbrev both_tree : Node
both_tree = node [] (
    child sport (node [] (child tennis (node ((bob, 2) ∷ []) no_nodes) no_nodes))
      (child plus (node [] (child tennis (node ((bob, 1) ∷ []) no_nodes) no_nodes)) no_nodes))

abbrev subscribed : CachedTopicManager
subscribed = record { topic_mgr = both_tree; topic_mapper = []; client_mapper = (bob, []) ∷ [] }

subscribed_runs : update new_manager (subscribe_op both_filters (1 ∷ 2 ∷ []) bob) ≡ some subscribed
unfolding update new_manager Trie.subscribe Trie.put_node Trie.delete_node Trie.find_node put delete
    get lists_same
subscribed_runs = refl

abbrev published : CachedTopicManager
published = record subscribed {
  topic_mapper = (sport_tennis, (bob, 1) ∷ []) ∷ [];
  client_mapper = (bob, (sport_tennis, kept_qos 1) ∷ []) ∷ [];
}

published_runs : update subscribed (publish_op sport_tennis (sport ∷ tennis ∷ [])) ≡ some published
unfolding update Trie.find_subscribers Trie.find_node put delete get lists_same
published_runs = refl

-- What has happened, the latest first.
abbrev past : List TopicOp
past =
    publish_op sport_tennis (sport ∷ tennis ∷ []) ∷ subscribe_op both_filters (1 ∷ 2 ∷ []) bob ∷ []

published-Reach : Reach past published
published-Reach =
    after_op (subscribe_op both_filters (1 ∷ 2 ∷ []) bob ∷ []) subscribed published
      (publish_op sport_tennis (sport ∷ tennis ∷ []))
      (after_op [] new_manager subscribed (subscribe_op both_filters (1 ∷ 2 ∷ []) bob)
        (start new_manager refl) ((any_tennis, (sport-tennis_filter, tt)), omega arith)
        subscribed_runs)
      (sym sport_tennis_levels) published_runs

kept_answer : find_subscribers published sport_tennis ≡ some ((bob, 1) ∷ [], [])
unfolding find_subscribers get lists_same
kept_answer = refl

kept_bob : get {A = ℕ} ((bob, 1) ∷ []) bob ≡ some 1
unfolding get lists_same
kept_bob = refl

answer-Matches_example :
    ((q' : ℕ) × Subscribed published.topic_mgr (levels_or_nil sport_tennis) bob q')
    ⊎ HasEndedLonger past sport_tennis bob
answer-Matches_example =
    answer-Matches past published sport_tennis ((bob, 1) ∷ []) [] bob 1 published-Reach kept_answer
      kept_bob

abbrev disconnected : CachedTopicManager
disconnected = record {
  topic_mgr = new_node;
  topic_mapper = (sport_tennis, []) ∷ [];
  client_mapper = [];
}

disconnected_runs : update published (disconnect_op both_filters bob) ≡ some disconnected
unfolding update Trie.unsubscribe Trie.prune Trie.put_node Trie.delete_node Trie.find_node put
    delete get lists_same
disconnected_runs = refl

disconnect-forgets_example :
    entry disconnected.topic_mapper sport_tennis bob
    ≡ (if same bob bob then none else entry published.topic_mapper sport_tennis bob)
disconnect-forgets_example =
    disconnect-forgets past published disconnected both_filters bob bob sport_tennis published-Reach
      disconnected_runs

-- `bob` ends the subscription to the first filter, and keeps that to the second.
abbrev one_tree : Node
one_tree =
    node [] (child sport (node [] (child tennis (node ((bob, 2) ∷ []) no_nodes) no_nodes)) no_nodes)

abbrev one_left : CachedTopicManager
one_left = record {
  topic_mgr = one_tree;
  topic_mapper = (sport_tennis, []) ∷ [];
  client_mapper = (bob, []) ∷ [];
}

one_left_runs : update published (unsubscribe_op ((plus ∷ tennis ∷ []) ∷ []) bob) ≡ some one_left
unfolding update split_topic is_topic_match Trie.unsubscribe Trie.prune Trie.put_node
    Trie.delete_node Trie.find_node put delete get lists_same
one_left_runs = refl

plus-Matches : Matches (plus ∷ tennis ∷ []) (levels_or_nil sport_tennis)
plus-Matches =
    subst (Matches (plus ∷ tennis ∷ [])) (sym sport_tennis_levels)
      (inr (ground arith, inl refl, inr (ground arith, inr refl, tt)))

sport-Matches : Matches (sport ∷ tennis ∷ []) (levels_or_nil sport_tennis)
sport-Matches =
    subst (Matches (sport ∷ tennis ∷ [])) (sym sport_tennis_levels)
      (inr (ground arith, inr refl, inr (ground arith, inr refl, tt)))

sport_has : qos_of both_tree (sport ∷ tennis ∷ []) bob ≡ some 2
unfolding qos_of Trie.find_node get lists_same
sport_has = refl

filters_differ : (list_key {A = Level}).same (plus ∷ tennis ∷ []) (sport ∷ tennis ∷ []) ≡ false
unfolding lists_same
filters_differ = refl

fits_in : (fs : List Level) → length fs ≤ 2 → length fs ≤ length (levels_or_nil sport_tennis)
fits_in fs h = subst (λ ts. length fs ≤ length ts) (sym sport_tennis_levels) h

published_answer : Found (get published.topic_mapper sport_tennis)
unfolding get lists_same
published_answer = ((bob, 1) ∷ [], refl)

unsubscribe_loses_example :
    ((clients : Clients) × (find_subscribers one_left sport_tennis ≡ some (clients, []))
      × (get clients bob ≡ none))
    × Subscribed one_left.topic_mgr (levels_or_nil sport_tennis) bob 2
unsubscribe_loses_example =
    unsubscribe_loses past published one_left (plus ∷ tennis ∷ []) (sport ∷ tennis ∷ []) bob
      sport_tennis 2 published-Reach published_answer any_tennis filters_differ plus-Matches
      (fits_in (plus ∷ tennis ∷ []) (omega arith)) sport-Matches sport_has one_left_runs

-- A message to `s` without subscribers, and then a subscription to `s/#`.
abbrev nobody_yet : CachedTopicManager
nobody_yet = record { topic_mgr = new_node; topic_mapper = (sport, []) ∷ []; client_mapper = [] }

abbrev hash_tree : Node
hash_tree =
    node [] (child sport (node [] (child hash (node ((bob, 1) ∷ []) no_nodes) no_nodes)) no_nodes)

abbrev missed : CachedTopicManager
missed = record {
  topic_mgr = hash_tree;
  topic_mapper = (sport, []) ∷ [];
  client_mapper = (bob, []) ∷ [];
}

missed_runs : update nobody_yet (subscribe_op ((sport ∷ hash ∷ []) ∷ []) (1 ∷ []) bob) ≡ some missed
unfolding update split_topic is_topic_match Trie.subscribe Trie.put_node Trie.delete_node
    Trie.find_node put delete get lists_same
missed_runs = refl

sport_levels : levels_or_nil sport ≡ sport ∷ []
unfolding levels_or_nil split_topic
sport_levels = refl

below_sport : is_filter (sport ∷ hash ∷ []) ≡ true
unfolding is_filter has has_wild
below_sport = refl

nobody_found : Found (get nobody_yet.topic_mapper sport)
unfolding get lists_same
nobody_found = ([], refl)

nobody_entry : entry nobody_yet.topic_mapper sport bob ≡ none
unfolding entry get lists_same
nobody_entry = refl

subscribe_misses_example :
    ((clients : Clients) × (find_subscribers missed sport ≡ some (clients, []))
      × (get clients bob ≡ none))
    × Subscribed missed.topic_mgr (levels_or_nil sport) bob 1
subscribe_misses_example =
    subscribe_misses nobody_yet missed (sport ∷ hash ∷ []) bob sport 1 nobody_found nobody_entry
      below_sport
      (subst (Matches (sport ∷ hash ∷ [])) (sym sport_levels)
        (inr (ground arith, inr refl, (refl, refl))))
      (subst (λ (ts : List Level). length ts < 2) (sym sport_levels) (omega arith)) missed_runs

-- `bob` has subscribed to `s/#`, and a message to `s` has been published, before `bob` ends the
-- subscription.
abbrev with_answer : CachedTopicManager
with_answer = record {
  topic_mgr = Trie.insert new_node (sport ∷ hash ∷ []) 1 bob;
  topic_mapper = (sport, (bob, 1) ∷ []) ∷ [];
  client_mapper = (bob, (sport, kept_qos 1) ∷ []) ∷ [];
}

abbrev left_over : CachedTopicManager
left_over = record with_answer { topic_mgr = new_node }

left_over_runs : update with_answer (unsubscribe_op ((sport ∷ hash ∷ []) ∷ []) bob) ≡ some left_over
unfolding update split_topic is_topic_match Trie.insert Trie.unsubscribe Trie.prune Trie.put_node
    Trie.delete_node Trie.find_node put delete get lists_same
left_over_runs = refl

with_answer_entry : entry with_answer.topic_mapper sport bob ≡ some 1
unfolding entry get lists_same
with_answer_entry = refl

with_answer_only :
    (g : List Level) (q : ℕ)
    → qos_of with_answer.topic_mgr g bob ≡ some q
    → Matches g (levels_or_nil sport)
    → same_filter (sport ∷ hash ∷ []) g ≡ true
with_answer_only g q has fits = elim (Bool-cases (same_filter (sport ∷ hash ∷ []) g)) [
  | inl one ↦ one
  | inr other ↦ absurd (
      none-ne-some q (
        sym (
          qos_of-insert new_node (sport ∷ hash ∷ []) g 1 bob bob ∙ rw other (qos_of-new_node g bob))
        ∙ has))
]

unsubscribe_stays_example :
    ((clients : Clients) × (find_subscribers left_over sport ≡ some (clients, []))
      × (get clients bob ≡ some 1))
    × ¬ ((q' : ℕ) × Subscribed left_over.topic_mgr (levels_or_nil sport) bob q')
unsubscribe_stays_example =
    unsubscribe_stays with_answer left_over (sport ∷ hash ∷ []) bob sport 1 with_answer_entry
      below_sport (subst (λ (ts : List Level). length ts < 2) (sym sport_levels) (omega arith))
      with_answer_only left_over_runs
