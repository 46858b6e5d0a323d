-- ===== src/Mqtt/CachedTopics/Sync/Unsubscribing.antt =====
-- `processUnsubscribe` and `processDisconnect` keep the maps in step.
use easegress.Prelude.{
  ℕ, dec_lt, ◌≡◌, ◌⊎◌, refl, sym, ap, subst, ◌∙◌, Bool, true, false, ◌&&◌, Option, none, some,
  ◌>>=◌, bind_some, List, [], ◌∷◌, arith, if◌then◌else◌, inl, inr, length, clash, Bool-cases,
  Option-cases,
}
use mathlib.Core.Option.{none-ne-some, some-injective}
use easegress.Prelude.Keys.{Bytes, list_key, nat_key}
use easegress.Prelude.Dict.{get}
use easegress.Mqtt.Trie
use easegress.Mqtt.Trie.{Level, ClientId, Clients, Node, same, same_level_iff}
use easegress.Mqtt.Trie.Subscriptions.{same_filter}
use easegress.Mqtt.Trie.Shape.{IsTrie}
use easegress.Mqtt.Trie.Matching.{Matches}
use easegress.Mqtt.Trie.Requests.{requested, qos_of-unsubscribe, unsubscribe-IsTrie}
use easegress.Mqtt.TopicMatch.Decision.{is_topic_match-Matches}
use easegress.Mqtt.CachedTopics.{
  TopicOp, unsubscribe_op, CachedTopicManager, ClientMap, or_empty, levels_or_nil,
  range_unsubscribed, drop_topics, process_unsubscribe,
}
use easegress.Mqtt.CachedTopics.Entries.{Found, entry, contains}
use easegress.Mqtt.CachedTopics.Hits.{Hit, range_unsubscribed_complete, drop_topics_entries}
use easegress.Mqtt.CachedTopics.Sync.{Holds, Longer, IsSynced, AreFilters}

-- A filter that matches a topic and is asked to go is taken to match it, or is longer than it.
requested-Hit :
    (t : Bytes) (all : List (List Level)) (g : List Level)
    → AreFilters all
    → Matches g (levels_or_nil t)
    → requested all g ≡ true
    → Hit (levels_or_nil t) all ⊎ Longer (levels_or_nil t) all
unfolding requested
requested-Hit t [] g f m r = cc
requested-Hit t (l ∷ all) g f m r = elim (Bool-cases (same_filter l g)) [
  | inl e ↦
      let here = (list_key {A = Level}).same_iff l g in
      let fits = subst (λ x. Matches x (levels_or_nil t)) (sym (here.0 e)) m in
      elim (is_topic_match-Matches (levels_or_nil t) l f.0) [
        | inl (y, _, _) ↦ inl (inl y)
        | inr (_, no_way) ↦ elim (dec_lt (length (levels_or_nil t)) (length l)) [
          | yes longer ↦ inr (inl (fits, longer))
          | no short ↦ absurd (no_way (fits, omega arith))
        ]
      ]
  | inr e ↦ elim (requested-Hit t all g f.1 m (ground arith)) [
    | inl hit ↦ inl (inr hit)
    | inr longer ↦ inr (inr longer)
  ]
]

-- Whoever has a subscription to a filter that is not taken to match keeps it, or has asked for the end
-- of one that is longer.
pub Holds-unsubscribe :
    (root : Node) (all : List (List Level)) (id who : ClientId) (t : Bytes)
    → AreFilters all
    → (same id who ≡ true → ¬ Hit (levels_or_nil t) all)
    → Holds root t who
    → Holds (Trie.unsubscribe root all id) t who
      ⊎ ((same id who ≡ true) × Longer (levels_or_nil t) all)
Holds-unsubscribe root all id who t f clear (q, (g, e, m)) =
    let k = qos_of-unsubscribe root all id who g in
    elim (Bool-cases (same id who)) [
      | inl me ↦ elim (Bool-cases (requested all g)) [
        | inl r ↦ elim (requested-Hit t all g f m r) [
          | inl hit ↦ absurd (clear me hit)
          | inr longer ↦ inr (me, longer)
        ]
        | inr r ↦ inl (q, (g, k ∙ rw (me, r) e, m))
      ]
      | inr other ↦ elim (Bool-cases (requested all g)) [
        | inl r ↦ inl (q, (g, k ∙ rw (other, r) e, m))
        | inr r ↦ inl (q, (g, k ∙ rw (other, r) e, m))
      ]
    ]

-- A client without a map is kept for no topic.
pub unmapped :
    {ops : List TopicOp} (m : CachedTopicManager) (id who : ClientId) (t : Bytes)
    → IsSynced ops m
    → get m.client_mapper id ≡ none
    → same id who ≡ true
    → ¬ Found (entry m.topic_mapper t who)
unfolding entry get
unmapped m id who t h e me found =
    let (k, g) = h.indexed t who found in
    absurd (
      none-ne-some k (
        subst (λ x. none ≡ get (or_empty (get m.client_mapper x)) t) ((same_level_iff id who).0 me)
          (rw e refl)
        ∙ g))

pub process_unsubscribe_parts :
    (m m' : CachedTopicManager) (all : List (List Level)) (id : ClientId)
    → process_unsubscribe m all id ≡ some m'
    → ((get m.client_mapper id ≡ none)
        × (record m { topic_mgr = Trie.unsubscribe m.topic_mgr all id } ≡ m'))
      ⊎ ((value : ClientMap) × (hits : List Bytes) × (get m.client_mapper id ≡ some value)
          × (range_unsubscribed value all ≡ some hits)
          × (drop_topics
                (record m { topic_mgr = Trie.unsubscribe m.topic_mgr all id })
                hits
                id
                value
              ≡ m'))
unfolding process_unsubscribe
process_unsubscribe_parts m m' all id e = elim (Option-cases (get m.client_mapper id)) [
  | inl no_map ↦ inl (no_map, ground arith)
  | inr (value, mapped) ↦
      let e' : (range_unsubscribed value all >>= λ hits.
      some
        (drop_topics (record m { topic_mgr = Trie.unsubscribe m.topic_mgr all id }) hits id value))
          ≡ some m' =
        ground arith in
      let (hits, e1, e2) = bind_some (range_unsubscribed value all) _ m' e' in
      inr (value, hits, mapped, e1, some-injective _ m' e2)
]

pub process_unsubscribe_tree :
    (m m' : CachedTopicManager) (all : List (List Level)) (id : ClientId)
    → process_unsubscribe m all id ≡ some m'
    → m'.topic_mgr ≡ Trie.unsubscribe m.topic_mgr all id
process_unsubscribe_tree m m' all id e = elim (process_unsubscribe_parts m m' all id e) [
  | inl (_, e') ↦ ap (λ (x : CachedTopicManager). x.topic_mgr) (sym e')
  | inr (value, hits, _, _, e') ↦
      let m1 = record m { topic_mgr = Trie.unsubscribe m.topic_mgr all id } in
      ap (λ (x : CachedTopicManager). x.topic_mgr) (sym e')
      ∙ (drop_topics_entries m1 hits id value id id).2
]

both_gone :
    (b c : Bool) (o : Option ℕ) (q : ℕ)
    → b ≡ true
    → c ≡ true
    → (if b && c then none else o) ≡ some q
    → none ≡ some q
both_gone b c o q y z e = ground arith

first_kept :
    (b c : Bool) (o : Option ℕ) (q : ℕ)
    → b ≡ false
    → (if b && c then none else o) ≡ some q
    → o ≡ some q
first_kept b c o q n e = ground arith

other_client :
    (b c : Bool) (o : Option ℕ) (q : ℕ)
    → c ≡ false
    → (if b && c then none else o) ≡ some q
    → o ≡ some q
other_client b c o q n e = ground arith

dropped_entries :
    {ops : List TopicOp} (m m1 m' : CachedTopicManager) (all : List (List Level)) (id : ClientId)
    (t : Bytes) (who : ClientId) (value : ClientMap) (hits : List Bytes)
    → IsSynced ops m
    → m.topic_mapper ≡ m1.topic_mapper
    → m.client_mapper ≡ m1.client_mapper
    → get m.client_mapper id ≡ some value
    → range_unsubscribed value all ≡ some hits
    → drop_topics m1 hits id value ≡ m'
    → Found (entry m'.topic_mapper t who)
    → Found (entry m.topic_mapper t who)
      × Found (entry m'.client_mapper who t)
      × (same id who ≡ true → ¬ Hit (levels_or_nil t) all)
unfolding entry
dropped_entries m m1 m' all id t who value hits h same_t same_c mapped ranged e' (q, found) =
    let (a, b, _) = drop_topics_entries m1 hits id value t who in
    let a' : (if contains hits t && same id who then none else entry m.topic_mapper t who)
        ≡ some q =
      rw same_t (sym a ∙ ap (λ (x : CachedTopicManager). entry x.topic_mapper t who) e' ∙ found) in
    let b' : entry m'.client_mapper who t ≡ (
        if same id who
        then (if contains hits t then none else get value t)
        else entry m.client_mapper who t) =
      ap (λ (x : CachedTopicManager). entry x.client_mapper who t) (sym e') ∙ rw same_c b in
    elim (Bool-cases (same id who)) [
      | inl me ↦ elim (Bool-cases (contains hits t)) [
        | inl gone ↦ absurd (
            none-ne-some q
              (both_gone (contains hits t) (same id who) (entry m.topic_mapper t who) q gone me a'))
        | inr left ↦
            let was : entry m.topic_mapper t who ≡ some q =
              first_kept (contains hits t) (same id who) (entry m.topic_mapper t who) q left a' in
            let (k, g) = h.indexed t who (q, was) in
            let gv : get value t ≡ some k =
              ap (λ (x : Option ClientMap). get (or_empty x) t) (sym mapped)
              ∙ subst (λ x. entry m.client_mapper x t ≡ some k) (sym ((same_level_iff id who).0 me))
                  g in
            (
              (q, was),
              (k, b' ∙ rw (me, left) gv),
              λ _ hit. clash (range_unsubscribed_complete value all hits t ranged (k, gv) hit) left,
            )
      ]
      | inr other ↦
          let was : entry m.topic_mapper t who ≡ some q =
            other_client (contains hits t) (same id who) (entry m.topic_mapper t who) q other a' in
          let (k, g) = h.indexed t who (q, was) in
          ((q, was), (k, b' ∙ rw other g), λ me _. clash me other)
    ]

-- In terms of the entries: what is left of them was there, and concerns another client or no
-- filter of the request.
pub process_unsubscribe_entries :
    {ops : List TopicOp} (m m' : CachedTopicManager) (all : List (List Level)) (id : ClientId)
    (t : Bytes) (who : ClientId)
    → IsSynced ops m
    → process_unsubscribe m all id ≡ some m'
    → Found (entry m'.topic_mapper t who)
    → Found (entry m.topic_mapper t who)
      × Found (entry m'.client_mapper who t)
      × (same id who ≡ true → ¬ Hit (levels_or_nil t) all)
unfolding entry
process_unsubscribe_entries m m' all id t who h e found =
    elim (process_unsubscribe_parts m m' all id e) [
      | inl (no_map, e') ↦
          let was : Found (entry m.topic_mapper t who) =
            subst (λ (x : CachedTopicManager). Found (entry x.topic_mapper t who)) (sym e') found in
          (
            was,
            subst (λ (x : CachedTopicManager). Found (entry x.client_mapper who t)) e'
                (h.indexed t who was),
            λ me. absurd (unmapped m id who t h no_map me was),
          )
      | inr (value, hits, mapped, ranged, e') ↦
          dropped_entries m (record m { topic_mgr = Trie.unsubscribe m.topic_mgr all id }) m' all id
            t who value hits h refl refl mapped ranged e' found
    ]

pub process_unsubscribe-IsSynced :
    {ops : List TopicOp} (m m' : CachedTopicManager) (all : List (List Level)) (id : ClientId)
    → IsSynced ops m
    → AreFilters all
    → process_unsubscribe m all id ≡ some m'
    → IsSynced (unsubscribe_op all id ∷ ops) m'
process_unsubscribe-IsSynced m m' all id h f e =
    let kept : m'.topic_mgr ≡ Trie.unsubscribe m.topic_mgr all id =
      process_unsubscribe_tree m m' all id e in
    record {
      trie = subst IsTrie (sym kept) (unsubscribe-IsTrie m.topic_mgr all id h.trie);
      indexed = λ t who found. (process_unsubscribe_entries m m' all id t who h e found).1;
      sound = λ t who found.
          let (was, _, clear) = process_unsubscribe_entries m m' all id t who h e found in
          elim (h.sound t who was) [
            | inr ended ↦ inr (inr ended)
            | inl holds ↦ elim (Holds-unsubscribe m.topic_mgr all id who t f clear holds) [
              | inl still ↦ inl (subst (λ root. Holds root t who) (sym kept) still)
              | inr longer ↦ inr (inl longer)
            ]
          ];
    }
