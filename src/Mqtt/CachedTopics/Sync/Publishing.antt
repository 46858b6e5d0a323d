-- ===== src/Mqtt/CachedTopics/Sync/Publishing.antt =====
-- `processPublish` and `processDisconnect` keep the maps in step.
use easegress.Prelude.{
  ◌≡◌, ◌⊎◌, refl, sym, ap, subst, ◌∙◌, true, false, ◌&&◌, Option, none, some, List, ◌∷◌, arith,
  if◌then◌else◌, inl, inr, clash, Bool-cases, Option-cases,
}
use mathlib.Core.Option.{none-ne-some}
use easegress.Prelude.Keys.{Bytes, list_key, nat_key}
use easegress.Prelude.Dict.{get}
use easegress.Mqtt.Trie
use easegress.Mqtt.Trie.{Level, ClientId, Clients, Node, same, same_level_iff}
use easegress.Mqtt.Trie.Shape.{IsTrie}
use easegress.Mqtt.Trie.Search.{find_subscribers-Matches}
use easegress.Mqtt.Trie.Requests.{unsubscribe-IsTrie}
use easegress.Mqtt.CachedTopics.{
  TopicOp, publish_op, disconnect_op, CachedTopicManager, ClientMap, or_empty, levels_or_nil,
  publish_all, process_publish, process_disconnect,
}
use easegress.Mqtt.CachedTopics.Entries.{
  Found, entry, contains, entry-put, entry-delete, topics_of, get-topics_of,
  entry-delete_everywhere, publish_all_clients, publish_all_index,
}
use easegress.Mqtt.CachedTopics.Sync.Unsubscribing.{unmapped, Holds-unsubscribe}
use easegress.Mqtt.CachedTopics.Sync.{Holds, IsSynced, AreFilters}

-- Whoever is kept for a topic after a publication was before, or has been found for it.
published :
    (m : CachedTopicManager) (topic t : Bytes) (who : ClientId)
    → Found (entry (process_publish m topic (levels_or_nil topic)).topic_mapper t who)
    → Found (entry m.topic_mapper t who)
      ⊎ ((same topic t ≡ true)
          × Found (get (Trie.find_subscribers m.topic_mgr (levels_or_nil topic)) who))
unfolding process_publish entry
published m topic t who (q, f) =
    let cs = Trie.find_subscribers m.topic_mgr (levels_or_nil topic) in
    let tm = or_empty (get m.topic_mapper topic) in
    let law = entry-put m.topic_mapper topic t who (publish_all topic cs tm m.client_mapper).0 in
    elim (Bool-cases (same topic t)) [
      | inl here ↦
          elim (publish_all_clients topic cs tm m.client_mapper who
            (q, sym (law ∙ rw here refl) ∙ f)) [
              | inl (q', old) ↦ inl (
                q',
                subst (λ x. entry m.topic_mapper x who ≡ some q') ((same_level_iff topic t).0 here)
                    old,
              )
              | inr found ↦ inr (here, found)
            ]
      | inr other ↦ inl (q, sym (law ∙ rw other refl) ∙ f)
    ]

pub process_publish-IsSynced :
    {ops : List TopicOp} (m : CachedTopicManager) (topic : Bytes)
    → IsSynced ops m
    → IsSynced
        (publish_op topic (levels_or_nil topic) ∷ ops)
        (process_publish m topic (levels_or_nil topic))
unfolding process_publish
process_publish-IsSynced m topic h =
    let cs = Trie.find_subscribers m.topic_mgr (levels_or_nil topic) in
    let tm = or_empty (get m.topic_mapper topic) in
    record {
      trie = h.trie;
      indexed = λ t who f.
          publish_all_index topic cs tm m.client_mapper who t (elim (published m topic t who f) [
            | inl old ↦ inl (h.indexed t who old)
            | inr (here, found) ↦ inr ((same_level_iff topic t).0 here, found)
          ]);
      sound = λ t who f. elim (published m topic t who f) [
        | inl old ↦ h.sound t who old
        | inr (here, (q, found)) ↦
            elim (find_subscribers-Matches m.topic_mgr (levels_or_nil topic) who h.trie) [
              | inl (missing, _) ↦ absurd (none-ne-some q (sym missing ∙ found))
              | inr (q', _, s) ↦
                  inl
                    (subst (λ x. Holds m.topic_mgr x who) ((same_level_iff topic t).0 here) (q', s))
            ]
      ];
    }

-- The topics in the map of a client are all for which it is kept.
forgotten :
    {ops : List TopicOp} (m : CachedTopicManager) (id who : ClientId) (t : Bytes)
    (value : ClientMap)
    → IsSynced ops m
    → get m.client_mapper id ≡ some value
    → (if contains (topics_of value) t && same id who then none else entry m.topic_mapper t who)
      ≡ (if same id who then none else entry m.topic_mapper t who)
unfolding entry
forgotten m id who t value h mapped = elim (Bool-cases (same id who)) [
  | inl me ↦ elim (Option-cases (entry m.topic_mapper t who)) [
    | inl gone ↦ ground arith
    | inr (q, was) ↦
        let (k, g) = h.indexed t who (q, was) in
        let gv : get value t ≡ some k =
          ap (λ (x : Option ClientMap). get (or_empty x) t) (sym mapped)
          ∙ subst (λ x. entry m.client_mapper x t ≡ some k) (sym ((same_level_iff id who).0 me))
              g in
        let c : contains (topics_of value) t ≡ true = get-topics_of value t (k, gv) in
        rw (c, me) refl
  ]
  | inr other ↦ ground arith
]

-- After a disconnection the client is kept for no topic, and all others are as before.
pub process_disconnect_entries :
    {ops : List TopicOp} (m : CachedTopicManager) (all : List (List Level)) (id : ClientId)
    (t : Bytes) (who : ClientId)
    → IsSynced ops m
    → entry (process_disconnect m all id).topic_mapper t who
      ≡ (if same id who then none else entry m.topic_mapper t who)
unfolding process_disconnect
process_disconnect_entries m all id t who h = elim (Option-cases (get m.client_mapper id)) [
  | inl no_map ↦
      rw (no_map, process_disconnect)
        (elim (Bool-cases (same id who)) [
          | inl me ↦ elim (Option-cases (entry m.topic_mapper t who)) [
            | inl gone ↦ gone ∙ rw me refl
            | inr found ↦ absurd (unmapped m id who t h no_map me found)
          ]
          | inr other ↦ rw other refl
        ])
  | inr (value, mapped) ↦
      rw (mapped, process_disconnect)
        (entry-delete_everywhere m.topic_mapper value t id who
          ∙ forgotten m id who t value h mapped)
]

process_disconnect_others :
    (m : CachedTopicManager) (all : List (List Level)) (id : ClientId) (t : Bytes) (who : ClientId)
    → same id who ≡ false
    → (entry (process_disconnect m all id).client_mapper who t ≡ entry m.client_mapper who t)
unfolding process_disconnect
process_disconnect_others m all id t who other = elim (Option-cases (get m.client_mapper id)) [
  | inl no_map ↦ rw (no_map, process_disconnect) refl
  | inr (value, mapped) ↦
      rw (mapped, process_disconnect) (entry-delete m.client_mapper id who t ∙ rw other refl)
]

pub process_disconnect_tree :
    (m : CachedTopicManager) (all : List (List Level)) (id : ClientId)
    → (process_disconnect m all id).topic_mgr ≡ Trie.unsubscribe m.topic_mgr all id
unfolding process_disconnect
process_disconnect_tree m all id = elim (Option-cases (get m.client_mapper id)) [
  | inl no_map ↦ rw (no_map, process_disconnect) refl
  | inr (value, mapped) ↦ rw (mapped, process_disconnect) refl
]

-- What is kept after a disconnection was kept before, for another client.
process_disconnect_kept :
    {ops : List TopicOp} (m : CachedTopicManager) (all : List (List Level)) (id : ClientId)
    (t : Bytes) (who : ClientId)
    → IsSynced ops m
    → Found (entry (process_disconnect m all id).topic_mapper t who)
    → (same id who ≡ false) × Found (entry m.topic_mapper t who)
process_disconnect_kept m all id t who h (q, f) =
    let e = sym (process_disconnect_entries m all id t who h) ∙ f in
    elim (Bool-cases (same id who)) [
      | inl me ↦ absurd (none-ne-some q (sym (rw me refl) ∙ e))
      | inr other ↦ (other, (q, sym (rw other refl) ∙ e))
    ]

pub process_disconnect-IsSynced :
    {ops : List TopicOp} (m : CachedTopicManager) (all : List (List Level)) (id : ClientId)
    → IsSynced ops m
    → AreFilters all
    → IsSynced (disconnect_op all id ∷ ops) (process_disconnect m all id)
process_disconnect-IsSynced m all id h f = record {
  trie =
      subst IsTrie (sym (process_disconnect_tree m all id))
        (unsubscribe-IsTrie m.topic_mgr all id h.trie);
  indexed = λ t who found.
      let (other, was) = process_disconnect_kept m all id t who h found in
      let (k, g) = h.indexed t who was in (k, process_disconnect_others m all id t who other ∙ g);
  sound = λ t who found.
      let (other, was) = process_disconnect_kept m all id t who h found in
      elim (h.sound t who was) [
        | inr ended ↦ inr (other, ended)
        | inl holds ↦
            elim (Holds-unsubscribe m.topic_mgr all id who t f (λ me _. clash me other) holds) [
              | inl still ↦
                  inl (
                    subst (λ root. Holds root t who) (sym (process_disconnect_tree m all id)) still)
              | inr (me, _) ↦ clash me other
            ]
      ];
}
