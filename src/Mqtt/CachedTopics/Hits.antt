-- ===== src/Mqtt/CachedTopics/Hits.antt =====
-- Which topics the loops of `processSubscribe` and `processUnsubscribe` take a request to concern,
-- and what they change for these.
use easegress.Prelude.{
  ℕ, ◌≡◌, ◌⊎◌, refl, sym, ap, subst, ◌∙◌, true, ◌&&◌, none, some, bind_some, List, [], ◌∷◌, ◌++◌,
  arith, if◌then◌else◌, inl, inr, Bool-cases,
}
use easegress.Prelude.Keys.{Bytes, list_key, nat_key, same_refl}
use easegress.Prelude.Dict.{get, put, delete, get-put, get-delete}
use easegress.Mqtt.Trie.{Level, ClientId, Clients, same, same_level_iff}
use easegress.Mqtt.TopicMatch.{is_topic_match}
use easegress.Mqtt.CachedTopics.{
  CachedTopicManager, TopicMapper, ClientMap, levels_or_nil, match_subscribed, range_subscribed,
  match_unsubscribed, range_unsubscribed, drop_topics, delete_client,
}
use easegress.Mqtt.CachedTopics.Entries.{
  Found, entry, contains, contains-append, entry-put, entry-delete_client,
}

-- One of the filters of a request is taken to match the levels of a topic.
abbrev pub Hit : List Level → List (List Level) → Type 0
Hit ts [] = ⊥
Hit ts (levels ∷ all) = (is_topic_match ts levels ≡ some true) ⊎ Hit ts all

abbrev New : Bytes → List (List Level) → ClientId → ClientId → List Bytes → Type 0
New topic all id who hits =
    (same id who ≡ true) × (contains hits topic ≡ true) × Hit (levels_or_nil topic) all

-- What a round of the inner loop of `processSubscribe` leaves for the next: all as it was, or the
-- client stored and the topic noted.
round_subscribed :
    (topic : Bytes) (l : List Level) (all : List (List Level)) (qoss : List ℕ) (id : ClientId)
    (v : Clients) (hs : List Bytes) (r : Clients × List Bytes)
    → match_subscribed topic (l ∷ all) qoss id (v, hs) ≡ some r
    → (qoss' : List ℕ) × (v' : Clients) × (hs' : List Bytes) × (match_subscribed topic all qoss' id
          (v', hs')
        ≡ some r)
      × (((v ≡ v') × (hs ≡ hs'))
          ⊎ ((q : ℕ) × (put v id q ≡ v')
              × (hs ++ topic ∷ [] ≡ hs')
              × (is_topic_match (levels_or_nil topic) l ≡ some true)))
unfolding match_subscribed
round_subscribed topic l all [] id v hs r h =
    let (hit, e, h') = bind_some (is_topic_match (levels_or_nil topic) l) _ r h in
    elim (Bool-cases hit) [
      | inl y ↦ ground arith
      | inr n ↦ ([], v, hs, ground arith, inl (refl, refl))
    ]
round_subscribed topic l all (q ∷ qoss) id v hs r h =
    let (hit, e, h') = bind_some (is_topic_match (levels_or_nil topic) l) _ r h in
    elim (Bool-cases hit) [
      | inl y ↦
          (qoss, put v id q, hs ++ topic ∷ [], ground arith, inr (q, refl, refl, e ∙ ap some y))
      | inr n ↦ (qoss, v, hs, ground arith, inl (refl, refl))
    ]

match_subscribed_sound :
    (topic : Bytes) (all : List (List Level)) (qoss : List ℕ) (id : ClientId) (v v' : Clients)
    (hs hs' : List Bytes)
    → match_subscribed topic all qoss id (v, hs) ≡ some (v', hs')
    → ((t : Bytes) → contains hs t ≡ true → contains hs' t ≡ true)
      × ((who : ClientId) → Found (get v' who) → Found (get v who) ⊎ New topic all id who hs')
unfolding match_subscribed contains
match_subscribed_sound topic [] qoss id v v' hs hs' h =
    (λ t c. ground arith, λ who (q, f). inl (q, ground arith))
match_subscribed_sound topic (l ∷ all) qoss id v v' hs hs' h =
    let (qoss', v1, hs1, h', kind) = round_subscribed topic l all qoss id v hs (v', hs') h in
    let (keeps, news) = match_subscribed_sound topic all qoss' id v1 v' hs1 hs' h' in
    elim kind [
      | inl (same_v, same_hs) ↦ (
        λ t c. keeps t (rw (← same_hs) c),
        λ who f. elim (news who f) [
          | inl (q, old) ↦ inl (q, ap (λ (d : Clients). get d who) same_v ∙ old)
          | inr (me, noted, hit) ↦ inr (me, noted, inr hit)
        ],
      )
      | inr (q, stored, noted, fits) ↦
          let here : contains hs1 topic ≡ true =
            rw (← noted)
              (contains-append hs (topic ∷ []) topic ∙ ground (arith, same_refl topic)) in
          (
            λ t c. keeps t (rw (← noted) (contains-append hs (topic ∷ []) t ∙ rw c refl)),
            λ who f. elim (news who f) [
              | inl (q', found) ↦ elim (Bool-cases (same id who)) [
                | inl me ↦ inr (me, keeps topic here, inl fits)
                | inr other ↦
                    inl (
                      q',
                      ground (arith, get-put v id who q, ap (λ (d : Clients). get d who) stored),
                    )
              ]
              | inr (me, noted', hit) ↦ inr (me, noted', inr hit)
            ],
          )
    ]

pub range_subscribed-cons :
    (topic : Bytes) (value : Clients) (d d' : TopicMapper) (all : List (List Level)) (qoss : List ℕ)
    (id : ClientId) (hits : List Bytes)
    → range_subscribed ((topic, value) ∷ d) all qoss id ≡ some (d', hits)
    → (v' : Clients) × (hs : List Bytes) × (d1 : TopicMapper) × (hs1 : List Bytes)
      × (match_subscribed topic all qoss id (value, []) ≡ some (v', hs))
      × (range_subscribed d all qoss id ≡ some (d1, hs1))
      × ((topic, v') ∷ d1 ≡ d')
      × (hs ++ hs1 ≡ hits)
unfolding range_subscribed
range_subscribed-cons topic value d d' all qoss id hits h =
    let (r, e, h') = bind_some (match_subscribed topic all qoss id (value, [])) _ (d', hits) h in
    let (r', e', h'') = bind_some (range_subscribed d all qoss id) _ (d', hits) h' in
    (r.0, r.1, r'.0, r'.1, e, e', ground arith, ground arith)

-- Each client in the map of a topic after the loops was there before, or is the one of the
-- request, for a topic that is noted and that a filter of the request is taken to match.
pub range_subscribed_sound :
    (d d' : TopicMapper) (all : List (List Level)) (qoss : List ℕ) (id : ClientId)
    (hits : List Bytes) (t : Bytes) (who : ClientId)
    → range_subscribed d all qoss id ≡ some (d', hits)
    → Found (entry d' t who)
    → Found (entry d t who) ⊎ New t all id who hits
unfolding range_subscribed entry get
range_subscribed_sound [] d' all qoss id hits t who h (q, f) = ground arith
range_subscribed_sound ((topic, value) ∷ d) d' all qoss id hits t who h (q, f) =
    let (v', hs, d1, hs1, e, e', same_d, same_hits) =
      range_subscribed-cons topic value d d' all qoss id hits h in
    let f' : entry ((topic, v') ∷ d1) t who ≡ some q =
      ap (λ (x : TopicMapper). entry x t who) same_d ∙ f in
    elim (Bool-cases (same topic t)) [
      | inl s ↦
          elim ((match_subscribed_sound topic all qoss id value v' [] hs e).1 who
            (q, ground arith)) [
              | inl (q', old) ↦ inl (q', rw (s, entry) old)
              | inr (me, noted, hit) ↦
                  let here = (same_level_iff topic t).0 s in
                  inr (
                    me,
                    rw (← same_hits) (ground (arith, contains-append hs hs1 t)),
                    subst (λ k. Hit (levels_or_nil k) all) here hit,
                  )
            ]
      | inr s ↦ elim (range_subscribed_sound d d1 all qoss id hs1 t who e' (q, ground arith)) [
        | inl (q', old) ↦ inl (q', rw (s, entry) old)
        | inr (me, noted, hit) ↦
            inr (me, rw (← same_hits) (ground (arith, contains-append hs hs1 t)), hit)
      ]
    ]

-- The topics of a client that a filter of the request is taken to match are all found.
match_unsubscribed_complete :
    (topic : Bytes) (all : List (List Level)) (hits : List Bytes)
    → match_unsubscribed topic all ≡ some hits
    → Hit (levels_or_nil topic) all
    → contains hits topic ≡ true
unfolding match_unsubscribed contains
match_unsubscribed_complete topic [] hits h hit = absurd hit
match_unsubscribed_complete topic (l ∷ all) hits h hit =
    let (b, e, h') = bind_some (is_topic_match (levels_or_nil topic) l) _ hits h in
    let (hs, e', h'') = bind_some (match_unsubscribed topic all) _ hits h' in
    elim hit [
      | inl fits ↦ ground (arith, same_refl topic)
      | inr later ↦
          let c : contains hs topic ≡ true = match_unsubscribed_complete topic all hs e' later in
          ground arith
    ]

pub range_unsubscribed_complete :
    (d : ClientMap) (all : List (List Level)) (hits : List Bytes) (t : Bytes)
    → range_unsubscribed d all ≡ some hits
    → Found (get d t)
    → Hit (levels_or_nil t) all
    → contains hits t ≡ true
unfolding range_unsubscribed get
range_unsubscribed_complete [] all hits t h (k, f) hit = cc
range_unsubscribed_complete ((topic, k') ∷ d) all hits t h (k, f) hit =
    let (hs, e, h') = bind_some (match_unsubscribed topic all) _ hits h in
    let (hs', e', h'') = bind_some (range_unsubscribed d all) _ hits h' in
    elim (Bool-cases (same topic t)) [
      | inl s ↦
          let here = (same_level_iff topic t).0 s in
          let c : contains hs topic ≡ true =
            match_unsubscribed_complete topic all hs e
              (subst (λ x. Hit (levels_or_nil x) all) (sym here) hit) in
          ground (arith, contains-append hs hs' t)
      | inr s ↦
          let c : contains hs' t ≡ true =
            range_unsubscribed_complete d all hs' t e' (k, ground arith) hit in
          ground (arith, contains-append hs hs' t)
    ]

-- A topic that is noted goes with its client, from the map of the topic and from that of the
-- client.
pub drop_topics_entries :
    (m : CachedTopicManager) (ts : List Bytes) (id : ClientId) (value : ClientMap) (t : Bytes)
    (who : ClientId)
    → (entry (drop_topics m ts id value).topic_mapper t who
        ≡ (if contains ts t && same id who then none else entry m.topic_mapper t who))
      × (entry (drop_topics m ts id value).client_mapper who t ≡ (
          if same id who
          then (if contains ts t then none else get value t)
          else entry m.client_mapper who t))
      × ((drop_topics m ts id value).topic_mgr ≡ m.topic_mgr)
unfolding drop_topics contains
drop_topics_entries m [] id value t who = (refl, entry-put m.client_mapper id who t value, refl)
drop_topics_entries m (topic ∷ ts) id value t who =
    let (a, b, c) =
      drop_topics_entries (record m { topic_mapper = delete_client m.topic_mapper topic id }) ts id
        (delete value topic) t who in
    (
      ground (arith, entry-delete_client m.topic_mapper topic t id who),
      ground (arith, get-delete value topic t),
      c,
    )
