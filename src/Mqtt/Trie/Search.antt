-- ===== src/Mqtt/Trie/Search.antt =====
-- `findSubscribers` against the description of the filters that match a topic.
use easegress.Prelude.{
  ℕ, ◌≡◌, ◌⊎◌, refl, sym, ◌∙◌, ap, none, some, List, [], ◌∷◌, arith, inl, inr, Option-cases, All,
}
use mathlib.Core.Option.{none-ne-some}
use easegress.Prelude.Keys.{list_key, nat_key}
use easegress.Prelude.Dict.{get}
use easegress.Mqtt.Trie.{
  Level, ClientId, Clients, Node, node, hash, clients_of, find_node, add_clients, visit_level,
  add_end, add_ends, search_levels, find_subscribers,
}
use easegress.Mqtt.Trie.Subscriptions.{qos_of}
use easegress.Mqtt.Trie.Shape.{IsTrie}
use easegress.Mqtt.Trie.Matching.{Subscribed, Among, added_sound, added_complete}
use easegress.Mqtt.Trie.Visit.{Held}
use easegress.Mqtt.Trie.Rounds.{visit_level_sound, visit_level_complete, visit_level-All}

-- The end of the levels.
add_end_sound :
    (n : Node) (out : Clients) (id : ClientId) (q : ℕ)
    → get (add_end n out) id ≡ some q
    → (get out id ≡ some q) ⊎ Subscribed n [] id q
unfolding add_end qos_of
add_end_sound (node cs ns) out id q h = elim (Option-cases (find_node ns hash)) [
  | inl e ↦ elim (added_sound (node cs ns) out id q (ground arith)) [
    | inl old ↦ inl old
    | inr own ↦ inr ([], own, tt)
  ]
  | inr (val, e) ↦ elim (added_sound val (add_clients cs out) id q (ground arith)) [
    | inl old ↦ elim (added_sound (node cs ns) out id q old) [
      | inl older ↦ inl older
      | inr own ↦ inr ([], own, tt)
    ]
    | inr own ↦ inr (hash ∷ [], rw (e, qos_of) own, (refl, refl))
  ]
]

add_end_complete :
    (n : Node) (out : Clients) (id : ClientId) (q : ℕ)
    → (get out id ≡ some q) ⊎ Subscribed n [] id q
    → (q' : ℕ) × (get (add_end n out) id ≡ some q')
unfolding add_end qos_of
add_end_complete (node cs ns) out id q h = elim (Option-cases (find_node ns hash)) [
  | inl e ↦ let (q', own) = added_complete (node cs ns) out id q (at_end e h) in (q', ground arith)
  | inr (val, e) ↦ let (q', all) = under_hash val e h in (q', ground arith)
]
  where
    at_end :
        find_node ns hash ≡ none
        → (get out id ≡ some q) ⊎ Subscribed (node cs ns) [] id q
        → (get out id ≡ some q) ⊎ (qos_of (node cs ns) [] id ≡ some q)
    at_end e (inl old) = inl old
    at_end e (inr ([], own, _)) = inr own
    at_end e (inr (f ∷ fs, own, m)) = ground arith

    under_hash :
        (val : Node)
        → find_node ns hash ≡ some val
        → (get out id ≡ some q) ⊎ Subscribed (node cs ns) [] id q
        → (q' : ℕ) × (get (add_clients (clients_of val) (add_clients cs out)) id ≡ some q')
    under_hash val e (inl old) =
        let (q', k) = added_complete (node cs ns) out id q (inl old) in
        added_complete val (add_clients cs out) id q' (inl k)
    under_hash val e (inr ([], own, _)) =
        let (q', k) = added_complete (node cs ns) out id q (inr own) in
        added_complete val (add_clients cs out) id q' (inl k)
    under_hash val e (inr (f ∷ fs, own, m)) =
        added_complete val (add_clients cs out) id q (inr (ground arith))

add_ends_sound :
    (current : List Node) (out : Clients) (id : ClientId) (q : ℕ)
    → get (add_ends current out) id ≡ some q
    → (get out id ≡ some q) ⊎ Among current [] id q
unfolding add_ends
add_ends_sound [] out id q h = inl h
add_ends_sound (n ∷ current) out id q h = elim (add_ends_sound current (add_end n out) id q h) [
  | inl before ↦ elim (add_end_sound n out id q before) [
    | inl old ↦ inl old
    | inr own ↦ inr (inl own)
  ]
  | inr among ↦ inr (inr among)
]

add_ends_complete :
    (current : List Node) (out : Clients) (id : ClientId) (q : ℕ)
    → (get out id ≡ some q) ⊎ Among current [] id q
    → (q' : ℕ) × (get (add_ends current out) id ≡ some q')
unfolding add_ends
add_ends_complete [] out id q (inl old) = (q, old)
add_ends_complete [] out id q (inr none_left) = absurd none_left
add_ends_complete (n ∷ current) out id q (inl old) =
    let (q', k) = add_end_complete n out id q (inl old) in
    add_ends_complete current (add_end n out) id q' (inl k)
add_ends_complete (n ∷ current) out id q (inr (inl own)) =
    let (q', k) = add_end_complete n out id q (inr own) in
    add_ends_complete current (add_end n out) id q' (inl k)
add_ends_complete (n ∷ current) out id q (inr (inr among)) =
    add_ends_complete current (add_end n out) id q (inr among)

-- A search that has reached no node ends, as it would if it went on.
search_levels_ended : (ls : List Level) (out : Clients) → search_levels ls [] out ≡ out
unfolding search_levels add_ends visit_level
search_levels_ended [] out = refl
search_levels_ended (l ∷ ls) out = refl

resume :
    (ls : List Level) (next : List Node) (out : Clients)
    → (elim next [ [] ↦ out | n ∷ more ↦ search_levels ls (n ∷ more) out ])
      ≡ search_levels ls next out
resume ls [] out = sym (search_levels_ended ls out)
resume ls (n ∷ more) out = refl

search_levels_round :
    (l : Level) (ls : List Level) (current : List Node) (out : Clients)
    → search_levels (l ∷ ls) current out
      ≡ search_levels ls (visit_level l current ([], out)).0 (visit_level l current ([], out)).1
unfolding search_levels
search_levels_round l ls current out =
    resume ls (visit_level l current ([], out)).0 (visit_level l current ([], out)).1

search_levels_sound :
    (ls : List Level) (current : List Node) (out : Clients) (id : ClientId) (q : ℕ)
    → All IsTrie current
    → get (search_levels ls current out) id ≡ some q
    → (get out id ≡ some q) ⊎ Among current ls id q
unfolding search_levels
search_levels_sound [] current out id q h e = add_ends_sound current out id q e
search_levels_sound (l ∷ ls) current out id q h e =
    let s = visit_level l current ([], out) in
    let e' = ap (λ (o : Clients). get o id) (sym (search_levels_round l ls current out)) ∙ e in
    let k = visit_level-All l current ([], out) h tt in
    elim (visit_level_sound l current ([], out) ls id q h
      (search_levels_sound ls s.0 s.1 id q k e')) [
        | inl (inl old) ↦ inl old
        | inl (inr none_left) ↦ absurd none_left
        | inr among ↦ inr among
      ]

search_levels_complete :
    (ls : List Level) (current : List Node) (out : Clients) (id : ClientId) (q : ℕ)
    → (get out id ≡ some q) ⊎ Among current ls id q
    → (q' : ℕ) × (get (search_levels ls current out) id ≡ some q')
unfolding search_levels
search_levels_complete [] current out id q h = add_ends_complete current out id q h
search_levels_complete (l ∷ ls) current out id q h =
    let s = visit_level l current ([], out) in
    let (q', held) = visit_level_complete l current ([], out) ls id q (start h) in
    let (q'', e) = search_levels_complete ls s.0 s.1 id q' held in
    (q'', ap (λ (o : Clients). get o id) (search_levels_round l ls current out) ∙ e)
  where
    start :
        (get out id ≡ some q) ⊎ Among current (l ∷ ls) id q
        → Held ([], out) ls id q ⊎ Among current (l ∷ ls) id q
    start (inl old) = inl (inl old)
    start (inr among) = inr among

-- A client is found for a topic exactly when it is subscribed to a filter that matches the topic,
-- and the quality of service found is that of one such filter.
pub find_subscribers-Matches :
    (root : Node) (levels : List Level) (id : ClientId)
    → IsTrie root
    → ((get (find_subscribers root levels) id ≡ none) × ¬ ((q : ℕ) × Subscribed root levels id q))
      ⊎ ((q : ℕ) × (get (find_subscribers root levels) id ≡ some q) × Subscribed root levels id q)
unfolding find_subscribers get
find_subscribers-Matches root levels id h =
    elim (Option-cases (get (find_subscribers root levels) id)) [
      | inl e ↦ inl (
        e,
        λ (q, s).
            let (q', e') = search_levels_complete levels (root ∷ []) [] id q (inr (inl s)) in
            absurd (none-ne-some q' (sym e ∙ e')),
      )
      | inr (q, e) ↦ elim (search_levels_sound levels (root ∷ []) [] id q (h, tt) e) [
        | inl old ↦ absurd (none-ne-some q old)
        | inr (inl s) ↦ inr (q, e, s)
        | inr (inr none_left) ↦ absurd none_left
      ]
    ]
