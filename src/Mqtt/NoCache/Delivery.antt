-- ===== src/Mqtt/NoCache/Delivery.antt =====
-- Who gets a message after any sequence of requests to the topic manager without a cache.
use easegress.Prelude.{
  ℕ, ◌≤◌, ◌≡◌, ◌⊎◌, refl, sym, ◌∙◌, Option, none, some, ◌>>=◌, List, [], ◌∷◌, inl, inr, length, All,
}
use easegress.Prelude.Keys.{Bytes, list_key, nat_key}
use easegress.Prelude.Dict
use easegress.Mqtt.Trie
use easegress.Mqtt.Trie.{Level, ClientId, Clients, Node, new_node}
use easegress.Mqtt.Trie.Subscriptions.{qos_of-new_node}
use easegress.Mqtt.Trie.Shape.{new_node-IsTrie, unsubscribed-new_node}
use easegress.Mqtt.Trie.Matching.{Matches}
use easegress.Mqtt.Trie.Search.{find_subscribers-Matches}
use easegress.Mqtt.Topics.{split_topic}
use easegress.Mqtt.LevelCache.{LruCache, IsCoherent, get-split_topic, split_all}
use easegress.Mqtt.NoCache.{
  Manager, new_manager, find_subscribers, subscribe, unsubscribe, disconnect,
}
use easegress.Mqtt.NoCache.Requests.{
  View, subscribed, unsubscribed, view, IsValid, subscribe-view, unsubscribe-view, disconnect-view,
  find_subscribers-view,
}

pub data Request : Type 0 where
  to_subscribe : List Bytes → List ℕ → ClientId → Request
  to_unsubscribe : List Bytes → ClientId → Request
  to_disconnect : List Bytes → ClientId → Request
  to_find : Bytes → Request

-- A packet that asks for topics names a quality of service for each.
abbrev pub IsPaired : Request → Type 0
IsPaired (to_subscribe topics qoss id) = length topics ≤ length qoss
IsPaired (to_unsubscribe topics id) = Unit
IsPaired (to_disconnect topics id) = Unit
IsPaired (to_find topic) = Unit

-- What a sequence of requests means for who is subscribed to what.
unfoldable pub meaning : View → List Request → View
meaning v [] = v
meaning v (to_subscribe topics qoss id ∷ rs) = meaning (subscribed v (split_all topics) qoss id) rs
meaning v (to_unsubscribe topics id ∷ rs) = meaning (unsubscribed v (split_all topics) id) rs
meaning v (to_disconnect topics id ∷ rs) = meaning (unsubscribed v (split_all topics) id) rs
meaning v (to_find topic ∷ rs) = meaning v rs

abbrev pub nobody : View
nobody g who = none

subscribed_cong :
    (v w : View) (o : Option (List (List Level))) (qoss : List ℕ) (id who : ClientId)
    (g : List Level)
    → v g who ≡ w g who
    → subscribed v o qoss id g who ≡ subscribed w o qoss id g who
subscribed_cong v w none qoss id who g h = h
subscribed_cong v w (some ls) qoss id who g h = rw h refl

unsubscribed_cong :
    (v w : View) (o : Option (List (List Level))) (id who : ClientId) (g : List Level)
    → v g who ≡ w g who
    → unsubscribed v o id g who ≡ unsubscribed w o id g who
unsubscribed_cong v w none id who g h = h
unsubscribed_cong v w (some ls) id who g h = rw h refl

module _ (lru : LruCache) where
  open lru use {Cache}

  pub run : Manager lru → List Request → Option (Manager lru)
  run m [] = some m
  run m (to_subscribe topics qoss id ∷ rs) = subscribe lru m topics qoss id >>= λ (_, m'). run m' rs
  run m (to_unsubscribe topics id ∷ rs) = run (unsubscribe lru m topics id).1 rs
  run m (to_disconnect topics id ∷ rs) = run (disconnect lru m topics id).1 rs
  run m (to_find topic ∷ rs) = run (find_subscribers lru m topic).1 rs

  pub find_subscribers-IsValid :
      (m : Manager lru) (topic : Bytes)
      → IsValid lru m
      → IsValid lru (find_subscribers lru m topic).1
  unfolding find_subscribers
  find_subscribers-IsValid m topic h = record {
    trie = h.trie;
    coherent = (get-split_topic lru m.topic_cache topic h.coherent).1;
  }

  -- Any sequence of requests runs without a panic, and leaves the subscriptions that it means.
  run-meaning :
      (m : Manager lru) (v : View) (rs : List Request)
      → IsValid lru m
      → All IsPaired rs
      → ((g : List Level) (who : ClientId) → view lru m g who ≡ v g who)
      → (m' : Manager lru) × (run m rs ≡ some m')
        × IsValid lru m'
        × ((g : List Level) (who : ClientId) → view lru m' g who ≡ meaning v rs g who)
  unfolding run meaning
  run-meaning m v [] h p e = (m, refl, h, e)
  run-meaning m v (to_subscribe topics qoss id ∷ rs) h p e =
      let (m', done, h', e') = subscribe-view lru m topics qoss id h p.0 in
      let (m'', ran, h'', e'') =
        run-meaning m' (subscribed v (split_all topics) qoss id) rs h' p.1 (λ g who.
          e' g who ∙ subscribed_cong (view lru m) v (split_all topics) qoss id who g (e g who)) in
      (m'', rw done ran, h'', e'')
  run-meaning m v (to_unsubscribe topics id ∷ rs) h p e =
      let (_, h', e') = unsubscribe-view lru m topics id h in
      run-meaning (unsubscribe lru m topics id).1 (unsubscribed v (split_all topics) id) rs h' p.1
        (λ g who. e' g who ∙ unsubscribed_cong (view lru m) v (split_all topics) id who g (e g who))
  run-meaning m v (to_disconnect topics id ∷ rs) h p e =
      let (_, h', e') = disconnect-view lru m topics id h in
      run-meaning (disconnect lru m topics id).1 (unsubscribed v (split_all topics) id) rs h' p.1
        (λ g who. e' g who ∙ unsubscribed_cong (view lru m) v (split_all topics) id who g (e g who))
  run-meaning m v (to_find topic ∷ rs) h p e =
      run-meaning (find_subscribers lru m topic).1 v rs (find_subscribers-IsValid m topic h) p.1
        (λ g who. find_subscribers-view lru m topic g who ∙ e g who)

  -- After any sequence of requests, each request for several topics with a quality of service for
  -- each, that mean no subscription of anybody, the tree is the empty one: no node of an ended
  -- subscription is left.
  pub run-new_node :
      (c : Cache) (rs : List Request)
      → IsCoherent lru c
      → All IsPaired rs
      → ((g : List Level) (who : ClientId) → meaning nobody rs g who ≡ none)
      → (m : Manager lru) × (run (new_manager lru c) rs ≡ some m) × (m.topic_mgr ≡ new_node)
  unfolding new_manager view
  run-new_node c rs coherent paired ended =
      let (m, ran, h, e) =
        run-meaning (new_manager lru c) nobody rs
          (record { trie = new_node-IsTrie; coherent = coherent }) paired qos_of-new_node in
      (m, ran, unsubscribed-new_node m.topic_mgr h.trie (λ g who. e g who ∙ ended g who))

  -- After any sequence of requests, each request for several topics with a quality of service for
  -- each, a valid topic is answered with a set of clients. A client is in it exactly if the
  -- requests mean a subscription of the client to a filter that matches the topic, and with the
  -- quality of service of one such subscription.
  pub delivery :
      (c : Cache) (rs : List Request) (topic : Bytes) (levels : List Level) (id : ClientId)
      → IsCoherent lru c
      → All IsPaired rs
      → split_topic topic ≡ some levels
      → (m : Manager lru) × (found : Clients) × (run (new_manager lru c) rs ≡ some m)
        × ((find_subscribers lru m topic).0 ≡ some found)
        × (((Dict.get found id ≡ none)
              × ¬ (
                  (q : ℕ) × (g : List Level) × (meaning nobody rs g id ≡ some q)
                  × Matches g levels))
            ⊎ ((q : ℕ) × (Dict.get found id ≡ some q)
                × ((g : List Level) × (meaning nobody rs g id ≡ some q) × Matches g levels)))
  unfolding find_subscribers new_manager view
  delivery c rs topic levels id coherent paired split =
      let (m, ran, h, e) =
        run-meaning (new_manager lru c) nobody rs
          (record { trie = new_node-IsTrie; coherent = coherent }) paired qos_of-new_node in
      (
        m,
        Trie.find_subscribers m.topic_mgr levels,
        ran,
        rw ((get-split_topic lru m.topic_cache topic h.coherent).0 ∙ split, find_subscribers) refl,
        elim (find_subscribers-Matches m.topic_mgr levels id h.trie) [
          | inl (gone, nowhere) ↦ inl (gone, λ (q, g, k, fits). nowhere (q, (g, e g id ∙ k, fits)))
          | inr (q, found, (g, k, fits)) ↦ inr (q, found, (g, sym (e g id) ∙ k, fits))
        ],
      )
