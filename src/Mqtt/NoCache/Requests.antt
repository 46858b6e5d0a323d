-- ===== src/Mqtt/NoCache/Requests.antt =====
-- What a request to the topic manager without a cache changes, in terms of who is subscribed to
-- what.
use easegress.Prelude.{
  ℕ, ◌≤◌, ◌≡◌, refl, ◌∙◌, Bool, true, false, ◌&&◌, Option, none, some, List, [], ◌∷◌, arith,
  if◌then◌else◌, inl, inr, length, Option-cases,
}
use easegress.Prelude.Keys.{Bytes}
use easegress.Mqtt.Trie.{Level, ClientId, same}
use easegress.Mqtt.Trie.Subscriptions.{qos_of}
use easegress.Mqtt.Trie.Shape.{IsTrie}
use easegress.Mqtt.Trie.Requests.{
  latest, requested, qos_of-subscribe, subscribe_total, subscribe-IsTrie, qos_of-unsubscribe,
  unsubscribe-IsTrie,
}
use easegress.Mqtt.Topics.{split_topic}
use easegress.Mqtt.LevelCache.{LruCache, get_all, IsCoherent, both, split_all, get_all-split_all}
use easegress.Mqtt.NoCache.{Manager, find_subscribers, subscribe, unsubscribe, disconnect}

-- Who is subscribed to what: the abstract state.
abbrev pub View : Type 0
View = List Level → ClientId → Option ℕ

-- What a request means, if the topics are valid.
abbrev pub subscribed : View → Option (List (List Level)) → List ℕ → ClientId → View
subscribed v none qoss id = v
subscribed v (some ls) qoss id =
    λ g who. if same id who then latest ls qoss g (v g who) else v g who

abbrev pub unsubscribed : View → Option (List (List Level)) → ClientId → View
unsubscribed v none id = v
unsubscribed v (some ls) id = λ g who. if requested ls g && same id who then none else v g who

abbrev pub is_some {ℓ} : {A : Type ℓ} → Option A → Bool
is_some none = false
is_some (some a) = true

length-both :
    (o : Option (List Level)) (p : Option (List (List Level))) (lss : List (List Level))
    → both o p ≡ some lss
    → (ls : List Level) × (ms : List (List Level)) × (p ≡ some ms) × (lss ≡ ls ∷ ms)
length-both none p lss h = cc
length-both (some ls) none lss h = cc
length-both (some ls) (some ms) lss h = (ls, ms, refl, cc)

length-split_all :
    (topics : List Bytes) (ls : List (List Level))
    → split_all topics ≡ some ls
    → length ls ≡ length topics
unfolding split_all
length-split_all [] ls h = ground arith
length-split_all (topic ∷ topics) lss h =
    let (ls, ms, e, k) = length-both (split_topic topic) (split_all topics) lss h in
    ground (arith, length-split_all topics ms e)

module _ (lru : LruCache) where
  unfoldable pub view : Manager lru → View
  view m = qos_of m.topic_mgr

  pub record IsValid (m : Manager lru) : Type 0 where
    pub trie : IsTrie m.topic_mgr
    pub coherent : IsCoherent lru m.topic_cache

  -- A subscription request with a quality for each topic does not panic. It fails exactly if a
  -- topic is not valid, and changes who is subscribed to what as the request means.
  pub subscribe-view :
      (m : Manager lru) (topics : List Bytes) (qoss : List ℕ) (id : ClientId)
      → IsValid m
      → length topics ≤ length qoss
      → (m' : Manager lru) × (subscribe lru m topics qoss id
          ≡ some (is_some (split_all topics), m'))
        × IsValid m'
        × ((g : List Level) (who : ClientId)
            → view m' g who ≡ subscribed (view m) (split_all topics) qoss id g who)
  unfolding subscribe view
  subscribe-view m topics qoss id h enough =
      let (e, k) = get_all-split_all lru m.topic_cache topics h.coherent in
      elim (Option-cases (split_all topics)) [
        | inl bad ↦ (
          record m { topic_cache = (get_all lru m.topic_cache topics).1 },
          rw (e ∙ bad, subscribe) (rw bad refl),
          record { trie = h.trie; coherent = k },
          λ g who. rw bad refl,
        )
        | inr (ls, good) ↦
            let (root, done) =
              subscribe_total m.topic_mgr ls qoss id
                (omega (arith, length-split_all topics ls good)) in
            (
              record { topic_mgr = root; topic_cache = (get_all lru m.topic_cache topics).1 },
              rw (e ∙ good, subscribe) (rw done (rw good refl)),
              record {
                trie = subscribe-IsTrie m.topic_mgr root ls qoss id h.trie done;
                coherent = k;
              },
              λ g who. rw good (qos_of-subscribe m.topic_mgr root ls qoss id who g done),
            )
      ]

  -- A request to end subscriptions fails exactly if a topic is not valid, and changes who is
  -- subscribed to what as the request means. So does a disconnection.
  pub unsubscribe-view :
      (m : Manager lru) (topics : List Bytes) (id : ClientId)
      → IsValid m
      → ((unsubscribe lru m topics id).0 ≡ is_some (split_all topics))
        × IsValid (unsubscribe lru m topics id).1
        × ((g : List Level) (who : ClientId)
            → view (unsubscribe lru m topics id).1 g who
              ≡ unsubscribed (view m) (split_all topics) id g who)
  unfolding unsubscribe view
  unsubscribe-view m topics id h =
      let (e, k) = get_all-split_all lru m.topic_cache topics h.coherent in
      elim (Option-cases (split_all topics)) [
        | inl bad ↦
            rw (e ∙ bad, unsubscribe)
              (rw bad refl, record { trie = h.trie; coherent = k }, λ g who. rw bad refl)
        | inr (ls, good) ↦
            rw (e ∙ good, unsubscribe)
              (
                rw good refl,
                record { trie = unsubscribe-IsTrie m.topic_mgr ls id h.trie; coherent = k },
                λ g who. rw good (qos_of-unsubscribe m.topic_mgr ls id who g),
              )
      ]

  pub disconnect-view :
      (m : Manager lru) (topics : List Bytes) (id : ClientId)
      → IsValid m
      → ((disconnect lru m topics id).0 ≡ is_some (split_all topics))
        × IsValid (disconnect lru m topics id).1
        × ((g : List Level) (who : ClientId)
            → view (disconnect lru m topics id).1 g who
              ≡ unsubscribed (view m) (split_all topics) id g who)
  unfolding disconnect
  disconnect-view m topics id h = unsubscribe-view m topics id h

  -- Asking for the clients of a topic changes no subscription.
  pub find_subscribers-view :
      (m : Manager lru) (topic : Bytes) (g : List Level) (who : ClientId)
      → view (find_subscribers lru m topic).1 g who ≡ view m g who
  unfolding find_subscribers view
  find_subscribers-view m topic g who = refl
