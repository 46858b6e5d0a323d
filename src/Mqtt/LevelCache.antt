-- ===== src/Mqtt/LevelCache.antt =====
-- The cache of split topics: `topicLevelCache` of pkg/object/mqttproxy/topicmgr.go. The store behind
-- it, an LRU cache of hashicorp/golang-lru, is a parameter.
use easegress.Prelude.{
  ◌≡◌, ◌⊎◌, refl, sym, ap, ◌∙◌, Option, none, some, inl, inr, List, [], ◌∷◌, Option-cases,
}
use easegress.Prelude.Keys.{Bytes}
use easegress.Mqtt.Trie.{Level}
use easegress.Mqtt.Topics.{split_topic}

-- `Get` may change which entry goes next, and `Add` may drop any entry. What the code relies on is
-- that a value found for a key is one that was added for that key.
pub record LruCache : Type 1 where
  pub Cache : Type 0
  pub find : Cache → Bytes → Option (List Level)
  pub lru_get : Cache → Bytes → Cache
  pub lru_add : Cache → Bytes → List Level → Cache
  pub find-lru_get :
      (c : Cache) (k j : Bytes) (v : List Level) → find (lru_get c k) j ≡ some v → find c j ≡ some v
  pub find-lru_add :
      (c : Cache) (k j : Bytes) (v w : List Level)
      → find (lru_add c k v) j ≡ some w
      → ((k ≡ j) × (v ≡ w)) ⊎ (find c j ≡ some w)

module _ (lru : LruCache) where
  open lru use {Cache, find, lru_get, lru_add, find-lru_get, find-lru_add}

  -- The levels of a topic, `none` for the error, and the cache after the call.
  pub get : Cache → Bytes → Option (List Level) × Cache
  get cache topic = elim (find cache topic) [
    | some levels ↦ (some levels, lru_get cache topic)
    | none ↦ elim (split_topic topic) [
      | some levels ↦ (some levels, lru_add (lru_get cache topic) topic levels)
      | none ↦ (none, lru_get cache topic)
    ]
  ]

  -- One round of the loop: an error leaves it, with the cache as it is then.
  collect :
      Option (List Level)
      → Cache
      → Option (List (List Level)) × Cache
      → Option (List (List Level)) × Cache
  collect none cache rest = (none, cache)
  collect (some levels) cache (none, cache') = (none, cache')
  collect (some levels) cache (some res, cache') = (some (levels ∷ res), cache')

  pub get_all : Cache → List Bytes → Option (List (List Level)) × Cache
  unfolding get collect
  get_all cache [] = (some [], cache)
  get_all cache (topic ∷ topics) =
      let (levels, cache') = get cache topic in collect levels cache' (get_all cache' topics)

  -- Every entry of the cache is the splitting of its key.
  abbrev pub IsCoherent : Cache → Type 0
  IsCoherent cache = (k : Bytes) (v : List Level) → find cache k ≡ some v → split_topic k ≡ some v

  -- What a request may leave in the cache.
  get_cases :
      (c : Cache) (topic : Bytes)
      → ((v : List Level) × (find c topic ≡ some v) × (get c topic ≡ (some v, lru_get c topic)))
        ⊎ ((find c topic ≡ none)
            × (split_topic topic ≡ none)
            × (get c topic ≡ (none, lru_get c topic)))
        ⊎ ((ls : List Level) × (split_topic topic ≡ some ls)
            × (get c topic ≡ (some ls, lru_add (lru_get c topic) topic ls)))
  unfolding get
  get_cases c topic = elim (Option-cases (find c topic)) [
    | inr (v, e) ↦ inl (v, e, rw (e, get) refl)
    | inl e ↦ elim (Option-cases (split_topic topic)) [
      | inl e' ↦ inr (inl (e, e', rw (e, e', get) refl))
      | inr (ls, e') ↦ inr (inr (ls, e', rw (e, e', get) refl))
    ]
  ]

  get-IsCoherent : (c : Cache) (topic : Bytes) → IsCoherent c → IsCoherent (get c topic).1
  get-IsCoherent c topic h = elim (get_cases c topic) [
    | inl (v, _, e) ↦ rw e (λ k w f. h k w (find-lru_get c topic k w f))
    | inr (inl (_, _, e)) ↦ rw e (λ k w f. h k w (find-lru_get c topic k w f))
    | inr (inr (ls, split, e)) ↦ rw e (λ k w f.
        elim (find-lru_add (lru_get c topic) topic k ls w f) [
          | inl (same_k, same_w) ↦ rw (← same_k) (rw (← same_w) split)
          | inr old ↦ h k w (find-lru_get c topic k w old)
        ])
  ]

  -- The cache never changes the answer, and stays as it should be.
  pub get-split_topic :
      (c : Cache) (topic : Bytes)
      → IsCoherent c
      → ((get c topic).0 ≡ split_topic topic) × IsCoherent (get c topic).1
  get-split_topic c topic h = (
    elim (get_cases c topic) [
      | inl (v, found, e) ↦ rw e (sym (h topic v found))
      | inr (inl (_, split, e)) ↦ rw e (sym split)
      | inr (inr (ls, split, e)) ↦ rw e (sym split)
    ],
    get-IsCoherent c topic h,
  )

-- The levels of all topics, if every topic is valid.
abbrev pub both : Option (List Level) → Option (List (List Level)) → Option (List (List Level))
both none o = none
both (some ls) none = none
both (some ls) (some lss) = some (ls ∷ lss)

unfoldable pub split_all : List Bytes → Option (List (List Level))
split_all [] = some []
split_all (topic ∷ topics) = both (split_topic topic) (split_all topics)

module _ (lru : LruCache) where
  open lru use {Cache}

  collect_lem :
      (o : Option (List Level)) (c : Cache) (r : Option (List (List Level)) × Cache)
      → IsCoherent lru c
      → IsCoherent lru r.1
      → ((collect lru o c r).0 ≡ both o r.0) × IsCoherent lru (collect lru o c r).1
  unfolding collect
  collect_lem none c r h k = (refl, h)
  collect_lem (some ls) c (none, c') h k = (refl, k)
  collect_lem (some ls) c (some lss, c') h k = (refl, k)

  -- A list of topics is answered with all their levels, or with the error if one is not valid.
  pub get_all-split_all :
      (c : Cache) (topics : List Bytes)
      → IsCoherent lru c
      → ((get_all lru c topics).0 ≡ split_all topics) × IsCoherent lru (get_all lru c topics).1
  unfolding get_all split_all
  get_all-split_all c [] h = (refl, h)
  get_all-split_all c (topic ∷ topics) h =
      let (levels, c') = get lru c topic in
      let (e, k) = get-split_topic lru c topic h in
      let (e', k') = get_all-split_all c' topics k in
      let (a, b) = collect_lem levels c' (get_all lru c' topics) k k' in
      (a ∙ ap (λ o. both o (get_all lru c' topics).0) e ∙ ap (both (split_topic topic)) e', b)
