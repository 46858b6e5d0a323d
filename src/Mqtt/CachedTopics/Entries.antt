-- ===== src/Mqtt/CachedTopics/Entries.antt =====
-- The entries of a map of maps, such as `topicMapper` and `clientMapper`, and what the loops of the
-- caching topic manager change of them.
use easegress.Prelude.{
  ◌≡◌, ◌⊎◌, refl, Bool, true, false, ◌&&◌, ◌||◌, Option, none, some, List, [], ◌∷◌, ◌++◌, arith,
  if◌then◌else◌, inl, inr, Bool-cases, Option-cases,
}
use easegress.Prelude.Keys.{Bytes, list_key, nat_key}
use easegress.Prelude.Dict.{Dict, get, put, delete, get-put, get-delete}
use easegress.Mqtt.Trie.{ClientId, Clients, same, same_level_iff}
use easegress.Mqtt.CachedTopics.{
  Kept, kept_qos, TopicMapper, ClientMap, ClientMapper, or_empty, store_all, delete_client,
  delete_everywhere, publish_all,
}

abbrev pub Found {ℓ} : {A : Type ℓ} → Option A → Type ℓ
Found {A} o = (a : A) × (o ≡ some a)

-- The entry for two keys.
unfoldable pub entry {ℓ} : {A : Type ℓ} → Dict Bytes (Dict Bytes A) → Bytes → Bytes → Option A
entry d a b = get (or_empty (get d a)) b

unfoldable pub contains : List Bytes → Bytes → Bool
contains [] t = false
contains (x ∷ xs) t = same x t || contains xs t

pub contains-append :
    (xs ys : List Bytes) (t : Bytes) → contains (xs ++ ys) t ≡ (contains xs t || contains ys t)
unfolding contains
contains-append [] ys t = refl
contains-append (x ∷ xs) ys t = ground (arith, contains-append xs ys t)

module _ {ℓ} {A : Type ℓ} where
  pub entry-put :
      (d : Dict Bytes (Dict Bytes A)) (k a b : Bytes) (v : Dict Bytes A)
      → entry (put d k v) a b ≡ (if same k a then get v b else entry d a b)
  unfolding entry
  entry-put d k a b v = ground (arith, get-put d k a v)

  pub entry-delete :
      (d : Dict Bytes (Dict Bytes A)) (k a b : Bytes)
      → entry (delete d k) a b ≡ (if same k a then none else entry d a b)
  unfolding entry get
  entry-delete d k a b = ground (arith, get-delete d k a)

pub entry-delete_client :
    (d : TopicMapper) (topic t : Bytes) (id who : ClientId)
    → entry (delete_client d topic id) t who
      ≡ (if same topic t && same id who then none else entry d t who)
unfolding entry delete_client get
entry-delete_client d topic t id who = elim (Option-cases (get d topic)) [
  | inl e ↦ ground (arith, same_level_iff topic t)
  | inr (v, e) ↦
      ground (arith, same_level_iff topic t, get-put d topic t (delete v id), get-delete v id who)
]

-- The topics of a client map.
unfoldable pub topics_of : ClientMap → List Bytes
topics_of [] = []
topics_of ((t, k) ∷ d) = t ∷ topics_of d

pub get-topics_of : (d : ClientMap) (t : Bytes) → Found (get d t) → contains (topics_of d) t ≡ true
unfolding get topics_of contains
get-topics_of [] t (k, h) = cc
get-topics_of ((t', k') ∷ d) t (k, h) = elim (Bool-cases (same t' t)) [
  | inl e ↦ rw e refl
  | inr e ↦ rw e (get-topics_of d t (k, ground arith))
]

pub entry-delete_everywhere :
    (d : TopicMapper) (value : ClientMap) (t : Bytes) (id who : ClientId)
    → entry (delete_everywhere d value id) t who
      ≡ (if contains (topics_of value) t && same id who then none else entry d t who)
unfolding delete_everywhere topics_of contains
entry-delete_everywhere d [] t id who = refl
entry-delete_everywhere d ((topic, k) ∷ value) t id who = ground (
  arith,
  entry-delete_everywhere (delete_client d topic id) value t id who,
  entry-delete_client d topic t id who,
)

pub get-store_all :
    (m : ClientMap) (hits : List Bytes) (k : Kept) (t : Bytes)
    → get (store_all m hits k) t ≡ (if contains hits t then some k else get m t)
unfolding store_all contains
get-store_all m [] k t = refl
get-store_all m (topic ∷ hits) k t =
    ground (arith, get-store_all (put m topic k) hits k t, get-put m topic t k)

pub entry-put_within :
    (d : ClientMapper) (cid who : ClientId) (topic t : Bytes) (k : Kept)
    → entry (put d cid (put (or_empty (get d cid)) topic k)) who t
      ≡ (if same cid who && same topic t then some k else entry d who t)
unfolding entry
entry-put_within d cid who topic t k = ground (
  arith,
  same_level_iff cid who,
  entry-put d cid who t (put (or_empty (get d cid)) topic k),
  get-put (or_empty (get d cid)) topic t k,
)

-- Publishing adds the clients found to those of the topic, and the topic to those of each client.
pub publish_all_clients :
    (topic : Bytes) (cs tm : Clients) (mapper : ClientMapper) (who : ClientId)
    → Found (get (publish_all topic cs tm mapper).0 who)
    → Found (get tm who) ⊎ Found (get cs who)
unfolding publish_all get
publish_all_clients topic [] tm mapper who h = inl h
publish_all_clients topic ((cid, q) ∷ cs) tm mapper who h =
    let mapper' = put mapper cid (put (or_empty (get mapper cid)) topic (kept_qos q)) in
    elim (publish_all_clients topic cs (put tm cid q) mapper' who h) [
      | inl (q', e) ↦ elim (Bool-cases (same cid who)) [
        | inl s ↦ inr (q, rw s refl)
        | inr s ↦ inl (q', ground (arith, get-put tm cid who q))
      ]
      | inr (q', e) ↦ elim (Bool-cases (same cid who)) [
        | inl s ↦ inr (q, rw s refl)
        | inr s ↦ inr (q', rw s e)
      ]
    ]

pub publish_all_index :
    (topic : Bytes) (cs tm : Clients) (mapper : ClientMapper) (who : ClientId) (t : Bytes)
    → Found (entry mapper who t) ⊎ ((topic ≡ t) × Found (get cs who))
    → Found (entry (publish_all topic cs tm mapper).1 who t)
unfolding publish_all get
publish_all_index topic [] tm mapper who t (inl h) = h
publish_all_index topic [] tm mapper who t (inr (e, (q, h))) = cc
publish_all_index topic ((cid, q) ∷ cs) tm mapper who t h =
    publish_all_index topic cs (put tm cid q)
      (put mapper cid (put (or_empty (get mapper cid)) topic (kept_qos q))) who t (kept_on h)
  where
    kept_on :
        Found (entry mapper who t) ⊎ ((topic ≡ t) × Found (get ((cid, q) ∷ cs) who))
        → Found (entry (put mapper cid (put (or_empty (get mapper cid)) topic (kept_qos q))) who t)
          ⊎ ((topic ≡ t) × Found (get cs who))
    kept_on (inl (k, e)) = elim (Bool-cases (same cid who && same topic t)) [
      | inl b ↦ inl (kept_qos q, rw (entry-put_within mapper cid who topic t (kept_qos q), b) refl)
      | inr b ↦ inl (k, rw (entry-put_within mapper cid who topic t (kept_qos q), b) e)
    ]
    kept_on (inr (here, (q', e))) = elim (Bool-cases (same cid who)) [
      | inl b ↦ inl (
        kept_qos q,
        rw
            (
              entry-put_within mapper cid who topic t (kept_qos q),
              b,
              (same_level_iff topic t).1 here,
            )
            refl,
      )
      | inr b ↦ inr (here, (q', ground arith))
    ]
