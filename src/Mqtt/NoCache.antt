-- ===== src/Mqtt/NoCache.antt =====
-- The topic manager that keeps no answers: pkg/object/mqttproxy/nocachetopicmgr.go.
use easegress.Prelude.{ℕ, ◌≡◌, Bool, true, false, Option, none, some, ◌>>=◌, List, [], ◌∷◌}
use easegress.Prelude.Keys.{Bytes}
use easegress.Mqtt.Trie
use easegress.Mqtt.Trie.{Level, ClientId, Clients, Node, new_node}
use easegress.Mqtt.LevelCache.{LruCache, get, get_all}
pub mod Requests
pub mod Delivery

-- `topic_cache` is the cache of split topics.
pub record NoCacheTopicManager (C : Type 0) : Type 0 where
  pub topic_mgr : Node
  pub topic_cache : C

module _ (lru : LruCache) where
  open lru use {Cache}

  abbrev pub Manager : Type 0
  Manager = NoCacheTopicManager Cache

  unfoldable pub new_manager : Cache → Manager
  new_manager cache = record { topic_mgr = new_node; topic_cache = cache }

  -- The clients of a topic, `none` for the error.
  pub find_subscribers : Manager → Bytes → Option Clients × Manager
  find_subscribers m topic =
      let (levels, cache) = get lru m.topic_cache topic in
      (
        elim levels [ none ↦ none | some ls ↦ some (Trie.find_subscribers m.topic_mgr ls) ],
        record m { topic_cache = cache },
      )

  -- `none` is a panic, and `false` beside the manager the error.
  pub subscribe : Manager → List Bytes → List ℕ → ClientId → Option (Bool × Manager)
  subscribe m topics qoss id =
      let (all_levels, cache) = get_all lru m.topic_cache topics in
      elim all_levels [
        | none ↦ some (false, record m { topic_cache = cache })
        | some ls ↦ Trie.subscribe m.topic_mgr ls qoss id >>= λ root.
            some (true, record { topic_mgr = root; topic_cache = cache })
      ]

  pub unsubscribe : Manager → List Bytes → ClientId → Bool × Manager
  unsubscribe m topics id =
      let (all_levels, cache) = get_all lru m.topic_cache topics in
      elim all_levels [
        | none ↦ (false, record m { topic_cache = cache })
        | some ls ↦
            (true, record { topic_mgr = Trie.unsubscribe m.topic_mgr ls id; topic_cache = cache })
      ]

  pub disconnect : Manager → List Bytes → ClientId → Bool × Manager
  unfolding unsubscribe
  disconnect m topics id = unsubscribe m topics id
