-- ===== src/Mqtt/Topics.antt =====
-- The levels of a topic: `splitTopic` of pkg/object/mqttproxy/topicmgr.go. The bytes `/`, `+` and
-- `#` are no part of a longer character, so the loop over the characters is one over the bytes.
use easegress.Prelude.{
  ℕ, zero, suc, ◌+◌, ◌-◌, ◌≡◌, refl, Bool, true, false, not, ◌&&◌, ◌||◌, Option, none, some, ◌>>=◌,
  List, [], ◌∷◌, ◌++◌, arith, if◌then◌else◌, ◌==◌, ltb, length, take, drop, set, replicate,
}
use easegress.Prelude.Keys.{Bytes}
use easegress.Mqtt.Trie.{Level}
pub mod Pieces
mod Stream
pub mod Split
pub mod RoundTrip

-- topic[from:to]
unfoldable pub slice : Bytes → ℕ → ℕ → Bytes
slice s from to = take (to - from) (drop from s)

-- strings.Count(topic, "/")
unfoldable pub count_slashes : Bytes → ℕ
count_slashes [] = 0
count_slashes (c ∷ s) = if c == b'/' then suc (count_slashes s) else count_slashes s

-- The variables of the loop.
pub record Scan : Type 0 where
  pub levels : List Level
  pub levels_loc : ℕ
  pub level_start : ℕ
  pub wild_card_flag : Bool

-- `none` is the return of `nil, false`.
unfoldable pub split_step : Bytes → ℕ → ℕ → Scan → Option Scan
unfolding slice
split_step topic c i s =
    if c == b'/'
    then (let level = slice topic s.level_start i in
        if ltb 1 (length level) && s.wild_card_flag
        then none
        else some (record {
          levels = set s.levels s.levels_loc level;
          levels_loc = s.levels_loc + 1;
          level_start = i + 1;
          wild_card_flag = false;
        }))
    else if c == b'+'
    then some (record s { wild_card_flag = true })
    else if c == b'#'
    then (if i == length topic - 1 then some (record s { wild_card_flag = true }) else none)
    else some s

unfoldable pub split_loop : Bytes → Bytes → ℕ → Scan → Option Scan
unfolding split_step
split_loop topic [] i s = some s
split_loop topic (c ∷ rest) i s = split_step topic c i s >>= split_loop topic rest (i + 1)

unfoldable pub split_end : Bytes → Scan → Option (List Level)
unfolding slice
split_end topic s =
    let level = slice topic s.level_start (length topic) in
    if ltb 1 (length level) && s.wild_card_flag
    then none
    else some (set s.levels s.levels_loc level)

unfoldable pub split_topic : Bytes → Option (List Level)
unfolding split_loop split_end count_slashes
split_topic topic =
    split_loop topic topic 0 (record {
      levels = replicate (count_slashes topic + 1) [];
      levels_loc = 0;
      level_start = 0;
      wild_card_flag = false;
    })
    >>= split_end topic
