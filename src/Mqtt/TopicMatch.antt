-- ===== src/Mqtt/TopicMatch.antt =====
-- `isTopicMatch` of pkg/object/mqttproxy/topic.go, by which the caching topic manager decides which
-- topics a request concerns.
use easegress.Prelude.{
  ℕ, zero, suc, ◌+◌, ◌-◌, ◌≤◌, ◌<◌, ◌≡◌, ◌≢◌, ◌⊎◌, ◌↔◌, refl, sym, ap, subst, ◌∙◌, Bool, true,
  false, not, ◌&&◌, ◌||◌, Option, none, some, ◌>>=◌, List, [], ◌∷◌, ◌++◌, arith, if◌then◌else◌, inl,
  inr, length, length-append, get_elem?, ltb, leb, tests, clash, Bool-cases, Option-cases,
}
use mathlib.Core.List.{append_assoc}
use easegress.Prelude.Keys.{same_refl, list_key, nat_key}
use easegress.Mqtt.Trie.{Level, same, same_level_iff, hash, plus}
use easegress.Mqtt.Trie.Matching.{Matches}
use easegress.Mqtt.Topics.RoundTrip.{is_filter, has}
pub mod Walk
pub mod Decision

-- The loop over the levels of the filter. An index out of range is a panic, `none`.
unfoldable pub match_loop : List Level → List Level → ℕ → Option Bool
match_loop topic_levels [] i = some true
match_loop topic_levels (sub_level ∷ sub_levels) i =
    let rest = match_loop topic_levels sub_levels (i + 1) in
    if same sub_level hash
    then some true
    else if same sub_level plus
    then rest
    else (get_elem? topic_levels i >>= λ level. if same sub_level level then rest else some false)

unfoldable pub is_topic_match : List Level → List Level → Option Bool
unfolding match_loop
is_topic_match topic_levels sub_levels =
    let loop = match_loop topic_levels sub_levels 0 in
    if ltb (length topic_levels) (length sub_levels)
    then some false
    else if ltb (length sub_levels) (length topic_levels)
    then (get_elem? sub_levels (length sub_levels - 1) >>= λ last.
        if same last hash then loop else some false)
    else loop
