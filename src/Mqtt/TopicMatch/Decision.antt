-- ===== src/Mqtt/TopicMatch/Decision.antt =====
-- What `isTopicMatch` decides.
use easegress.Prelude.{
  ◌-◌, ◌≤◌, ◌≡◌, ◌⊎◌, refl, sym, ap, subst, ◌∙◌, Bool, true, false, Option, some, List, [], ◌∷◌,
  arith, inl, inr, length, get_elem?, ltb, tests, clash, Bool-cases,
}
use easegress.Prelude.Keys.{list_key, nat_key}
use easegress.Mqtt.Trie.{Level, same, same_level_iff, hash}
use easegress.Mqtt.Trie.Matching.{Matches}
use easegress.Mqtt.Topics.RoundTrip.{is_filter}
use easegress.Mqtt.TopicMatch.{match_loop, is_topic_match}
use easegress.Mqtt.TopicMatch.Walk.{
  ends_in_hash, ends_in_hash-cons, fits, hash_ends, is_filter-hash_ends, level_ne', match_loop-walk,
  walk, walk-Matches,
}

-- As many levels, unless the filter ends in a `#`.
Matches-length :
    (ts fs : List Level)
    → Matches fs ts
    → length fs ≤ length ts
    → ends_in_hash fs ≡ false
    → length fs ≡ length ts
Matches-length [] [] m h e = refl
Matches-length (t ∷ ts) [] m h e = absurd m
Matches-length [] (f ∷ fs) m h e = absurd (omega arith)
Matches-length (t ∷ ts) (f ∷ fs) (inl (is_hash, whole)) h e =
    clash
      (subst (λ gs. ends_in_hash (f ∷ gs) ≡ true) (sym whole) ((same_level_iff f hash).1 is_hash)) e
Matches-length (t ∷ ts) (f ∷ fs) (inr (no_hash, _, m)) h e =
    ground (arith, Matches-length ts fs m, ends_in_hash-cons f fs, level_ne' f hash no_hash)

last_hash :
    (l : Level) (ls : List Level)
    → (x : Level) × (get_elem? (l ∷ ls) (length ls) ≡ some x)
      × (same x hash ≡ ends_in_hash (l ∷ ls))
last_hash l [] = (l, refl, refl)
last_hash l (m ∷ ls) = last_hash m ls

-- What an answer says of a filter and a topic.
abbrev Answers : Option Bool → List Level → List Level → Type 0
Answers o ts fs =
    ((o ≡ some true) × Matches fs ts × (length fs ≤ length ts))
    ⊎ ((o ≡ some false) × ¬ (Matches fs ts × (length fs ≤ length ts)))

walk-Answers :
    (ts fs : List Level)
    → hash_ends fs ≡ true
    → fits ts fs ≡ true
    → Answers (match_loop ts fs 0) ts fs
walk-Answers ts fs k h =
    let (to, from) = walk-Matches ts fs k h in
    let len : length fs ≤ length ts = ground arith in
    let e : match_loop ts fs 0 ≡ some (walk ts fs) = match_loop-walk [] ts fs 0 refl len in
    elim (Bool-cases (walk ts fs)) [
      | inl y ↦ inl (e ∙ ap some y, to y, len)
      | inr n ↦ inr (e ∙ ap some n, λ (m, _). clash (from m) n)
    ]

-- A filter is taken to match a topic exactly if it does, and is not longer than the topic.
pub is_topic_match-Matches :
    (ts fs : List Level)
    → is_filter fs ≡ true
    → ((is_topic_match ts fs ≡ some true) × Matches fs ts × (length fs ≤ length ts))
      ⊎ ((is_topic_match ts fs ≡ some false) × ¬ (Matches fs ts × (length fs ≤ length ts)))
unfolding is_topic_match is_filter
is_topic_match-Matches ts [] h = cc
is_topic_match-Matches ts (f ∷ fs) h =
    let k = is_filter-hash_ends (f ∷ fs) h in
    elim (Bool-cases (ltb (length ts) (length (f ∷ fs)))) [
      | inl short ↦ inr (ground arith, λ (_, le). absurd (omega (tests, short)))
      | inr long ↦ elim (Bool-cases (ltb (length (f ∷ fs)) (length ts))) [
        | inl more ↦
            let (x, at_end, e) = last_hash f fs in
            let e' : get_elem? (f ∷ fs) (length (f ∷ fs) - 1) ≡ some x = ground (arith, at_end) in
            elim (Bool-cases (ends_in_hash (f ∷ fs))) [
              | inl y ↦
                  subst (λ o. Answers o ts (f ∷ fs)) (ground arith)
                    (walk-Answers ts (f ∷ fs) k (ground arith))
              | inr n ↦ inr (
                ground arith,
                λ (m, le). absurd (omega (tests, more, Matches-length ts (f ∷ fs) m le n)),
              )
            ]
        | inr same_length ↦
            subst (λ o. Answers o ts (f ∷ fs)) (ground arith)
              (walk-Answers ts (f ∷ fs) k (ground arith))
      ]
    ]
