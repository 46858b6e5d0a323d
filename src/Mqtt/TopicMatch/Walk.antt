-- ===== src/Mqtt/TopicMatch/Walk.antt =====
-- The loop of `isTopicMatch`, for a topic with a fitting number of levels.
use easegress.Prelude.{
  ℕ, ◌+◌, ◌≤◌, ◌≡◌, ◌≢◌, ◌↔◌, refl, sym, subst, Bool, true, false, not, ◌&&◌, ◌||◌, some, List, [],
  ◌∷◌, ◌++◌, arith, if◌then◌else◌, inl, inr, length, length-append, get_elem?, leb, clash,
  Bool-cases,
}
use mathlib.Core.List.{append_assoc}
use easegress.Prelude.Keys.{list_key, nat_key}
use easegress.Mqtt.Trie.{Level, same, same_level_iff, hash, plus}
use easegress.Mqtt.Trie.Matching.{Matches}
use easegress.Mqtt.Topics.RoundTrip.{is_filter, has}
use easegress.Mqtt.TopicMatch.{match_loop}

-- A filter ends in a `#`.
abbrev pub ends_in_hash : List Level → Bool
ends_in_hash [] = false
ends_in_hash (l ∷ []) = same l hash
ends_in_hash (l ∷ m ∷ ls) = ends_in_hash (m ∷ ls)

-- The loop from a place on, with the levels of the topic that are left.
pub walk : List Level → List Level → Bool
walk ts [] = true
walk [] (f ∷ fs) = same f hash
walk (t ∷ ts) (f ∷ fs) =
    let rest = walk ts fs in
    if same f hash then true else if same f plus then rest else if same f t then rest else false

-- The number of levels fits: as many as the filter has, or more if it ends in a `#`.
abbrev pub fits : List Level → List Level → Bool
fits ts fs = leb (length fs) (length ts) && (leb (length ts) (length fs) || ends_in_hash fs)

pub get_elem?-append_length :
    (pre : List Level) (t : Level) (ts : List Level)
    → get_elem? (pre ++ t ∷ ts) (length pre) ≡ some t
get_elem?-append_length [] t ts = refl
get_elem?-append_length (p ∷ pre) t ts = get_elem?-append_length pre t ts

pub match_loop-walk :
    (pre ts fs : List Level) (i : ℕ)
    → i ≡ length pre
    → length fs ≤ length ts
    → match_loop (pre ++ ts) fs i ≡ some (walk ts fs)
unfolding match_loop walk
match_loop-walk pre ts [] i e h = refl
match_loop-walk pre [] (f ∷ fs) i e h = absurd (omega arith)
match_loop-walk pre (t ∷ ts) (f ∷ fs) i e h =
    let rest =
      subst (λ l. match_loop l fs (i + 1) ≡ some (walk ts fs)) (append_assoc pre (t ∷ []) ts)
        (match_loop-walk (pre ++ t ∷ []) ts fs (i + 1) (omega (arith, length-append pre (t ∷ [])))
          (omega arith)) in
    ground (arith, get_elem?-append_length pre t ts)

-- A `#` stands at the end of the filter only.
abbrev pub hash_ends : List Level → Bool
hash_ends [] = true
hash_ends (l ∷ []) = true
hash_ends (l ∷ m ∷ ls) = not (same l hash) && hash_ends (m ∷ ls)

pub level_hash : (l : Level) → has b'#' l ≡ false → same l hash ≡ false
unfolding has
level_hash l h = elim (Bool-cases (same l hash)) [
  | inl e ↦ clash (subst (λ k. has b'#' k ≡ true) (sym ((same_level_iff l hash).0 e)) refl) h
  | inr e ↦ e
]

pub is_filter-hash_ends : (fs : List Level) → is_filter fs ≡ true → hash_ends fs ≡ true
unfolding is_filter
is_filter-hash_ends [] h = refl
is_filter-hash_ends (l ∷ []) h = refl
is_filter-hash_ends (l ∷ m ∷ ls) h = ground (arith, level_hash l, is_filter-hash_ends (m ∷ ls))

pub hash_ends-cons :
    (f : Level) (fs : List Level)
    → hash_ends (f ∷ fs) ≡ true
    → same f hash ≡ false
    → hash_ends fs ≡ true
hash_ends-cons f [] h e = refl
hash_ends-cons f (g ∷ fs) h e = ground arith

pub ends_in_hash-cons :
    (f : Level) (fs : List Level) → same f hash ≡ false → ends_in_hash (f ∷ fs) ≡ ends_in_hash fs
ends_in_hash-cons f [] e = e
ends_in_hash-cons f (g ∷ fs) e = refl

-- A filter with its `#` at the end is that `#` alone, if it begins with one.
pub hash_ends-hash :
    (f : Level) (fs : List Level) → hash_ends (f ∷ fs) ≡ true → same f hash ≡ true → fs ≡ []
hash_ends-hash f [] h e = refl
hash_ends-hash f (g ∷ fs) h e = ground arith

pub level_ne : (a b : Level) → same a b ≡ false → a ≢ b
level_ne a b h e = clash ((same_level_iff a b).1 e) h

pub level_ne' : (a b : Level) → a ≢ b → same a b ≡ false
level_ne' a b h = elim (Bool-cases (same a b)) [
  | inl e ↦ absurd (h ((same_level_iff a b).0 e))
  | inr e ↦ e
]

pub rest-Matches :
    (f t : Level) (fs ts : List Level)
    → same f hash ≡ false
    → Matches (f ∷ fs) (t ∷ ts)
    → Matches fs ts
rest-Matches f t fs ts e (inl (is_hash, _)) = absurd (level_ne f hash e is_hash)
rest-Matches f t fs ts e (inr (_, _, m)) = m

pub no_match :
    (f t : Level) (fs ts : List Level)
    → same f hash ≡ false
    → same f plus ≡ false
    → same f t ≡ false
    → ¬ Matches (f ∷ fs) (t ∷ ts)
no_match f t fs ts e p s (inl (is_hash, _)) = level_ne f hash e is_hash
no_match f t fs ts e p s (inr (_, inl is_plus, _)) = level_ne f plus p is_plus
no_match f t fs ts e p s (inr (_, inr equal, _)) = level_ne f t s equal

pub walk-Matches :
    (ts fs : List Level)
    → hash_ends fs ≡ true
    → fits ts fs ≡ true
    → (walk ts fs ≡ true) ↔ Matches fs ts
unfolding walk
walk-Matches [] [] f h = (λ _. tt, λ _. refl)
walk-Matches (t ∷ ts) [] f h = ground arith
walk-Matches [] (f ∷ fs) k h = ground arith
walk-Matches (t ∷ ts) (f ∷ fs) k h = elim (Bool-cases (same f hash)) [
  | inl e ↦ (λ _. inl ((same_level_iff f hash).0 e, hash_ends-hash f fs k e), λ _. rw e refl)
  | inr e ↦
      let (to, from) =
        walk-Matches ts fs (hash_ends-cons f fs k e) (ground (arith, ends_in_hash-cons f fs e)) in
      elim (Bool-cases (same f plus)) [
        | inl p ↦ (
          λ w. inr (level_ne f hash e, inl ((same_level_iff f plus).0 p), to (ground arith)),
          λ m. rw (e, p) (from (rest-Matches f t fs ts e m)),
        )
        | inr p ↦ elim (Bool-cases (same f t)) [
          | inl s ↦ (
            λ w. inr (level_ne f hash e, inr ((same_level_iff f t).0 s), to (ground arith)),
            λ m. rw (e, p, s) (from (rest-Matches f t fs ts e m)),
          )
          | inr s ↦ (λ w. ground arith, λ m. absurd (no_match f t fs ts e p s m))
        ]
      ]
]
