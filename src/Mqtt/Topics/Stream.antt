-- ===== src/Mqtt/Topics/Stream.antt =====
-- The scan of a topic with the bytes of the current level in hand, and what it accepts.
use easegress.Prelude.{
  ℕ, ◌≡◌, Bool, true, false, not, ◌&&◌, Option, none, some, inl, inr, List, [], ◌∷◌, ◌++◌, arith,
  if◌then◌else◌, ◌==◌, Bool-cases,
}
use mathlib.Core.List.{append-nil}
use easegress.Prelude.Keys.{Bytes}
use easegress.Mqtt.Trie.{Level}
use easegress.Mqtt.Topics.Pieces.{
  glue, pieces, bad_level, good_levels, hash_last, glue-glue, glue_nil,
}

unfoldable pub is_empty {ℓ} : {A : Type ℓ} → List A → Bool
is_empty [] = true
is_empty (x ∷ xs) = false

abbrev pub after : Level → Option (List Level) → Option (List Level)
after l none = none
after l (some ls) = some (l ∷ ls)

unfoldable pub stream : Level → Bytes → Option (List Level)
unfolding is_empty
stream cur [] = if bad_level cur then none else some (cur ∷ [])
stream cur (c ∷ rest) =
    if c == b'/'
    then (if bad_level cur then none else after cur (stream [] rest))
    else if (c == b'#') && not (is_empty rest)
    then none
    else stream (cur ++ c ∷ []) rest

-- The levels from the current one on, if they are good.
abbrev accepted : Level → Bytes → Option (List Level)
accepted cur rest =
    if good_levels (glue cur (pieces rest)) && hash_last rest
    then some (glue cur (pieces rest))
    else none

hash_last-cons :
    (c : ℕ) (s : Bytes) → hash_last (c ∷ s) ≡ (not ((c == b'#') && not (is_empty s)) && hash_last s)
unfolding hash_last is_empty
hash_last-cons c [] = ground arith
hash_last-cons c (d ∷ s) = ground arith

pub stream-accepted : (cur : Level) (rest : Bytes) → stream cur rest ≡ accepted cur rest
unfolding stream glue good_levels pieces hash_last
stream-accepted cur [] = rw append-nil (ground arith)
stream-accepted cur (c ∷ rest) = elim (Bool-cases (c == b'/')) [
  | inl slash ↦ ground (
    arith,
    stream-accepted [] rest,
    glue_nil (pieces rest),
    append-nil cur,
    hash_last-cons c rest,
  )
  | inr other ↦ ground (
    arith,
    stream-accepted (cur ++ c ∷ []) rest,
    glue-glue cur (c ∷ []) (pieces rest),
    hash_last-cons c rest,
  )
]
