-- ===== src/Mqtt/Topics/Pieces.antt =====
-- The texts between the slashes of a topic, and the rules on wildcards, apart from how
-- `splitTopic` goes through the bytes.
use easegress.Prelude.{
  ℕ, ◌≡◌, refl, Bool, true, false, not, ◌&&◌, ◌||◌, List, [], ◌∷◌, ◌++◌, arith, if◌then◌else◌, ◌==◌,
  ltb, length,
}
use mathlib.Core.List.{append_assoc}
use easegress.Prelude.Keys.{Bytes}
use easegress.Mqtt.Trie.{Level}

-- The first of the pieces is longer by a text before it.
unfoldable pub glue : Bytes → List Level → List Level
glue s [] = []
glue s (p ∷ ps) = (s ++ p) ∷ ps

unfoldable pub pieces : Bytes → List Level
unfolding glue
pieces [] = [] ∷ []
pieces (c ∷ s) = if c == b'/' then [] ∷ pieces s else glue (c ∷ []) (pieces s)

unfoldable pub join : List Level → Bytes
join [] = []
join (p ∷ []) = p
join (p ∷ q ∷ ps) = p ++ b'/' ∷ join (q ∷ ps)

abbrev pub is_wild : ℕ → Bool
is_wild c = c == b'+' || c == b'#'

unfoldable pub has_wild : Bytes → Bool
has_wild [] = false
has_wild (c ∷ s) = is_wild c || has_wild s

-- A level with a wildcard is the wildcard alone.
abbrev pub bad_level : Level → Bool
bad_level l = ltb 1 (length l) && has_wild l

unfoldable pub good_levels : List Level → Bool
good_levels [] = true
good_levels (l ∷ ls) = not (bad_level l) && good_levels ls

-- No `#` before the last byte.
unfoldable pub hash_last : Bytes → Bool
hash_last [] = true
hash_last (c ∷ []) = true
hash_last (c ∷ d ∷ s) = not (c == b'#') && hash_last (d ∷ s)

-- The topics and filters that are accepted.
unfoldable pub is_valid : Bytes → Bool
is_valid s = good_levels (pieces s) && hash_last s

pub has_wild-append : (s t : Bytes) → has_wild (s ++ t) ≡ (has_wild s || has_wild t)
unfolding has_wild
has_wild-append [] t = refl
has_wild-append (c ∷ s) t = ground (arith, has_wild-append s t)

pub glue-glue : (s t : Bytes) (ps : List Level) → glue s (glue t ps) ≡ glue (s ++ t) ps
unfolding glue
glue-glue s t [] = refl
glue-glue s t (p ∷ ps) = simp append_assoc

pub glue_nil : (ps : List Level) → glue [] ps ≡ ps
unfolding glue
glue_nil [] = refl
glue_nil (p ∷ ps) = refl
