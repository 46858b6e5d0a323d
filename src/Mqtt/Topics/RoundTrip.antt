-- ===== src/Mqtt/Topics/RoundTrip.antt =====
-- `splitTopic` against the joining of levels by slashes.
use easegress.Prelude.{
  ℕ, ◌≡◌, ◌↔◌, refl, sym, ap, subst, ◌∙◌, Bool, true, false, not, ◌&&◌, ◌||◌, Option, none, some,
  inl, inr, List, [], ◌∷◌, ◌++◌, arith, ◌==◌, ==_iff, Bool-cases,
}
use mathlib.Core.List.{append_assoc, append-nil}
use mathlib.Core.Option.{some-injective}
use easegress.Prelude.Keys.{Bytes}
use easegress.Mqtt.Trie.{Level}
use easegress.Mqtt.Topics.{split_topic}
use easegress.Mqtt.Topics.Pieces.{glue_nil, pieces, bad_level, is_valid, has_wild, join}
use easegress.Mqtt.Topics.Stream.{is_empty, after, stream, stream-accepted}
use easegress.Mqtt.Topics.Split.{split_topic-pieces}

unfoldable pub has : ℕ → Bytes → Bool
has b [] = false
has b (c ∷ s) = c == b || has b s

has-append : (b : ℕ) (s t : Bytes) → has b (s ++ t) ≡ (has b s || has b t)
unfolding has
has-append b [] t = refl
has-append b (c ∷ s) t = ground (arith, has-append b s t)

-- The levels of a topic or a filter: no slash in a level, a wildcard alone in its level, and a `#`
-- in the last level only.
unfoldable pub is_filter : List Level → Bool
is_filter [] = false
is_filter (l ∷ []) = not (bad_level l) && not (has b'/' l)
is_filter (l ∷ m ∷ ls) =
    not (bad_level l) && not (has b'/' l) && not (has b'#' l) && is_filter (m ∷ ls)

stream_ends :
    (cur : Level) (o : Option (List Level)) (ls : List Level)
    → after cur o ≡ some ls
    → (ms : List Level) × (o ≡ some ms) × (ls ≡ cur ∷ ms)
stream_ends cur none ls h = cc
stream_ends cur (some ms) ls h = (ms, refl, sym (some-injective (cur ∷ ms) ls h))

-- A level in front of a filter.
cons_filter :
    (l : Level) (ms : List Level)
    → is_filter ms ≡ true
    → (is_filter (l ∷ ms) ≡ (not (bad_level l) && not (has b'/' l) && not (has b'#' l)))
      × (join (l ∷ ms) ≡ l ++ b'/' ∷ join ms)
unfolding is_filter join
cons_filter l [] h = cc
cons_filter l (m ∷ ms) h = (ground arith, refl)

-- What a scan accepts is the levels of a filter, and joins to what was scanned.
stream_sound :
    (cur : Level) (rest : Bytes) (ls : List Level)
    → has b'/' cur ≡ false
    → (has b'#' cur && not (is_empty rest)) ≡ false
    → stream cur rest ≡ some ls
    → (is_filter ls ≡ true) × (join ls ≡ cur ++ rest)
unfolding stream is_filter join has is_empty
stream_sound cur [] ls p q h = elim (Bool-cases (bad_level cur)) [
  | inl bad ↦ ground arith
  | inr good ↦
      let e : cur ∷ [] ≡ ls = some-injective (cur ∷ []) ls (ground arith) in
      subst (λ ks. (is_filter ks ≡ true) × (join ks ≡ cur ++ [])) e
        (rw (good, p) refl, sym (append-nil cur))
]
stream_sound cur (c ∷ rest) ls p q h = elim (Bool-cases (c == b'/')) [
  | inl slash ↦ elim (Bool-cases (bad_level cur)) [
    | inl bad ↦ ground arith
    | inr good ↦
        let (ms, e, same_ls) = stream_ends cur (stream [] rest) ls (ground arith) in
        let (f, j) = stream_sound [] rest ms refl refl e in
        let (k, l) = cons_filter cur ms f in (ground arith, ground (arith, (==_iff c b'/').0 slash))
  ]
  | inr other ↦ elim (Bool-cases ((c == b'#') && not (is_empty rest))) [
    | inl bad ↦ ground arith
    | inr good ↦
        let (f, j) =
          stream_sound (cur ++ c ∷ []) rest ls (ground (arith, has-append b'/' cur (c ∷ [])))
            (ground (arith, has-append b'#' cur (c ∷ []))) (ground arith) in
        (f, j ∙ append_assoc cur (c ∷ []) rest)
  ]
]

-- A level goes through a scan whole: up to a slash, and at the end of the text.
scan_level :
    (cur l : Level) (rest : Bytes)
    → has b'/' l ≡ false
    → has b'#' l ≡ false
    → stream cur (l ++ rest) ≡ stream (cur ++ l) rest
unfolding stream has
scan_level cur [] rest p q = rw append-nil refl
scan_level cur (c ∷ l) rest p q =
    ground (arith, scan_level (cur ++ c ∷ []) l rest, append_assoc cur (c ∷ []) l)

has_hash-wild : (l : Level) → has_wild l ≡ false → has b'#' l ≡ false
unfolding has has_wild
has_hash-wild [] h = refl
has_hash-wild (c ∷ l) h = ground (arith, has_hash-wild l)

stream_last : (l : Level) → is_filter (l ∷ []) ≡ true → stream [] l ≡ some (l ∷ [])
unfolding stream is_filter has has_wild is_empty
stream_last [] h = refl
stream_last (c ∷ []) h = ground arith
stream_last (c ∷ d ∷ l) h =
    let free : has_wild (c ∷ d ∷ l) ≡ false = ground arith in
    ap (stream []) (sym (append-nil (c ∷ d ∷ l)))
    ∙ scan_level [] (c ∷ d ∷ l) [] (ground arith) (has_hash-wild (c ∷ d ∷ l) free)
    ∙ rw (free, bad_level) (ground arith)

stream_complete : (ls : List Level) → is_filter ls ≡ true → stream [] (join ls) ≡ some ls
unfolding stream is_filter join
stream_complete [] h = cc
stream_complete (l ∷ []) h = stream_last l h
stream_complete (l ∷ m ∷ ls) h =
    ground (arith, scan_level [] l (b'/' ∷ join (m ∷ ls)), stream_complete (m ∷ ls))

split_topic-stream : (topic : Bytes) → split_topic topic ≡ stream [] topic
unfolding is_valid
split_topic-stream topic =
    ground (arith, split_topic-pieces topic, stream-accepted [] topic, glue_nil (pieces topic))

-- A topic is split into levels exactly if they are the levels of a topic or filter, and joined by
-- slashes they are the topic: splitting and joining are inverse to one another.
pub split_topic-join :
    (topic : Bytes) (ls : List Level)
    → (split_topic topic ≡ some ls) ↔ ((is_filter ls ≡ true) × (join ls ≡ topic))
unfolding has
split_topic-join topic ls = (
  λ h. stream_sound [] topic ls refl refl (sym (split_topic-stream topic) ∙ h),
  λ (f, j). split_topic-stream topic ∙ ap (stream []) (sym j) ∙ stream_complete ls f,
)
