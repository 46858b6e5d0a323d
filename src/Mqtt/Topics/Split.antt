-- ===== src/Mqtt/Topics/Split.antt =====
-- `splitTopic` accepts the valid topics, and gives the texts between the slashes.
use easegress.Prelude.{
  ℕ, suc, ◌+◌, ◌-◌, ◌≡◌, refl, ap, ◌∙◌, not, ◌&&◌, Option, none, some, ◌>>=◌, inl, inr, List, [],
  ◌∷◌, ◌++◌, arith, if◌then◌else◌, ◌==◌, length, length-append, take, drop, set, replicate,
  Bool-cases,
}
use mathlib.Core.List.{append_assoc}
use easegress.Prelude.Keys.{Bytes}
use easegress.Mqtt.Trie.{Level}
use easegress.Mqtt.Topics.{
  slice, count_slashes, Scan, split_step, split_loop, split_end, split_topic,
}
use easegress.Mqtt.Topics.Pieces.{glue_nil, pieces, bad_level, is_valid, has_wild, has_wild-append}
use easegress.Mqtt.Topics.Stream.{is_empty, after, stream, stream-accepted}

drop-append : (s t : Bytes) → drop (length s) (s ++ t) ≡ t
drop-append [] t = refl
drop-append (c ∷ s) t = drop-append s t

take-append : (s t : Bytes) → take (length s) (s ++ t) ≡ s
take-append [] t = refl
take-append (c ∷ s) t = ap (λ r. c ∷ r) (take-append s t)

set-append :
    (done more : List Level) (old new : Level)
    → set (done ++ old ∷ more) (length done) new ≡ done ++ new ∷ more
set-append [] more old new = refl
set-append (d ∷ done) more old new = ap (λ r. d ∷ r) (set-append done more old new)

-- The bytes of the topic between the start of the level and the place in hand.
slice_middle :
    (topic pre cur rest : Bytes) (i : ℕ)
    → topic ≡ pre ++ (cur ++ rest)
    → i ≡ length pre + length cur
    → slice topic (length pre) i ≡ cur
unfolding slice
slice_middle topic pre cur rest i e k = ground (
  arith,
  drop-append pre (cur ++ rest),
  take-append cur rest,
  (let d : i - length pre ≡ length cur = omega arith in d),
)

-- The variables of the loop with `done` written, `pre` before the level and `cur` of it in hand.
abbrev at : Bytes → Bytes → Bytes → List Level → Scan
at pre cur rest done = record {
  levels = done ++ replicate (suc (count_slashes rest)) [];
  levels_loc = length done;
  level_start = length pre;
  wild_card_flag = has_wild cur;
}

is_empty-length {ℓ} : {A : Type ℓ} (xs : List A) → is_empty xs ≡ (length xs == 0)
unfolding is_empty
is_empty-length [] = refl
is_empty-length (x ∷ xs) = ground arith

-- The length of a topic around the place in hand.
length_around :
    (topic pre cur rest : Bytes) (c : ℕ)
    → topic ≡ pre ++ (cur ++ c ∷ rest)
    → length topic ≡ length pre + length cur + length rest + 1
length_around topic pre cur rest c e =
    rw e (omega (arith, length-append pre (cur ++ c ∷ rest), length-append cur (c ∷ rest)))

step_lem :
    (topic pre cur rest : Bytes) (c i : ℕ) (done : List Level)
    → topic ≡ pre ++ (cur ++ c ∷ rest)
    → i ≡ length pre + length cur
    → split_step topic c i (at pre cur (c ∷ rest) done) ≡ (
        if c == b'/'
        then (if bad_level cur
            then none
            else some (at (pre ++ (cur ++ c ∷ [])) [] rest (done ++ cur ∷ [])))
        else if (c == b'#') && not (is_empty rest)
        then none
        else some (at pre (cur ++ c ∷ []) rest done))
unfolding split_step count_slashes has_wild
step_lem topic pre cur rest c i done e k = elim (Bool-cases (c == b'/')) [
  | inl slash ↦ ground (
    arith,
    slice_middle topic pre cur (c ∷ rest) i,
    set-append done (replicate (suc (count_slashes rest)) []) [] cur,
    append_assoc done (cur ∷ []) (replicate (suc (count_slashes rest)) []),
    length-append done (cur ∷ []),
    length-append pre (cur ++ c ∷ []),
    length-append cur (c ∷ []),
  )
  | inr other ↦ ground (
    arith,
    has_wild-append cur (c ∷ []),
    is_empty-length rest,
    length_around topic pre cur rest c,
  )
]

abbrev prefixed : List Level → Option (List Level) → Option (List Level)
prefixed done none = none
prefixed done (some ls) = some (done ++ ls)

prefixed-after :
    (done : List Level) (l : Level) (o : Option (List Level))
    → prefixed (done ++ l ∷ []) o ≡ prefixed done (after l o)
prefixed-after done l none = refl
prefixed-after done l (some ls) = ap some (append_assoc done (l ∷ []) ls)

-- The loop from any place on, and the level that it leaves open.
scan_lem :
    (topic pre cur rest : Bytes) (i : ℕ) (done : List Level)
    → topic ≡ pre ++ (cur ++ rest)
    → i ≡ length pre + length cur
    → (split_loop topic rest i (at pre cur rest done) >>= split_end topic)
      ≡ prefixed done (stream cur rest)
unfolding split_loop split_end stream count_slashes
scan_lem topic pre cur [] i done e k = ground (
  arith,
  slice_middle topic pre cur [] (length topic),
  (let d : length topic ≡ length pre + length cur =
        rw e (omega (arith, length-append pre (cur ++ []), length-append cur [])) in
      d),
  set-append done [] [] cur,
)
scan_lem topic pre cur (c ∷ rest) i done e k =
    rw (step_lem topic pre cur rest c i done e k) (elim (Bool-cases (c == b'/')) [
      | inl slash ↦ elim (Bool-cases (bad_level cur)) [
        | inl bad ↦ rw (slash, bad) refl
        | inr good ↦
            rw (slash, good)
              (scan_lem topic (pre ++ (cur ++ c ∷ [])) [] rest (i + 1) (done ++ cur ∷ [])
                  (e ∙ simp append_assoc)
                  (omega (arith, length-append pre (cur ++ c ∷ []), length-append cur (c ∷ [])))
                ∙ prefixed-after done cur (stream [] rest))
      ]
      | inr other ↦ elim (Bool-cases ((c == b'#') && not (is_empty rest))) [
        | inl bad ↦ rw (other, bad) refl
        | inr good ↦
            rw (other, good)
              (scan_lem topic pre (cur ++ c ∷ []) rest (i + 1) done (e ∙ simp append_assoc)
                (omega (arith, length-append cur (c ∷ []))))
      ]
    ])

-- A topic is split exactly if it is valid, into the texts between its slashes.
pub split_topic-pieces :
    (topic : Bytes) → split_topic topic ≡ (if is_valid topic then some (pieces topic) else none)
unfolding split_topic is_valid has_wild
split_topic-pieces topic = ground (
  arith,
  scan_lem topic [] [] topic 0 [] refl (omega arith),
  stream-accepted [] topic,
  glue_nil (pieces topic),
  (let d : count_slashes topic + 1 ≡ suc (count_slashes topic) = omega arith in d),
)
