-- ===== src/CircuitBreaker/TimeWindow/Evict.antt =====
-- pkg/util/circuitbreaker/circuitbreaker.go: `evict` of the time based window moves the ring to the
-- seconds that the current time asks for.
use Prim.Native.Nat.{max}
use easegress.Prelude.{
  ℕ, zero, suc, ◌+◌, ◌-◌, ◌*◌, ◌/◌, ◌≤◌, ◌≡◌, ◌⊎◌, refl, ap, subst, ◌∙◌, some, [], ◌∷◌, arith,
  get_elem?-some, tabulate, ltb, Bool-cases, inl, inr, if◌then◌else◌,
}
use easegress.Prelude.Int.{pos}
use easegress.CircuitBreaker.TimeWindow.{
  TimeBucket, TimeBasedWindow, second, evict_first, evict_loop, evict_for, evict, seconds_since,
}
use easegress.CircuitBreaker.TimeWindow.Ring.{
  History, bucket_at, Before, bucket_at_after, Ring, evict_first-Ring,
}

pub Before-mono : (n k : ℕ) (h : History) → Before n h → n ≤ k → Before k h
Before-mono n k [] b le = tt
Before-mono n k (e ∷ h) (now, rest) le = (omega arith, Before-mono n k h rest le)

evict_first-begin_at :
    (w : TimeBasedWindow) (b : TimeBucket) → (evict_first w b).begin_at ≡ w.begin_at
unfolding evict_first
evict_first-begin_at w b = refl

tabulate_empty :
    (h : History) (base base' n : ℕ)
    → Before base h
    → base ≤ base'
    → tabulate (bucket_at h) base n ≡ tabulate (bucket_at h) base' n
tabulate_empty h base base' zero b le = refl
tabulate_empty h base base' (suc n) b le = rw (
  bucket_at_after base base h b (omega arith),
  bucket_at_after base base' h b le,
  tabulate_empty h (suc base) (suc base') n (Before-mono base (suc base) h b (omega arith))
      (omega arith),
)

-- The loop empties as many buckets as it makes rounds, and the ring moves on by as many seconds.
evict_loop-Ring :
    (k : ℕ) (h : History) (base size : ℕ) (w : TimeBasedWindow)
    → Ring h base size w
    → Before (base + size) h
    → (w' : TimeBasedWindow) × (evict_loop k w ≡ some w')
      × Ring h (base + k) size w'
      × (w'.begin_at ≡ w.begin_at)
unfolding evict_loop
evict_loop-Ring zero h base size w v b =
    (w, refl, subst (λ n. Ring h n size w) {x = base} (omega arith) v, refl)
evict_loop-Ring (suc k) h base zero w v b = absurd (omega (arith, v.first_fits))
evict_loop-Ring (suc k) h base (suc n) w v b =
    let (c, e) = get_elem?-some w.bucket w.first_bucket (omega (arith, v.first_fits, v.sized)) in
    let v' = evict_first-Ring h base n w c v b e in
    let b' = Before-mono (base + suc n) (suc base + suc n) h b (omega arith) in
    let (w', run, v'', at) = evict_loop-Ring k h (suc base) (suc n) (evict_first w c) v' b' in
    (
      w',
      rw e run,
      subst (λ m. Ring h m (suc n) w') {x = suc base + k} (omega arith) v'',
      at ∙ evict_first-begin_at w c,
    )

-- Once every call is gone, the empty ring stands for any later seconds.
Ring-later :
    (h : History) (base base' size : ℕ) (w : TimeBasedWindow)
    → Ring h base size w
    → Before base h
    → base ≤ base'
    → Ring h base' size w
Ring-later h base base' size w v b le = record {
  sized = v.sized;
  first_fits = v.first_fits;
  shape = v.shape ∙ tabulate_empty h base base' size b le;
  totals = v.totals;
  slows = v.slows;
  failures = v.failures;
}

-- The window seen at a later begin; the loop reads the buckets only.
Ring-moved :
    (h : History) (base size t : ℕ) (w : TimeBasedWindow)
    → Ring h base size w
    → Ring h base size (record w { begin_at = t })
Ring-moved h base size t w v = record {
  sized = v.sized;
  first_fits = v.first_fits;
  shape = v.shape;
  totals = v.totals;
  slows = v.slows;
  failures = v.failures;
}

pub seconds_since_lem :
    (now begin base : ℕ)
    → begin ≡ base * second
    → base ≤ now / second
    → seconds_since now begin ≡ pos (now / second - base)
unfolding seconds_since
seconds_since_lem now begin base at le = ground arith

-- After at most `size` rounds the ring stands for all the seconds to evict, however many.
Ring-evicted :
    (h : History) (base size rounds evicts : ℕ) (w : TimeBasedWindow)
    → Ring h (base + rounds) size w
    → Before (base + size) h
    → (rounds ≡ evicts) ⊎ (rounds ≡ size) × (size ≤ evicts)
    → Ring h (base + evicts) size w
Ring-evicted h base size rounds evicts w v b (inl e) = subst (λ n. Ring h (base + n) size w) e v
Ring-evicted h base size rounds evicts w v b (inr (e, le)) =
    Ring-later h (base + size) (base + evicts) size w (subst (λ n. Ring h (base + n) size w) e v) b
      (omega arith)

-- Where the begin of the window moves, `base` and the loop's rounds go with it.
evict_for-Ring :
    (h : History) (base size s : ℕ) (w : TimeBasedWindow)
    → Ring h base size w
    → Before (base + size) h
    → w.begin_at ≡ base * second
    → let base' = max base (base + s + 1 - size) in
      (w' : TimeBasedWindow) × (evict_for s w ≡ some w')
      × Ring h base' size w'
      × (w'.begin_at ≡ base' * second)
unfolding evict_for
evict_for-Ring h base size s w v b at = rw v.sized (elim (Bool-cases (ltb s size)) [
  | inl young ↦
      let stay : base ≡ max base (base + s + 1 - size) = ground arith in
      (w, rw young, subst (λ n. Ring h n size w) stay v, at ∙ ap (λ n. n * second) stay)
  | inr old ↦
      let evicts = s - size + 1 in
      let to : base + evicts ≡ max base (base + s + 1 - size) = ground arith in
      let t = w.begin_at + evicts * second in
      let moved = record w { begin_at = t } in
      let rounds = if ltb size evicts then size else evicts in
      let (w', run, v', at') =
        evict_loop-Ring rounds h base size moved (Ring-moved h base size t w v) b in
      let v'' = Ring-evicted h base size rounds evicts w' v' b (ground arith) in
      (w', rw old run, subst (λ n. Ring h n size w') to v'', at' ∙ omega (arith, at, to))
])

-- `evict` at a time that is not before the window's begin.
pub evict-Ring :
    (h : History) (base size now : ℕ) (w : TimeBasedWindow)
    → Ring h base size w
    → Before (base + size) h
    → w.begin_at ≡ base * second
    → base ≤ now / second
    → let base' = max base (now / second + 1 - size) in
      (w' : TimeBasedWindow) × (evict now w ≡ some w')
      × Ring h base' size w'
      × (w'.begin_at ≡ base' * second)
unfolding evict
evict-Ring h base size now w v b at le =
    let (w', run, v', at') = evict_for-Ring h base size (now / second - base) w v b at in
    let same : base + (now / second - base) + 1 - size ≡ now / second + 1 - size = omega arith in
    (
      w',
      rw (seconds_since_lem now w.begin_at base at le, evict) run,
      subst (λ n. Ring h (max base n) size w') same v',
      at' ∙ ap (λ n. max base n * second) same,
    )
