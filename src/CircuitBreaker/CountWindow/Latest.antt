-- ===== src/CircuitBreaker/CountWindow/Latest.antt =====
-- pkg/util/circuitbreaker/circuitbreaker.go: the count based window holds the latest results, as
-- many as it has buckets.
use easegress.Prelude.{
  ℕ, suc, ◌<◌, ◌≡◌, ◌≢◌, refl, sym, ap, ◌∙◌, inl, inr, some, List, [], ◌∷◌, ◌++◌, arith, length,
  get_elem?, replicate, drop, take, length-append, sum_by, sum_by-rotate, get_elem?-some, rotate,
  rotate-set_next, rotate-set_last, take-append-drop, leb, Bool-cases, All, u32_mod,
}
use mathlib.Core.List.{append_assoc, append-nil}
use easegress.CircuitBreaker.Results.{CallResult, unknown}
use easegress.CircuitBreaker.CountWindow.{CountBasedWindow, new_count_window, place, push, push_all}
use easegress.CircuitBreaker.CountWindow.Invariant.{
  Inv, is_recorded, is_slow, is_failure, new_count_window-Inv, push-Inv,
}

-- The results in the window, oldest first.
abbrev pub chronicle : CountBasedWindow → List CallResult
chronicle w = rotate w.bucket_idx w.bucket

placed-chronicle :
    (w : CountBasedWindow) (r old : CallResult)
    → Inv w
    → get_elem? w.bucket w.bucket_idx ≡ some old
    → chronicle (place r w) ≡ drop 1 (chronicle w) ++ r ∷ []
unfolding place
placed-chronicle w r old v e = elim (Bool-cases (leb (length w.bucket) (suc w.bucket_idx))) [
  | inl last ↦
      let full : length w.bucket ≡ suc w.bucket_idx = ground (arith, v) in
      let (before, after) = rotate-set_last w.bucket w.bucket_idx old r e full in
      rw last (after ∙ ap (λ t. drop 1 t ++ r ∷ []) (sym before))
  | inr more ↦
      let (before, after) = rotate-set_next w.bucket w.bucket_idx old r e (ground (arith, v)) in
      rw more (after ∙ ap (λ t. drop 1 t ++ r ∷ []) (sym before))
]

-- One push drops the oldest result and adds the new one at the end.
pub push-chronicle :
    (w : CountBasedWindow) (r : CallResult)
    → Inv w
    → r ≢ unknown
    → (w' : CountBasedWindow) × (push w r ≡ some w')
      × Inv w'
      × (chronicle w' ≡ drop 1 (chronicle w) ++ r ∷ [])
push-chronicle w r v known =
    let (w', pushed, v', same, at) = push-Inv w r v known in
    let (old, e) = get_elem?-some w.bucket w.bucket_idx v.index_fits in
    (w', pushed, v', rw (same, at) (placed-chronicle w r old v e))

-- The last `size` of the results, after `size` unknown ones that stand for what was not yet pushed.
abbrev pub latest : ℕ → List CallResult → List CallResult
latest size rs = drop (length rs) (replicate size unknown ++ rs)

drop-shift :
    (c : List CallResult) (r : CallResult) (rs : List CallResult)
    → 0 < length c
    → drop (length rs) ((drop 1 c ++ r ∷ []) ++ rs) ≡ drop (length (r ∷ rs)) (c ++ r ∷ rs)
drop-shift [] r rs h = elim h [ ]
drop-shift (x ∷ c) r rs h = rw append_assoc

pub chronicle-length : (w : CountBasedWindow) → length (chronicle w) ≡ length w.bucket
chronicle-length w = omega (
  arith,
  length-append (drop w.bucket_idx w.bucket) (take w.bucket_idx w.bucket),
  length-append (take w.bucket_idx w.bucket) (drop w.bucket_idx w.bucket),
  ap length (take-append-drop w.bucket_idx w.bucket),
)

push_all-chronicle :
    (w : CountBasedWindow) (rs : List CallResult)
    → Inv w
    → All (λ r. r ≢ unknown) rs
    → (w' : CountBasedWindow) × (push_all w rs ≡ some w')
      × Inv w'
      × (chronicle w' ≡ drop (length rs) (chronicle w ++ rs))
unfolding push_all
push_all-chronicle w [] v known = (w, refl, v, sym (append-nil _))
push_all-chronicle w (r ∷ rs) v (one, rest) =
    let (u, pushed, v', moved) = push-chronicle w r v one in
    let (w', all, v'', e) = push_all-chronicle u rs v' rest in
    (
      w',
      rw pushed all,
      v'',
      e
          ∙ ap (λ t. drop (length rs) (t ++ rs)) moved
          ∙ drop-shift (chronicle w) r rs (omega (arith, chronicle-length w, v.index_fits)),
    )

-- A new window of any positive size below 2^32 that known results were pushed into counts the latest
-- of them, as many as it has buckets: all of them, the slow ones and the failures. No push panics.
pub push_all-latest :
    (size : ℕ) (rs : List CallResult)
    → 0 < size
    → size < u32_mod
    → All (λ r. r ≢ unknown) rs
    → (w : CountBasedWindow) × (push_all (new_count_window size) rs ≡ some w)
      × (w.total ≡ sum_by is_recorded (latest size rs))
      × (w.slow_count ≡ sum_by is_slow (latest size rs))
      × (w.failure_count ≡ sum_by is_failure (latest size rs))
unfolding new_count_window
push_all-latest size rs h k known =
    let start = new_count_window size in
    let (w, all, v, e) = push_all-chronicle start rs (new_count_window-Inv size h k) known in
    let held : chronicle w ≡ latest size rs =
      e ∙ ap (λ t. drop (length rs) (t ++ rs)) (append-nil _) in
    (
      w,
      all,
      v.total_counts
          ∙ sym (sum_by-rotate is_recorded w.bucket_idx w.bucket)
          ∙ ap (sum_by is_recorded) held,
      v.slow_counts ∙ sym (sum_by-rotate is_slow w.bucket_idx w.bucket) ∙ ap (sum_by is_slow) held,
      v.failure_counts
          ∙ sym (sum_by-rotate is_failure w.bucket_idx w.bucket)
          ∙ ap (sum_by is_failure) held,
    )
