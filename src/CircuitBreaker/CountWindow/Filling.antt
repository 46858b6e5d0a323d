-- ===== src/CircuitBreaker/CountWindow/Filling.antt =====
-- pkg/util/circuitbreaker/circuitbreaker.go: a count based window that has not been filled holds all
-- the results that were pushed since it was made.
use mathlib.Core.List.{append_assoc}
use easegress.Prelude.{
  ℕ, suc, ◌-◌, ◌≤◌, ◌<◌, ◌≡◌, ◌≢◌, refl, ap, ◌∙◌, some, List, [], ◌∷◌, ◌++◌, arith, length,
  length-append, replicate, drop, sum_by, sum_by-append, sum_by-replicate, sum_by-rotate, All,
  u32_mod,
}
use easegress.CircuitBreaker.Results.{CallResult, unknown}
use easegress.CircuitBreaker.CountWindow.{CountBasedWindow, new_count_window, push}
use easegress.CircuitBreaker.CountWindow.Invariant.{
  Inv, is_recorded, is_recorded_known, new_count_window-Inv,
}
use easegress.CircuitBreaker.CountWindow.Latest.{chronicle, push-chronicle}

-- The window of `n` buckets holds the results `rs`, oldest first, and its other buckets are unused.
pub record Filled (n : ℕ) (rs : List CallResult) (w : CountBasedWindow) : Type 0 where
  pub inv : Inv w
  pub fits : length rs ≤ n
  pub known : All (λ r. r ≢ unknown) rs
  pub held : chronicle w ≡ replicate (n - length rs) unknown ++ rs

pub new_count_window-Filled : (n : ℕ) → 0 < n → n < u32_mod → Filled n [] (new_count_window n)
unfolding new_count_window
new_count_window-Filled n h k = record {
  inv = new_count_window-Inv n h k;
  fits = omega arith;
  known = tt;
  held = ap (λ m. replicate m unknown ++ []) {y = n - 0} (omega arith);
}

All-snoc :
    (rs : List CallResult) (r : CallResult)
    → All (λ q. q ≢ unknown) rs
    → r ≢ unknown
    → All (λ q. q ≢ unknown) (rs ++ r ∷ [])
All-snoc [] r a h = (h, tt)
All-snoc (q ∷ rs) r (one, rest) h = (one, All-snoc rs r rest h)

held_snoc :
    (n : ℕ) (rs : List CallResult) (r : CallResult)
    → length rs < n
    → drop 1 (replicate (n - length rs) unknown ++ rs) ++ r ∷ []
      ≡ replicate (n - length (rs ++ r ∷ [])) unknown ++ (rs ++ r ∷ [])
held_snoc n rs r h =
    let k = n - length (rs ++ r ∷ []) in
    let free : n - length rs ≡ suc k = omega (arith, length-append rs (r ∷ [])) in
    rw free (append_assoc (replicate k unknown) rs (r ∷ []))

pub push-Filled :
    (n : ℕ) (rs : List CallResult) (r : CallResult) (w : CountBasedWindow)
    → Filled n rs w
    → length rs < n
    → r ≢ unknown
    → (w' : CountBasedWindow) × (push w r ≡ some w') × Filled n (rs ++ r ∷ []) w'
push-Filled n rs r w v h known =
    let (w', pushed, inv, moved) = push-chronicle w r v.inv known in
    (
      w',
      pushed,
      record {
        inv = inv;
        fits = omega (arith, length-append rs (r ∷ []));
        known = All-snoc rs r v.known known;
        held = moved ∙ ap (λ c. drop 1 c ++ r ∷ []) v.held ∙ held_snoc n rs r h;
      },
    )

sum_by_known :
    (rs : List CallResult) → All (λ r. r ≢ unknown) rs → sum_by is_recorded rs ≡ length rs
sum_by_known [] a = refl
sum_by_known (r ∷ rs) (one, rest) = omega (arith, is_recorded_known r one, sum_by_known rs rest)

-- Its total is the number of those results.
pub total-Filled :
    (n : ℕ) (rs : List CallResult) (w : CountBasedWindow) → Filled n rs w → w.total ≡ length rs
total-Filled n rs w v = omega (
  arith,
  v.inv.total_counts,
  sum_by-rotate is_recorded w.bucket_idx w.bucket,
  ap (sum_by is_recorded) v.held,
  sum_by-append is_recorded (replicate (n - length rs) unknown) rs,
  sum_by-replicate is_recorded (n - length rs) unknown refl,
  sum_by_known rs v.known,
)
