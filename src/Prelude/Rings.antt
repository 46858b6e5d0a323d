-- ===== src/Prelude/Rings.antt =====
-- Lists used as rings: the rotation that puts the oldest place first, and access to its places.
use Prim.Native.Nat.{ℕ, zero, suc, ◌+◌, ◌-◌, ◌%◌, ◌≤◌, ◌<◌}
use mathlib.Core.Path.{◌≡◌, refl, sym, ap, ap₂, ◌∙◌}
use mathlib.Core.List.{List, [], ◌∷◌, ◌++◌, append_assoc, append-nil}
use mathlib.Core.Option.{some}
use native.Mathlib.Omega.{arith}
use native.Mathlib.Decide.{dec_lt}
use native.Mathlib.Nat.{mod-eq-sub-mod, mod-eq_of_lt}
use mathlib.Core.Logic.{◌≢◌}
use easegress.Prelude.Lists.{
  length, get_elem?, set, take, drop, length-set, length-drop, get_elem?-set_self, get_elem?_lt,
  take-append-drop, sum_by, sum_by-append,
}

-- The index of the place `s` behind the oldest one, at `i`, goes round the end of the ring.
place_round : (i s n : ℕ) → i < n → s < n → n ≤ i + s → (i + s) % n ≡ i + s - n
place_round i s n h k r = mod-eq-sub-mod r ∙ mod-eq_of_lt (omega arith)

-- A ring read from its oldest place: what stands at and behind `i`, then what stands before it.
module _ {ℓ} {A : Type ℓ} where
  abbrev pub rotate : ℕ → List A → List A
  rotate i xs = drop i xs ++ take i xs

  pub drop_split :
      (xs : List A) (i : ℕ) (x : A) → get_elem? xs i ≡ some x → drop i xs ≡ x ∷ drop (suc i) xs
  drop_split [] i x h = cc
  drop_split (y ∷ ys) zero x h = cc
  drop_split (y ∷ ys) (suc i) x h = drop_split ys i x h

  pub take-suc :
      (xs : List A) (i : ℕ) (x : A)
      → get_elem? xs i ≡ some x
      → take (suc i) xs ≡ take i xs ++ x ∷ []
  take-suc [] i x h = cc
  take-suc (y ∷ ys) zero x h = cc
  take-suc (y ∷ ys) (suc i) x h = rw (take-suc ys i x h)

  pub drop-set_before : (xs : List A) (i : ℕ) (v : A) → drop (suc i) (set xs i v) ≡ drop (suc i) xs
  drop-set_before [] i v = refl
  drop-set_before (y ∷ ys) zero v = refl
  drop-set_before (y ∷ ys) (suc i) v = drop-set_before ys i v

  pub take-set_at : (xs : List A) (i : ℕ) (v : A) → take i (set xs i v) ≡ take i xs
  take-set_at [] i v = refl
  take-set_at (y ∷ ys) zero v = refl
  take-set_at (y ∷ ys) (suc i) v = rw (take-set_at ys i v)

  pub drop_end : (xs : List A) (i : ℕ) → length xs ≤ i → drop i xs ≡ []
  drop_end [] zero h = refl
  drop_end [] (suc i) h = refl
  drop_end (y ∷ ys) zero h = elim h [ ]
  drop_end (y ∷ ys) (suc i) h = drop_end ys i (omega arith)

  pub take_all : (xs : List A) (i : ℕ) → length xs ≤ i → take i xs ≡ xs
  take_all [] zero h = refl
  take_all [] (suc i) h = refl
  take_all (y ∷ ys) zero h = elim h [ ]
  take_all (y ∷ ys) (suc i) h = rw (take_all ys i (omega arith))

  -- Overwriting the oldest place and stepping on, with the step round the end.
  pub rotate-set_next :
      (xs : List A) (i : ℕ) (x v : A)
      → get_elem? xs i ≡ some x
      → suc i < length xs
      → (rotate i xs ≡ x ∷ (drop (suc i) xs ++ take i xs))
        × (rotate (suc i) (set xs i v) ≡ (drop (suc i) xs ++ take i xs) ++ v ∷ [])
  rotate-set_next xs i x v h lt = (
    rw (drop_split xs i x h),
    rw (
      drop-set_before xs i v,
      take-suc (set xs i v) i v (get_elem?-set_self xs i v (omega arith)),
      take-set_at xs i v,
      append_assoc,
    ),
  )

  pub rotate-set_last :
      (xs : List A) (i : ℕ) (x v : A)
      → get_elem? xs i ≡ some x
      → length xs ≡ suc i
      → (rotate i xs ≡ x ∷ take i xs) × (rotate 0 (set xs i v) ≡ take i xs ++ v ∷ [])
  rotate-set_last xs i x v h e = (
    rw (drop_split xs i x h, drop_end xs (suc i) (omega arith)),
    rw append-nil (
        sym (take_all (set xs i v) (suc i) (omega (arith, length-set xs i v)))
        ∙ take-suc (set xs i v) i v (get_elem?-set_self xs i v (omega arith))
        ∙ ap (λ t. t ++ v ∷ []) (take-set_at xs i v)),
  )

  pub sum_by-rotate : (f : A → ℕ) (i : ℕ) (xs : List A) → sum_by f (rotate i xs) ≡ sum_by f xs
  sum_by-rotate f i xs = omega (
    arith,
    sum_by-append f (drop i xs) (take i xs),
    sum_by-append f (take i xs) (drop i xs),
    ap (sum_by f) (take-append-drop i xs),
  )

  -- An access to the ring: the place `s` behind the oldest one.
  get_elem?-append_left :
      (xs ys : List A) (s : ℕ) → s < length xs → get_elem? (xs ++ ys) s ≡ get_elem? xs s
  get_elem?-append_left [] ys s h = elim h [ ]
  get_elem?-append_left (x ∷ xs) ys zero h = refl
  get_elem?-append_left (x ∷ xs) ys (suc s) h = get_elem?-append_left xs ys s (omega arith)

  get_elem?-append_right :
      (xs ys : List A) (s : ℕ)
      → length xs ≤ s
      → get_elem? (xs ++ ys) s ≡ get_elem? ys (s - length xs)
  get_elem?-append_right [] ys s h = ap (get_elem? ys) (omega arith)
  get_elem?-append_right (x ∷ xs) ys zero h = elim h [ ]
  get_elem?-append_right (x ∷ xs) ys (suc s) h =
      get_elem?-append_right xs ys s (omega arith) ∙ ap (get_elem? ys) (omega arith)

  set-append_left :
      (xs ys : List A) (s : ℕ) (v : A) → s < length xs → set (xs ++ ys) s v ≡ set xs s v ++ ys
  set-append_left [] ys s v h = elim h [ ]
  set-append_left (x ∷ xs) ys zero v h = refl
  set-append_left (x ∷ xs) ys (suc s) v h = rw (set-append_left xs ys s v (omega arith))

  set-append_right :
      (xs ys : List A) (s : ℕ) (v : A)
      → length xs ≤ s
      → set (xs ++ ys) s v ≡ xs ++ set ys (s - length xs) v
  set-append_right [] ys s v h = ap (λ k. set ys k v) (omega arith)
  set-append_right (x ∷ xs) ys zero v h = elim h [ ]
  set-append_right (x ∷ xs) ys (suc s) v h =
      ap (◌∷◌ x) (set-append_right xs ys s v (omega arith))
      ∙ ap (λ k. x ∷ (xs ++ set ys k v)) (omega arith)

  get_elem?-drop : (i s : ℕ) (xs : List A) → get_elem? (drop i xs) s ≡ get_elem? xs (i + s)
  get_elem?-drop zero s xs = ap (get_elem? xs) (omega arith)
  get_elem?-drop (suc i) s [] = refl
  get_elem?-drop (suc i) s (x ∷ xs) =
      get_elem?-drop i s xs ∙ ap (get_elem? (x ∷ xs)) {x = suc (i + s)} (omega arith)

  get_elem?-take : (i k : ℕ) (xs : List A) → k < i → get_elem? (take i xs) k ≡ get_elem? xs k
  get_elem?-take zero k xs h = elim h [ ]
  get_elem?-take (suc i) k [] h = refl
  get_elem?-take (suc i) zero (x ∷ xs) h = refl
  get_elem?-take (suc i) (suc k) (x ∷ xs) h = get_elem?-take i k xs (omega arith)

  set-drop : (i s : ℕ) (xs : List A) (v : A) → drop i (set xs (i + s) v) ≡ set (drop i xs) s v
  set-drop zero s xs v = ap (λ k. set xs k v) (omega arith)
  set-drop (suc i) s [] v = refl
  set-drop (suc i) s (x ∷ xs) v =
      ap (λ k. drop (suc i) (set (x ∷ xs) k v)) {y = suc (i + s)} (omega arith) ∙ set-drop i s xs v

  take-set_after : (i k : ℕ) (xs : List A) (v : A) → i ≤ k → take i (set xs k v) ≡ take i xs
  take-set_after zero k xs v h = refl
  take-set_after (suc i) k [] v h = refl
  take-set_after (suc i) zero (x ∷ xs) v h = elim h [ ]
  take-set_after (suc i) (suc k) (x ∷ xs) v h = ap (◌∷◌ x) (take-set_after i k xs v (omega arith))

  set-take : (i k : ℕ) (xs : List A) (v : A) → take i (set xs k v) ≡ set (take i xs) k v
  set-take zero k xs v = refl
  set-take (suc i) k [] v = refl
  set-take (suc i) zero (x ∷ xs) v = refl
  set-take (suc i) (suc k) (x ∷ xs) v = ap (◌∷◌ x) (set-take i k xs v)

  drop-set_after : (i k : ℕ) (xs : List A) (v : A) → k < i → drop i (set xs k v) ≡ drop i xs
  drop-set_after zero k xs v h = elim h [ ]
  drop-set_after (suc i) k [] v h = refl
  drop-set_after (suc i) zero (x ∷ xs) v h = refl
  drop-set_after (suc i) (suc k) (x ∷ xs) v h = drop-set_after i k xs v (omega arith)

  pub get_elem?-rotate :
      (i s : ℕ) (xs : List A)
      → i < length xs
      → s < length xs
      → get_elem? (rotate i xs) s ≡ get_elem? xs ((i + s) % length xs)
  get_elem?-rotate i s xs h k = elim (dec_lt (i + s) (length xs)) [
    | yes inside ↦
        get_elem?-append_left (drop i xs) (take i xs) s (omega (arith, length-drop i xs))
        ∙ get_elem?-drop i s xs
        ∙ ap (get_elem? xs) (sym (mod-eq_of_lt inside))
    | no round ↦
        let back = length-drop i xs in
        get_elem?-append_right (drop i xs) (take i xs) s (omega arith)
        ∙ get_elem?-take i (s - length (drop i xs)) xs (omega arith)
        ∙ ap (get_elem? xs) (omega (arith, place_round i s (length xs) h k (omega arith)))
  ]

  pub rotate-set :
      (i s : ℕ) (xs : List A) (v : A)
      → i < length xs
      → s < length xs
      → rotate i (set xs ((i + s) % length xs) v) ≡ set (rotate i xs) s v
  rotate-set i s xs v h k = elim (dec_lt (i + s) (length xs)) [
    | yes inside ↦
        rw (mod-eq_of_lt inside, set-drop i s xs v, take-set_after i (i + s) xs v (omega arith))
          (sym (set-append_left (drop i xs) (take i xs) s v (omega (arith, length-drop i xs))))
    | no round ↦
        let back = length-drop i xs in
        let at : (i + s) % length xs ≡ s - length (drop i xs) =
          omega (arith, place_round i s (length xs) h k (omega arith)) in
        rw
          (
            at,
            drop-set_after i (s - length (drop i xs)) xs v (omega arith),
            set-take i (s - length (drop i xs)) xs v,
          )
          (sym (set-append_right (drop i xs) (take i xs) s v (omega arith)))
  ]

-- The values of a function at `n` numbers from `i` on.
module _ {ℓ} {A : Type ℓ} where
  abbrev pub tabulate : (ℕ → A) → ℕ → ℕ → List A
  tabulate f i zero = []
  tabulate f i (suc n) = f i ∷ tabulate f (suc i) n

  pub length-tabulate : (f : ℕ → A) (i n : ℕ) → length (tabulate f i n) ≡ n
  length-tabulate f i zero = refl
  length-tabulate f i (suc n) = ap suc (length-tabulate f (suc i) n)

  pub tabulate_snoc :
      (f : ℕ → A) (i n : ℕ) → tabulate f i (suc n) ≡ tabulate f i n ++ f (i + n) ∷ []
  tabulate_snoc f i zero = ap (λ k. f k ∷ []) (omega arith)
  tabulate_snoc f i (suc n) = ap (◌∷◌ (f i)) (
      tabulate_snoc f (suc i) n
      ∙ ap (λ k. tabulate f (suc i) n ++ f k ∷ []) {x = suc i + n} (omega arith))

  pub tabulate_ext :
      (f g : ℕ → A) (i n : ℕ) → ((j : ℕ) → i ≤ j → f j ≡ g j) → tabulate f i n ≡ tabulate g i n
  tabulate_ext f g i zero h = refl
  tabulate_ext f g i (suc n) h =
      rw (h i (omega arith), tabulate_ext f g (suc i) n (λ j k. h j (omega arith)))

  pub get_elem?-tabulate :
      (f : ℕ → A) (i n s : ℕ) → s < n → get_elem? (tabulate f i n) s ≡ some (f (i + s))
  get_elem?-tabulate f i zero s h = elim h [ ]
  get_elem?-tabulate f i (suc n) zero h = ap (λ k. some (f k)) (omega arith)
  get_elem?-tabulate f i (suc n) (suc s) h =
      get_elem?-tabulate f (suc i) n s (omega arith)
      ∙ ap (λ k. some (f k)) {x = suc i + s} (omega arith)

  -- Changing the function at one number is a write.
  pub set-tabulate :
      (f g : ℕ → A) (i n s : ℕ)
      → ((j : ℕ) → j ≢ i + s → f j ≡ g j)
      → set (tabulate f i n) s (g (i + s)) ≡ tabulate g i n
  set-tabulate f g i zero s h = refl
  set-tabulate f g i (suc n) zero h =
      ap₂ ◌∷◌ (ap g (omega arith)) (tabulate_ext f g (suc i) n (λ j k. h j (omega arith)))
  set-tabulate f g i (suc n) (suc s) h = ap₂ ◌∷◌ (h i (omega arith)) (
      ap (λ k. set (tabulate f (suc i) n) s (g k)) {y = suc i + s} (omega arith)
      ∙ set-tabulate f g (suc i) n s (λ j k. h j (omega arith)))

-- The oldest place is overwritten and the index steps round the ring.
pub rotate_step {ℓ} :
    {A : Type ℓ} (xs : List A) (i : ℕ) (x v : A)
    → get_elem? xs i ≡ some x
    → (rotate i xs ≡ x ∷ drop 1 (rotate i xs))
      × (rotate (suc i % length xs) (set xs i v) ≡ drop 1 (rotate i xs) ++ v ∷ [])
rotate_step xs i x v e = elim (dec_lt (suc i) (length xs)) [
  | yes inside ↦
      let (before, after) = rotate-set_next xs i x v e inside in
      rw (mod-eq_of_lt inside, before) (refl, after)
  | no round ↦
      let full : length xs ≡ suc i = omega (arith, get_elem?_lt xs i x e) in
      let (before, after) = rotate-set_last xs i x v e full in
      let back : suc i % length xs ≡ 0 = rw full (mod-eq-sub-mod (omega arith) ∙ omega arith) in
      rw (back, before) (refl, after)
]
