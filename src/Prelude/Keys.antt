-- ===== src/Prelude/Keys.antt =====
-- Types whose values Go compares with `==`, as the keys of its maps.
use Prim.Native.Nat.{ℕ}
use mathlib.Core.Path.{◌≡◌, refl}
use mathlib.Core.Logic.{◌↔◌}
use mathlib.Core.Bool.{Bool, true, false, ◌&&◌}
use mathlib.Core.List.{List, [], ◌∷◌}
use native.Mathlib.Omega.{arith}
use easegress.Prelude.Tests.{◌==◌, ==_iff}

pub record Key {ℓ} (K : Type ℓ) : Type ℓ where
  pub same : K → K → Bool
  pub same_iff : (a b : K) → (same a b ≡ true) ↔ (a ≡ b)

pub same_refl {ℓ} : {K : Type ℓ} ⦃e : Key K⦄ (k : K) → e.same k k ≡ true
same_refl ⦃e⦄ k = (e.same_iff k k).1 refl

abbrev pub nat_same : ℕ → ℕ → Bool
nat_same a b = a == b

instance abbrev pub nat_key : Key ℕ
nat_key = record { same = nat_same; same_iff = ==_iff }

-- A text of Go is a sequence of bytes.
abbrev pub Bytes : Type 0
Bytes = List ℕ

unfoldable pub lists_same {ℓ} : {A : Type ℓ} → (A → A → Bool) → List A → List A → Bool
lists_same f [] [] = true
lists_same f [] (b ∷ bs) = false
lists_same f (a ∷ as') [] = false
lists_same f (a ∷ as') (b ∷ bs) = f a b && lists_same f as' bs

lists_same_sound {ℓ} :
    {A : Type ℓ} (e : Key A) (s t : List A) → lists_same e.same s t ≡ true → s ≡ t
unfolding lists_same
lists_same_sound e [] [] h = refl
lists_same_sound e [] (b ∷ bs) h = cc
lists_same_sound e (a ∷ as') [] h = cc
lists_same_sound e (a ∷ as') (b ∷ bs) h = ground (arith, e.same_iff a b, lists_same_sound e as' bs)

lists_same_refl {ℓ} : {A : Type ℓ} (e : Key A) (s : List A) → lists_same e.same s s ≡ true
unfolding lists_same
lists_same_refl e [] = refl
lists_same_refl e (a ∷ as') = rw ((e.same_iff a a).1 refl) (lists_same_refl e as')

pub lists_same_iff {ℓ} :
    {A : Type ℓ} (e : Key A) (s t : List A) → (lists_same e.same s t ≡ true) ↔ (s ≡ t)
lists_same_iff e s t = (lists_same_sound e s t, λ h. rw (← h) (lists_same_refl e s))

instance abbrev pub list_key {ℓ} : {A : Type ℓ} ⦃e : Key A⦄ → Key (List A)
list_key ⦃e⦄ = record { same = lists_same e.same; same_iff = lists_same_iff e }
