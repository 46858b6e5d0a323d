-- ===== src/Prelude/Dict.antt =====
-- A Go map as an association list. The order in which Go ranges over a map is not fixed, and a
-- statement about every list is one about every order.
use mathlib.Core.Path.{◌≡◌}
use mathlib.Core.List.{List, [], ◌∷◌}
use mathlib.Core.Option.{Option, none, some}
use native.Mathlib.Omega.{arith}
use easegress.Prelude.Tests.{if◌then◌else◌}
use easegress.Prelude.Keys.{Key}

abbrev pub Dict {ℓ κ} : Type ℓ → Type κ → Type (ℓ ⊔ κ)
Dict K A = List (K × A)

module _ {ℓ κ} {K : Type ℓ} {A : Type κ} ⦃e : Key K⦄ where
  unfoldable pub get : Dict K A → K → Option A
  get [] k = none
  get ((j, v) ∷ d) k = if e.same j k then some v else get d k

  -- delete(m, k)
  unfoldable pub delete : Dict K A → K → Dict K A
  delete [] k = []
  delete ((j, v) ∷ d) k = if e.same j k then delete d k else (j, v) ∷ delete d k

  -- m[k] = v
  unfoldable pub put : Dict K A → K → A → Dict K A
  put d k v = (k, v) ∷ delete d k

  pub get-delete :
      (d : Dict K A) (k j : K) → get (delete d k) j ≡ (if e.same k j then none else get d j)
  unfolding get delete
  get-delete [] k j = ground arith
  get-delete ((i, v) ∷ d) k j =
      ground (arith, e.same_iff i k, e.same_iff k j, e.same_iff i j, get-delete d k j)

  pub get-put :
      (d : Dict K A) (k j : K) (v : A)
      → get (put d k v) j ≡ (if e.same k j then some v else get d j)
  unfolding get put
  get-put d k j v = ground (arith, get-delete d k j)
