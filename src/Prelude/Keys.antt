-- ===== src/Prelude/Keys.antt =====
-- Walking a map by its keys.
use family_finance_os.Prelude.Int.{ℤ, ◌+ℤ◌}
use family_finance_os.Prelude.Eq.{Eq, Dict, lookup, insert, total, IsMap, lookup-insert}
use family_finance_os.Prelude.Sort.{sum}
use mathlib.Core.Path.{◌≡◌, refl, ap₂}
use mathlib.Core.Option.{Option, none, some}
use mathlib.Core.List.{List, [], ◌∷◌}
use native.Mathlib.Omega.{arith}

abbrev pub keys {ℓ κ} : {K : Type ℓ} {V : Type κ} → Dict K V → List K
keys [] = []
keys ((k, v) ∷ d) = k ∷ keys d

abbrev pub or_zero {κ} : {V : Type κ} → V → Option V → V
or_zero z none = z
or_zero z (some v) = v

module _ {ℓ κ} {K : Type ℓ} {V : Type κ} ⦃e : Eq K⦄ where
  -- `m[k]`, with the zero value for a missing key.
  abbrev pub get : V → K → Dict K V → V
  get zero_value k d = or_zero zero_value (lookup k d)

  pub insert-IsMap : (k : K) (v : V) (d : Dict K V) → IsMap d → IsMap (insert k v d)
  insert-IsMap k v [] h = (refl, tt)
  insert-IsMap k v ((j, w) ∷ d) h =
      ground (arith, e.beq_iff k j, e.beq_iff j k, insert-IsMap k v d h.1, lookup-insert k j v d)

  -- Every entry of the first map is found in the second.
  abbrev pub Agree : Dict K V → Dict K V → Type κ
  Agree [] full = Unit
  Agree ((k, v) ∷ d) full = (lookup k full ≡ some v) × Agree d full

  Agree-cons :
      (j : K) (w : V) (d full : Dict K V)
      → lookup j d ≡ none
      → Agree d full
      → Agree d ((j, w) ∷ full)
  Agree-cons j w [] full h a = tt
  Agree-cons j w ((k, v) ∷ d) full h a =
      ground (arith, e.beq_iff k j, e.beq_iff j k, Agree-cons j w d full)

  pub IsMap-Agree : (d : Dict K V) → IsMap d → Agree d d
  IsMap-Agree [] h = tt
  IsMap-Agree ((k, v) ∷ d) h =
      (ground (arith, e.beq_iff k k), Agree-cons k v d d h.0 (IsMap-Agree d h.1))

  sum-get :
      (f : V → ℤ) (z : V) (d full : Dict K V)
      → Agree d full
      → sum (λ k. f (get z k full)) (keys d) ≡ total f d
  sum-get f z [] full h = refl
  sum-get f z ((k, v) ∷ d) full h = ap₂ (λ (a b : ℤ). a +ℤ b) (rw h.0) (sum-get f z d full h.1)

  -- The values met at a map's keys add up to its total.
  pub sum-keys :
      (f : V → ℤ) (z : V) (d : Dict K V) → IsMap d → sum (λ k. f (get z k d)) (keys d) ≡ total f d
  sum-keys f z d h = sum-get f z d d (IsMap-Agree d h)
