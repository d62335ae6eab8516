-- ===== src/Prelude/Eq.antt =====
-- Decidable equality as a Boolean test, and Go's maps as association lists of distinct keys.
use mathlib.Core.Path.{◌≡◌, refl}
use mathlib.Core.Logic.{◌↔◌}
use mathlib.Core.Bool.{Bool, true}
use mathlib.Core.Option.{Option, none, some}
use mathlib.Core.List.{List, [], ◌∷◌}
use Prim.Native.Nat.{suc, ◌≤◌}
use Prim.Native.String.{String}
use native.Mathlib.Omega.{arith}
use family_finance_os.Prelude.Tests.{if◌then◌else◌}
use family_finance_os.Prelude.Int.{ℤ, pos, ◌+ℤ◌, int_laws}
use family_finance_os.Prelude.Lists.{length}
use family_finance_os.Prelude.Text.{str_eq, eq_iff}

pub record Eq {ℓ} (A : Type ℓ) : Type ℓ where
  pub beq : A → A → Bool
  pub beq_iff : (a b : A) → (beq a b ≡ true) ↔ (a ≡ b)

instance abbrev pub string_eq : Eq String
string_eq = record { beq = str_eq; beq_iff = eq_iff }

abbrev pub Dict {ℓ κ} : Type ℓ → Type κ → Type (ℓ ⊔ κ)
Dict K V = List (K × V)

module _ {ℓ κ} {K : Type ℓ} {V : Type κ} ⦃e : Eq K⦄ where
  abbrev pub lookup : K → Dict K V → Option V
  lookup k [] = none
  lookup k ((j, v) ∷ d) = if e.beq k j then some v else lookup k d

  -- `m[k] = v`
  abbrev pub insert : K → V → Dict K V → Dict K V
  insert k v [] = (k, v) ∷ []
  insert k v ((j, w) ∷ d) = if e.beq k j then (k, v) ∷ d else (j, w) ∷ insert k v d

  -- `delete(m, k)`
  abbrev pub erase : K → Dict K V → Dict K V
  erase k [] = []
  erase k ((j, w) ∷ d) = if e.beq k j then erase k d else (j, w) ∷ erase k d

module _ {ℓ κ} {K : Type ℓ} {V : Type κ} where
  -- The sum of a measure over the values.
  abbrev pub total : (V → ℤ) → Dict K V → ℤ
  total f [] = pos 0
  total f ((k, v) ∷ d) = f v +ℤ total f d

module _ {ℓ κ} {K : Type ℓ} {V : Type κ} ⦃e : Eq K⦄ where
  pub total-insert_old :
      (f : V → ℤ) (k : K) (v old : V) (d : Dict K V)
      → lookup k d ≡ some old
      → total f (insert k v d) +ℤ f old ≡ total f d +ℤ f v
  total-insert_old f k v old [] h = cc
  total-insert_old f k v old ((j, w) ∷ d) h = grind (int_laws, total-insert_old f k v old d)

  pub total-insert_new :
      (f : V → ℤ) (k : K) (v : V) (d : Dict K V)
      → lookup k d ≡ none
      → total f (insert k v d) ≡ total f d +ℤ f v
  total-insert_new f k v [] h = omega int_laws
  total-insert_new f k v ((j, w) ∷ d) h = grind (int_laws, total-insert_new f k v d)

  pub lookup-insert :
      (k j : K) (v : V) (d : Dict K V)
      → lookup j (insert k v d) ≡ (if e.beq j k then some v else lookup j d)
  lookup-insert k j v [] = refl
  lookup-insert k j v ((i, w) ∷ d) =
      ground (arith, e.beq_iff k i, e.beq_iff j k, e.beq_iff j i, lookup-insert k j v d)

  pub lookup-erase :
      (k j : K) (d : Dict K V) → lookup j (erase k d) ≡ (if e.beq j k then none else lookup j d)
  lookup-erase k j [] = ground arith
  lookup-erase k j ((i, w) ∷ d) =
      ground (arith, e.beq_iff k i, e.beq_iff j k, e.beq_iff j i, lookup-erase k j d)

  -- The length after a write.
  pub length-insert_new :
      (k : K) (v : V) (d : Dict K V) → lookup k d ≡ none → length (insert k v d) ≡ suc (length d)
  length-insert_new k v [] h = refl
  length-insert_new k v ((j, w) ∷ d) h = ground (arith, length-insert_new k v d)

  pub length-insert_old :
      (k : K) (v old : V) (d : Dict K V) → lookup k d ≡ some old → length (insert k v d) ≡ length d
  length-insert_old k v old [] h = cc
  length-insert_old k v old ((j, w) ∷ d) h = ground (arith, length-insert_old k v old d)

  pub length-erase : (k : K) (d : Dict K V) → length (erase k d) ≤ length d
  length-erase k [] = omega arith
  length-erase k ((j, w) ∷ d) = ground (arith, length-erase k d)

  -- No key is listed twice.
  abbrev pub IsMap : Dict K V → Type κ
  IsMap [] = Unit
  IsMap ((k, v) ∷ d) = (lookup k d ≡ none) × IsMap d
