-- ===== src/Prelude/Sort.antt =====
-- Sorting by a Boolean `less`, as Go's `sort` package is used: insertion is stable, so it gives
-- the result of `sort.SliceStable`, and that of `sort.Slice` and `sort.Strings` where no two
-- different elements tie.
use mathlib.Core.Path.{◌≡◌, refl, sym, ap, ◌∙◌}
use mathlib.Core.Bool.{Bool, true, false}
use mathlib.Core.List.{List, [], ◌∷◌, ◌++◌, map}
use native.Mathlib.Omega.{arith}
use Prim.Native.String.{String, compare}
use Prim.Native.Nat.{Ordering}
use family_finance_os.Prelude.Tests.{if◌then◌else◌}
use family_finance_os.Prelude.Lists.{All}
use family_finance_os.Prelude.Int.{ℤ, pos, ◌+ℤ◌, int_laws, +ℤ_assoc}

-- `s < t` on strings, which compares bytes.
abbrev pub str_less : String → String → Bool
str_less s t = elim (compare s t) [ Ordering.lt ↦ true | _ ↦ false ]

module _ {ℓ} {A : Type ℓ} (less : A → A → Bool) where
  abbrev pub insert_sorted : A → List A → List A
  insert_sorted x [] = x ∷ []
  insert_sorted x (y ∷ ys) = if less y x then y ∷ insert_sorted x ys else x ∷ y ∷ ys

  abbrev pub sort : List A → List A
  sort [] = []
  sort (x ∷ xs) = insert_sorted x (sort xs)

abbrev pub sum {ℓ} : {A : Type ℓ} → (A → ℤ) → List A → ℤ
sum f [] = pos 0
sum f (x ∷ xs) = f x +ℤ sum f xs

module _ {ℓ} {A : Type ℓ} (less : A → A → Bool) where
  sum-insert_sorted :
      (f : A → ℤ) (x : A) (xs : List A) → sum f (insert_sorted less x xs) ≡ f x +ℤ sum f xs
  sum-insert_sorted f x [] = refl
  sum-insert_sorted f x (y ∷ ys) = grind (int_laws, sum-insert_sorted f x ys)

  pub sum-sort : (f : A → ℤ) (xs : List A) → sum f (sort less xs) ≡ sum f xs
  sum-sort f [] = refl
  sum-sort f (x ∷ xs) =
      sum-insert_sorted f x (sort less xs) ∙ ap (λ (s : ℤ). f x +ℤ s) (sum-sort f xs)

  module _ {κ} (P : A → Type κ) where
    pub insert_sorted-All : (x : A) (xs : List A) → P x → All P xs → All P (insert_sorted less x xs)
    insert_sorted-All x [] p h = (p, tt)
    insert_sorted-All x (y ∷ ys) p h = ground (arith, insert_sorted-All x ys p h.1)

    pub sort-All : (xs : List A) → All P xs → All P (sort less xs)
    sort-All [] h = tt
    sort-All (x ∷ xs) h = insert_sorted-All x (sort less xs) h.0 (sort-All xs h.1)

pub sum-map {ℓ κ} :
    {A : Type ℓ} {B : Type κ} (f : B → ℤ) (g : A → B) (xs : List A)
    → sum f (map g xs) ≡ sum (λ x. f (g x)) xs
sum-map f g [] = refl
sum-map f g (x ∷ xs) = ap (λ (s : ℤ). f (g x) +ℤ s) (sum-map f g xs)

pub sum-append_one {ℓ} :
    {A : Type ℓ} (f : A → ℤ) (xs : List A) (x : A) → sum f (xs ++ x ∷ []) ≡ sum f xs +ℤ f x
sum-append_one f [] x = omega int_laws
sum-append_one f (y ∷ ys) x =
    ap (λ (s : ℤ). f y +ℤ s) (sum-append_one f ys x) ∙ sym (+ℤ_assoc (f y) (sum f ys) (f x))
