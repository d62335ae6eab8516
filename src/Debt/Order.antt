-- ===== src/Debt/Order.antt =====
-- strategy.go: which debts a payoff plan considers, and in which order.
use family_finance_os.Prelude.{
  ◌≡◌, refl, sym, ap, ◌∙◌, arith, Bool, true, false, not, ◌&&◌, String, List, [], ◌∷◌, Option, none,
  some, ok, Error, return_if, if◌then◌else◌, if_intro, bind_ok, ok-injective, Bool-cases, inl, inr,
  ◌⊎◌,
}
use mathlib.Core.List.{Permᴰ}
use mathlib.Core.List.Permᴰ
use family_finance_os.Prelude.Int.{ℤ, pos, ◌-ℤ◌, ◌≤ℤ◌, ◌<ℤ◌, ltb_ℤ, eqb_ℤ, int_laws}
use family_finance_os.Prelude.Sort.{sort, insert_sorted}
use family_finance_os.Prelude.Text.{str_eq}
use family_finance_os.Auth.{eqb_ℤ_iff}
use family_finance_os.Debt.{DebtContract, PayoffStrategy}
use family_finance_os.Debt.Decimal.{Decimals}
use family_finance_os.Debt.Strategy.{
  candidates_of, is_skipped, check_strategy_apr, cmp_apr, pays_before,
}

module _ {ℓ} {A : Type ℓ} (less : A → A → Bool) where
  insert_sorted-Permᴰ : (x : A) (xs : List A) → Permᴰ (x ∷ xs) (insert_sorted less x xs)
  insert_sorted-Permᴰ x [] = Permᴰ.cons refl Permᴰ.nil
  insert_sorted-Permᴰ x (y ∷ ys) =
      if_intro (Permᴰ (x ∷ y ∷ ys)) (less y x) _ _
        (λ _. Permᴰ.trans (Permᴰ.swap refl refl) (Permᴰ.cons refl (insert_sorted-Permᴰ x ys)))
        (λ _. Permᴰ.refl (x ∷ y ∷ ys))

  pub sort-Permᴰ : (xs : List A) → Permᴰ xs (sort less xs)
  sort-Permᴰ [] = Permᴰ.nil
  sort-Permᴰ (x ∷ xs) =
      Permᴰ.trans (Permᴰ.cons refl (sort-Permᴰ xs)) (insert_sorted-Permᴰ x (sort less xs))

-- Each element stands in a relation to the next one.
abbrev From {ℓ κ} : {A : Type ℓ} → (A → A → Type κ) → A → List A → Type κ
From R x [] = Unit
From R x (y ∷ ys) = R x y × From R y ys

abbrev pub InTurn {ℓ κ} : {A : Type ℓ} → (A → A → Type κ) → List A → Type κ
InTurn R [] = Unit
InTurn R (x ∷ xs) = From R x xs

module _ {ℓ κ} {A : Type ℓ} (less : A → A → Bool) (R : A → A → Type κ)
    (before : (x y : A) → less x y ≡ true → R x y)
    (not_before : (x y : A) → less x y ≡ false → R y x) where
  insert_sorted-From :
      (p x : A) (xs : List A) → From R p xs → R p x → From R p (insert_sorted less x xs)
  insert_sorted-From p x [] h r = (r, tt)
  insert_sorted-From p x (y ∷ ys) h r =
      if_intro (From R p) (less y x) _ _
        (λ first. (h.0, insert_sorted-From y x ys h.1 (before y x first)))
        (λ later. (r, (not_before y x later, h.1)))

  insert_sorted-InTurn : (x : A) (xs : List A) → InTurn R xs → InTurn R (insert_sorted less x xs)
  insert_sorted-InTurn x [] h = tt
  insert_sorted-InTurn x (y ∷ ys) h =
      if_intro (InTurn R) (less y x) _ _ (λ first. insert_sorted-From y x ys h (before y x first))
        (λ later. (not_before y x later, h))

  pub sort-InTurn : (xs : List A) → InTurn R (sort less xs)
  sort-InTurn [] = tt
  sort-InTurn (x ∷ xs) = insert_sorted-InTurn x (sort less xs) (sort-InTurn xs)

module _ (D : Decimals) where
  open D use {Decimal, cmp}

  -- What apd documents of a comparison: swapped, it has the opposite sign.
  pub record CmpLaws : Type 0 where
    pub cmp_swap : (a b : Decimal) → cmp a b ≡ pos 0 -ℤ cmp b a

  -- The debts that are active and owed.
  abbrev pub owed : List (DebtContract Decimal) → List (DebtContract Decimal)
  owed [] = []
  owed (debt ∷ debts) =
      if debt.active && ltb_ℤ (pos 0) debt.balance.minor then debt ∷ owed debts else owed debts

  abbrev HigherApr : Option Decimal → Option Decimal → Type 0
  HigherApr (some a) (some b) = pos 0 <ℤ cmp a b
  HigherApr _ _ = ⊥

  -- The avalanche refuses debts without an APR.
  abbrev SameApr : Option Decimal → Option Decimal → Type 0
  SameApr (some a) (some b) = cmp a b ≡ pos 0
  SameApr _ _ = Unit

  -- The avalanche pays the higher APR first, the snowball the smaller balance, and both the lower ID
  -- where these are the same.
  abbrev pub Precedes : PayoffStrategy → DebtContract Decimal → DebtContract Decimal → Type 0
  Precedes PayoffStrategy.avalanche a b =
      HigherApr a.apr b.apr ⊎ (SameApr a.apr b.apr × (a.id ≤ℤ b.id))
  Precedes _ a b =
      (a.balance.minor <ℤ b.balance.minor) ⊎ ((a.balance.minor ≡ b.balance.minor) × (a.id ≤ℤ b.id))

  skipped_lem :
      (debt : DebtContract Decimal)
      → is_skipped D debt ≡ not (debt.active && ltb_ℤ (pos 0) debt.balance.minor)
  skipped_lem debt = ground arith

  pub candidates_of-owed :
      (debts cs : List (DebtContract Decimal)) (c : String) (strategy : PayoffStrategy)
      → candidates_of D debts c strategy ≡ ok cs
      → owed debts ≡ cs
  unfolding candidates_of
  candidates_of-owed [] cs c strategy q = ok-injective q
  candidates_of-owed (debt ∷ debts) cs c strategy q =
      elim (Bool-cases (debt.active && ltb_ℤ (pos 0) debt.balance.minor)) [
        | inl kept ↦
            let here : is_skipped D debt ≡ false = skipped_lem debt ∙ ap not kept in
            bind_ok (return_if (not (str_eq debt.balance.currency c)) Error.currency_mismatch) _
              (rw here at q)
              λ _ _ q1. bind_ok (check_strategy_apr D strategy debt.apr) _ q1 λ _ _ q2.
                bind_ok (candidates_of D debts c strategy) _ q2 λ rest q3 q4. rw kept (
                  ap (λ (l : List (DebtContract Decimal)). debt ∷ l)
                    (candidates_of-owed debts rest c strategy q3)
                  ∙ ok-injective q4)
        | inr left_out ↦
            let here : is_skipped D debt ≡ true = skipped_lem debt ∙ ap not left_out in
            rw left_out (candidates_of-owed debts cs c strategy (rw here at q))
      ]

  -- The comparison that the code sorts by.
  abbrev by_apr : ℤ → ℤ → ℤ → Bool
  by_apr c i j = if not (eqb_ℤ c (pos 0)) then ltb_ℤ (pos 0) c else ltb_ℤ i j

  apr_first :
      (c i j : ℤ) → by_apr c i j ≡ true → (pos 0 <ℤ c) ⊎ ((eqb_ℤ c (pos 0) ≡ true) × (i ≤ℤ j))
  apr_first c i j h = ground (arith, h)

  apr_later :
      (c i j : ℤ) → by_apr c i j ≡ false → (c <ℤ pos 0) ⊎ ((eqb_ℤ c (pos 0) ≡ true) × (j ≤ℤ i))
  apr_later c i j h = ground (arith, h)

  turned : (c d : ℤ) → c ≡ pos 0 -ℤ d → d <ℤ pos 0 → pos 0 <ℤ c
  turned c d h k = rw h (omega (int_laws, k))

  turned_zero : (c d : ℤ) → c ≡ pos 0 -ℤ d → d ≡ pos 0 → c ≡ pos 0
  unfolding ◌-ℤ◌
  turned_zero c d h k = h ∙ rw k refl

  balance_first :
      (a b i j : ℤ)
      → (if not (eqb_ℤ a b) then ltb_ℤ a b else ltb_ℤ i j) ≡ true
      → (a <ℤ b) ⊎ ((eqb_ℤ a b ≡ true) × (i ≤ℤ j))
  balance_first a b i j h = ground (arith, h)

  balance_later :
      (a b i j : ℤ)
      → (if not (eqb_ℤ a b) then ltb_ℤ a b else ltb_ℤ i j) ≡ false
      → (b <ℤ a) ⊎ ((eqb_ℤ a b ≡ true) × (j ≤ℤ i))
  balance_later a b i j h = ground (arith, h)

  avalanche_first :
      (x y : Option Decimal) (i j : ℤ)
      → by_apr (cmp_apr D x y) i j ≡ true
      → HigherApr x y ⊎ (SameApr x y × (i ≤ℤ j))
  avalanche_first (some a) (some b) i j h = elim (apr_first (cmp a b) i j h) [
    | inl higher ↦ inl higher
    | inr (same, lower) ↦ inr ((eqb_ℤ_iff (cmp a b) (pos 0)).0 same, lower)
  ]
  avalanche_first (some a) none i j h = inr (tt, ground (arith, h))
  avalanche_first none y i j h = inr (tt, ground (arith, h))

  avalanche_later :
      (x y : Option Decimal) (i j : ℤ)
      → CmpLaws
      → by_apr (cmp_apr D x y) i j ≡ false
      → HigherApr y x ⊎ (SameApr y x × (j ≤ℤ i))
  avalanche_later (some a) (some b) i j laws h = elim (apr_later (cmp a b) i j h) [
    | inl lower ↦ inl (turned (cmp b a) (cmp a b) (laws.cmp_swap b a) lower)
    | inr (same, least) ↦ inr (
      turned_zero (cmp b a) (cmp a b) (laws.cmp_swap b a) ((eqb_ℤ_iff (cmp a b) (pos 0)).0 same),
      least,
    )
  ]
  avalanche_later (some a) none i j laws h = inr (tt, ground (arith, h))
  avalanche_later none (some b) i j laws h = inr (tt, ground (arith, h))
  avalanche_later none none i j laws h = inr (tt, ground (arith, h))

  pays_before-Precedes :
      (strategy : PayoffStrategy) (a b : DebtContract Decimal)
      → pays_before D strategy a b ≡ true
      → Precedes strategy a b
  unfolding pays_before
  pays_before-Precedes PayoffStrategy.avalanche a b h = avalanche_first a.apr b.apr a.id b.id h
  pays_before-Precedes PayoffStrategy.snowball a b h =
      elim (balance_first a.balance.minor b.balance.minor a.id b.id h) [
        | inl less ↦ inl less
        | inr (same, lower) ↦ inr ((eqb_ℤ_iff a.balance.minor b.balance.minor).0 same, lower)
      ]
  pays_before-Precedes (PayoffStrategy.other _) a b h =
      elim (balance_first a.balance.minor b.balance.minor a.id b.id h) [
        | inl less ↦ inl less
        | inr (same, lower) ↦ inr ((eqb_ℤ_iff a.balance.minor b.balance.minor).0 same, lower)
      ]

  pays_later-Precedes :
      (laws : CmpLaws) (strategy : PayoffStrategy) (a b : DebtContract Decimal)
      → pays_before D strategy a b ≡ false
      → Precedes strategy b a
  unfolding pays_before
  pays_later-Precedes laws PayoffStrategy.avalanche a b h =
      avalanche_later a.apr b.apr a.id b.id laws h
  pays_later-Precedes laws PayoffStrategy.snowball a b h =
      elim (balance_later a.balance.minor b.balance.minor a.id b.id h) [
        | inl less ↦ inl less
        | inr (same, lower) ↦ inr (sym ((eqb_ℤ_iff a.balance.minor b.balance.minor).0 same), lower)
      ]
  pays_later-Precedes laws (PayoffStrategy.other _) a b h =
      elim (balance_later a.balance.minor b.balance.minor a.id b.id h) [
        | inl less ↦ inl less
        | inr (same, lower) ↦ inr (sym ((eqb_ℤ_iff a.balance.minor b.balance.minor).0 same), lower)
      ]

  -- The debts that a plan considers, in the order in which it pays them.
  abbrev pub Considers :
      List (DebtContract Decimal) → PayoffStrategy → List (DebtContract Decimal) → Type 0
  Considers debts strategy order = Permᴰ (owed debts) order × InTurn (Precedes strategy) order

  pub sort-Considers :
      (debts : List (DebtContract Decimal)) (strategy : PayoffStrategy)
      → CmpLaws
      → Considers debts strategy (sort (pays_before D strategy) (owed debts))
  sort-Considers debts strategy laws = (
    sort-Permᴰ (pays_before D strategy) (owed debts),
    sort-InTurn (pays_before D strategy) (Precedes strategy) (pays_before-Precedes strategy)
        (pays_later-Precedes laws strategy) (owed debts),
  )
