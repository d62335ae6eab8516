-- ===== src/Budget/Laws.antt =====
-- safe_to_spend.go: the amount and the deductions.
use family_finance_os.Prelude.{
  ◌≡◌, refl, ap, ◌∙◌, arith, ◌↔◌, true, not, String, List, [], ◌∷◌, ok, Error, return_if,
  return_if_ok, if◌then◌else◌, bind_ok, ok-injective, All,
}
use mathlib.Core.Path.{subst}
use family_finance_os.Prelude.Int.{ℤ, pos, ◌+ℤ◌, ◌-ℤ◌, ◌<ℤ◌, ltb_ℤ, int_laws}
use family_finance_os.Prelude.Word.{IsInt64}
use family_finance_os.Prelude.Sort.{sum}
use family_finance_os.Prelude.Text.{str_eq, eq_iff}
use family_finance_os.Money.{Money, zero_money, sub}
use family_finance_os.Money.Exact.{sub-Gives}
use family_finance_os.Budget.{
  SafeToSpendInput, SafeToSpendResult, check_currencies, deduct_all, components_of, deductions_of,
  values_of, calculate_safe_to_spend,
}

abbrev pub minor_of : Money → ℤ
minor_of m = m.minor

abbrev pub IsAmount : Money → Type 0
IsAmount m = IsInt64 m.minor

deduct_all-sum :
    (ds : List Money) (m r : Money)
    → IsAmount m
    → All IsAmount ds
    → deduct_all ds m ≡ ok r
    → (r.minor ≡ m.minor -ℤ sum minor_of ds) × (r.currency ≡ m.currency)
unfolding deduct_all
deduct_all-sum [] m r h k q =
    subst (λ (x : Money). (x.minor ≡ m.minor -ℤ pos 0) × (x.currency ≡ m.currency)) (ok-injective q)
      (omega int_laws, refl)
deduct_all-sum (d ∷ ds) m r h k q = bind_ok (sub m d) _ q λ m1 q1 q2.
    let g = sub-Gives m d m1 h k.0 q1 in
    let ih = deduct_all-sum ds m1 r g.bounded k.1 q2 in
    (ih.0 ∙ rw g.minor (omega int_laws), ih.1 ∙ g.currency)

deduct_all-IsAmount :
    (ds : List Money) (m r : Money)
    → IsAmount m
    → All IsAmount ds
    → deduct_all ds m ≡ ok r
    → IsAmount r
unfolding deduct_all
deduct_all-IsAmount [] m r h k q = subst IsAmount (ok-injective q) h
deduct_all-IsAmount (d ∷ ds) m r h k q =
    bind_ok (sub m d) _ q
      λ m1 q1 q2. deduct_all-IsAmount ds m1 r (sub-Gives m d m1 h k.0 q1).bounded k.1 q2

abbrev pub InCurrency : String → Money → Type 0
InCurrency c m = m.currency ≡ c

check_currencies-All :
    (c : String) (ms : List Money) → check_currencies c ms ≡ ok tt → All (InCurrency c) ms
check_currencies-All c [] q = tt
check_currencies-All c (m ∷ ms) q =
    bind_ok (return_if (not (str_eq m.currency c)) Error.currency_mismatch) _ q λ u q1 q2.
      (ground (arith, eq_iff m.currency c, return_if_ok _ _ u q1), check_currencies-All c ms q2)

-- What is kept back from the pool.
abbrev pub reserved : SafeToSpendInput → ℤ
reserved i =
    i.upcoming_mandatory_expenses.minor
    +ℤ (if i.debt_commitments_already_reserved then pos 0 else i.debt_commitments.minor)
    +ℤ i.essential_reserve_until_period_end.minor
    +ℤ i.emergency_fund_gap_reserved.minor
    +ℤ i.hard_goal_contributions.minor

regroup : (a b c d e : ℤ) → a +ℤ (b +ℤ (c +ℤ (d +ℤ (e +ℤ pos 0)))) ≡ a +ℤ b +ℤ c +ℤ d +ℤ e
regroup a b c d e = omega int_laws

applied : SafeToSpendInput → Money
applied i =
    if i.debt_commitments_already_reserved
    then zero_money i.liquid_discretionary_pool.currency
    else i.debt_commitments

applied-IsAmount : (i : SafeToSpendInput) → IsAmount i.debt_commitments → IsAmount (applied i)
unfolding applied
applied-IsAmount i h = ground arith

applied-minor :
    (i : SafeToSpendInput)
    → (applied i).minor
      ≡ (if i.debt_commitments_already_reserved then pos 0 else i.debt_commitments.minor)
unfolding applied
applied-minor i = ground arith

deducted : (i : SafeToSpendInput) → sum minor_of (deductions_of (components_of i)) ≡ reserved i
unfolding applied
deducted i =
    regroup i.upcoming_mandatory_expenses.minor (applied i).minor
      i.essential_reserve_until_period_end.minor i.emergency_fund_gap_reserved.minor
      i.hard_goal_contributions.minor
    ∙ ap
        (λ (z : ℤ).
          i.upcoming_mandatory_expenses.minor +ℤ z +ℤ i.essential_reserve_until_period_end.minor
          +ℤ i.emergency_fund_gap_reserved.minor +ℤ i.hard_goal_contributions.minor)
        (applied-minor i)

-- A safe-to-spend result, for `int64` amounts, is the pool less the mandatory expenses, the debt
-- commitments unless these are reserved already, the essential reserve, the emergency gap and the
-- contributions to hard goals; it is a deficit exactly when it is negative, all amounts share the
-- pool's currency, and so does the result.
pub safe_to_spend_exact :
    (i : SafeToSpendInput) (r : SafeToSpendResult)
    → IsAmount i.liquid_discretionary_pool
    → All IsAmount (values_of i)
    → calculate_safe_to_spend i ≡ ok r
    → (r.amount.minor ≡ i.liquid_discretionary_pool.minor -ℤ reserved i)
      × ((r.is_deficit ≡ true) ↔ (r.amount.minor <ℤ pos 0))
      × All (InCurrency i.liquid_discretionary_pool.currency) (values_of i)
      × (r.amount.currency ≡ i.liquid_discretionary_pool.currency)
unfolding calculate_safe_to_spend applied
safe_to_spend_exact i r h k q =
    bind_ok (check_currencies i.liquid_discretionary_pool.currency (values_of i)) _ q λ _ q1 q2.
      bind_ok (deduct_all (deductions_of (components_of i)) i.liquid_discretionary_pool) _ q2
        λ m q3 q4.
          let s =
            deduct_all-sum (deductions_of (components_of i)) i.liquid_discretionary_pool m h
              (k.0, (applied-IsAmount i k.1.0, k.1.1)) q3 in
          let e = s.0 ∙ ap (λ (z : ℤ). i.liquid_discretionary_pool.minor -ℤ z) (deducted i) in
          subst
            (λ (x : SafeToSpendResult).
              (x.amount.minor ≡ i.liquid_discretionary_pool.minor -ℤ reserved i)
              × ((x.is_deficit ≡ true) ↔ (x.amount.minor <ℤ pos 0))
              × All (InCurrency i.liquid_discretionary_pool.currency) (values_of i)
              × (x.amount.currency ≡ i.liquid_discretionary_pool.currency))
            (ok-injective q4) (e, ground arith, check_currencies-All _ (values_of i) q1, s.1)

-- The amount is an `int64`, and it is a deficit if it is negative.
pub safe_to_spend-IsAmount :
    (i : SafeToSpendInput) (r : SafeToSpendResult)
    → IsAmount i.liquid_discretionary_pool
    → All IsAmount (values_of i)
    → calculate_safe_to_spend i ≡ ok r
    → IsAmount r.amount × (r.is_deficit ≡ ltb_ℤ r.amount.minor (pos 0))
unfolding calculate_safe_to_spend applied
safe_to_spend-IsAmount i r h k q =
    bind_ok (check_currencies i.liquid_discretionary_pool.currency (values_of i)) _ q λ _ _ q1.
      bind_ok (deduct_all (deductions_of (components_of i)) i.liquid_discretionary_pool) _ q1
        λ m f q2.
          subst
            (λ (x : SafeToSpendResult).
              IsAmount x.amount × (x.is_deficit ≡ ltb_ℤ x.amount.minor (pos 0)))
            (ok-injective q2)
            (
              deduct_all-IsAmount (deductions_of (components_of i)) i.liquid_discretionary_pool m h
                  (k.0, (applied-IsAmount i k.1.0, k.1.1)) f,
              refl,
            )
