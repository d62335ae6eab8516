-- ===== src/Budget.antt =====
-- internal/budget: safe-to-spend and the emergency fund.
pub mod Laws
pub mod Lines
use family_finance_os.Prelude.{
  Bool, true, false, not, ◌||◌, String, List, [], ◌∷◌, Option, none, some, Result, ok, err, Error,
  ◌>>=◌, ◌>>◌, return_if, if◌then◌else◌,
}
use family_finance_os.Prelude.Int.{ℤ, pos, ltb_ℤ, eqb_ℤ}
use family_finance_os.Prelude.Text.{str_eq}
use family_finance_os.Money.{Money, zero_money, sub}
use family_finance_os.Debt.Decimal.{Decimals}

pub record SafeToSpendInput : Type 0 where
  pub liquid_discretionary_pool : Money
  pub upcoming_mandatory_expenses : Money
  pub debt_commitments : Money
  pub debt_commitments_already_reserved : Bool
  pub essential_reserve_until_period_end : Money
  pub emergency_fund_gap_reserved : Money
  pub hard_goal_contributions : Money

pub record SafeToSpendComponents : Type 0 where
  pub liquid_discretionary_pool : Money
  pub upcoming_mandatory_expenses : Money
  pub debt_commitments : Money
  pub essential_reserve_until_period_end : Money
  pub emergency_fund_gap_reserved : Money
  pub hard_goal_contributions : Money

pub record SafeToSpendResult : Type 0 where
  pub amount : Money
  pub is_deficit : Bool
  pub components : SafeToSpendComponents

-- The loop over the currencies.
abbrev pub check_currencies : String → List Money → Result (Unit {0})
check_currencies currency [] = ok tt
check_currencies currency (value ∷ values) = do
  return_if (not (str_eq value.currency currency)) Error.currency_mismatch
  check_currencies currency values

-- The loop over the deductions.
unfoldable pub deduct_all : List Money → Money → Result Money
deduct_all [] amount = ok amount
deduct_all (deduction ∷ deductions) amount = do
  amount' ← sub amount deduction
  deduct_all deductions amount'

abbrev pub components_of : SafeToSpendInput → SafeToSpendComponents
components_of i = record {
  liquid_discretionary_pool = i.liquid_discretionary_pool;
  upcoming_mandatory_expenses = i.upcoming_mandatory_expenses;
  debt_commitments =
      if i.debt_commitments_already_reserved
      then zero_money i.liquid_discretionary_pool.currency
      else i.debt_commitments;
  essential_reserve_until_period_end = i.essential_reserve_until_period_end;
  emergency_fund_gap_reserved = i.emergency_fund_gap_reserved;
  hard_goal_contributions = i.hard_goal_contributions;
}

abbrev pub deductions_of : SafeToSpendComponents → List Money
deductions_of c =
    c.upcoming_mandatory_expenses ∷ c.debt_commitments ∷ c.essential_reserve_until_period_end
    ∷ c.emergency_fund_gap_reserved ∷ c.hard_goal_contributions ∷ []

-- The values whose currency is compared, before a reserved debt is dropped.
abbrev pub values_of : SafeToSpendInput → List Money
values_of i =
    i.upcoming_mandatory_expenses ∷ i.debt_commitments ∷ i.essential_reserve_until_period_end
    ∷ i.emergency_fund_gap_reserved ∷ i.hard_goal_contributions ∷ []

unfoldable pub calculate_safe_to_spend : SafeToSpendInput → Result SafeToSpendResult
unfolding deduct_all
calculate_safe_to_spend i = do
  check_currencies i.liquid_discretionary_pool.currency (values_of i)
  amount ← deduct_all (deductions_of (components_of i)) i.liquid_discretionary_pool
  ok (record {
    amount = amount;
    is_deficit = ltb_ℤ amount.minor (pos 0);
    components = components_of i;
  })

module _ (D : Decimals) where
  open D use {Decimal, from_int, quo}

  -- `DecimalResult`
  pub record DecimalResult : Type 0 where
    pub value : Option Decimal
    pub applicable : Bool

  -- Over the decimals in the context `emergencyContext`.
  unfoldable pub calculate_emergency_months : Money → Money → Result DecimalResult
  calculate_emergency_months liquid essential_monthly = do
    return_if (not (str_eq liquid.currency essential_monthly.currency)) Error.currency_mismatch
    return_if (ltb_ℤ liquid.minor (pos 0) || ltb_ℤ essential_monthly.minor (pos 0))
        Error.negative_emergency_input
    let divided = (do
      months ← quo (from_int liquid.minor) (from_int essential_monthly.minor)
      ok (record { value = some months; applicable = true }))
    if eqb_ℤ essential_monthly.minor (pos 0)
        then ok (record { value = none; applicable = false })
        else divided
