-- ===== src/Scenario.antt =====
-- internal/scenario: models.go, helpers.go and service.go. Each simulation answers with the figures
-- before and after a change, and what lies between them.
pub mod Changes
pub mod Purchase
use family_finance_os.Prelude.{
  ◌≡◌, Bool, true, false, not, ◌&&◌, ◌||◌, String, List, [], ◌∷◌, ◌++◌, Option, none, some, Result,
  ok, err, Error, ◌>>=◌, ◌>>◌, return_if, if◌then◌else◌,
}
use family_finance_os.Prelude.Int.{ℤ, pos, ltb_ℤ, leb_ℤ, eqb_ℤ}
use family_finance_os.Prelude.Word.{sub64}
use family_finance_os.Prelude.Text.{str_eq}
use family_finance_os.Money.{Money, add, sub}
use family_finance_os.Analytics.Cashflow.{CashflowResult}
use family_finance_os.Budget.{
  SafeToSpendInput, SafeToSpendResult, check_currencies, calculate_safe_to_spend,
}
use family_finance_os.Budget.Lines.{BudgetLine, BudgetLineMetrics, calculate_budget_line}
use family_finance_os.Debt.{DebtContract, DebtSimulation}
use family_finance_os.Debt.Decimal.{Decimals}
use family_finance_os.Debt.Simulator.{simulate_debt}
use family_finance_os.Goals.{GoalProjectionInput, GoalProjection, project_goal}

pub record TimelineInput : Type 0 where
  pub before_months : ℤ
  pub after_months : ℤ

pub record TimelineImpact : Type 0 where
  pub before_months : ℤ
  pub after_months : ℤ
  pub delta_months : ℤ

pub data ViolationCode : Type 0 where
  safe_to_spend_deficit liquidity_floor_breach : ViolationCode

pub record PurchaseInput : Type 0 where
  pub purchase : Money
  pub cashflow : CashflowResult
  pub safe_to_spend : SafeToSpendInput
  pub liquid_balance : Money
  pub liquidity_floor : Money
  pub debt_timeline : Option TimelineInput
  pub goal_timeline : Option TimelineInput

pub record PurchaseMetrics (Decimal : Type 0) : Type 0 where
  pub safe_to_spend : SafeToSpendResult
  pub savings_rate : Option Decimal
  pub liquid_balance : Money
  pub net_cashflow : Money

pub record PurchaseResult (Decimal : Type 0) : Type 0 where
  pub before : PurchaseMetrics Decimal
  pub after : PurchaseMetrics Decimal
  pub safe_to_spend_delta : Money
  pub net_cashflow_delta : Money
  pub debt_timeline : Option TimelineImpact
  pub goal_timeline : Option TimelineImpact
  pub violations : List ViolationCode

pub record ExtraDebtPaymentInput (Decimal : Type 0) : Type 0 where
  pub debt : DebtContract Decimal
  pub before_extra_monthly : Money
  pub after_extra_monthly : Money

pub record ExtraDebtPaymentResult : Type 0 where
  pub before : DebtSimulation
  pub after : DebtSimulation
  pub payoff_months_delta : ℤ
  pub interest_delta : Money
  pub fee_delta : Money

pub record BudgetChangeInput : Type 0 where
  pub line : BudgetLine
  pub actual : Money
  pub proposed_planned : Money

pub record BudgetChangeResult (Decimal : Type 0) : Type 0 where
  pub before : BudgetLineMetrics Decimal
  pub after : BudgetLineMetrics Decimal
  pub remaining_delta : Money

pub record SavingsChangeInput : Type 0 where
  pub cashflow : CashflowResult
  pub before_commitment : Money
  pub after_commitment : Money

pub record SavingsChangeResult : Type 0 where
  pub before_available : Money
  pub after_available : Money
  pub available_delta : Money

pub record IncomeDropInput : Type 0 where
  pub cashflow : CashflowResult
  pub drop : Money

pub record IncomeDropResult (Decimal : Type 0) : Type 0 where
  pub before : CashflowResult
  pub after : CashflowResult
  pub before_savings_rate : Option Decimal
  pub after_savings_rate : Option Decimal

pub record GoalScenarioInput (Decimal : Type 0) : Type 0 where
  pub before : GoalProjectionInput Decimal
  pub after : GoalProjectionInput Decimal

pub record GoalScenarioResult : Type 0 where
  pub before : GoalProjection
  pub after : GoalProjection
  pub required_monthly_delta : Money
  pub gap_at_target_delta : Money

abbrev pub same_money : Money → Money → Bool
same_money a b = eqb_ℤ a.minor b.minor && str_eq a.currency b.currency

unfoldable pub validated_cashflow : CashflowResult → Result CashflowResult
validated_cashflow input = do
  return_if
      (str_eq input.recognized_income.currency ""
        || (not (str_eq input.recognized_expense.currency input.recognized_income.currency)
            || not (str_eq input.net_cashflow.currency input.recognized_income.currency)))
      Error.currency_mismatch
  net ← sub input.recognized_income input.recognized_expense
  return_if (not (same_money net input.net_cashflow)) Error.invalid_scenario
  ok input

abbrev pub require_currency : String → List Money → Result (Unit {0})
require_currency currency values = do
  return_if (str_eq currency "") Error.currency_mismatch
  check_currencies currency values

unfoldable pub timeline_impact : TimelineInput → Result TimelineImpact
timeline_impact input = do
  return_if (ltb_ℤ input.before_months (pos 0) || ltb_ℤ input.after_months (pos 0))
      Error.invalid_scenario
  ok (record {
    before_months = input.before_months;
    after_months = input.after_months;
    delta_months = sub64 input.after_months input.before_months;
  })

-- A timeline that may be left out.
unfoldable pub timeline_impact_of : Option TimelineInput → Result (Option TimelineImpact)
unfolding timeline_impact
timeline_impact_of none = ok none
timeline_impact_of (some input) = do impact ← timeline_impact input; ok (some impact)

abbrev pub cashflow_of : Money → Money → Money → CashflowResult
cashflow_of income expense net = record {
  recognized_income = income;
  recognized_expense = expense;
  net_cashflow = net;
}

abbrev pub pool_less : SafeToSpendInput → Money → SafeToSpendInput
pool_less i pool = record i { liquid_discretionary_pool = pool }

abbrev pub violations_of : Bool → Bool → List ViolationCode
violations_of is_deficit breaches =
    (if is_deficit then ViolationCode.safe_to_spend_deficit ∷ [] else [])
    ++ (if breaches then ViolationCode.liquidity_floor_breach ∷ [] else [])

unfoldable pub simulate_savings_change : SavingsChangeInput → Result SavingsChangeResult
unfolding validated_cashflow
simulate_savings_change input = do
  cashflow ← validated_cashflow input.cashflow
  return_if
      (ltb_ℤ input.before_commitment.minor (pos 0) || ltb_ℤ input.after_commitment.minor (pos 0))
      Error.invalid_scenario
  require_currency cashflow.net_cashflow.currency
      (input.before_commitment ∷ input.after_commitment ∷ [])
  before ← sub cashflow.net_cashflow input.before_commitment
  after ← sub cashflow.net_cashflow input.after_commitment
  delta ← sub after before
  ok (record { before_available = before; after_available = after; available_delta = delta })

module _ (D : Decimals) where
  open D use {Decimal, from_int, quo}

  -- Over the decimals in the context `ratioContext`.
  unfoldable pub savings_rate : CashflowResult → Result (Option Decimal)
  savings_rate cashflow =
      let numerator =
        if ltb_ℤ cashflow.net_cashflow.minor (pos 0) then pos 0 else cashflow.net_cashflow.minor in
      let divided = (do
        rate ← quo (from_int numerator) (from_int cashflow.recognized_income.minor)
        ok (some rate)) in
      if leb_ℤ cashflow.recognized_income.minor (pos 0) then ok none else divided

  unfoldable pub simulate_purchase : PurchaseInput → Result (PurchaseResult Decimal)
  unfolding validated_cashflow savings_rate timeline_impact_of calculate_safe_to_spend
  simulate_purchase input = do
    return_if (ltb_ℤ input.purchase.minor (pos 0)) Error.invalid_scenario
    cashflow ← validated_cashflow input.cashflow
    require_currency cashflow.recognized_income.currency
        (input.purchase ∷ input.liquid_balance ∷ input.liquidity_floor ∷ [])
    before_safe ← calculate_safe_to_spend input.safe_to_spend
    return_if (not (str_eq before_safe.amount.currency cashflow.recognized_income.currency))
        Error.currency_mismatch
    pool ← sub input.safe_to_spend.liquid_discretionary_pool input.purchase
    after_safe ← calculate_safe_to_spend (pool_less input.safe_to_spend pool)
    after_expense ← add cashflow.recognized_expense input.purchase
    after_net ← sub cashflow.recognized_income after_expense
    after_liquid ← sub input.liquid_balance input.purchase
    before_rate ← savings_rate cashflow
    after_rate ← savings_rate (cashflow_of cashflow.recognized_income after_expense after_net)
    safe_delta ← sub after_safe.amount before_safe.amount
    net_delta ← sub after_net cashflow.net_cashflow
    debt_timeline ← timeline_impact_of input.debt_timeline
    goal_timeline ← timeline_impact_of input.goal_timeline
    ok (record {
      before = record {
        safe_to_spend = before_safe;
        savings_rate = before_rate;
        liquid_balance = input.liquid_balance;
        net_cashflow = cashflow.net_cashflow;
      };
      after = record {
        safe_to_spend = after_safe;
        savings_rate = after_rate;
        liquid_balance = after_liquid;
        net_cashflow = after_net;
      };
      safe_to_spend_delta = safe_delta;
      net_cashflow_delta = net_delta;
      debt_timeline = debt_timeline;
      goal_timeline = goal_timeline;
      violations =
          violations_of after_safe.is_deficit
            (ltb_ℤ after_liquid.minor input.liquidity_floor.minor);
    })

  unfoldable pub simulate_extra_debt_payment :
      ExtraDebtPaymentInput Decimal → Result ExtraDebtPaymentResult
  unfolding simulate_debt
  simulate_extra_debt_payment input = do
    before ← simulate_debt D input.debt input.before_extra_monthly
    after ← simulate_debt D input.debt input.after_extra_monthly
    interest_delta ← sub after.total_interest before.total_interest
    fee_delta ← sub after.total_fees before.total_fees
    ok (record {
      before = before;
      after = after;
      payoff_months_delta = sub64 after.payoff_months before.payoff_months;
      interest_delta = interest_delta;
      fee_delta = fee_delta;
    })

  unfoldable pub simulate_budget_change : BudgetChangeInput → Result (BudgetChangeResult Decimal)
  unfolding calculate_budget_line
  simulate_budget_change input = do
    before ← calculate_budget_line D input.line input.actual
    after ←
        calculate_budget_line D (record input.line { planned = input.proposed_planned })
          input.actual
    delta ← sub after.remaining before.remaining
    ok (record { before = before; after = after; remaining_delta = delta })

  unfoldable pub simulate_income_drop : IncomeDropInput → Result (IncomeDropResult Decimal)
  unfolding validated_cashflow savings_rate
  simulate_income_drop input = do
    before ← validated_cashflow input.cashflow
    return_if
        (ltb_ℤ input.drop.minor (pos 0) || ltb_ℤ before.recognized_income.minor input.drop.minor)
        Error.invalid_scenario
    require_currency before.recognized_income.currency (input.drop ∷ [])
    after_income ← sub before.recognized_income input.drop
    after_net ← sub after_income before.recognized_expense
    before_rate ← savings_rate before
    after_rate ← savings_rate (cashflow_of after_income before.recognized_expense after_net)
    ok (record {
      before = before;
      after = cashflow_of after_income before.recognized_expense after_net;
      before_savings_rate = before_rate;
      after_savings_rate = after_rate;
    })

  unfoldable pub simulate_goal : GoalScenarioInput Decimal → Result GoalScenarioResult
  unfolding project_goal
  simulate_goal input = do
    before ← project_goal D input.before
    after ← project_goal D input.after
    required_delta ← sub after.required_monthly before.required_monthly
    gap_delta ← sub after.gap_at_target before.gap_at_target
    ok (record {
      before = before;
      after = after;
      required_monthly_delta = required_delta;
      gap_at_target_delta = gap_delta;
    })
