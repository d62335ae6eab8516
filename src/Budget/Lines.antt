-- ===== src/Budget/Lines.antt =====
-- internal/budget: CalculateBudgetLine of service.go, and the lines of models.go.
use family_finance_os.Prelude.{
  String, Option, none, some, Result, ok, Error, ◌>>=◌, ◌>>◌, return_if, if◌then◌else◌,
}
use family_finance_os.Prelude.Int.{ℤ, pos, ltb_ℤ, eqb_ℤ}
use family_finance_os.Money.{Money, sub}
use family_finance_os.Debt.Decimal.{Decimals}

pub data BudgetKind : Type 0 where
  essential flexible debt saving investment goal : BudgetKind
  other : String → BudgetKind

pub record BudgetLine : Type 0 where
  pub id : ℤ
  pub budget_plan_id : ℤ
  pub external_category_ref : String
  pub semantic_group : String
  pub planned : Money
  pub kind : BudgetKind

pub record BudgetLineMetrics (Decimal : Type 0) : Type 0 where
  pub planned : Money
  pub actual : Money
  pub remaining : Money
  pub utilization : Option Decimal

module _ (D : Decimals) where
  open D use {Decimal, from_int, quo}

  abbrev pub metrics_of : Money → Money → Money → Option Decimal → BudgetLineMetrics Decimal
  metrics_of planned actual remaining utilization = record {
    planned = planned;
    actual = actual;
    remaining = remaining;
    utilization = utilization;
  }

  -- Over the decimals in the context `utilizationContext`.
  unfoldable pub calculate_budget_line : BudgetLine → Money → Result (BudgetLineMetrics Decimal)
  calculate_budget_line line actual = do
    return_if (ltb_ℤ line.planned.minor (pos 0)) Error.negative_planned
    remaining ← sub line.planned actual
    let divided = (do
      utilization ← quo (from_int actual.minor) (from_int line.planned.minor)
      ok (metrics_of line.planned actual remaining (some utilization)))
    if eqb_ℤ line.planned.minor (pos 0)
        then ok (metrics_of line.planned actual remaining none)
        else divided
