-- ===== src/Examples/Scenarios.antt =====
-- What if: a purchase, and an income that drops.
use family_finance_os.Prelude.{refl, arith, true, false, [], ◌∷◌, none, some}
use family_finance_os.Prelude.Int.{ℤ, pos, negsuc}
use family_finance_os.Money.{Money}
use family_finance_os.Analytics.Cashflow.{CashflowResult}
use family_finance_os.Budget.{SafeToSpendInput, components_of}
use family_finance_os.Scenario.{
  PurchaseInput, PurchaseResult, ViolationCode, IncomeDropInput, IncomeDropResult,
  simulate_purchase, simulate_income_drop,
}
use family_finance_os.Scenario.Changes.{HasAmounts, DropLaws, simulate_income_drop_exact}
use family_finance_os.Scenario.Purchase.{PurchaseAmounts, PurchaseLaws, simulate_purchase_exact}
use family_finance_os.Examples.Decimals.{four_places}

abbrev cny : ℤ → Money
cny n = record { minor = n; currency = "CNY" }

abbrev cashflow : CashflowResult
cashflow = record {
  recognized_income = cny (pos 1000);
  recognized_expense = cny (pos 600);
  net_cashflow = cny (pos 400);
}

cashflow-HasAmounts : HasAmounts cashflow
cashflow-HasAmounts = record {
  income = (omega arith, omega arith);
  expense = (omega arith, omega arith);
  net = (omega arith, omega arith);
}

abbrev drop : IncomeDropInput
drop = record { cashflow = cashflow; drop = cny (pos 600) }

abbrev dropped : IncomeDropResult ℤ
dropped = record {
  before = cashflow;
  after = record {
    recognized_income = cny (pos 400);
    recognized_expense = cny (pos 600);
    net_cashflow = cny (negsuc 199);
  };
  before_savings_rate = some (pos 4000);
  after_savings_rate = some (pos 0);
}

simulate_income_drop_exact_example : DropLaws four_places drop dropped
unfolding simulate_income_drop family_finance_os.Money.sub
    family_finance_os.Examples.Decimals.scaled_quo family_finance_os.Examples.Decimals.scale
simulate_income_drop_exact_example =
    simulate_income_drop_exact four_places drop dropped cashflow-HasAmounts
      (omega arith, omega arith) refl

abbrev spendable : SafeToSpendInput
spendable = record {
  liquid_discretionary_pool = cny (pos 900);
  upcoming_mandatory_expenses = cny (pos 200);
  debt_commitments = cny (pos 100);
  debt_commitments_already_reserved = false;
  essential_reserve_until_period_end = cny (pos 300);
  emergency_fund_gap_reserved = cny (pos 0);
  hard_goal_contributions = cny (pos 50);
}

abbrev purchase : PurchaseInput
purchase = record {
  purchase = cny (pos 300);
  cashflow = cashflow;
  safe_to_spend = spendable;
  liquid_balance = cny (pos 900);
  liquidity_floor = cny (pos 500);
  debt_timeline = some (record { before_months = pos 12; after_months = pos 14 });
  goal_timeline = none;
}

abbrev purchased : PurchaseResult ℤ
purchased = record {
  before = record {
    safe_to_spend = record {
      amount = cny (pos 250);
      is_deficit = false;
      components = components_of spendable;
    };
    savings_rate = some (pos 4000);
    liquid_balance = cny (pos 900);
    net_cashflow = cny (pos 400);
  };
  after = record {
    safe_to_spend = record {
      amount = cny (negsuc 49);
      is_deficit = true;
      components = components_of (record spendable { liquid_discretionary_pool = cny (pos 600) });
    };
    savings_rate = some (pos 1000);
    liquid_balance = cny (pos 600);
    net_cashflow = cny (pos 100);
  };
  safe_to_spend_delta = cny (negsuc 299);
  net_cashflow_delta = cny (negsuc 299);
  debt_timeline =
      some (record { before_months = pos 12; after_months = pos 14; delta_months = pos 2 });
  goal_timeline = none;
  violations = ViolationCode.safe_to_spend_deficit ∷ [];
}

purchase-PurchaseAmounts : PurchaseAmounts purchase
purchase-PurchaseAmounts = record {
  purchase = (omega arith, omega arith);
  cashflow = cashflow-HasAmounts;
  pool = (omega arith, omega arith);
  values = (
    (omega arith, omega arith),
    (
      (omega arith, omega arith),
      ((omega arith, omega arith), ((omega arith, omega arith), ((omega arith, omega arith), tt))),
    ),
  );
  balance = (omega arith, omega arith);
}

simulate_purchase_exact_example : PurchaseLaws four_places purchase purchased
unfolding simulate_purchase family_finance_os.Money.sub family_finance_os.Money.add
    family_finance_os.Examples.Decimals.scaled_quo family_finance_os.Examples.Decimals.scale
simulate_purchase_exact_example =
    simulate_purchase_exact four_places purchase purchased purchase-PurchaseAmounts refl
