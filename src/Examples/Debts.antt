-- ===== src/Examples/Debts.antt =====
-- A loan that is paid off early, and a plan for two loans.
use family_finance_os.Prelude.{
  ◌≡◌, refl, arith, String, Bool, true, false, ℕ, List, [], ◌∷◌, Option, none, some, Result, ok,
  err,
}
use family_finance_os.Prelude.Int.{ℤ, pos}
use family_finance_os.Money.{Money}
use family_finance_os.Debt.{
  DebtContract, DebtPayment, DebtSimulation, DebtRateType, DebtRepaymentType, DebtExtraAllocation,
  PayoffPlan, PayoffStrategy,
}
use family_finance_os.Debt.Simulator.{simulate_debt}
use family_finance_os.Debt.Strategy.{build_payoff_plan}
use family_finance_os.Debt.Payoff.{IsSchedule, simulate_debt-IsSchedule}
use family_finance_os.Debt.Plan.{IsGreedy, build_payoff_plan-IsGreedy}
use family_finance_os.Examples.Decimals.{four_places, four_places-CmpLaws, four_places-Laws}

abbrev cny : ℕ → Money
cny n = record { minor = pos n; currency = "CNY" }

abbrev loan : ℕ → ℕ → ℕ → DebtRepaymentType → DebtContract ℤ
loan id balance term repayment_type = record {
  id = pos id;
  name = "loan";
  original_principal = cny 10_000;
  balance = cny balance;
  apr = some (pos 1200);
  rate_type = DebtRateType.fixed;
  term_remaining_months = pos term;
  due_day = pos 15;
  repayment_type = repayment_type;
  minimum_payment = cny 0;
  scheduled_payment = cny 0;
  prepayment_fee_rate = some (pos 100);
  prepayment_restricted_months = pos 1;
  revolving = false;
  active = true;
}

-- Monthly interest of one percent, and extra payments from the second month on.
abbrev schedule : DebtSimulation
schedule = record {
  payments =
      record {
        month = pos 1;
        opening_balance = cny 3000;
        interest = cny 30;
        scheduled_payment = cny 530;
        scheduled_principal = cny 500;
        extra_principal = cny 0;
        prepayment_fee = cny 0;
        closing_balance = cny 2500;
      }
      ∷ record {
        month = pos 2;
        opening_balance = cny 2500;
        interest = cny 25;
        scheduled_payment = cny 525;
        scheduled_principal = cny 500;
        extra_principal = cny 800;
        prepayment_fee = cny 8;
        closing_balance = cny 1200;
      }
      ∷ record {
        month = pos 3;
        opening_balance = cny 1200;
        interest = cny 12;
        scheduled_payment = cny 512;
        scheduled_principal = cny 500;
        extra_principal = cny 700;
        prepayment_fee = cny 7;
        closing_balance = cny 0;
      }
      ∷ [];
  total_interest = cny 67;
  total_fees = cny 15;
  payoff_months = pos 3;
}

simulate_debt-IsSchedule_example :
    IsSchedule four_places (loan 1 3000 6 DebtRepaymentType.equal_principal) (cny 800) schedule
unfolding simulate_debt family_finance_os.Debt.Validation.validate_debt_for_simulation
    family_finance_os.Prelude.Int.◌-ℤ◌ family_finance_os.Examples.Decimals.scale
    family_finance_os.Debt.Validation.monthly_rate family_finance_os.Examples.Decimals.scaled_quo
    family_finance_os.Debt.Decimal.divide_and_round_minor
    family_finance_os.Examples.Decimals.scaled_quantize
    family_finance_os.Examples.Decimals.scaled_int64
    family_finance_os.Debt.Decimal.multiply_and_round_minor
    family_finance_os.Examples.Decimals.scaled_mul
    family_finance_os.Debt.Amortization.scheduled_amounts
    family_finance_os.Debt.Decimal.add_minor_checked family_finance_os.Money.add
simulate_debt-IsSchedule_example =
    simulate_debt-IsSchedule four_places (loan 1 3000 6 DebtRepaymentType.equal_principal) (cny 800)
      schedule four_places-Laws (omega arith, omega arith) (omega arith, omega arith) refl

abbrev two_loans : List (DebtContract ℤ)
two_loans = loan 1 3000 6 DebtRepaymentType.annuity ∷ loan 2 500 6 DebtRepaymentType.annuity ∷ []

abbrev plan : PayoffPlan
plan = record {
  strategy = PayoffStrategy.snowball;
  available_extra = cny 2000;
  liquidity_shortfall = cny 0;
  allocations =
      record { debt_id = pos 2; amount = cny 500 }
      ∷ record { debt_id = pos 1; amount = cny 1500 }
      ∷ [];
}

build_payoff_plan-IsGreedy_example :
    IsGreedy four_places two_loans (cny 5000) (cny 3000) PayoffStrategy.snowball plan
unfolding build_payoff_plan family_finance_os.Prelude.Word.sub64
build_payoff_plan-IsGreedy_example =
    build_payoff_plan-IsGreedy four_places two_loans (cny 5000) (cny 3000) PayoffStrategy.snowball
      plan four_places-CmpLaws ((omega arith, omega arith), ((omega arith, omega arith), tt))
      (omega arith, omega arith) (omega arith) refl
