-- ===== src/Debt/Simulator.antt =====
-- internal/debt/simulator.go.
use family_finance_os.Prelude.{
  not, ◌&&◌, ℕ, zero, suc, String, List, [], ◌∷◌, ◌++◌, Option, none, some, Result, ok, err, Error,
  ◌>>=◌, ◌>>◌, return_if, if◌then◌else◌, length,
}
use family_finance_os.Prelude.Int.{ℤ, pos, pos_part, ltb_ℤ, eqb_ℤ}
use family_finance_os.Prelude.Word.{sub64, add64}
use family_finance_os.Money.{Money, zero_money, add}
use family_finance_os.Debt.{DebtContract, DebtPayment, DebtRepaymentType, DebtSimulation}
use family_finance_os.Debt.Decimal.{
  Decimals, multiply_and_round_minor, divide_and_round_minor, min_int,
}
use family_finance_os.Debt.Validation.{validate_debt_for_simulation, monthly_rate}
use family_finance_os.Debt.Amortization.{annuity_payment_minor, scheduled_amounts}

abbrev max_simulation_months : ℤ
max_simulation_months = pos 1200

abbrev pub money : ℤ → String → Money
money minor currency = record { minor = minor; currency = currency }

-- The variables of the loop.
pub record Progress : Type 0 where
  pub payments : List DebtPayment
  pub total_interest : Money
  pub total_fees : Money
  pub balance : Money

module _ (D : Decimals) where
  open D use {Decimal, is_zero}

  -- `feeMinor`
  abbrev pub fee_of : Option Decimal → ℤ → Result ℤ
  fee_of none extra = ok (pos 0)
  fee_of (some rate) extra =
      if ltb_ℤ (pos 0) extra && not (is_zero rate)
      then multiply_and_round_minor D extra rate
      else ok (pos 0)

  -- `extraMinor`
  unfoldable pub extra_of : DebtContract Decimal → ℤ → ℤ → ℤ → ℤ
  extra_of debt month extra_monthly remaining =
      if ltb_ℤ debt.prepayment_restricted_months month
        && (ltb_ℤ (pos 0) extra_monthly && ltb_ℤ (pos 0) remaining)
      then min_int extra_monthly remaining
      else pos 0

  unfoldable pub simulate_month :
      DebtContract Decimal → ℤ → Money → Decimal → ℤ → ℤ → Money → Result DebtPayment
  unfolding extra_of
  simulate_month debt month opening rate annuity_minor equal_principal_minor extra_monthly = do
    interest ← multiply_and_round_minor D opening.minor rate
    amounts ←
        scheduled_amounts D debt month opening.minor interest annuity_minor equal_principal_minor
    let remaining = sub64 opening.minor amounts.0
    let extra = extra_of debt month extra_monthly.minor remaining
    fee ← fee_of debt.prepayment_fee_rate extra
    ok (record {
      month = month;
      opening_balance = opening;
      interest = money interest opening.currency;
      scheduled_payment = money amounts.1 opening.currency;
      scheduled_principal = money amounts.0 opening.currency;
      extra_principal = money extra opening.currency;
      prepayment_fee = money fee opening.currency;
      closing_balance = money (sub64 remaining extra) opening.currency;
    })

  -- The extra amount of a month: with a one-time month, only that month has it.
  abbrev pub month_extra : Money → ℤ → ℤ → String → Money
  month_extra extra one_time_month month currency =
      if ltb_ℤ (pos 0) one_time_month && not (eqb_ℤ month one_time_month)
      then zero_money currency
      else extra

  -- What one month adds to the result.
  unfoldable pub record_payment : DebtPayment → Progress → Result Progress
  record_payment payment s = do
    total_interest ← add s.total_interest payment.interest
    total_fees ← add s.total_fees payment.prepayment_fee
    ok (record {
      payments = s.payments ++ payment ∷ [];
      total_interest = total_interest;
      total_fees = total_fees;
      balance = payment.closing_balance;
    })

  module _ (debt : DebtContract Decimal) (extra : Money) (one_time_month : ℤ) (currency : String)
      (rate : Decimal) (annuity_minor equal_principal_minor : ℤ) where
    -- `for month := 1; month <= limit && balance.Minor > 0; month++`, over the rounds that the
    -- limit leaves.
    unfoldable pub simulate_months : ℕ → ℤ → Progress → Result Progress
    unfolding simulate_month record_payment
    simulate_months zero month s = ok s
    simulate_months (suc rounds) month s =
        let next = (do
          payment ←
              simulate_month debt month s.balance rate annuity_minor equal_principal_minor
                (month_extra extra one_time_month month currency)
          s' ← record_payment payment s
          simulate_months rounds (add64 month (pos 1)) s') in
        if ltb_ℤ (pos 0) s.balance.minor then next else ok s

  -- `fixedScheduledMinor` and `equalPrincipalMinor`
  unfoldable pub fixed_amounts : DebtRepaymentType → DebtContract Decimal → Decimal → Result (ℤ × ℤ)
  fixed_amounts DebtRepaymentType.annuity debt rate = do
    annuity ← annuity_payment_minor D debt.balance.minor debt.term_remaining_months rate
    ok (annuity, pos 0)
  fixed_amounts DebtRepaymentType.equal_principal debt rate = do
    equal ← divide_and_round_minor D debt.balance.minor debt.term_remaining_months
    ok (pos 0, equal)
  fixed_amounts DebtRepaymentType.revolving debt rate = ok (pos 0, pos 0)
  fixed_amounts DebtRepaymentType.custom debt rate = ok (pos 0, pos 0)
  fixed_amounts (DebtRepaymentType.other _) debt rate = err Error.invalid_debt

  abbrev pub month_limit : DebtRepaymentType → DebtContract Decimal → ℤ
  month_limit DebtRepaymentType.revolving debt = max_simulation_months
  month_limit DebtRepaymentType.custom debt = max_simulation_months
  month_limit _ debt = debt.term_remaining_months

  abbrev pub no_progress : Money → String → Progress
  no_progress balance currency = record {
    payments = [];
    total_interest = zero_money currency;
    total_fees = zero_money currency;
    balance = balance;
  }

  abbrev pub result_of : Progress → DebtSimulation
  result_of s = record {
    payments = s.payments;
    total_interest = s.total_interest;
    total_fees = s.total_fees;
    payoff_months = pos (length s.payments);
  }

  -- The body below the test for an empty balance. The APR is there: the validation has seen it.
  unfoldable pub amortize :
      DebtContract Decimal → Money → ℤ → String → Option Decimal → Result DebtSimulation
  unfolding simulate_months fixed_amounts
  amortize debt extra one_time_month currency none = err Error.apr_required
  amortize debt extra one_time_month currency (some apr) = do
    rate ← monthly_rate D apr
    amounts ← fixed_amounts debt.repayment_type debt rate
    s ←
        simulate_months debt extra one_time_month currency rate amounts.0 amounts.1
          (pos_part (month_limit debt.repayment_type debt)) (pos 1)
          (no_progress debt.balance currency)
    return_if (not (eqb_ℤ s.balance.minor (pos 0))) Error.non_amortizing_debt
    ok (result_of s)

  unfoldable pub simulate_debt_from : DebtContract Decimal → Money → ℤ → Result DebtSimulation
  unfolding amortize
  simulate_debt_from debt extra one_time_month = do
    currency ← validate_debt_for_simulation D debt extra
    if eqb_ℤ debt.balance.minor (pos 0)
        then ok (result_of (no_progress debt.balance currency))
        else amortize debt extra one_time_month currency debt.apr

  unfoldable pub simulate_debt : DebtContract Decimal → Money → Result DebtSimulation
  unfolding simulate_debt_from
  simulate_debt debt extra_monthly = simulate_debt_from debt extra_monthly (pos 0)

  unfoldable pub simulate_one_time_extra_payment :
      DebtContract Decimal → Money → Result DebtSimulation
  unfolding simulate_debt_from
  simulate_one_time_extra_payment debt extra_payment =
      simulate_debt_from debt extra_payment (add64 debt.prepayment_restricted_months (pos 1))
