-- ===== src/Debt/Amortization.antt =====
-- internal/debt/amortization.go.
use family_finance_os.Prelude.{
  ℕ, zero, suc, Result, ok, err, Error, ◌>>=◌, ◌>>◌, return_if, if◌then◌else◌,
}
use family_finance_os.Prelude.Int.{ℤ, pos, pos_part, ltb_ℤ, leb_ℤ, eqb_ℤ}
use family_finance_os.Prelude.Word.{sub64}
use family_finance_os.Debt.{DebtContract, DebtRepaymentType}
use family_finance_os.Debt.Decimal.{
  Decimals, round_decimal_to_minor, divide_and_round_minor, add_minor_checked, min_int,
}

-- The shared end of three cases: principal and payment, with the addition checked.
abbrev pub with_payment : ℤ → ℤ → Result (ℤ × ℤ)
with_payment principal interest = do
  payment ← add_minor_checked principal interest
  ok (principal, payment)

-- The cases `revolving` and `custom`, which differ in the configured payment.
unfoldable pub configured_amounts : ℤ → ℤ → ℤ → Result (ℤ × ℤ)
configured_amounts configured opening interest = do
  total_due ← add_minor_checked opening interest
  let principal = sub64 (min_int configured total_due) interest
  return_if (leb_ℤ principal (pos 0)) Error.non_amortizing_debt
  with_payment (min_int principal opening) interest

module _ (D : Decimals) where
  open D use {Decimal, from_int, is_zero, plus, minus, mul, quo}

  -- `for range months { factor *= onePlusRate }`
  unfoldable pub compound : ℕ → Decimal → Decimal → Result Decimal
  compound zero one_plus_rate factor = ok factor
  compound (suc months) one_plus_rate factor = do
    factor' ← mul factor one_plus_rate
    compound months one_plus_rate factor'

  unfoldable pub annuity_payment_minor : ℤ → ℤ → Decimal → Result ℤ
  unfolding compound
  annuity_payment_minor principal months rate =
      if is_zero rate then divide_and_round_minor D principal months else (do
        one_plus_rate ← plus (from_int (pos 1)) rate
        factor ← compound (pos_part months) one_plus_rate (from_int (pos 1))
        numerator ← mul (from_int principal) rate
        numerator' ← mul numerator factor
        denominator ← minus factor (from_int (pos 1))
        payment ← quo numerator' denominator
        round_decimal_to_minor D payment)

  -- Principal and payment of a month.
  unfoldable pub amounts_of :
      DebtRepaymentType → DebtContract Decimal → ℤ → ℤ → ℤ → ℤ → ℤ → Result (ℤ × ℤ)
  unfolding configured_amounts
  amounts_of DebtRepaymentType.annuity debt month opening interest annuity equal =
      if eqb_ℤ month debt.term_remaining_months then with_payment opening interest else (do
        let principal = sub64 annuity interest
        return_if (ltb_ℤ principal (pos 0)) Error.non_amortizing_debt
        with_payment (min_int principal opening) interest)
  amounts_of DebtRepaymentType.equal_principal debt month opening interest annuity equal =
      if eqb_ℤ month debt.term_remaining_months
      then with_payment opening interest
      else with_payment (min_int equal opening) interest
  amounts_of DebtRepaymentType.revolving debt month opening interest annuity equal =
      configured_amounts debt.minimum_payment.minor opening interest
  amounts_of DebtRepaymentType.custom debt month opening interest annuity equal =
      configured_amounts debt.scheduled_payment.minor opening interest
  amounts_of (DebtRepaymentType.other _) debt month opening interest annuity equal =
      err Error.invalid_debt

  unfoldable pub scheduled_amounts : DebtContract Decimal → ℤ → ℤ → ℤ → ℤ → ℤ → Result (ℤ × ℤ)
  unfolding amounts_of
  scheduled_amounts debt = amounts_of debt.repayment_type debt
