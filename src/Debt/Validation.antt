-- ===== src/Debt/Validation.antt =====
-- internal/debt/validation.go.
use family_finance_os.Prelude.{
  String, Bool, not, ◌||◌, Option, none, some, Result, ok, err, Error, ◌>>◌, return_if,
}
use family_finance_os.Prelude.Int.{ℤ, pos, ltb_ℤ, leb_ℤ}
use family_finance_os.Prelude.Text.{str_eq}
use family_finance_os.Money.{Money}
use family_finance_os.Debt.{DebtContract, DebtRateType, DebtRepaymentType}
use family_finance_os.Debt.Decimal.{Decimals}

abbrev pub negative : ℤ → Bool
negative z = ltb_ℤ z (pos 0)

module _ (D : Decimals) where
  open D use {Decimal, from_int, cmp, quo}

  abbrev pub below_zero : Decimal → Bool
  below_zero d = negative (cmp d (from_int (pos 0)))

  -- `debt.APR == nil` and `debt.APR.Cmp(apd.New(0, 0)) < 0`
  abbrev pub check_apr : Option Decimal → Result (Unit {0})
  check_apr none = err Error.apr_required
  check_apr (some apr) = return_if (below_zero apr) Error.invalid_debt

  abbrev pub check_fee_rate : Option Decimal → Result (Unit {0})
  check_fee_rate none = ok tt
  check_fee_rate (some rate) = return_if (below_zero rate) Error.invalid_debt

  abbrev pub check_rate_type : DebtRateType → Result (Unit {0})
  check_rate_type (DebtRateType.other _) = err Error.invalid_debt
  check_rate_type _ = ok tt

  abbrev pub check_repayment_type : DebtRepaymentType → DebtContract Decimal → Result (Unit {0})
  check_repayment_type DebtRepaymentType.annuity debt =
      return_if (leb_ℤ debt.term_remaining_months (pos 0)) Error.invalid_debt
  check_repayment_type DebtRepaymentType.equal_principal debt =
      return_if (leb_ℤ debt.term_remaining_months (pos 0)) Error.invalid_debt
  check_repayment_type DebtRepaymentType.revolving debt =
      return_if (leb_ℤ debt.minimum_payment.minor (pos 0)) Error.invalid_debt
  check_repayment_type DebtRepaymentType.custom debt =
      return_if (leb_ℤ debt.scheduled_payment.minor (pos 0)) Error.invalid_debt
  check_repayment_type (DebtRepaymentType.other _) debt = err Error.invalid_debt

  abbrev pub currencies_differ : DebtContract Decimal → Money → Bool
  currencies_differ debt extra =
      let currency = debt.balance.currency in
      str_eq currency ""
      || (not (str_eq debt.original_principal.currency currency)
          || (not (str_eq debt.minimum_payment.currency currency)
              || (not (str_eq debt.scheduled_payment.currency currency)
                  || not (str_eq extra.currency currency))))

  abbrev pub amounts_negative : DebtContract Decimal → Money → Bool
  amounts_negative debt extra =
      negative debt.balance.minor
      || (negative debt.original_principal.minor
          || (negative debt.minimum_payment.minor
              || (negative debt.scheduled_payment.minor || negative extra.minor)))

  unfoldable pub validate_debt_for_simulation : DebtContract Decimal → Money → Result String
  validate_debt_for_simulation debt extra = do
    return_if (currencies_differ debt extra) Error.currency_mismatch
    return_if (amounts_negative debt extra) Error.invalid_debt
    check_apr debt.apr
    check_fee_rate debt.prepayment_fee_rate
    return_if
        (negative debt.prepayment_restricted_months
          || (ltb_ℤ debt.due_day (pos 1) || ltb_ℤ (pos 31) debt.due_day))
        Error.invalid_debt
    check_rate_type debt.rate_type
    check_repayment_type debt.repayment_type debt
    ok debt.balance.currency

  unfoldable pub monthly_rate : Decimal → Result Decimal
  monthly_rate apr = quo apr (from_int (pos 12))
