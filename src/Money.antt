-- ===== src/Money.antt =====
-- pkg/money/money.go: amounts in minor units with a currency, and checked addition and subtraction.
pub mod Exact
use family_finance_os.Prelude.{String, Bool, ◌&&◌, ◌||◌, not, Result, ok, err, Error, if◌then◌else◌}
use family_finance_os.Prelude.Int.{ℤ, pos, ltb_ℤ}
use family_finance_os.Prelude.Word.{add64, sub64, max_int64, min_int64}
use family_finance_os.Prelude.Text.{str_eq}

pub record Money : Type 0 where
  pub minor : ℤ  -- int64
  pub currency : String

-- `money.Money{Currency: currency}`
abbrev pub zero_money : String → Money
zero_money c = record { minor = pos 0; currency = c }

abbrev pub add_overflows : ℤ → ℤ → Bool
add_overflows m o =
    (ltb_ℤ (pos 0) o && ltb_ℤ (sub64 max_int64 o) m)
    || (ltb_ℤ o (pos 0) && ltb_ℤ m (sub64 min_int64 o))

abbrev pub sub_overflows : ℤ → ℤ → Bool
sub_overflows m o =
    (ltb_ℤ (pos 0) o && ltb_ℤ m (add64 min_int64 o))
    || (ltb_ℤ o (pos 0) && ltb_ℤ (add64 max_int64 o) m)

unfoldable pub add : Money → Money → Result Money
unfolding add64 sub64
add m o =
    if not (str_eq m.currency o.currency)
    then err Error.currency_mismatch
    else if add_overflows m.minor o.minor
    then err Error.overflow
    else ok (record { minor = add64 m.minor o.minor; currency = m.currency })

unfoldable pub sub : Money → Money → Result Money
unfolding add64 sub64
sub m o =
    if not (str_eq m.currency o.currency)
    then err Error.currency_mismatch
    else if sub_overflows m.minor o.minor
    then err Error.overflow
    else ok (record { minor = sub64 m.minor o.minor; currency = m.currency })
