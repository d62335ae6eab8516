-- ===== src/Household.antt =====
-- internal/household: models.go and validation.go. Upper case letters, the length of a text in bytes
-- and the time zones that time.LoadLocation knows are parameters. Service is service.go.
pub mod Service
pub mod Amounts
pub mod Histories
use family_finance_os.Prelude.{
  Bool, true, false, not, String, ℕ, ◌==◌, List, Option, Result, ok, err, Error, ◌>>=◌, ◌>>◌,
  return_if, if◌then◌else◌,
}
use family_finance_os.Prelude.Int.{ℤ, pos, ltb_ℤ}
use family_finance_os.Prelude.Text.{str_eq, is_empty, trim_space, all_chars}
use family_finance_os.Money.{Money}
use family_finance_os.Portfolio.Snapshot.{is_upper}

pub data MemberKind : Type 0 where
  adult child dependent : MemberKind
  other_kind : String → MemberKind

pub data Cadence : Type 0 where
  monthly annual irregular : Cadence
  other_cadence : String → Cadence

pub data IncomeStability : Type 0 where
  stable variable irregular : IncomeStability
  other_stability : String → IncomeStability

abbrev pub valid_kind : MemberKind → Bool
valid_kind (MemberKind.other_kind _) = false
valid_kind _ = true

abbrev pub valid_cadence : Cadence → Bool
valid_cadence (Cadence.other_cadence _) = false
valid_cadence _ = true

abbrev pub valid_stability : IncomeStability → Bool
valid_stability (IncomeStability.other_stability _) = false
valid_stability _ = true

pub record Household : Type 0 where
  pub id : ℤ
  pub name : String
  pub base_currency : String
  pub timezone : String

pub record NewHousehold : Type 0 where
  pub name : String
  pub base_currency : String
  pub timezone : String

pub record Member : Type 0 where
  pub id : ℤ
  pub household_id : ℤ
  pub name : String
  pub kind : MemberKind
  pub active : Bool

pub record NewMember : Type 0 where
  pub name : String
  pub kind : MemberKind
  pub active : Bool

pub record IncomeSource : Type 0 where
  pub id : ℤ
  pub household_id : ℤ
  pub member_id : Option ℤ
  pub name : String
  pub amount : Money
  pub cadence : Cadence
  pub stability : IncomeStability
  pub active : Bool

pub record NewIncomeSource : Type 0 where
  pub member_id : Option ℤ
  pub name : String
  pub amount : Money
  pub cadence : Cadence
  pub stability : IncomeStability
  pub active : Bool

pub record ExpenseBaseline : Type 0 where
  pub id : ℤ
  pub household_id : ℤ
  pub name : String
  pub amount : Money
  pub cadence : Cadence
  pub essential : Bool
  pub active : Bool

pub record NewExpenseBaseline : Type 0 where
  pub name : String
  pub amount : Money
  pub cadence : Cadence
  pub essential : Bool
  pub active : Bool

pub record HouseholdPolicy : Type 0 where
  pub household_id : ℤ
  pub liquidity_floor : Money

pub record Profile : Type 0 where
  pub household : Household
  pub members : List Member
  pub income_sources : List IncomeSource
  pub expense_baselines : List ExpenseBaseline
  pub policy : HouseholdPolicy

-- The name without the spaces around it.
unfoldable pub validate_name : String → Result String
unfolding trim_space
validate_name name = do
  return_if (is_empty (trim_space name)) Error.name_required
  ok (trim_space name)

module _ (to_upper : String → String) (byte_length : String → ℕ) where
  unfoldable pub normalize_currency : String → Result String
  unfolding trim_space all_chars
  normalize_currency raw =
      let currency = to_upper (trim_space raw) in
      do
        return_if (not (byte_length currency == 3)) Error.invalid_currency
        return_if (not (all_chars is_upper currency)) Error.invalid_currency
        ok currency

  unfoldable pub validate_new_household : (String → Bool) → NewHousehold → Result NewHousehold
  unfolding trim_space normalize_currency
  validate_new_household known_zone input = do
    return_if (is_empty (trim_space input.name)) Error.name_required
    currency ← normalize_currency input.base_currency
    return_if (is_empty (trim_space input.timezone)) Error.invalid_timezone
    return_if (not (known_zone (trim_space input.timezone))) Error.invalid_timezone
    ok (record {
      name = trim_space input.name;
      base_currency = currency;
      timezone = trim_space input.timezone;
    })

  unfoldable pub validate_money_for_base : Money → String → Result (Unit {0})
  unfolding normalize_currency
  validate_money_for_base amount base_currency = do
    currency ← normalize_currency amount.currency
    return_if (not (str_eq currency base_currency)) Error.base_currency_mismatch
    return_if (ltb_ℤ amount.minor (pos 0)) Error.negative_amount
