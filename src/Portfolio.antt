-- ===== src/Portfolio.antt =====
-- internal/portfolio/models.go and service.go: the summary of a portfolio.
pub mod Totals
pub mod Snapshot
use family_finance_os.Prelude.{
  String, Bool, true, false, not, ◌&&◌, ◌||◌, List, [], ◌∷◌, ◌++◌, Option, none, some, Result, ok,
  err, Error, ◌>>=◌, ◌>>◌, return_if, if◌then◌else◌,
}
use family_finance_os.Prelude.Int.{ℤ, pos, ltb_ℤ}
use family_finance_os.Prelude.Text.{str_eq}
use family_finance_os.Prelude.Time.{Time, Duration, sub_time}
use family_finance_os.Prelude.Eq.{Dict, insert, string_eq}
use family_finance_os.Prelude.Keys.{get}
use family_finance_os.Money.{Money, zero_money, add}
use family_finance_os.Debt.Decimal.{Decimals}

-- The Go type is a string.
abbrev pub AssetClass : Type 0
AssetClass = String

abbrev pub valid_class : AssetClass → Bool
valid_class c =
    str_eq c "cash"
    || (str_eq c "deposit"
        || (str_eq c "fixed_income"
            || (str_eq c "equity"
                || (str_eq c "fund"
                    || (str_eq c "gold" || (str_eq c "property" || str_eq c "other"))))))

pub record Holding : Type 0 where
  pub id : String
  pub name : String
  pub class : AssetClass
  pub value : Money
  pub source_currency : String
  pub valuation_as_of : Time
  pub fx_as_of : Option Time

pub record SummaryInput : Type 0 where
  pub reporting_currency : String
  pub as_of : Time
  pub valuation_stale_after : Duration
  pub fx_stale_after : Duration
  pub valuations : List Holding

pub record Allocation (Decimal : Type 0) : Type 0 where
  pub value : Money
  pub share : Option Decimal

pub data WarningCode : Type 0 where
  fx_missing fx_stale valuation_stale : WarningCode

pub record Warning : Type 0 where
  pub code : WarningCode
  pub valuation_id : String

pub record Summary (Decimal : Type 0) : Type 0 where
  pub total : Money
  pub by_class : Dict AssetClass (Allocation Decimal)
  pub warnings : List Warning

abbrev is_stale : Duration → Time → Time → Bool
is_stale stale_after as_of t = ltb_ℤ (pos 0) stale_after && ltb_ℤ stale_after (sub_time as_of t)

abbrev warn_if : Bool → WarningCode → String → List Warning
warn_if test code id = if test then record { code = code; valuation_id = id } ∷ [] else []

abbrev fx_warnings : Option Time → SummaryInput → String → List Warning
fx_warnings none input id = warn_if true WarningCode.fx_missing id
fx_warnings (some t) input id =
    warn_if (is_stale input.fx_stale_after input.as_of t) WarningCode.fx_stale id

unfoldable pub warnings_of : SummaryInput → Holding → List Warning
warnings_of input v =
    warn_if (is_stale input.valuation_stale_after input.as_of v.valuation_as_of)
      WarningCode.valuation_stale v.id
    ++ (if not (str_eq v.source_currency input.reporting_currency)
        then fx_warnings v.fx_as_of input v.id
        else [])

module _ (D : Decimals) where
  open D use {Decimal, from_int, quo}

  abbrev pub no_allocation : Allocation Decimal
  no_allocation = record { value = zero_money ""; share = none }

  -- `byClass[valuation.Class]`, with the reporting currency where the map has no entry.
  abbrev pub current_value : String → AssetClass → Dict AssetClass (Allocation Decimal) → Money
  current_value currency class by_class =
      let value = (get no_allocation class by_class).value in
      if str_eq value.currency "" then record value { currency = currency } else value

  abbrev pub with_value :
      Money
      → AssetClass
      → Dict AssetClass (Allocation Decimal)
      → Dict AssetClass (Allocation Decimal)
  with_value value class by_class =
      insert class (record { value = value; share = (get no_allocation class by_class).share })
        by_class

  -- One round of the first loop.
  unfoldable pub include : SummaryInput → Holding → Summary Decimal → Result (Summary Decimal)
  unfolding warnings_of
  include input v s = do
    return_if (not (valid_class v.class)) Error.invalid_asset_class
    return_if (ltb_ℤ v.value.minor (pos 0)) Error.negative_valuation
    return_if (not (str_eq v.value.currency input.reporting_currency)) Error.currency_mismatch
    total ← add s.total v.value
    value ← add (current_value input.reporting_currency v.class s.by_class) v.value
    ok (record {
      total = total;
      by_class = with_value value v.class s.by_class;
      warnings = s.warnings ++ warnings_of input v;
    })

  unfoldable pub include_all :
      SummaryInput → List Holding → Summary Decimal → Result (Summary Decimal)
  unfolding include
  include_all input [] s = ok s
  include_all input (v ∷ vs) s = do s' ← include input v s; include_all input vs s'

  -- The second loop; `allocationContext` is the context of `quo`.
  unfoldable pub set_shares :
      ℤ → Dict AssetClass (Allocation Decimal) → Result (Dict AssetClass (Allocation Decimal))
  set_shares total [] = ok []
  set_shares total ((class, a) ∷ by_class) = do
    share ← quo (from_int a.value.minor) (from_int total)
    rest ← set_shares total by_class
    ok ((class, record { value = a.value; share = some share }) ∷ rest)

  abbrev pub no_holdings : String → Summary Decimal
  no_holdings currency = record { total = zero_money currency; by_class = []; warnings = [] }

  abbrev pub shared : Summary Decimal → Result (Summary Decimal)
  shared s = do
    by_class ← set_shares s.total.minor s.by_class
    ok (record s { by_class = by_class })

  unfoldable pub summarize : SummaryInput → Result (Summary Decimal)
  unfolding include_all set_shares
  summarize input = do
    s ← include_all input input.valuations (no_holdings input.reporting_currency)
    let with_shares = shared s
    if ltb_ℤ (pos 0) s.total.minor then with_shares else ok s
