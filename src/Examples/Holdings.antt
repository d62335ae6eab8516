-- ===== src/Examples/Holdings.antt =====
-- A portfolio of two classes.
use family_finance_os.Prelude.{◌≡◌, refl, arith, String, ℕ, [], ◌∷◌, none, some}
use family_finance_os.Prelude.Int.{ℤ, pos}
use family_finance_os.Prelude.Eq.{total}
use family_finance_os.Prelude.Sort.{sum}
use family_finance_os.Money.{Money}
use family_finance_os.Portfolio.{Holding, Summary, SummaryInput, WarningCode, summarize}
use family_finance_os.Portfolio.Totals.{minor_of, value_of, summarize_adds_up}
use family_finance_os.Examples.Decimals.{four_places}

abbrev cny : ℕ → Money
cny n = record { minor = pos n; currency = "CNY" }

abbrev holding : String → String → ℕ → Holding
holding id class value = record {
  id = id;
  name = id;
  class = class;
  value = cny value;
  source_currency = "CNY";
  valuation_as_of = pos 100;
  fx_as_of = none;
}

abbrev input : SummaryInput
input = record {
  reporting_currency = "CNY";
  as_of = pos 500;
  valuation_stale_after = pos 1000;
  fx_stale_after = pos 1000;
  valuations =
      holding "a" "fund" 300
      ∷ holding "b" "cash" 500
      ∷ record (holding "c" "fund" 200) { source_currency = "USD" }
      ∷ [];
}

abbrev summary : Summary ℤ
summary = record {
  total = cny 1000;
  by_class =
      ("fund", record { value = cny 500; share = some (pos 5000) })
      ∷ ("cash", record { value = cny 500; share = some (pos 5000) })
      ∷ [];
  warnings = record { code = WarningCode.fx_missing; valuation_id = "c" } ∷ [];
}

summarize_adds_up_example :
    (pos 1000 ≡ sum value_of input.valuations)
    × (summary.total.currency ≡ "CNY")
    × (total (minor_of four_places) summary.by_class ≡ pos 1000)
unfolding summarize family_finance_os.Money.add family_finance_os.Examples.Decimals.scaled_quo
    family_finance_os.Examples.Decimals.scale
summarize_adds_up_example =
    summarize_adds_up four_places input summary
      ((omega arith, omega arith), ((omega arith, omega arith), ((omega arith, omega arith), tt)))
      refl
