-- ===== src/Examples/Homes.antt =====
-- A household with an income.
use family_finance_os.Prelude.{refl, String, Bool, true, [], ◌∷◌, none}
use family_finance_os.Prelude.Int.{pos}
use family_finance_os.Prelude.Text.{char_count}
use family_finance_os.Household.{Cadence, IncomeStability, NewHousehold, NewIncomeSource}
use family_finance_os.Household.Service.{
  HouseholdStore, create_household, add_income_source, home_row, source_row,
}
use family_finance_os.Household.Amounts.{AmountsFit}
use family_finance_os.Household.Histories.{Changes, History, History-AmountsFit}

abbrev as_is : String → String
as_is s = s

abbrev any_zone : String → Bool
any_zone zone = true

abbrev no_homes : HouseholdStore
no_homes = record {
  households = [];
  members = [];
  income_sources = [];
  expense_baselines = [];
  policies = [];
}

abbrev home : NewHousehold
home = record { name = "Wu"; base_currency = "CNY"; timezone = "UTC" }

abbrev salary : NewIncomeSource
salary = record {
  member_id = none;
  name = "salary";
  amount = record { minor = pos 900; currency = "CNY" };
  cadence = Cadence.monthly;
  stability = IncomeStability.stable;
  active = true;
}

abbrev one_home : HouseholdStore
one_home = record no_homes { households = home_row (pos 1) home ∷ [] }

abbrev paid_home : HouseholdStore
paid_home = record one_home {
  income_sources = source_row (pos 2) (pos 1) (home_row (pos 1) home) "salary" salary ∷ [];
}

first_home : Changes as_is char_count any_zone no_homes one_home
unfolding create_household char_count
first_home = Changes.created (pos 1) home (home_row (pos 1) home) refl

first_salary : Changes as_is char_count any_zone one_home paid_home
unfolding add_income_source char_count
first_salary =
    Changes.source_added (pos 2) (pos 1) salary
      (source_row (pos 2) (pos 1) (home_row (pos 1) home) "salary" salary) refl

no_homes-AmountsFit : AmountsFit no_homes
no_homes-AmountsFit = record { sources = tt; baselines = tt; floors = tt }

History-AmountsFit_example : AmountsFit paid_home
History-AmountsFit_example =
    History-AmountsFit as_is char_count any_zone no_homes-AmountsFit
      (History.then_change (History.then_change History.start first_home) first_salary)
