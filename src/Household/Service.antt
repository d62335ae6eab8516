-- ===== src/Household/Service.antt =====
-- internal/household/service.go, with the statements of db/queries/household.sql on the tables of
-- db/migrations/00001_household.sql. The first ID of an operation is the one that the database
-- generates; rows stand in the order of their IDs. A row of an unknown household violates a constraint.
use family_finance_os.Prelude.{
  Bool, true, false, not, ◌||◌, String, ℕ, List, [], ◌∷◌, ◌++◌, Option, none, some, Result, ok,
  Error, ◌>>=◌, ◌>>◌, return_if, or_err, if◌then◌else◌,
}
use family_finance_os.Prelude.Int.{ℤ, pos, leb_ℤ, eqb_ℤ}
use family_finance_os.Prelude.Eq.{Dict, lookup, insert}
use family_finance_os.Auth.{int_eq}
use family_finance_os.Money.{Money}
use family_finance_os.Household.{
  Household, NewHousehold, Member, NewMember, IncomeSource, NewIncomeSource, ExpenseBaseline,
  NewExpenseBaseline, HouseholdPolicy, Profile, valid_kind, valid_cadence, valid_stability,
  validate_name, validate_new_household, validate_money_for_base,
}

pub record HouseholdStore : Type 0 where
  pub households : List Household
  pub members : List Member
  pub income_sources : List IncomeSource
  pub expense_baselines : List ExpenseBaseline
  pub policies : Dict ℤ Money

abbrev pub household_row : ℤ → List Household → Option Household
household_row id [] = none
household_row id (home ∷ homes) = if eqb_ℤ home.id id then some home else household_row id homes

abbrev pub is_known : ℤ → List Household → Bool
is_known id [] = false
is_known id (home ∷ homes) = eqb_ℤ home.id id || is_known id homes

unfoldable pub list_members : ℤ → List Member → List Member
list_members id [] = []
list_members id (m ∷ ms) =
    if eqb_ℤ m.household_id id then m ∷ list_members id ms else list_members id ms

unfoldable pub list_sources : ℤ → List IncomeSource → List IncomeSource
list_sources id [] = []
list_sources id (x ∷ xs) =
    if eqb_ℤ x.household_id id then x ∷ list_sources id xs else list_sources id xs

unfoldable pub list_baselines : ℤ → List ExpenseBaseline → List ExpenseBaseline
list_baselines id [] = []
list_baselines id (x ∷ xs) =
    if eqb_ℤ x.household_id id then x ∷ list_baselines id xs else list_baselines id xs

abbrev pub get_household : ℤ → HouseholdStore → Result Household
get_household id s = do
  return_if (leb_ℤ id (pos 0)) Error.id_not_positive
  or_err Error.record_not_found (household_row id s.households)

unfoldable pub belongs : ℤ → List Member → Bool
belongs id [] = false
belongs id (m ∷ ms) = if eqb_ℤ m.id id then true else belongs id ms

unfoldable pub check_member : Option ℤ → ℤ → HouseholdStore → Result (Unit {0})
unfolding list_members belongs
check_member none household_id s = ok tt
check_member (some member_id) household_id s = do
  return_if (leb_ℤ member_id (pos 0)) Error.id_not_positive
  return_if (not (belongs member_id (list_members household_id s.members))) Error.not_a_member

abbrev pub member_row : ℤ → ℤ → String → NewMember → Member
member_row new_id household_id name input = record {
  id = new_id;
  household_id = household_id;
  name = name;
  kind = input.kind;
  active = input.active;
}

unfoldable pub add_member : ℤ → ℤ → NewMember → HouseholdStore → Result (HouseholdStore × Member)
unfolding validate_name
add_member new_id household_id input s = do
  return_if (leb_ℤ household_id (pos 0)) Error.id_not_positive
  name ← validate_name input.name
  return_if (not (valid_kind input.kind)) Error.invalid_member_kind
  return_if (not (is_known household_id s.households)) Error.constraint_violation
  let row = member_row new_id household_id name input
  ok (record s { members = s.members ++ row ∷ [] }, row)

abbrev pub home_row : ℤ → NewHousehold → Household
home_row new_id valid = record {
  id = new_id;
  name = valid.name;
  base_currency = valid.base_currency;
  timezone = valid.timezone;
}

abbrev pub amount_row : Money → Household → Money
amount_row amount home = record { minor = amount.minor; currency = home.base_currency }

abbrev pub source_row : ℤ → ℤ → Household → String → NewIncomeSource → IncomeSource
source_row new_id household_id home name input = record {
  id = new_id;
  household_id = household_id;
  member_id = input.member_id;
  name = name;
  amount = amount_row input.amount home;
  cadence = input.cadence;
  stability = input.stability;
  active = input.active;
}

abbrev pub baseline_row : ℤ → ℤ → Household → String → NewExpenseBaseline → ExpenseBaseline
baseline_row new_id household_id home name input = record {
  id = new_id;
  household_id = household_id;
  name = name;
  amount = amount_row input.amount home;
  cadence = input.cadence;
  essential = input.essential;
  active = input.active;
}

module _ (to_upper : String → String) (byte_length : String → ℕ) where
  unfoldable pub create_household :
      (String → Bool) → ℤ → NewHousehold → HouseholdStore → Result (HouseholdStore × Household)
  unfolding validate_new_household
  create_household known_zone new_id input s = do
    valid ← validate_new_household to_upper byte_length known_zone input
    let row = home_row new_id valid
    ok (record s { households = s.households ++ row ∷ [] }, row)

  unfoldable pub add_income_source :
      ℤ → ℤ → NewIncomeSource → HouseholdStore → Result (HouseholdStore × IncomeSource)
  unfolding validate_name validate_money_for_base check_member
  add_income_source new_id household_id input s = do
    home ← get_household household_id s
    name ← validate_name input.name
    validate_money_for_base to_upper byte_length input.amount home.base_currency
    return_if (not (valid_cadence input.cadence)) Error.invalid_cadence
    return_if (not (valid_stability input.stability)) Error.invalid_stability
    check_member input.member_id household_id s
    let row = source_row new_id household_id home name input
    ok (record s { income_sources = s.income_sources ++ row ∷ [] }, row)

  unfoldable pub add_expense_baseline :
      ℤ → ℤ → NewExpenseBaseline → HouseholdStore → Result (HouseholdStore × ExpenseBaseline)
  unfolding validate_name validate_money_for_base
  add_expense_baseline new_id household_id input s = do
    home ← get_household household_id s
    name ← validate_name input.name
    validate_money_for_base to_upper byte_length input.amount home.base_currency
    return_if (not (valid_cadence input.cadence)) Error.invalid_cadence
    let row = baseline_row new_id household_id home name input
    ok (record s { expense_baselines = s.expense_baselines ++ row ∷ [] }, row)

  unfoldable pub set_policy : ℤ → Money → HouseholdStore → Result (HouseholdStore × HouseholdPolicy)
  unfolding validate_money_for_base
  set_policy household_id floor s = do
    home ← get_household household_id s
    validate_money_for_base to_upper byte_length floor home.base_currency
    let row = amount_row floor home
    ok (
      record s { policies = insert household_id row s.policies },
      record { household_id = household_id; liquidity_floor = row },
    )

-- One transaction that only reads.
unfoldable pub get_profile : ℤ → HouseholdStore → Result Profile
unfolding list_members list_sources list_baselines
get_profile id s = do
  home ← get_household id s
  floor ← or_err Error.record_not_found (lookup id s.policies)
  ok (record {
    household = home;
    members = list_members id s.members;
    income_sources = list_sources id s.income_sources;
    expense_baselines = list_baselines id s.expense_baselines;
    policy = record { household_id = id; liquidity_floor = floor };
  })
