-- ===== src/Household/Histories.antt =====
-- internal/household/service.go: sequences of operations that the store accepts.
use family_finance_os.Prelude.{◌≡◌, Bool, String, ℕ, ok}
use family_finance_os.Prelude.Int.{ℤ}
use family_finance_os.Money.{Money}
use family_finance_os.Household.{
  Household, NewHousehold, NewMember, Member, IncomeSource, NewIncomeSource, ExpenseBaseline,
  NewExpenseBaseline, HouseholdPolicy,
}
use family_finance_os.Household.Service.{
  HouseholdStore, create_household, add_member, add_income_source, add_expense_baseline, set_policy,
}
use family_finance_os.Household.Amounts.{
  AmountsFit, created-AmountsFit, member_added-AmountsFit, source_added-AmountsFit,
  baseline_added-AmountsFit, policy_set-AmountsFit,
}

module _ (to_upper : String → String) (byte_length : String → ℕ) (known_zone : String → Bool) where
  -- An operation that the store accepts.
  pub data Changes : HouseholdStore → HouseholdStore → Type 0 where
    created :
        {s t : HouseholdStore} (new_id : ℤ) (input : NewHousehold) (x : Household)
        → create_household to_upper byte_length known_zone new_id input s ≡ ok (t, x)
        → Changes s t
    member_added :
        {s t : HouseholdStore} (new_id id : ℤ) (input : NewMember) (x : Member)
        → add_member new_id id input s ≡ ok (t, x)
        → Changes s t
    source_added :
        {s t : HouseholdStore} (new_id id : ℤ) (input : NewIncomeSource) (x : IncomeSource)
        → add_income_source to_upper byte_length new_id id input s ≡ ok (t, x)
        → Changes s t
    baseline_added :
        {s t : HouseholdStore} (new_id id : ℤ) (input : NewExpenseBaseline) (x : ExpenseBaseline)
        → add_expense_baseline to_upper byte_length new_id id input s ≡ ok (t, x)
        → Changes s t
    policy_set :
        {s t : HouseholdStore} (id : ℤ) (floor : Money) (x : HouseholdPolicy)
        → set_policy to_upper byte_length id floor s ≡ ok (t, x)
        → Changes s t

  Changes-AmountsFit : {s t : HouseholdStore} → AmountsFit s → Changes s t → AmountsFit t
  Changes-AmountsFit fit (Changes.created new_id input x h) =
      created-AmountsFit to_upper byte_length known_zone new_id input _ _ x fit h
  Changes-AmountsFit fit (Changes.member_added new_id id input x h) =
      member_added-AmountsFit to_upper byte_length known_zone new_id id input _ _ x fit h
  Changes-AmountsFit fit (Changes.source_added new_id id input x h) =
      source_added-AmountsFit to_upper byte_length known_zone new_id id input _ _ x fit h
  Changes-AmountsFit fit (Changes.baseline_added new_id id input x h) =
      baseline_added-AmountsFit to_upper byte_length known_zone new_id id input _ _ x fit h
  Changes-AmountsFit fit (Changes.policy_set id floor x h) =
      policy_set-AmountsFit to_upper byte_length known_zone id floor _ _ x fit h

  -- Accepted operations one after the other.
  pub data History : HouseholdStore → HouseholdStore → Type 0 where
    start : {s : HouseholdStore} → History s s
    then_change : {s t u : HouseholdStore} → History s t → Changes t u → History s u

  -- In every table of a household, amounts stay at least zero and in the base currency of the
  -- household of their row, which is there, through every sequence of accepted operations.
  pub History-AmountsFit : {s t : HouseholdStore} → AmountsFit s → History s t → AmountsFit t
  History-AmountsFit fit History.start = fit
  History-AmountsFit fit (History.then_change before change) =
      Changes-AmountsFit (History-AmountsFit fit before) change
