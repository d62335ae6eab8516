-- ===== src/Goals.antt =====
-- internal/goals/models.go and service.go: the projection of a savings goal.
pub mod Required
pub mod Meaning
pub mod Figures
pub mod Status
use family_finance_os.Prelude.{
  Bool, true, false, not, ◌&&◌, ◌||◌, String, Option, none, some, Result, ok, err, Error, ◌>>=◌,
  ◌>>◌, return_if, if◌then◌else◌,
}
use family_finance_os.Prelude.Int.{ℤ, pos, ◌+ℤ◌, ltb_ℤ, leb_ℤ, eqb_ℤ, quot_ℤ, rem_ℤ}
use family_finance_os.Prelude.Word.{add64, sub64, mul64, max_int64}
use family_finance_os.Prelude.Time.{Time, is_zero, after}
use family_finance_os.Prelude.Text.{str_eq, trim_space}
use family_finance_os.Money.{Money, zero_money, add, sub}
use family_finance_os.Debt.Decimal.{Decimals}

-- A `time.Time` with the year, month and day that its methods return in its location.
pub record CivilTime : Type 0 where
  pub instant : Time
  pub year : ℤ
  pub month : ℤ
  pub day : ℤ

pub data GoalFlexibility : Type 0 where
  hard flexible : GoalFlexibility
  other : String → GoalFlexibility

abbrev pub valid_flexibility : GoalFlexibility → Bool
valid_flexibility (GoalFlexibility.other _) = false
valid_flexibility _ = true

pub data GoalStatus : Type 0 where
  completed on_track behind conflicting infeasible : GoalStatus

pub record FinancialGoal : Type 0 where
  pub id : ℤ
  pub household_id : ℤ
  pub name : String
  pub target : Money
  pub funded : Money
  pub target_date : CivilTime
  pub priority : ℤ
  pub flexibility : GoalFlexibility
  pub monthly_contribution : Money
  pub active : Bool

pub record GoalPlanningAssumptions (Decimal : Type 0) : Type 0 where
  pub expected_return_annual : Option Decimal
  pub inflation_annual : Option Decimal

pub record GoalProjectionInput (Decimal : Type 0) : Type 0 where
  pub goal : FinancialGoal
  pub as_of : CivilTime
  pub available_monthly : Money
  pub assumptions : Option (GoalPlanningAssumptions Decimal)

pub record GoalProjection : Type 0 where
  pub months_remaining : ℤ
  pub required_monthly : Money
  pub projected_funded : Money
  pub gap_at_target : Money
  pub capacity_shortfall : Money
  pub status : GoalStatus

unfoldable pub validate_goal_facts : FinancialGoal → Result (Unit {0})
unfolding trim_space
validate_goal_facts goal = do
  return_if
      (str_eq (trim_space goal.name) ""
        || (leb_ℤ goal.priority (pos 0)
            || (not (valid_flexibility goal.flexibility) || is_zero goal.target_date.instant)))
      Error.invalid_goal
  return_if
      (str_eq goal.target.currency ""
        || (not (str_eq goal.funded.currency goal.target.currency)
            || not (str_eq goal.monthly_contribution.currency goal.target.currency)))
      Error.currency_mismatch
  return_if
      (ltb_ℤ goal.target.minor (pos 0)
        || (ltb_ℤ goal.funded.minor (pos 0) || ltb_ℤ goal.monthly_contribution.minor (pos 0)))
      Error.invalid_goal

unfoldable pub calendar_months_remaining : CivilTime → CivilTime → ℤ
calendar_months_remaining as_of target =
    let whole =
      add64 (mul64 (sub64 target.year as_of.year) (pos 12)) (sub64 target.month as_of.month) in
    let months = if ltb_ℤ as_of.day target.day then add64 whole (pos 1) else whole in
    if not (after target.instant as_of.instant)
    then pos 0
    else if ltb_ℤ months (pos 1)
    then pos 1
    else months

unfoldable pub multiply_money : Money → ℤ → Result Money
unfolding mul64 quot_ℤ
multiply_money value count =
    if ltb_ℤ count (pos 0)
    then err Error.invalid_goal
    else if eqb_ℤ count (pos 0) || eqb_ℤ value.minor (pos 0)
    then ok (zero_money value.currency)
    else if ltb_ℤ (pos 0) value.minor && ltb_ℤ (quot_ℤ max_int64 value.minor) count
    then err Error.overflow
    else ok (record { minor = mul64 value.minor count; currency = value.currency })

-- The rounded-up quotient of the gap by the months.
unfoldable pub required_minor : ℤ → ℤ → ℤ
unfolding quot_ℤ rem_ℤ add64
required_minor gap months =
    if not (eqb_ℤ (rem_ℤ gap months) (pos 0))
    then add64 (quot_ℤ gap months) (pos 1)
    else quot_ℤ gap months

module _ (D : Decimals) where
  open D use {Decimal, from_int, cmp}

  abbrev pub non_zero : Option Decimal → Bool
  non_zero none = false
  non_zero (some rate) = not (eqb_ℤ (cmp rate (from_int (pos 0))) (pos 0))

  abbrev pub has_non_zero_assumptions : Option (GoalPlanningAssumptions Decimal) → Bool
  has_non_zero_assumptions none = false
  has_non_zero_assumptions (some a) =
      non_zero a.expected_return_annual || non_zero a.inflation_annual

-- The projection of a goal that is complete, and of one whose date has come.
abbrev without_payments : FinancialGoal → ℤ → Money → GoalStatus → GoalProjection
without_payments goal months gap status = record {
  months_remaining = months;
  required_monthly = zero_money goal.target.currency;
  projected_funded = goal.funded;
  gap_at_target = gap;
  capacity_shortfall = zero_money goal.target.currency;
  status = status;
}

-- The end of the function: the shortfall of the available money, or whether the plan is on track.
unfoldable pub judge : FinancialGoal → Money → GoalProjection → Result GoalProjection
judge goal available p =
    let short = (do
      shortfall ← sub p.required_monthly available
      ok (record p { capacity_shortfall = shortfall; status = GoalStatus.conflicting })) in
    if ltb_ℤ available.minor p.required_monthly.minor
    then short
    else if leb_ℤ p.required_monthly.minor goal.monthly_contribution.minor
    then ok (record p { status = GoalStatus.on_track })
    else ok p

-- The projection of an open goal with months left.
unfoldable pub project_open : FinancialGoal → Money → ℤ → Money → Result GoalProjection
unfolding multiply_money required_minor judge
project_open goal available months gap = do
  contribution_total ← multiply_money goal.monthly_contribution months
  projected_funded ← add goal.funded contribution_total
  projected_gap ← sub goal.target projected_funded
  judge goal available (record {
    months_remaining = months;
    required_monthly = record {
      minor = required_minor gap.minor months;
      currency = goal.target.currency;
    };
    projected_funded = projected_funded;
    gap_at_target =
        if ltb_ℤ projected_gap.minor (pos 0)
        then zero_money goal.target.currency
        else projected_gap;
    capacity_shortfall = zero_money goal.target.currency;
    status = GoalStatus.behind;
  })

-- The body below the checks.
unfoldable pub project : FinancialGoal → Money → ℤ → Result GoalProjection
project goal available months = do
  gap ← sub goal.target goal.funded
  if leb_ℤ gap.minor (pos 0)
      then ok (without_payments goal months (zero_money goal.target.currency) GoalStatus.completed)
      else if eqb_ℤ months (pos 0)
      then ok (without_payments goal (pos 0) gap GoalStatus.infeasible)
      else project_open goal available months gap

module _ (D : Decimals) where
  open D use {Decimal}

  unfoldable pub project_goal : GoalProjectionInput Decimal → Result GoalProjection
  unfolding validate_goal_facts calendar_months_remaining project
  project_goal input = do
    validate_goal_facts input.goal
    return_if (not (str_eq input.available_monthly.currency input.goal.target.currency))
        Error.currency_mismatch
    return_if (has_non_zero_assumptions D input.assumptions) Error.goal_assumptions_unsupported
    project input.goal input.available_monthly
        (calendar_months_remaining input.as_of input.goal.target_date)
