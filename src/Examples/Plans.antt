-- ===== src/Examples/Plans.antt =====
-- Exact money, a goal that is on track, and what a month leaves to spend.
use family_finance_os.Prelude.{
  ◌≡◌, refl, arith, String, Bool, true, false, ℕ, ◌*◌, ◌≤◌, ◌<◌, ◌^◌, List, [], ◌∷◌, Option, none,
  some, Result, ok, err, ◌↔◌, All,
}
use family_finance_os.Prelude.Int.{ℤ, pos, negsuc, ◌+ℤ◌, ◌-ℤ◌, ◌<ℤ◌}
use family_finance_os.Money.{Money, add, sub}
use family_finance_os.Money.Exact.{exactly, add-exactly, sub-exactly}
use family_finance_os.Goals.{
  CivilTime, FinancialGoal, GoalFlexibility, GoalProjection, GoalProjectionInput, GoalStatus,
  multiply_money, project_goal, required_minor,
}
use family_finance_os.Goals.Required.{required_minor_least, multiply_money-exact}
use family_finance_os.Goals.Status.{HasRange, Says, project_goal-Means}
use family_finance_os.Budget.{
  SafeToSpendInput, SafeToSpendResult, calculate_safe_to_spend, components_of, values_of,
}
use family_finance_os.Budget.Laws.{InCurrency, reserved, safe_to_spend_exact}
use family_finance_os.Examples.Decimals.{four_places}

abbrev cny : ℤ → Money
cny n = record { minor = n; currency = "CNY" }

abbrev most : Money
most = cny (pos 9223372036854775807)

add-exactly_example : add most (cny (pos 1)) ≡ exactly (most.minor +ℤ pos 1) most (cny (pos 1))
add-exactly_example =
    add-exactly most (cny (pos 1)) (omega arith, omega arith) (omega arith, omega arith)

sub-exactly_example :
    sub (cny (pos 5)) (cny (pos 8)) ≡ exactly (pos 5 -ℤ pos 8) (cny (pos 5)) (cny (pos 8))
sub-exactly_example =
    sub-exactly (cny (pos 5)) (cny (pos 8)) (omega arith, omega arith) (omega arith, omega arith)

abbrev date : ℤ → ℤ → ℤ → CivilTime
date instant year month = record { instant = instant; year = year; month = month; day = pos 1 }

abbrev goal : FinancialGoal
goal = record {
  id = pos 1;
  household_id = pos 1;
  name = "house";
  target = cny (pos 1000);
  funded = cny (pos 100);
  target_date = date (pos 16_000_000) (pos 2026) (pos 5);
  priority = pos 1;
  flexibility = GoalFlexibility.hard;
  monthly_contribution = cny (pos 300);
  active = true;
}

abbrev projected : GoalProjectionInput ℤ
projected = record {
  goal = goal;
  as_of = date (pos 5_000_000) (pos 2026) (pos 1);
  available_monthly = cny (pos 400);
  assumptions = none;
}

abbrev projection : GoalProjection
projection = record {
  months_remaining = pos 4;
  required_monthly = cny (pos 225);
  projected_funded = cny (pos 1300);
  gap_at_target = cny (pos 0);
  capacity_shortfall = cny (pos 0);
  status = GoalStatus.on_track;
}

goal-HasRange : HasRange goal
goal-HasRange = record {
  target = (omega arith, omega arith);
  funded = (omega arith, omega arith);
  contribution = (omega arith, omega arith);
}

project_goal-Means_example : Says goal (cny (pos 400)) projection
unfolding project_goal sub family_finance_os.Prelude.Word.mul64 family_finance_os.Goals.project_open
    add
project_goal-Means_example =
    project_goal-Means four_places projected projection goal-HasRange (omega arith, omega arith)
      refl

required_minor_least_example :
    (r : ℕ) × (required_minor (pos 900) (pos 4) ≡ pos r)
    × (900 ≤ r * 4)
    × ((s : ℕ) → 900 ≤ s * 4 → r ≤ s)
required_minor_least_example = required_minor_least 900 4 (omega arith) (omega arith)

multiply_money-exact_example :
    (pos 1200 ≡ pos (300 * 4)) × ((cny (pos 1200)).currency ≡ "CNY") × (300 * 4 < 2 ^ 63)
unfolding multiply_money
multiply_money-exact_example = multiply_money-exact 300 4 "CNY" (cny (pos 1200)) (omega arith) refl

abbrev month : SafeToSpendInput
month = record {
  liquid_discretionary_pool = cny (pos 500);
  upcoming_mandatory_expenses = cny (pos 300);
  debt_commitments = cny (pos 200);
  debt_commitments_already_reserved = true;
  essential_reserve_until_period_end = cny (pos 250);
  emergency_fund_gap_reserved = cny (pos 0);
  hard_goal_contributions = cny (pos 50);
}

abbrev safe : SafeToSpendResult
safe = record { amount = cny (negsuc 99); is_deficit = true; components = components_of month }

safe_to_spend_exact_example :
    (negsuc 99 ≡ pos 500 -ℤ reserved month)
    × ((safe.is_deficit ≡ true) ↔ (negsuc 99 <ℤ pos 0))
    × All (InCurrency "CNY") (values_of month)
    × (safe.amount.currency ≡ "CNY")
unfolding calculate_safe_to_spend sub
safe_to_spend_exact_example =
    safe_to_spend_exact month safe (omega arith, omega arith)
      (
        (omega arith, omega arith),
        (
          (omega arith, omega arith),
          (
            (omega arith, omega arith),
            ((omega arith, omega arith), ((omega arith, omega arith), tt)),
          ),
        ),
      )
      refl
