-- ===== src/Goals/Status.antt =====
-- service.go: what the status of a projection says.
use family_finance_os.Prelude.{
  ◌≡◌, refl, sym, ap, ◌∙◌, arith, ℕ, ◌+◌, ◌<◌, true, false, not, ◌||◌, ok, Error, Bool-cases, inl,
  inr, ◌⊎◌, bind_ok, ok-injective, return_if, return_if_ok,
}
use mathlib.Core.Path.{subst, ap₂}
use family_finance_os.Prelude.Int.{
  ℤ, pos_part, neg_part, pos, negsuc, ◌-ℤ◌, ◌≤ℤ◌, ◌<ℤ◌, ltb_ℤ, leb_ℤ, eqb_ℤ, int_laws, -ℤ_parts,
}
use family_finance_os.Prelude.Word.{IsInt64}
use family_finance_os.Prelude.Text.{str_eq, trim_space}
use family_finance_os.Prelude.Time.{after, is_zero}
use family_finance_os.Money.{Money, sub}
use family_finance_os.Money.Exact.{sub-Gives}
use family_finance_os.Debt.Decimal.{Decimals}
use family_finance_os.Goals.{
  CivilTime, valid_flexibility, FinancialGoal, GoalProjection, GoalProjectionInput,
  calendar_months_remaining, project, project_goal, project_open, validate_goal_facts,
  has_non_zero_assumptions,
}
use family_finance_os.Goals.Meaning.{Means, IsFactual, project_open-Means}
use family_finance_os.Goals.Figures.{Figures, project_open-Figures}

-- The months left are none exactly when the target date does not lie after the day of the projection.
calendar_months-cases :
    (as_of target : CivilTime)
    → (after target.instant as_of.instant ≡ false)
        × (calendar_months_remaining as_of target ≡ pos 0)
      ⊎ (after target.instant as_of.instant ≡ true)
        × (pos 1 ≤ℤ calendar_months_remaining as_of target)
unfolding calendar_months_remaining
calendar_months-cases as_of target = ground arith

positive : (z : ℤ) → pos 1 ≤ℤ z → (n : ℕ) × (z ≡ pos n) × (0 < n)
positive (pos n) h = (n, refl, omega arith)
positive (negsuc n) h = absurd (omega arith)

natural : (z : ℤ) → pos 0 ≤ℤ z → (n : ℕ) × (z ≡ pos n)
natural (pos n) h = (n, refl)
natural (negsuc n) h = absurd (omega arith)

pub record HasRange (goal : FinancialGoal) : Type 0 where
  pub target : IsInt64 goal.target.minor
  pub funded : IsInt64 goal.funded.minor
  pub contribution : IsInt64 goal.monthly_contribution.minor

factual : (goal : FinancialGoal) → HasRange goal → validate_goal_facts goal ≡ ok tt → IsFactual goal
unfolding validate_goal_facts
factual goal h q =
    bind_ok
      (return_if
        (str_eq (trim_space goal.name) ""
          || (leb_ℤ goal.priority (pos 0)
              || (not (valid_flexibility goal.flexibility) || is_zero goal.target_date.instant)))
        Error.invalid_goal)
      _ q
      λ _ _ q1.
        bind_ok
          (return_if
            (str_eq goal.target.currency ""
              || (not (str_eq goal.funded.currency goal.target.currency)
                  || not (str_eq goal.monthly_contribution.currency goal.target.currency)))
            Error.currency_mismatch)
          _ q1
          λ u _ q2.
            let n =
              return_if_ok
                (ltb_ℤ goal.target.minor (pos 0)
                  || (ltb_ℤ goal.funded.minor (pos 0)
                      || ltb_ℤ goal.monthly_contribution.minor (pos 0)))
                Error.invalid_goal u q2 in
            let (t, et) = natural goal.target.minor (ground (arith, n)) in
            let (f, ef) = natural goal.funded.minor (ground (arith, n)) in
            let (c, ec) = natural goal.monthly_contribution.minor (ground (arith, n)) in
            record {
              target = t;
              funded = f;
              contribution = c;
              target_is = et;
              funded_is = ef;
              contribution_is = ec;
              target_range = (rw et at h.target).0;
              funded_range = (rw ef at h.funded).0;
              contribution_range = (rw ec at h.contribution).0;
            }

split_gap :
    (target funded gap : ℤ) (t f g : ℕ)
    → target ≡ pos t
    → funded ≡ pos f
    → gap ≡ pos g
    → gap ≡ target -ℤ funded
    → g + f ≡ t
split_gap target funded gap t f g h k l e =
    let x : pos g ≡ pos t -ℤ pos f = sym l ∙ e ∙ ap₂ (λ (a b : ℤ). a -ℤ b) h k in
    omega (arith, -ℤ_parts (pos t) (pos f), ap pos_part x, ap neg_part x)

complete : (t f g : ℤ) → g ≡ t -ℤ f → g ≤ℤ pos 0 → t ≤ℤ f
complete t f g h k = omega (int_laws, rw h at k)

open_gap : (t f g : ℤ) → g ≡ t -ℤ f → pos 0 <ℤ g → f <ℤ t
open_gap t f g h k = omega (int_laws, rw h at k)

-- What the status says, and what the figures are.
abbrev pub Says : FinancialGoal → Money → GoalProjection → Type 0
Says goal available p = Means p.status goal available p × Figures p.status goal p

module _ (goal : FinancialGoal) (available : Money) (months : ℤ) (p : GoalProjection) where
  project-Means :
      HasRange goal
      → IsFactual goal
      → IsInt64 available.minor
      → (months ≡ pos 0) ⊎ (pos 1 ≤ℤ months)
      → project goal available months ≡ ok p
      → Says goal available p
  unfolding project
  project-Means h f ha hm q = bind_ok (sub goal.target goal.funded) _ q λ gap q1 q2.
      let g = sub-Gives goal.target goal.funded gap h.target h.funded q1 in
      elim (Bool-cases (leb_ℤ gap.minor (pos 0))) [
        | inl done ↦
            subst (λ (x : GoalProjection). Says goal available x) (ok-injective (rw done at q2))
              (
                complete goal.target.minor goal.funded.minor gap.minor g.minor (ground arith),
                (refl, refl),
              )
        | inr owed ↦ elim (Bool-cases (eqb_ℤ months (pos 0))) [
          | inl none_left ↦
              subst (λ (x : GoalProjection). Says goal available x)
                (ok-injective (rw (owed, none_left) at q2))
                (
                  (
                    open_gap goal.target.minor goal.funded.minor gap.minor g.minor (ground arith),
                    refl,
                  ),
                  (refl, g.minor),
                )
          | inr some_left ↦
              let (m, em, pm) = positive months (ground arith) in
              let (n, en) = natural gap.minor (ground arith) in
              let parts =
                split_gap goal.target.minor goal.funded.minor gap.minor f.target f.funded n
                  f.target_is f.funded_is en g.minor in
              let made =
                subst (λ (z : ℤ). project_open goal available z gap ≡ ok p) em
                  (rw (owed, some_left) at q2) in
              (
                project_open-Means goal available m n gap p f ha pm en parts made,
                project_open-Figures goal available m n gap p f pm en parts made,
              )
        ]
      ]

module _ (D : Decimals) where
  open D use {Decimal}

  -- A projection that is returned, for `int64` amounts, means what its status says: completed, the
  -- target is funded; infeasible, it is not and no month is left; conflicting, the money available
  -- each month is below the required payment by the shortfall; behind, the money would do and the
  -- contribution is below the required payment; on track, both reach it, and the contributions then
  -- reach the target by its date, with no gap. Its figures are those of the goal: with months left,
  -- the required payment is the least that closes the gap to the target in them, and the gap at the
  -- target date is what the contributions until then leave of it, if anything; with none left it is
  -- the whole gap, and a completed goal has none.
  pub project_goal-Means :
      (input : GoalProjectionInput Decimal) (p : GoalProjection)
      → HasRange input.goal
      → IsInt64 input.available_monthly.minor
      → project_goal D input ≡ ok p
      → Says input.goal input.available_monthly p
  unfolding project_goal
  project_goal-Means input p h ha q = bind_ok (validate_goal_facts input.goal) _ q λ _ v q1.
      bind_ok
        (return_if (not (str_eq input.available_monthly.currency input.goal.target.currency))
          Error.currency_mismatch)
        _ q1
        λ _ _ q2.
          bind_ok
            (return_if (has_non_zero_assumptions D input.assumptions)
              Error.goal_assumptions_unsupported)
            _ q2
            λ _ _ q3.
              project-Means input.goal input.available_monthly
                (calendar_months_remaining input.as_of input.goal.target_date) p h
                (factual input.goal h v) ha
                (elim (calendar_months-cases input.as_of input.goal.target_date) [
                  | inl (_, none_left) ↦ inl none_left
                  | inr (_, left) ↦ inr left
                ])
                q3
