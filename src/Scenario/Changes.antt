-- ===== src/Scenario/Changes.antt =====
-- helpers.go and service.go: what a change of a commitment, a budget or an income does, for amounts
-- that are values of `int64`.
use family_finance_os.Prelude.{
  ◌≡◌, sym, ap, ◌∙◌, arith, Bool, false, not, ◌||◌, String, [], ◌∷◌, ok, Error, return_if,
  return_if_ok, bind_ok, ok-injective, Bool-cases, inl, inr,
}
use mathlib.Core.Path.{subst}
use family_finance_os.Prelude.Int.{ℤ, pos, ◌-ℤ◌, ◌≤ℤ◌, ltb_ℤ, eqb_ℤ, int_laws}
use family_finance_os.Prelude.Text.{str_eq, eq_iff}
use family_finance_os.Money.{Money, sub}
use family_finance_os.Money.Exact.{sub-Gives, Gives}
use family_finance_os.Analytics.Cashflow.{CashflowResult}
use family_finance_os.Budget.Laws.{IsAmount}
use family_finance_os.Budget.Lines.{BudgetLine, BudgetLineMetrics, calculate_budget_line}
use family_finance_os.Debt.Decimal.{Decimals}
use family_finance_os.Scenario.{
  SavingsChangeInput, SavingsChangeResult, BudgetChangeInput, BudgetChangeResult, IncomeDropInput,
  IncomeDropResult, same_money, validated_cashflow, require_currency, cashflow_of, savings_rate,
  simulate_savings_change, simulate_budget_change, simulate_income_drop,
}

pub record HasAmounts (c : CashflowResult) : Type 0 where
  pub income : IsAmount c.recognized_income
  pub expense : IsAmount c.recognized_expense
  pub net : IsAmount c.net_cashflow

-- A cashflow that adds up, in one currency.
pub record IsBalanced (c : CashflowResult) : Type 0 where
  pub net : c.net_cashflow.minor ≡ c.recognized_income.minor -ℤ c.recognized_expense.minor
  pub expense_currency : c.recognized_expense.currency ≡ c.recognized_income.currency
  pub net_currency : c.net_cashflow.currency ≡ c.recognized_income.currency

same_minor : (a b : Money) → not (same_money a b) ≡ false → b.minor ≡ a.minor
same_minor a b h = ground (arith, h)

one_currency :
    (a b c : String)
    → (str_eq a "" || (not (str_eq b a) || not (str_eq c a))) ≡ false
    → (b ≡ a) × (c ≡ a)
one_currency a b c h = ground (arith, eq_iff b a, eq_iff c a)

pub validated_cashflow-IsBalanced :
    (c d : CashflowResult) → HasAmounts c → validated_cashflow c ≡ ok d → (c ≡ d) × IsBalanced c
unfolding validated_cashflow
validated_cashflow-IsBalanced c d h q =
    bind_ok
      (return_if
        (str_eq c.recognized_income.currency ""
          || (not (str_eq c.recognized_expense.currency c.recognized_income.currency)
              || not (str_eq c.net_cashflow.currency c.recognized_income.currency)))
        Error.currency_mismatch)
      _ q
      λ u f q1. bind_ok (sub c.recognized_income c.recognized_expense) _ q1 λ net g q2.
        bind_ok (return_if (not (same_money net c.net_cashflow)) Error.invalid_scenario) _ q2
          λ v k q3.
            let one = one_currency _ _ _ (return_if_ok _ Error.currency_mismatch u f) in
            (
              ok-injective q3,
              record {
                net =
                    same_minor net c.net_cashflow (return_if_ok _ Error.invalid_scenario v k)
                    ∙ (sub-Gives c.recognized_income c.recognized_expense net h.income h.expense
                        g).minor;
                expense_currency = one.0;
                net_currency = one.1;
              },
            )

-- Two differences from one number.
cancel : (n a b : ℤ) → (n -ℤ a) -ℤ (n -ℤ b) ≡ b -ℤ a
cancel n a b = omega int_laws

cancel_right : (n a b : ℤ) → (a -ℤ n) -ℤ (b -ℤ n) ≡ a -ℤ b
cancel_right n a b = omega int_laws

drop_first : (a b c : ℤ) → (a -ℤ c) -ℤ b ≡ (a -ℤ b) -ℤ c
drop_first a b c = omega int_laws

pub nonneg : (z : ℤ) → ltb_ℤ z (pos 0) ≡ false → pos 0 ≤ℤ z
nonneg z h = ground (arith, h)

lowered_net :
    (income expense drop net income' net' : ℤ)
    → income' ≡ income -ℤ drop
    → net' ≡ income' -ℤ expense
    → net ≡ income -ℤ expense
    → net' ≡ net -ℤ drop
lowered_net income expense drop net income' net' h k l =
    k ∙ rw h (drop_first income expense drop) ∙ sym (ap (λ (z : ℤ). z -ℤ drop) l)

not_more : (a c : ℤ) (b : Bool) → (b || ltb_ℤ a c) ≡ false → c ≤ℤ a
not_more a c b h = ground (arith, h)

left_over : (a c : ℤ) → c ≤ℤ a → pos 0 ≤ℤ a -ℤ c
left_over a c h = omega (int_laws, h)

-- What a change of a monthly commitment leaves: the net cashflow less the commitment, before and
-- after, and the difference of the two is that of the commitments, the other way round.
pub record SavingsLaws (i : SavingsChangeInput) (r : SavingsChangeResult) : Type 0 where
  pub before :
      r.before_available.minor
      ≡ i.cashflow.recognized_income.minor -ℤ i.cashflow.recognized_expense.minor
        -ℤ i.before_commitment.minor
  pub after :
      r.after_available.minor
      ≡ i.cashflow.recognized_income.minor -ℤ i.cashflow.recognized_expense.minor
        -ℤ i.after_commitment.minor
  pub delta : r.available_delta.minor ≡ i.before_commitment.minor -ℤ i.after_commitment.minor
  pub currency : r.available_delta.currency ≡ i.cashflow.net_cashflow.currency

-- A change of a monthly commitment, for `int64` amounts, leaves what the record says.
pub simulate_savings_change_exact :
    (i : SavingsChangeInput) (r : SavingsChangeResult)
    → HasAmounts i.cashflow
    → IsAmount i.before_commitment
    → IsAmount i.after_commitment
    → simulate_savings_change i ≡ ok r
    → SavingsLaws i r
unfolding simulate_savings_change
simulate_savings_change_exact i r h hb ha q = bind_ok (validated_cashflow i.cashflow) _ q λ c f q1.
    bind_ok
      (return_if (ltb_ℤ i.before_commitment.minor (pos 0) || ltb_ℤ i.after_commitment.minor (pos 0))
        Error.invalid_scenario)
      _ q1
      λ _ _ q2.
        bind_ok
          (require_currency c.net_cashflow.currency (i.before_commitment ∷ i.after_commitment ∷ []))
          _ q2
          λ _ _ q3. bind_ok (sub c.net_cashflow i.before_commitment) _ q3 λ before g q4.
            bind_ok (sub c.net_cashflow i.after_commitment) _ q4 λ after k q5.
              bind_ok (sub after before) _ q5 λ delta l q6.
                let same = validated_cashflow-IsBalanced i.cashflow c h f in
                let b =
                  sub-Gives i.cashflow.net_cashflow i.before_commitment before h.net hb
                    (rw (sym same.0) at g) in
                let a =
                  sub-Gives i.cashflow.net_cashflow i.after_commitment after h.net ha
                    (rw (sym same.0) at k) in
                let d = sub-Gives after before delta a.bounded b.bounded l in
                subst (λ (x : SavingsChangeResult). SavingsLaws i x) (ok-injective q6)
                  (record {
                    before = b.minor ∙ ap (λ (z : ℤ). z -ℤ i.before_commitment.minor) same.1.net;
                    after = a.minor ∙ ap (λ (z : ℤ). z -ℤ i.after_commitment.minor) same.1.net;
                    delta =
                        d.minor
                        ∙ rw (a.minor, b.minor)
                            (cancel i.cashflow.net_cashflow.minor i.after_commitment.minor
                              i.before_commitment.minor);
                    currency = d.currency ∙ a.currency;
                  })

module _ (D : Decimals) where
  open D use {Decimal, from_int, quo}

  calculate_budget_line-Gives :
      (line : BudgetLine) (actual : Money) (m : BudgetLineMetrics Decimal)
      → IsAmount line.planned
      → IsAmount actual
      → calculate_budget_line D line actual ≡ ok m
      → (pos 0 ≤ℤ line.planned.minor)
        × Gives (line.planned.minor -ℤ actual.minor) line.planned actual m.remaining
  unfolding calculate_budget_line
  calculate_budget_line-Gives line actual m hp ha q =
      bind_ok (return_if (ltb_ℤ line.planned.minor (pos 0)) Error.negative_planned) _ q λ u f q1.
        bind_ok (sub line.planned actual) _ q1 λ remaining g q2.
          let given = sub-Gives line.planned actual remaining hp ha g in
          let planned = nonneg line.planned.minor (return_if_ok _ Error.negative_planned u f) in
          elim (Bool-cases (eqb_ℤ line.planned.minor (pos 0))) [
            | inl none_planned ↦ (
              planned,
              subst
                  (λ (x : BudgetLineMetrics Decimal).
                    Gives (line.planned.minor -ℤ actual.minor) line.planned actual x.remaining)
                  (ok-injective (rw none_planned at q2)) given,
            )
            | inr some_planned ↦
                bind_ok (quo (from_int actual.minor) (from_int line.planned.minor)) _
                  (rw some_planned at q2)
                  λ _ _ q3. (
                    planned,
                    subst
                        (λ (x : BudgetLineMetrics Decimal).
                          Gives (line.planned.minor -ℤ actual.minor) line.planned actual
                            x.remaining)
                        (ok-injective q3) given,
                  )
          ]

  -- What a change of a plan does.
  pub record BudgetLaws (i : BudgetChangeInput) (r : BudgetChangeResult Decimal) : Type 0 where
    pub before : r.before.remaining.minor ≡ i.line.planned.minor -ℤ i.actual.minor
    pub after : r.after.remaining.minor ≡ i.proposed_planned.minor -ℤ i.actual.minor
    pub delta : r.remaining_delta.minor ≡ i.proposed_planned.minor -ℤ i.line.planned.minor
    pub nonneg : (pos 0 ≤ℤ i.line.planned.minor) × (pos 0 ≤ℤ i.proposed_planned.minor)

  -- A change of a budget line, for `int64` amounts, shifts what remains by the difference of the
  -- plans: before and after, the plan less the actual amount remains, and no plan is negative.
  pub simulate_budget_change_exact :
      (i : BudgetChangeInput) (r : BudgetChangeResult Decimal)
      → IsAmount i.line.planned
      → IsAmount i.proposed_planned
      → IsAmount i.actual
      → simulate_budget_change D i ≡ ok r
      → BudgetLaws i r
  unfolding simulate_budget_change
  simulate_budget_change_exact i r hl hp ha q =
      bind_ok (calculate_budget_line D i.line i.actual) _ q λ before f q1.
        bind_ok (calculate_budget_line D (record i.line { planned = i.proposed_planned }) i.actual)
          _ q1
          λ after g q2. bind_ok (sub after.remaining before.remaining) _ q2 λ delta k q3.
            let b = calculate_budget_line-Gives i.line i.actual before hl ha f in
            let a =
              calculate_budget_line-Gives (record i.line { planned = i.proposed_planned }) i.actual
                after hp ha g in
            let d = sub-Gives after.remaining before.remaining delta a.1.bounded b.1.bounded k in
            subst (λ (x : BudgetChangeResult Decimal). BudgetLaws i x) (ok-injective q3)
              (record {
                before = b.1.minor;
                after = a.1.minor;
                delta =
                    d.minor
                    ∙ rw (a.1.minor, b.1.minor)
                        (cancel_right i.actual.minor i.proposed_planned.minor i.line.planned.minor);
                nonneg = (b.0, a.0);
              })

  -- What a lower income does: less by the drop, not below zero, and the figures still add up.
  pub record DropLaws (i : IncomeDropInput) (r : IncomeDropResult Decimal) : Type 0 where
    pub before : r.before ≡ i.cashflow
    pub income :
        r.after.recognized_income.minor ≡ i.cashflow.recognized_income.minor -ℤ i.drop.minor
    pub nonneg : pos 0 ≤ℤ r.after.recognized_income.minor
    pub expense : r.after.recognized_expense ≡ i.cashflow.recognized_expense
    pub net : r.after.net_cashflow.minor ≡ i.cashflow.net_cashflow.minor -ℤ i.drop.minor
    pub balanced : IsBalanced r.after

  -- A drop of the income, for `int64` amounts, lowers income and net cashflow by exactly the drop
  -- and leaves the expense: the income stays at least zero and the figures after it add up.
  pub simulate_income_drop_exact :
      (i : IncomeDropInput) (r : IncomeDropResult Decimal)
      → HasAmounts i.cashflow
      → IsAmount i.drop
      → simulate_income_drop D i ≡ ok r
      → DropLaws i r
  unfolding simulate_income_drop
  simulate_income_drop_exact i r h hd q = bind_ok (validated_cashflow i.cashflow) _ q λ c f q1.
      bind_ok
        (return_if (ltb_ℤ i.drop.minor (pos 0) || ltb_ℤ c.recognized_income.minor i.drop.minor)
          Error.invalid_scenario)
        _ q1
        λ u k q2.
          bind_ok (require_currency c.recognized_income.currency (i.drop ∷ [])) _ q2 λ _ _ q3.
            bind_ok (sub c.recognized_income i.drop) _ q3 λ income g q4.
              bind_ok (sub income c.recognized_expense) _ q4 λ net l q5.
                bind_ok (savings_rate D c) _ q5 λ _ _ q6.
                  bind_ok (savings_rate D (cashflow_of income c.recognized_expense net)) _ q6
                    λ _ _ q7.
                      let same = validated_cashflow-IsBalanced i.cashflow c h f in
                      let hc = subst HasAmounts same.0 h in
                      let balanced = subst IsBalanced same.0 same.1 in
                      let a = sub-Gives c.recognized_income i.drop income hc.income hd g in
                      let n = sub-Gives income c.recognized_expense net a.bounded hc.expense l in
                      subst (λ (x : IncomeDropResult Decimal). DropLaws i x) (ok-injective q7)
                        (record {
                          before = sym same.0;
                          income = cc (a.minor, same.0);
                          nonneg = rw a.minor (
                              left_over c.recognized_income.minor i.drop.minor (
                                not_more c.recognized_income.minor i.drop.minor
                                  (ltb_ℤ i.drop.minor (pos 0))
                                  (return_if_ok _ Error.invalid_scenario u k)));
                          expense = cc same.0;
                          net =
                              subst
                                (λ (x : CashflowResult).
                                  net.minor ≡ x.net_cashflow.minor -ℤ i.drop.minor)
                                (sym same.0) (lowered_net _ _ _ _ _ _ a.minor n.minor balanced.net);
                          balanced = record {
                            net = n.minor;
                            expense_currency = balanced.expense_currency ∙ sym a.currency;
                            net_currency = n.currency;
                          };
                        })
