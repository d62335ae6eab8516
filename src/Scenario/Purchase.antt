-- ===== src/Scenario/Purchase.antt =====
-- service.go: what a purchase changes, for amounts that are values of `int64`.
use family_finance_os.Prelude.{
  ◌≡◌, sym, ap, ◌∙◌, not, [], ◌∷◌, ◌++◌, if◌then◌else◌, ok, Error, return_if, return_if_ok, bind_ok,
  ok-injective, All,
}
use mathlib.Core.Path.{subst}
use family_finance_os.Prelude.Int.{ℤ, pos, ◌+ℤ◌, ◌-ℤ◌, ◌≤ℤ◌, ltb_ℤ, int_laws}
use family_finance_os.Prelude.Text.{str_eq}
use family_finance_os.Money.{add, sub}
use family_finance_os.Money.Exact.{sub-Gives, add-Gives}
use family_finance_os.Analytics.Cashflow.{CashflowResult}
use family_finance_os.Budget.{
  SafeToSpendInput, SafeToSpendResult, values_of, calculate_safe_to_spend,
}
use family_finance_os.Budget.Laws.{IsAmount, safe_to_spend_exact, safe_to_spend-IsAmount, reserved}
use family_finance_os.Debt.Decimal.{Decimals}
use family_finance_os.Scenario.{
  PurchaseInput, PurchaseResult, validated_cashflow, require_currency, cashflow_of, savings_rate,
  timeline_impact_of, pool_less, ViolationCode, simulate_purchase,
}
use family_finance_os.Scenario.Changes.{
  nonneg, HasAmounts, IsBalanced, validated_cashflow-IsBalanced,
}

pub record PurchaseAmounts (i : PurchaseInput) : Type 0 where
  pub purchase : IsAmount i.purchase
  pub cashflow : HasAmounts i.cashflow
  pub pool : IsAmount i.safe_to_spend.liquid_discretionary_pool
  pub values : All IsAmount (values_of i.safe_to_spend)
  pub balance : IsAmount i.liquid_balance

-- What is left of the pool.
abbrev pub spendable : SafeToSpendInput → ℤ
spendable i = i.liquid_discretionary_pool.minor -ℤ reserved i

abbrev SafeFacts : SafeToSpendInput → SafeToSpendResult → Type 0
SafeFacts i r =
    (r.amount.minor ≡ spendable i)
    × IsAmount r.amount
    × (r.is_deficit ≡ ltb_ℤ (spendable i) (pos 0))

safe_facts :
    (i : SafeToSpendInput) (r : SafeToSpendResult)
    → IsAmount i.liquid_discretionary_pool
    → All IsAmount (values_of i)
    → calculate_safe_to_spend i ≡ ok r
    → SafeFacts i r
safe_facts i r h k q =
    let e = (safe_to_spend_exact i r h k q).0 in
    let facts = safe_to_spend-IsAmount i r h k q in
    (e, facts.0, facts.1 ∙ ap (λ (z : ℤ). ltb_ℤ z (pos 0)) e)

-- Arithmetic of the figures.
less_first : (a b c : ℤ) → (a -ℤ b) -ℤ c ≡ (a -ℤ c) -ℤ b
less_first a b c = omega int_laws

change : (a b : ℤ) → (a -ℤ b) -ℤ a ≡ pos 0 -ℤ b
change a b = omega int_laws

net_less :
    (income expense price net expense' net' : ℤ)
    → net ≡ income -ℤ expense
    → expense' ≡ expense +ℤ price
    → net' ≡ income -ℤ expense'
    → net' ≡ net -ℤ price
net_less income expense price net expense' net' h k l = l ∙ rw (h, k) (omega int_laws)

module _ (D : Decimals) where
  open D use {Decimal}

  pub record PurchaseLaws (i : PurchaseInput) (r : PurchaseResult Decimal) : Type 0 where
    pub safe_before : r.before.safe_to_spend.amount.minor ≡ spendable i.safe_to_spend
    pub safe_after :
        r.after.safe_to_spend.amount.minor ≡ spendable i.safe_to_spend -ℤ i.purchase.minor
    pub safe_delta : r.safe_to_spend_delta.minor ≡ pos 0 -ℤ i.purchase.minor
    pub net_after : r.after.net_cashflow.minor ≡ i.cashflow.net_cashflow.minor -ℤ i.purchase.minor
    pub net_delta : r.net_cashflow_delta.minor ≡ pos 0 -ℤ i.purchase.minor
    pub liquid_after : r.after.liquid_balance.minor ≡ i.liquid_balance.minor -ℤ i.purchase.minor
    pub violations :
        r.violations
        ≡ (if ltb_ℤ (spendable i.safe_to_spend -ℤ i.purchase.minor) (pos 0)
            then ViolationCode.safe_to_spend_deficit ∷ []
            else [])
          ++ (if ltb_ℤ (i.liquid_balance.minor -ℤ i.purchase.minor) i.liquidity_floor.minor
              then ViolationCode.liquidity_floor_breach ∷ []
              else [])
    pub price : pos 0 ≤ℤ i.purchase.minor

  -- A purchase, for `int64` amounts, takes exactly its price from the safe-to-spend amount, the net
  -- cashflow and the liquid balance. It violates what it should: a deficit exactly if what is left
  -- to spend is negative, and the liquidity floor exactly if the balance left is below it.
  pub simulate_purchase_exact :
      (i : PurchaseInput) (r : PurchaseResult Decimal)
      → PurchaseAmounts i
      → simulate_purchase D i ≡ ok r
      → PurchaseLaws i r
  unfolding simulate_purchase
  simulate_purchase_exact i r h q =
      bind_ok (return_if (ltb_ℤ i.purchase.minor (pos 0)) Error.invalid_scenario) _ q λ u f0 q0.
        bind_ok (validated_cashflow i.cashflow) _ q0 λ c f1 q1.
          bind_ok
            (require_currency c.recognized_income.currency
              (i.purchase ∷ i.liquid_balance ∷ i.liquidity_floor ∷ []))
            _ q1
            λ _ _ q2. bind_ok (calculate_safe_to_spend i.safe_to_spend) _ q2 λ safe f3 q3.
              bind_ok
                (return_if (not (str_eq safe.amount.currency c.recognized_income.currency))
                  Error.currency_mismatch)
                _ q3
                λ _ _ q4.
                  bind_ok (sub i.safe_to_spend.liquid_discretionary_pool i.purchase) _ q4
                    λ pool f5 q5.
                      bind_ok (calculate_safe_to_spend (pool_less i.safe_to_spend pool)) _ q5
                        λ safe' f6 q6.
                          bind_ok (add c.recognized_expense i.purchase) _ q6 λ expense f7 q7.
                            bind_ok (sub c.recognized_income expense) _ q7 λ net f8 q8.
                              bind_ok (sub i.liquid_balance i.purchase) _ q8 λ liquid f9 q9.
                                bind_ok (savings_rate D c) _ q9 λ _ _ q10.
                                  bind_ok
                                    (savings_rate D (cashflow_of c.recognized_income expense net)) _
                                    q10
                                    λ _ _ q11.
                                      bind_ok (sub safe'.amount safe.amount) _ q11
                                        λ safe_delta f12 q12.
                                          bind_ok (sub net c.net_cashflow) _ q12
                                            λ net_delta f13 q13.
                                              bind_ok (timeline_impact_of i.debt_timeline) _ q13
                                                λ _ _ q14.
                                                  bind_ok (timeline_impact_of i.goal_timeline) _ q14
                                                    λ _ _ q15.
                                                      let same =
                                                        validated_cashflow-IsBalanced i.cashflow c
                                                          h.cashflow f1 in
                                                      let hc = subst HasAmounts same.0 h.cashflow in
                                                      let before =
                                                        safe_facts i.safe_to_spend safe h.pool
                                                          h.values f3 in
                                                      let less =
                                                        sub-Gives
                                                          i.safe_to_spend.liquid_discretionary_pool
                                                          i.purchase pool h.pool h.purchase f5 in
                                                      let after =
                                                        safe_facts (pool_less i.safe_to_spend pool)
                                                          safe' less.bounded h.values f6 in
                                                      let paid =
                                                        add-Gives c.recognized_expense i.purchase
                                                          expense hc.expense h.purchase f7 in
                                                      let left =
                                                        sub-Gives c.recognized_income expense net
                                                          hc.income paid.bounded f8 in
                                                      let cash =
                                                        sub-Gives i.liquid_balance i.purchase liquid
                                                          h.balance h.purchase f9 in
                                                      let dsafe =
                                                        sub-Gives safe'.amount safe.amount
                                                          safe_delta after.1 before.1 f12 in
                                                      let dnet =
                                                        sub-Gives net c.net_cashflow net_delta
                                                          left.bounded hc.net f13 in
                                                      let spend =
                                                        after.0
                                                        ∙ rw less.minor (
                                                            less_first
                                                            i.safe_to_spend.liquid_discretionary_pool.minor
                                                            i.purchase.minor
                                                            (reserved i.safe_to_spend)) in
                                                      let spent : net.minor
                                                          ≡ c.net_cashflow.minor
                                                            -ℤ i.purchase.minor =
                                                        net_less _ _ _ _ _ _
                                                          (subst IsBalanced same.0 same.1).net
                                                          paid.minor left.minor in
                                                      subst
                                                        (λ (x : PurchaseResult Decimal).
                                                          PurchaseLaws i x)
                                                        (ok-injective q15)
                                                        (record {
                                                          safe_before = before.0;
                                                          safe_after = spend;
                                                          safe_delta =
                                                            dsafe.minor
                                                            ∙ rw (spend, before.0)
                                                            (change (spendable i.safe_to_spend)
                                                            i.purchase.minor);
                                                          net_after =
                                                            subst
                                                            (λ (x : CashflowResult).
                                                            net.minor
                                                            ≡ x.net_cashflow.minor
                                                            -ℤ i.purchase.minor)
                                                            (sym same.0) spent;
                                                          net_delta =
                                                            dnet.minor
                                                            ∙ rw spent (
                                                            change c.net_cashflow.minor
                                                            i.purchase.minor);
                                                          liquid_after = cash.minor;
                                                          violations = rw (
                                                            after.2,
                                                            sym after.0,
                                                            spend,
                                                            cash.minor,
                                                          );
                                                          price = nonneg i.purchase.minor (
                                                            return_if_ok _ Error.invalid_scenario u
                                                            f0);
                                                        })
