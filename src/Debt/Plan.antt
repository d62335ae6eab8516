-- ===== src/Debt/Plan.antt =====
-- strategy.go: the allocations of a payoff plan.
use family_finance_os.Prelude.{
  ◌≡◌, refl, sym, ap, ◌∙◌, arith, false, not, ◌||◌, String, List, [], ◌∷◌, ◌++◌, ok, Error,
  return_if, return_if_ok, if◌then◌else◌, bind_ok, ok-injective, Bool-cases, inl, inr, All,
}
use mathlib.Core.Path.{subst}
use mathlib.Core.List.{append-nil, append_assoc}
use family_finance_os.Prelude.Int.{ℤ, pos, ◌-ℤ◌, ◌≤ℤ◌, ◌<ℤ◌, ltb_ℤ, leb_ℤ, eqb_ℤ, int_laws}
use family_finance_os.Prelude.Word.{IsInt64, sub64}
use family_finance_os.Prelude.Sort.{sum, sort, sort-All}
use family_finance_os.Prelude.Text.{str_eq}
use family_finance_os.Money.{Money}
use family_finance_os.Debt.{DebtContract, DebtExtraAllocation, PayoffPlan, PayoffStrategy}
use family_finance_os.Debt.Decimal.{Decimals}
use family_finance_os.Debt.Validation.{negative}
use family_finance_os.Debt.Strategy.{
  Spread, candidates_of, is_skipped, is_strategy, check_strategy_apr, pays_before, allocate, give,
  build_payoff_plan,
}
use family_finance_os.Debt.Order.{CmpLaws, Considers, candidates_of-owed, sort-Considers}
use family_finance_os.Debt.Month.{sub-Within, Within-IsInt64}

abbrev pub amount_of : DebtExtraAllocation → ℤ
amount_of a = a.amount.minor

sub_self : (a : ℤ) → a -ℤ a ≡ pos 0
sub_self a = omega int_laws

module _ (D : Decimals) where
  open D use {Decimal}

  abbrev pub balance_of : DebtContract Decimal → ℤ
  balance_of debt = debt.balance.minor

  -- An amount owed, in range.
  abbrev pub IsOwed : DebtContract Decimal → Type 0
  IsOwed debt = IsInt64 debt.balance.minor × (pos 0 <ℤ debt.balance.minor)

  -- The allocations of a fully greedy payment, in order: each debt gets its whole balance while the
  -- money lasts, the next gets the rest, and no other gets any.
  abbrev pub greedy : List (DebtContract Decimal) → String → ℤ → List DebtExtraAllocation
  greedy [] c money = []
  greedy (debt ∷ debts) c money =
      if leb_ℤ money (pos 0)
      then []
      else if ltb_ℤ money debt.balance.minor
      then record { debt_id = debt.id; amount = record { minor = money; currency = c } } ∷ []
      else record {
        debt_id = debt.id;
        amount = record { minor = debt.balance.minor; currency = c };
      }
        ∷ greedy debts c (money -ℤ debt.balance.minor)

  greedy-zero :
      (debts : List (DebtContract Decimal)) (c : String) (money : ℤ)
      → money ≡ pos 0
      → greedy debts c money ≡ []
  greedy-zero [] c money h = refl
  greedy-zero (debt ∷ debts) c money h = rw h

  allocate-greedy :
      (debts : List (DebtContract Decimal)) (c : String) (s : Spread)
      → All IsOwed debts
      → IsInt64 s.remaining
      → pos 0 ≤ℤ s.remaining
      → ((allocate D debts c s).allocations ≡ s.allocations ++ greedy debts c s.remaining)
        × (pos 0 ≤ℤ (allocate D debts c s).remaining)
  unfolding allocate
  allocate-greedy [] c s o h n = (sym (append-nil s.allocations), n)
  allocate-greedy (debt ∷ debts) c s o h n = elim (Bool-cases (eqb_ℤ s.remaining (pos 0))) [
    | inl e ↦
        rw (e, greedy-zero (debt ∷ debts) c s.remaining (ground arith))
          (sym (append-nil s.allocations), n)
    | inr e ↦
        let p : leb_ℤ s.remaining (pos 0) ≡ false = ground arith in
        elim (Bool-cases (ltb_ℤ s.remaining debt.balance.minor)) [
          | inl less ↦
              let w = sub-Within s.remaining s.remaining h (n, omega arith) in
              let z = w.0 ∙ sub_self s.remaining in
              let t = give debt.id s.remaining c s in
              let ih = allocate-greedy debts c t o.1 (rw z (omega arith)) (rw z (omega arith)) in
              rw (e, less, p)
                (
                  ih.0
                      ∙ ap (λ (l : List DebtExtraAllocation). t.allocations ++ l)
                          (greedy-zero debts c t.remaining z)
                      ∙ append-nil t.allocations,
                  ih.1,
                )
          | inr enough ↦
              let b : leb_ℤ debt.balance.minor (pos 0) ≡ false = ground (arith, o.0.1) in
              let w = sub-Within s.remaining debt.balance.minor h (ground (arith, o.0.1)) in
              let t = give debt.id debt.balance.minor c s in
              let ih =
                allocate-greedy debts c t o.1 (rw w.0 (Within-IsInt64 _ s.remaining h w.1))
                  (rw w.0 w.1.0) in
              rw (e, enough, b, p)
                (
                  ih.0
                      ∙ ap (λ (m : ℤ). t.allocations ++ greedy debts c m) w.0
                      ∙ append_assoc s.allocations _ _,
                  ih.1,
                )
        ]
  ]

  -- The greedy allocations use up the money, or pay every debt in full.
  abbrev pub min_ℤ : ℤ → ℤ → ℤ
  min_ℤ a b = if ltb_ℤ a b then a else b

  sum-nonneg :
      (debts : List (DebtContract Decimal)) → All IsOwed debts → pos 0 ≤ℤ sum balance_of debts
  sum-nonneg [] o = omega arith
  sum-nonneg (debt ∷ debts) o = omega (int_laws, sum-nonneg debts o.1, o.0.1)

  sum-greedy :
      (debts : List (DebtContract Decimal)) (c : String) (money : ℤ)
      → All IsOwed debts
      → pos 0 ≤ℤ money
      → sum amount_of (greedy debts c money) ≡ min_ℤ money (sum balance_of debts)
  sum-greedy [] c money o n = ground arith
  sum-greedy (debt ∷ debts) c money o n =
      grind (
        int_laws,
        o.0.1,
        sum-nonneg debts o.1,
        sum-greedy debts c (money -ℤ debt.balance.minor) o.1,
      )

  candidates_of-IsOwed :
      (debts cs : List (DebtContract Decimal)) (c : String) (strategy : PayoffStrategy)
      → All (λ (debt : DebtContract Decimal). IsInt64 debt.balance.minor) debts
      → candidates_of D debts c strategy ≡ ok cs
      → All IsOwed cs
  unfolding candidates_of
  candidates_of-IsOwed [] cs c strategy h q = subst (All IsOwed) (ok-injective q) tt
  candidates_of-IsOwed (debt ∷ debts) cs c strategy h q = elim (Bool-cases (is_skipped D debt)) [
    | inl skipped ↦ candidates_of-IsOwed debts cs c strategy h.1 (rw skipped at q)
    | inr kept ↦
        bind_ok (return_if (not (str_eq debt.balance.currency c)) Error.currency_mismatch) _
          (rw kept at q)
          λ _ _ q1. bind_ok (check_strategy_apr D strategy debt.apr) _ q1 λ _ _ q2.
            bind_ok (candidates_of D debts c strategy) _ q2 λ rest q3 q4.
              subst (All IsOwed) (ok-injective q4)
                ((h.0, ground (arith, kept)), candidates_of-IsOwed debts rest c strategy h.1 q3)
  ]

  -- What a plan for a positive difference is.
  abbrev pub IsGreedy :
      List (DebtContract Decimal) → Money → Money → PayoffStrategy → PayoffPlan → Type 0
  IsGreedy debts liquid floor strategy plan =
      (order : List (DebtContract Decimal)) × Considers D debts strategy order
      × (plan.allocations ≡ greedy order liquid.currency (liquid.minor -ℤ floor.minor))
      × (sum amount_of plan.allocations
          ≡ min_ℤ (liquid.minor -ℤ floor.minor) (sum balance_of order))
      × (plan.available_extra.minor ≡ liquid.minor -ℤ floor.minor)
      × (plan.liquidity_shortfall.minor ≡ pos 0)

  -- A plan made where the liquid money passes the floor, for `int64` balances and amounts and the
  -- decimals' comparison of apd, has the difference available, no shortfall, and considers all debts
  -- that are active and owed and no other: the avalanche by falling APR, the snowball by rising
  -- balance, and by ID where these are the same. In that order each debt gets its whole balance while
  -- the money lasts, the next one the rest, and no other any; so the amounts add up to the smaller of
  -- the difference and of all that is owed.
  pub build_payoff_plan-IsGreedy :
      (debts : List (DebtContract Decimal)) (liquid floor : Money) (strategy : PayoffStrategy)
      (plan : PayoffPlan)
      → CmpLaws D
      → All (λ (debt : DebtContract Decimal). IsInt64 debt.balance.minor) debts
      → IsInt64 liquid.minor
      → floor.minor <ℤ liquid.minor
      → build_payoff_plan D debts liquid floor strategy ≡ ok plan
      → IsGreedy debts liquid floor strategy plan
  unfolding build_payoff_plan
  build_payoff_plan-IsGreedy debts liquid floor strategy plan laws h l more q =
      bind_ok (return_if (not (str_eq liquid.currency floor.currency)) Error.currency_mismatch) _ q
        λ _ _ q1.
          bind_ok (return_if (negative liquid.minor || negative floor.minor) Error.invalid_debt) _
            q1
            λ u n q2.
              bind_ok (return_if (not (is_strategy strategy)) Error.invalid_strategy) _ q2 λ _ _ q3.
                let t : leb_ℤ liquid.minor floor.minor ≡ false = ground arith in
                bind_ok (candidates_of D debts liquid.currency strategy) _ (rw t at q3) λ cs q4 q5.
                  let order = sort (pays_before D strategy) cs in
                  let s =
                    allocate D order liquid.currency
                      (record { remaining = sub64 liquid.minor floor.minor; allocations = [] }) in
                  bind_ok (return_if (negative s.remaining) Error.invalid_debt) _ q5 λ _ _ q6.
                    let nn =
                      return_if_ok (negative liquid.minor || negative floor.minor)
                        Error.invalid_debt u n in
                    let w = sub-Within liquid.minor floor.minor l (ground (arith, nn)) in
                    let o =
                      sort-All (pays_before D strategy) IsOwed cs
                        (candidates_of-IsOwed debts cs liquid.currency strategy h q4) in
                    let g =
                      allocate-greedy order liquid.currency
                        (record { remaining = sub64 liquid.minor floor.minor; allocations = [] }) o
                        (rw w.0 (Within-IsInt64 _ liquid.minor l w.1)) (rw w.0 w.1.0) in
                    let e = g.0 ∙ ap (greedy order liquid.currency) w.0 in
                    subst (IsGreedy debts liquid floor strategy) (ok-injective q6) (
                      order,
                      subst
                          (λ (x : List (DebtContract Decimal)).
                            Considers D debts strategy (sort (pays_before D strategy) x))
                          (candidates_of-owed D debts cs liquid.currency strategy q4)
                          (sort-Considers D debts strategy laws),
                      e,
                      ap (sum amount_of) e ∙ sum-greedy order liquid.currency _ o w.1.0,
                      w.0,
                      refl,
                    )
