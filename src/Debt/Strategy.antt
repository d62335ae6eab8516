-- ===== src/Debt/Strategy.antt =====
-- internal/debt/strategy.go: how extra money is spread over the debts.
use family_finance_os.Prelude.{
  Bool, true, false, not, ◌||◌, String, List, [], ◌∷◌, ◌++◌, Option, some, Result, ok, Error, ◌>>=◌,
  ◌>>◌, return_if, if◌then◌else◌,
}
use family_finance_os.Prelude.Int.{ℤ, pos, ltb_ℤ, leb_ℤ, eqb_ℤ}
use family_finance_os.Prelude.Word.{sub64}
use family_finance_os.Prelude.Sort.{sort}
use family_finance_os.Prelude.Text.{str_eq}
use family_finance_os.Money.{Money, zero_money}
use family_finance_os.Debt.{DebtContract, DebtExtraAllocation, PayoffPlan, PayoffStrategy}
use family_finance_os.Debt.Decimal.{Decimals, min_int}
use family_finance_os.Debt.Validation.{negative, check_apr}

abbrev pub is_strategy : PayoffStrategy → Bool
is_strategy (PayoffStrategy.other _) = false
is_strategy _ = true

-- What is left after the allocations.
pub record Spread : Type 0 where
  pub remaining : ℤ
  pub allocations : List DebtExtraAllocation

-- One allocation.
abbrev pub give : ℤ → ℤ → String → Spread → Spread
give debt_id amount currency s = record {
  remaining = sub64 s.remaining amount;
  allocations =
      s.allocations
      ++ record { debt_id = debt_id; amount = record { minor = amount; currency = currency } } ∷ [];
}

module _ (D : Decimals) where
  open D use {Decimal, cmp}

  abbrev pub check_strategy_apr : PayoffStrategy → Option Decimal → Result (Unit {0})
  check_strategy_apr PayoffStrategy.avalanche apr = check_apr D apr
  check_strategy_apr _ apr = ok tt

  abbrev pub is_skipped : DebtContract Decimal → Bool
  is_skipped debt = not debt.active || leb_ℤ debt.balance.minor (pos 0)

  unfoldable pub candidates_of :
      List (DebtContract Decimal) → String → PayoffStrategy → Result (List (DebtContract Decimal))
  candidates_of [] currency strategy = ok []
  candidates_of (debt ∷ debts) currency strategy =
      let kept = (do
        return_if (not (str_eq debt.balance.currency currency)) Error.currency_mismatch
        check_strategy_apr strategy debt.apr
        rest ← candidates_of debts currency strategy
        ok (debt ∷ rest)) in
      if is_skipped debt then candidates_of debts currency strategy else kept

  -- `a.APR.Cmp(b.APR)`. The candidates of the avalanche have an APR.
  abbrev pub cmp_apr : Option Decimal → Option Decimal → ℤ
  cmp_apr (some a) (some b) = cmp a b
  cmp_apr _ _ = pos 0

  -- The comparison handed to `sort.SliceStable`.
  unfoldable pub pays_before : PayoffStrategy → DebtContract Decimal → DebtContract Decimal → Bool
  pays_before PayoffStrategy.avalanche a b =
      let c = cmp_apr a.apr b.apr in
      if not (eqb_ℤ c (pos 0)) then ltb_ℤ (pos 0) c else ltb_ℤ a.id b.id
  pays_before _ a b =
      if not (eqb_ℤ a.balance.minor b.balance.minor)
      then ltb_ℤ a.balance.minor b.balance.minor
      else ltb_ℤ a.id b.id

  -- The loop over the sorted candidates.
  unfoldable pub allocate : List (DebtContract Decimal) → String → Spread → Spread
  allocate [] currency s = s
  allocate (debt ∷ debts) currency s =
      let amount = min_int s.remaining debt.balance.minor in
      let rest =
        allocate debts currency
          (if leb_ℤ amount (pos 0) then s else give debt.id amount currency s) in
      if eqb_ℤ s.remaining (pos 0) then s else rest

  abbrev pub empty_plan : PayoffStrategy → String → PayoffPlan
  empty_plan strategy currency = record {
    strategy = strategy;
    available_extra = zero_money currency;
    liquidity_shortfall = zero_money currency;
    allocations = [];
  }

  -- The plan where the liquid money does not pass the floor.
  abbrev pub plan_short : PayoffStrategy → Money → Money → PayoffPlan
  plan_short strategy liquid floor =
      let plan = empty_plan strategy liquid.currency in
      if ltb_ℤ liquid.minor floor.minor
      then record plan {
        liquidity_shortfall = record {
          minor = sub64 floor.minor liquid.minor;
          currency = liquid.currency;
        };
      }
      else plan

  unfoldable pub build_payoff_plan :
      List (DebtContract Decimal) → Money → Money → PayoffStrategy → Result PayoffPlan
  unfolding candidates_of pays_before allocate
  build_payoff_plan debts liquid floor strategy = do
    return_if (not (str_eq liquid.currency floor.currency)) Error.currency_mismatch
    return_if (negative liquid.minor || negative floor.minor) Error.invalid_debt
    return_if (not (is_strategy strategy)) Error.invalid_strategy
    let available = sub64 liquid.minor floor.minor
    let spread = (do
      candidates ← candidates_of debts liquid.currency strategy
      let s =
          allocate (sort (pays_before strategy) candidates) liquid.currency
            (record { remaining = available; allocations = [] })
      return_if (negative s.remaining) Error.invalid_debt
      ok (record {
        strategy = strategy;
        available_extra = record { minor = available; currency = liquid.currency };
        liquidity_shortfall = zero_money liquid.currency;
        allocations = s.allocations;
      }))
    if leb_ℤ liquid.minor floor.minor then ok (plan_short strategy liquid floor) else spread
