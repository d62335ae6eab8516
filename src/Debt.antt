-- ===== src/Debt.antt =====
-- internal/debt/models.go: debt contracts, simulations and payoff plans.
pub mod Decimal
pub mod Validation
pub mod Amortization
pub mod Simulator
pub mod Strategy
pub mod Month
pub mod Schedule
pub mod Payoff
pub mod Order
pub mod Plan
use family_finance_os.Prelude.{String, Bool, Option, List}
use family_finance_os.Prelude.Int.{ℤ}
use family_finance_os.Money.{Money}

-- The Go type is a string; `other` stands for every text that is none of the constants.
pub data DebtRateType : Type 0 where
  fixed lpr_spread other_variable : DebtRateType
  other : String → DebtRateType

pub data DebtRepaymentType : Type 0 where
  annuity equal_principal revolving custom : DebtRepaymentType
  other : String → DebtRepaymentType

-- A `*apd.Decimal` is an optional decimal.
pub record DebtContract (Decimal : Type 0) : Type 0 where
  pub id : ℤ
  pub name : String
  pub original_principal : Money
  pub balance : Money
  pub apr : Option Decimal
  pub rate_type : DebtRateType
  pub term_remaining_months : ℤ
  pub due_day : ℤ
  pub repayment_type : DebtRepaymentType
  pub minimum_payment : Money
  pub scheduled_payment : Money
  pub prepayment_fee_rate : Option Decimal
  pub prepayment_restricted_months : ℤ
  pub revolving : Bool
  pub active : Bool

pub record DebtPayment : Type 0 where
  pub month : ℤ
  pub opening_balance : Money
  pub interest : Money
  pub scheduled_payment : Money
  pub scheduled_principal : Money
  pub extra_principal : Money
  pub prepayment_fee : Money
  pub closing_balance : Money

pub record DebtSimulation : Type 0 where
  pub payments : List DebtPayment
  pub total_interest : Money
  pub total_fees : Money
  pub payoff_months : ℤ

pub data PayoffStrategy : Type 0 where
  avalanche snowball : PayoffStrategy
  other : String → PayoffStrategy

pub record DebtExtraAllocation : Type 0 where
  pub debt_id : ℤ
  pub amount : Money

pub record PayoffPlan : Type 0 where
  pub strategy : PayoffStrategy
  pub available_extra : Money
  pub liquidity_shortfall : Money
  pub allocations : List DebtExtraAllocation
