-- ===== src/Analytics.antt =====
-- internal/analytics/normalization.go: ledger transactions as cashflow events.
pub mod Cashflow
pub mod NetWorth
pub mod Spending
pub mod Quality
pub mod Classes
pub mod Totals
pub mod Categories
use family_finance_os.Prelude.{String, Bool, false, ◌&&◌, Option, none, some, if◌then◌else◌}
use family_finance_os.Prelude.Int.{pos, ltb_ℤ}
use family_finance_os.Prelude.Time.{Time}
use family_finance_os.Prelude.Eq.{Dict, lookup, string_eq}
use family_finance_os.Money.{Money}
use family_finance_os.Ledger.{Account, AccountCategory, Transaction, TransactionType}

pub data CashflowEventType : Type 0 where
  unknown income expense refund transfer credit_card_repayment : CashflowEventType
  balance_adjustment : CashflowEventType

pub record CashflowEvent : Type 0 where
  pub transaction_id : String
  pub type : CashflowEventType
  pub amount : Money
  pub occurred_at : Time
  pub category_id : String
  pub source_account_id : String
  pub destination_account_id : String

abbrev is_credit_card : AccountCategory → Bool
is_credit_card AccountCategory.credit_card = Bool.true
is_credit_card _ = false

unfoldable pub is_credit_card_repayment : Transaction → Dict String Account → Bool
is_credit_card_repayment tx accounts = elim (lookup tx.source_account_id accounts) [
  | none ↦ false
  | some source ↦ elim (lookup tx.destination_account_id accounts) [
    | none ↦ false
    | some destination ↦
        source.is_asset && (is_credit_card destination.category && destination.is_liability)
  ]
]

-- The `switch` on the transaction's type.
unfoldable pub event_type : TransactionType → Transaction → Dict String Account → CashflowEventType
unfolding is_credit_card_repayment
event_type TransactionType.income tx accounts = CashflowEventType.income
event_type TransactionType.expense tx accounts =
    if ltb_ℤ tx.source_amount.minor (pos 0)
    then CashflowEventType.refund
    else CashflowEventType.expense
event_type TransactionType.transfer tx accounts =
    if is_credit_card_repayment tx accounts
    then CashflowEventType.credit_card_repayment
    else CashflowEventType.transfer
event_type TransactionType.balance_modification tx accounts = CashflowEventType.balance_adjustment
event_type TransactionType.unknown tx accounts = CashflowEventType.unknown

unfoldable pub normalize_transaction : Transaction → Dict String Account → CashflowEvent
unfolding event_type
normalize_transaction tx accounts = record {
  transaction_id = tx.id;
  type = event_type tx.type tx accounts;
  amount = tx.source_amount;
  occurred_at = tx.occurred_at;
  category_id = tx.category_id;
  source_account_id = tx.source_account_id;
  destination_account_id = tx.destination_account_id;
}
