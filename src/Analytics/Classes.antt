-- ===== src/Analytics/Classes.antt =====
-- normalization.go: which transactions the cashflow counts.
use family_finance_os.Prelude.{
  ◌≡◌, refl, ◌↔◌, Option-cases, Bool-cases, inl, inr, arith, String, Bool, true, false, List, [],
  ◌∷◌, map, some, ok, if◌then◌else◌,
}
use mathlib.Core.Path.{fun_ext}
use family_finance_os.Prelude.Int.{pos, ◌<ℤ◌}
use family_finance_os.Prelude.Eq.{Dict, lookup, string_eq}
use family_finance_os.Money.{Money, zero_money}
use family_finance_os.Ledger.{Account, AccountCategory, Transaction, TransactionType}
use family_finance_os.Analytics.{
  CashflowEventType, is_credit_card_repayment, event_type, normalize_transaction,
}
use family_finance_os.Analytics.Cashflow.{recognize, recognize_all, calculate_cashflow}

-- A refund is exactly an expense with a negative amount.
pub normalize-refund_iff :
    (tx : Transaction) (accounts : Dict String Account)
    → ((normalize_transaction tx accounts).type ≡ CashflowEventType.refund)
      ↔ ((tx.type ≡ TransactionType.expense) × (tx.source_amount.minor <ℤ pos 0))
unfolding normalize_transaction
normalize-refund_iff tx accounts = ground arith

-- What makes a transfer the repayment of a credit card: both accounts are known, the money comes
-- from an asset, and goes to a credit card that is a liability.
abbrev pub Repays : Transaction → Dict String Account → Type 0
Repays tx accounts =
    (source : Account) × (destination : Account) × (lookup tx.source_account_id accounts
      ≡ some source)
    × (lookup tx.destination_account_id accounts ≡ some destination)
    × (source.is_asset ≡ true)
    × (destination.category ≡ AccountCategory.credit_card)
    × (destination.is_liability ≡ true)

repayment-Repays :
    (tx : Transaction) (accounts : Dict String Account)
    → is_credit_card_repayment tx accounts ≡ true
    → Repays tx accounts
unfolding is_credit_card_repayment
repayment-Repays tx accounts h = elim (Option-cases (lookup tx.source_account_id accounts)) [
  | inl e ↦ absurd (ground arith)
  | inr (source, e) ↦ elim (Option-cases (lookup tx.destination_account_id accounts)) [
    | inl k ↦ absurd (ground arith)
    | inr (destination, k) ↦ (source, destination, e, k, ground arith, ground arith, ground arith)
  ]
]

Repays-repayment :
    (tx : Transaction) (accounts : Dict String Account)
    → Repays tx accounts
    → is_credit_card_repayment tx accounts ≡ true
unfolding is_credit_card_repayment
Repays-repayment tx accounts (source, destination, e, k, asset, card, liability) = ground arith

-- An event is a credit card repayment exactly when its transaction is a transfer from a known
-- asset account to a known credit card account that is a liability.
pub normalize-repayment_iff :
    (tx : Transaction) (accounts : Dict String Account)
    → ((normalize_transaction tx accounts).type ≡ CashflowEventType.credit_card_repayment)
      ↔ ((tx.type ≡ TransactionType.transfer) × Repays tx accounts)
unfolding normalize_transaction
normalize-repayment_iff tx accounts = (
  λ h. (ground arith, repayment-Repays tx accounts (ground arith)),
  λ h. ground (arith, Repays-repayment tx accounts h.1),
)

-- Whether a transaction moves income or spending.
abbrev is_flow : TransactionType → Bool
is_flow TransactionType.income = true
is_flow TransactionType.expense = true
is_flow _ = false

abbrev pub flows : List Transaction → List Transaction
flows [] = []
flows (tx ∷ txs) = if is_flow tx.type then tx ∷ flows txs else flows txs

recognize_neutral :
    (tx : Transaction) (accounts : Dict String Account) (totals : Money × Money)
    → is_flow tx.type ≡ false
    → recognize (event_type tx.type tx accounts) tx.source_amount totals ≡ ok totals
unfolding recognize event_type
recognize_neutral tx accounts totals h = ground arith

recognize-flows :
    (txs : List Transaction) (accounts : Dict String Account) (totals : Money × Money)
    → recognize_all (map (λ tx. normalize_transaction tx accounts) txs) totals
      ≡ recognize_all (map (λ tx. normalize_transaction tx accounts) (flows txs)) totals
unfolding recognize_all normalize_transaction
recognize-flows [] accounts totals = refl
recognize-flows (tx ∷ txs) accounts totals = elim (Bool-cases (is_flow tx.type)) [
  | inl e ↦ rw e (rw (fun_ext (recognize-flows txs accounts)))
  | inr e ↦ rw (e, recognize_neutral tx accounts totals e) (recognize-flows txs accounts totals)
]

-- Transfers, credit card repayments, balance changes and unknown transactions leave the cashflow
-- as it is: it is the cashflow of the income and expense transactions alone, errors included.
pub cashflow_of_flows :
    (txs : List Transaction) (accounts : Dict String Account) (currency : String)
    → calculate_cashflow (map (λ tx. normalize_transaction tx accounts) txs) currency
      ≡ calculate_cashflow (map (λ tx. normalize_transaction tx accounts) (flows txs)) currency
unfolding calculate_cashflow
cashflow_of_flows txs accounts currency =
    rw (recognize-flows txs accounts (zero_money currency, zero_money currency))
