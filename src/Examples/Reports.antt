-- ===== src/Examples/Reports.antt =====
-- Cashflow, spending and net worth of a few transactions.
use family_finance_os.Prelude.{
  ◌≡◌, refl, arith, String, Bool, true, false, not, List, [], ◌∷◌, map, none, ◌↔◌, All,
}
use family_finance_os.Prelude.Int.{ℤ, pos, negsuc, ◌-ℤ◌, ◌<ℤ◌}
use family_finance_os.Prelude.Word.{IsInt64}
use family_finance_os.Prelude.Sort.{sum}
use family_finance_os.Prelude.Eq.{Dict}
use family_finance_os.Money.{Money}
use family_finance_os.Ledger.{
  Transaction, TransactionType, Account, AccountCategory, AccountStructure, Category, CategoryType,
}
use family_finance_os.Analytics.{CashflowEvent, CashflowEventType, normalize_transaction}
use family_finance_os.Analytics.Cashflow.{CashflowResult, calculate_cashflow}
use family_finance_os.Analytics.NetWorth.{
  NetWorthResult, Valuation, ValuationKind, calculate_net_worth,
}
use family_finance_os.Analytics.Spending.{SpendingResult, SpendingCategoryTotal, aggregate_spending}
use family_finance_os.Analytics.Classes.{
  flows, Repays, cashflow_of_flows, normalize-repayment_iff, normalize-refund_iff,
}
use family_finance_os.Analytics.Totals.{
  income_part, expense_part, IsAmount, IsValuation, asset_part, liability_part, cashflow_sums,
  net_worth_sums,
}
use family_finance_os.DataQuality.{Ids, all_issues}
use family_finance_os.DataQuality.Clean.{IsClean, all_issues-IsClean}
use family_finance_os.Analytics.Categories.{part_of, spending_adds_up}

abbrev cny : ℤ → Money
cny n = record { minor = n; currency = "CNY" }

abbrev account : String → AccountCategory → Bool → Account
account id category is_liability = record {
  id = id;
  name = id;
  parent_id = "";
  category = category;
  structure = AccountStructure.single;
  balance = cny (pos 0);
  is_asset = not is_liability;
  is_liability = is_liability;
  hidden = false;
}

abbrev accounts : Dict String Account
accounts =
    ("cash", account "cash" AccountCategory.cash false)
    ∷ ("card", account "card" AccountCategory.credit_card true)
    ∷ []

abbrev transaction : TransactionType → String → ℤ → String → String → Transaction
transaction type category amount from to = record {
  id = "t";
  time_sequence_id = "";
  type = type;
  category_id = category;
  occurred_at = pos 0;
  utc_offset_minutes = pos 0;
  source_account_id = from;
  destination_account_id = to;
  source_amount = cny amount;
  destination_amount = none;
  amount_hidden = false;
  comment = "";
  editable = true;
}

abbrev salary : Transaction
salary = transaction TransactionType.income "pay" (pos 900) "cash" ""

abbrev groceries : Transaction
groceries = transaction TransactionType.expense "food" (pos 300) "cash" ""

abbrev return_of_goods : Transaction
return_of_goods = transaction TransactionType.expense "food" (negsuc 99) "cash" ""

abbrev train : Transaction
train = transaction TransactionType.expense "travel" (pos 50) "cash" ""

abbrev repayment : Transaction
repayment = transaction TransactionType.transfer "" (pos 400) "cash" "card"

abbrev transactions : List Transaction
transactions = salary ∷ groceries ∷ repayment ∷ return_of_goods ∷ train ∷ []

abbrev events : List CashflowEvent
events = map (λ tx. normalize_transaction tx accounts) transactions

abbrev cashflow : CashflowResult
cashflow = record {
  recognized_income = cny (pos 900);
  recognized_expense = cny (pos 250);
  net_cashflow = cny (pos 650);
}

amounts_in_range : All IsAmount events
unfolding normalize_transaction
amounts_in_range = (
  (omega arith, omega arith),
  (
    (omega arith, omega arith),
    ((omega arith, omega arith), ((omega arith, omega arith), ((omega arith, omega arith), tt))),
  ),
)

cashflow_sums_example :
    (pos 900 ≡ sum income_part events)
    × (pos 250 ≡ sum expense_part events)
    × (pos 650 ≡ sum income_part events -ℤ sum expense_part events)
    × IsInt64 (pos 650)
    × (cashflow.recognized_income.currency ≡ "CNY")
    × (cashflow.recognized_expense.currency ≡ "CNY")
    × (cashflow.net_cashflow.currency ≡ "CNY")
unfolding calculate_cashflow normalize_transaction family_finance_os.Money.add
    family_finance_os.Money.sub
cashflow_sums_example = cashflow_sums events "CNY" cashflow amounts_in_range refl

abbrev spending : SpendingResult
spending = record {
  total = cny (pos 250);
  transaction_count = pos 3;
  categories =
      record { category_id = "food"; amount = cny (pos 200); transaction_count = pos 2 }
      ∷ record { category_id = "travel"; amount = cny (pos 50); transaction_count = pos 1 }
      ∷ [];
}

spending_adds_up_example :
    (pos 250 ≡ sum expense_part events)
    × (sum (λ (x : SpendingCategoryTotal). x.amount.minor) spending.categories ≡ pos 250)
    × All
        (λ (x : SpendingCategoryTotal). x.amount.minor ≡ sum (part_of x.category_id) events)
        spending.categories
unfolding aggregate_spending normalize_transaction family_finance_os.Money.add
spending_adds_up_example = spending_adds_up events "CNY" spending amounts_in_range refl

abbrev valuations : List Valuation
valuations =
    record { kind = ValuationKind.asset; value = cny (pos 700) }
    ∷ record { kind = ValuationKind.liability; value = cny (pos 1000) }
    ∷ []

abbrev net_worth : NetWorthResult
net_worth = record {
  total_assets = cny (pos 700);
  total_liabilities = cny (pos 1000);
  net_worth = cny (negsuc 299);
}

net_worth_sums_example :
    All IsValuation valuations
    × (pos 700 ≡ sum asset_part valuations)
    × (pos 1000 ≡ sum liability_part valuations)
    × (negsuc 299 ≡ sum asset_part valuations -ℤ sum liability_part valuations)
    × (net_worth.net_worth.currency ≡ "CNY")
unfolding calculate_net_worth family_finance_os.Money.add family_finance_os.Money.sub
net_worth_sums_example =
    net_worth_sums valuations "CNY" net_worth
      ((omega arith, omega arith), ((omega arith, omega arith), tt)) refl

cashflow_of_flows_example :
    calculate_cashflow events "CNY"
    ≡ calculate_cashflow (map (λ tx. normalize_transaction tx accounts) (flows transactions)) "CNY"
cashflow_of_flows_example = cashflow_of_flows transactions accounts "CNY"

normalize-repayment_iff_example :
    ((normalize_transaction repayment accounts).type ≡ CashflowEventType.credit_card_repayment)
    ↔ ((repayment.type ≡ TransactionType.transfer) × Repays repayment accounts)
normalize-repayment_iff_example = normalize-repayment_iff repayment accounts

normalize-refund_iff_example :
    ((normalize_transaction return_of_goods accounts).type ≡ CashflowEventType.refund)
    ↔ ((TransactionType.expense ≡ TransactionType.expense) × (negsuc 99 <ℤ pos 0))
normalize-refund_iff_example = normalize-refund_iff return_of_goods accounts

abbrev category : String → CategoryType → Category
category id type = record { id = id; name = id; parent_id = ""; type = type; hidden = false }

abbrev known_ids : Ids
known_ids = ("cash", tt) ∷ ("card", tt) ∷ []

abbrev categories : Dict String Category
categories =
    ("pay", category "pay" CategoryType.income)
    ∷ ("food", category "food" CategoryType.expense)
    ∷ []

all_issues-IsClean_example :
    (all_issues transactions known_ids categories ≡ [])
    ↔ All (λ tx. IsClean tx known_ids categories) transactions
all_issues-IsClean_example = all_issues-IsClean transactions known_ids categories
