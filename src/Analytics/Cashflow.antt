-- ===== src/Analytics/Cashflow.antt =====
-- internal/analytics/cashflow.go.
use family_finance_os.Prelude.{String, List, [], ◌∷◌, Result, ok, ◌>>=◌}
use family_finance_os.Money.{Money, zero_money, add, sub}
use family_finance_os.Analytics.{CashflowEvent, CashflowEventType}

pub record CashflowResult : Type 0 where
  pub recognized_income : Money
  pub recognized_expense : Money
  pub net_cashflow : Money

-- One round of the loop: the running income and expense.
unfoldable pub recognize : CashflowEventType → Money → Money × Money → Result (Money × Money)
recognize CashflowEventType.income amount (income, expense) = do
  income' ← add income amount
  ok (income', expense)
recognize CashflowEventType.expense amount (income, expense) = do
  expense' ← add expense amount
  ok (income, expense')
recognize CashflowEventType.refund amount (income, expense) = do
  expense' ← add expense amount
  ok (income, expense')
recognize _ amount totals = ok totals

unfoldable pub recognize_all : List CashflowEvent → Money × Money → Result (Money × Money)
unfolding recognize
recognize_all [] totals = ok totals
recognize_all (event ∷ events) totals = do
  totals' ← recognize event.type event.amount totals
  recognize_all events totals'

unfoldable pub calculate_cashflow : List CashflowEvent → String → Result CashflowResult
unfolding recognize_all
calculate_cashflow events currency = do
  totals ← recognize_all events (zero_money currency, zero_money currency)
  net ← sub totals.0 totals.1
  ok (record { recognized_income = totals.0; recognized_expense = totals.1; net_cashflow = net })
