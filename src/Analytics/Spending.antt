-- ===== src/Analytics/Spending.antt =====
-- internal/analytics/spending.go.
use family_finance_os.Prelude.{
  String, Bool, true, false, not, List, [], ◌∷◌, map, Result, ok, ◌>>=◌, if◌then◌else◌,
}
use family_finance_os.Prelude.Int.{ℤ, pos}
use family_finance_os.Prelude.Word.{add64}
use family_finance_os.Prelude.Text.{str_eq}
use family_finance_os.Prelude.Eq.{Dict, insert, string_eq}
use family_finance_os.Prelude.Keys.{keys, get}
use family_finance_os.Prelude.Sort.{sort, str_less}
use family_finance_os.Money.{Money, zero_money, add}
use family_finance_os.Analytics.{CashflowEvent, CashflowEventType}

pub record SpendingCategoryTotal : Type 0 where
  pub category_id : String
  pub amount : Money
  pub transaction_count : ℤ  -- int

pub record SpendingResult : Type 0 where
  pub total : Money
  pub transaction_count : ℤ  -- int
  pub categories : List SpendingCategoryTotal

-- The variables of the first loop.
pub record Tally : Type 0 where
  pub total : Money
  pub amount_by_category : Dict String Money
  pub count_by_category : Dict String ℤ
  pub transaction_count : ℤ

abbrev pub is_spending : CashflowEventType → Bool
is_spending CashflowEventType.expense = true
is_spending CashflowEventType.refund = true
is_spending _ = false

-- `amountByCategory[event.CategoryID]`, with the reporting currency where the map has no entry.
abbrev pub current_amount : String → String → Dict String Money → Money
current_amount currency id amounts =
    let current = get (zero_money "") id amounts in
    if str_eq current.currency "" then record current { currency = currency } else current

unfoldable pub spend : CashflowEvent → String → Tally → Result Tally
spend event currency t = do
  total ← add t.total event.amount
  current ← add (current_amount currency event.category_id t.amount_by_category) event.amount
  ok (record {
    total = total;
    amount_by_category = insert event.category_id current t.amount_by_category;
    count_by_category =
        insert event.category_id (add64 (get (pos 0) event.category_id t.count_by_category) (pos 1))
          t.count_by_category;
    transaction_count = add64 t.transaction_count (pos 1);
  })

unfoldable pub spend_all : List CashflowEvent → String → Tally → Result Tally
unfolding spend
spend_all [] currency t = ok t
spend_all (event ∷ events) currency t =
    let rest = spend event currency t >>= λ t'. spend_all events currency t' in
    if not (is_spending event.type) then spend_all events currency t else rest

abbrev pub no_spending : String → Tally
no_spending currency = record {
  total = zero_money currency;
  amount_by_category = [];
  count_by_category = [];
  transaction_count = pos 0;
}

abbrev pub category_total : Tally → String → SpendingCategoryTotal
category_total t id = record {
  category_id = id;
  amount = get (zero_money "") id t.amount_by_category;
  transaction_count = get (pos 0) id t.count_by_category;
}

unfoldable pub aggregate_spending : List CashflowEvent → String → Result SpendingResult
unfolding spend_all add64
aggregate_spending events currency = do
  t ← spend_all events currency (no_spending currency)
  let category_ids = sort str_less (keys t.amount_by_category)
  ok (record {
    total = t.total;
    transaction_count = t.transaction_count;
    categories = map (category_total t) category_ids;
  })
