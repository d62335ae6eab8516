-- ===== src/Analytics/Totals.antt =====
-- cashflow.go and networth.go: the totals as sums.
use family_finance_os.Prelude.{
  ◌≡◌, ◌≢◌, arith, String, List, [], ◌∷◌, ok, passed, All, Bool-cases, inl, inr,
}
use family_finance_os.Prelude.Int.{ℤ, pos, ◌+ℤ◌, ◌-ℤ◌, ◌≤ℤ◌, ltb_ℤ, int_laws, +ℤ_chain}
use family_finance_os.Prelude.Word.{IsInt64}
use family_finance_os.Prelude.Sort.{sum}
use family_finance_os.Money.{Money, zero_money, sub}
use family_finance_os.Money.Exact.{add-Gives, sub-Gives}
use family_finance_os.Analytics.{CashflowEvent, CashflowEventType}
use family_finance_os.Analytics.Cashflow.{
  CashflowResult, recognize, recognize_all, calculate_cashflow,
}
use family_finance_os.Analytics.NetWorth.{
  NetWorthResult, Valuation, ValuationKind, post, post_all, calculate_net_worth,
}

-- What an event adds to the income, and to the expense.
abbrev pub income_part : CashflowEvent → ℤ
income_part event = elim event.type [ CashflowEventType.income ↦ event.amount.minor | _ ↦ pos 0 ]

abbrev pub expense_part : CashflowEvent → ℤ
expense_part event = elim event.type [
  | CashflowEventType.expense ↦ event.amount.minor
  | CashflowEventType.refund ↦ event.amount.minor
  | _ ↦ pos 0
]

abbrev pub IsAmount : CashflowEvent → Type 0
IsAmount event = IsInt64 event.amount.minor

-- The running totals are `int64` amounts in one currency.
abbrev Running : String → Money × Money → Type 0
Running c (a, b) = IsInt64 a.minor × IsInt64 b.minor × (a.currency ≡ c) × (b.currency ≡ c)

recognize_step :
    (c : String) (e : CashflowEvent) (t t' : Money × Money)
    → Running c t
    → IsAmount e
    → recognize e.type e.amount t ≡ ok t'
    → Running c t'
      × (t'.0.minor ≡ t.0.minor +ℤ income_part e)
      × (t'.1.minor ≡ t.1.minor +ℤ expense_part e)
unfolding recognize
recognize_step c e t t' r h q =
    grind (int_laws, add-Gives t.0 e.amount t'.0 r.0 h, add-Gives t.1 e.amount t'.1 r.1 h)

module _ (c : String) where
  recognize_all_step :
      (es : List CashflowEvent) (t t' : Money × Money)
      → Running c t
      → All IsAmount es
      → recognize_all es t ≡ ok t'
      → Running c t'
        × (t'.0.minor ≡ t.0.minor +ℤ sum income_part es)
        × (t'.1.minor ≡ t.1.minor +ℤ sum expense_part es)
  unfolding recognize_all
  recognize_all_step [] t t' r h q = grind int_laws
  recognize_all_step (e ∷ es) t t' r h q =
      let (t1, q1, q2) = passed (recognize e.type e.amount t) (recognize_all es) q in
      let s = recognize_step c e t t1 r h.0 q1 in
      let ih = recognize_all_step es t1 t' s.0 h.1 q2 in
      (ih.0, +ℤ_chain _ _ _ _ _ ih.1 s.1, +ℤ_chain _ _ _ _ _ ih.2 s.2)

-- A cashflow that is returned is exact, for `int64` amounts: its income is the sum of the income
-- events, its expense the sum of the expenses and refunds, its net the difference of the two, and
-- all three are `int64` amounts in the currency asked for.
pub cashflow_sums :
    (es : List CashflowEvent) (currency : String) (r : CashflowResult)
    → All IsAmount es
    → calculate_cashflow es currency ≡ ok r
    → (r.recognized_income.minor ≡ sum income_part es)
      × (r.recognized_expense.minor ≡ sum expense_part es)
      × (r.net_cashflow.minor ≡ sum income_part es -ℤ sum expense_part es)
      × IsInt64 r.net_cashflow.minor
      × (r.recognized_income.currency ≡ currency)
      × (r.recognized_expense.currency ≡ currency)
      × (r.net_cashflow.currency ≡ currency)
unfolding calculate_cashflow
cashflow_sums es currency r h q =
    let (t, q1, q2) = passed (recognize_all es (zero_money currency, zero_money currency)) _ q in
    let (n, q3, q4) = passed (sub t.0 t.1) _ q2 in
    let s =
      recognize_all_step currency es (zero_money currency, zero_money currency) t (ground arith) h
        q1 in
    let g = sub-Gives t.0 t.1 n s.0.0 s.0.1 q3 in grind (int_laws, s, g, q4)

-- What a valuation adds to the assets, and to the liabilities.
abbrev pub asset_part : Valuation → ℤ
asset_part v = elim v.kind [ ValuationKind.asset ↦ v.value.minor | _ ↦ pos 0 ]

abbrev pub liability_part : Valuation → ℤ
liability_part v = elim v.kind [ ValuationKind.liability ↦ v.value.minor | _ ↦ pos 0 ]

-- What every valuation of an accepted list satisfies.
abbrev pub IsValuation : Valuation → Type 0
IsValuation v = (pos 0 ≤ℤ v.value.minor) × (v.kind ≢ ValuationKind.unknown)

abbrev IsValue : Valuation → Type 0
IsValue v = IsInt64 v.value.minor

post_step :
    (c : String) (v : Valuation) (t t' : Money × Money)
    → Running c t
    → IsInt64 v.value.minor
    → post v.kind v.value t ≡ ok t'
    → Running c t'
      × (v.kind ≢ ValuationKind.unknown)
      × (t'.0.minor ≡ t.0.minor +ℤ asset_part v)
      × (t'.1.minor ≡ t.1.minor +ℤ liability_part v)
unfolding post
post_step c v t t' r h q =
    grind (int_laws, add-Gives t.0 v.value t'.0 r.0 h, add-Gives t.1 v.value t'.1 r.1 h)

module _ (c : String) where
  post_all_step :
      (vs : List Valuation) (t t' : Money × Money)
      → Running c t
      → All IsValue vs
      → post_all vs t ≡ ok t'
      → Running c t'
        × All IsValuation vs
        × (t'.0.minor ≡ t.0.minor +ℤ sum asset_part vs)
        × (t'.1.minor ≡ t.1.minor +ℤ sum liability_part vs)
  unfolding post_all
  post_all_step [] t t' r h q = grind int_laws
  post_all_step (v ∷ vs) t t' r h q = elim (Bool-cases (ltb_ℤ v.value.minor (pos 0))) [
    | inl negative ↦ absurd (ground arith)
    | inr e ↦
        let (t1, q1, q2) = passed (post v.kind v.value t) (post_all vs) (rw e at q) in
        let s = post_step c v t t1 r h.0 q1 in
        let ih = post_all_step vs t1 t' s.0 h.1 q2 in
        (
          ih.0,
          ((ground arith, s.1), ih.1),
          +ℤ_chain _ _ _ _ _ ih.2 s.2,
          +ℤ_chain _ _ _ _ _ ih.3 s.3,
        )
  ]

-- A net worth that is returned is exact, for `int64` values: no value was negative and no kind
-- unknown, the totals are the sums of the assets and of the liabilities, and the net worth is
-- their difference, in the currency asked for.
pub net_worth_sums :
    (vs : List Valuation) (currency : String) (r : NetWorthResult)
    → All IsValue vs
    → calculate_net_worth vs currency ≡ ok r
    → All IsValuation vs
      × (r.total_assets.minor ≡ sum asset_part vs)
      × (r.total_liabilities.minor ≡ sum liability_part vs)
      × (r.net_worth.minor ≡ sum asset_part vs -ℤ sum liability_part vs)
      × (r.net_worth.currency ≡ currency)
unfolding calculate_net_worth
net_worth_sums vs currency r h q =
    let (t, q1, q2) = passed (post_all vs (zero_money currency, zero_money currency)) _ q in
    let (n, q3, q4) = passed (sub t.0 t.1) _ q2 in
    let s =
      post_all_step currency vs (zero_money currency, zero_money currency) t (ground arith) h q1 in
    let g = sub-Gives t.0 t.1 n s.0.0 s.0.1 q3 in
    (
      s.1,
      grind (int_laws, s, g, q4),
      grind (int_laws, s, g, q4),
      grind (int_laws, s, g, q4),
      grind (int_laws, s, g, q4),
    )
