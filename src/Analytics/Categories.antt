-- ===== src/Analytics/Categories.antt =====
-- spending.go: the categories and the total.
use family_finance_os.Prelude.{
  ◌≡◌, refl, ap, ◌∙◌, arith, String, true, false, List, [], ◌∷◌, map, some, ok, passed,
  ok-injective, if◌then◌else◌, All, Bool-cases, Option-cases, inl, inr,
}
use mathlib.Core.Path.{subst}
use family_finance_os.Prelude.Int.{ℤ, pos, ◌+ℤ◌, int_laws, +ℤ_chain}
use family_finance_os.Prelude.Word.{IsInt64}
use family_finance_os.Prelude.Eq.{
  Dict, lookup, insert, IsMap, string_eq, total, total-insert_old, total-insert_new, lookup-insert,
}
use family_finance_os.Prelude.Keys.{keys, get, insert-IsMap, sum-keys}
use family_finance_os.Prelude.Sort.{sum, sort, str_less, sum-sort, sum-map}
use family_finance_os.Prelude.Text.{str_eq, eq_iff}
use family_finance_os.Money.{Money, zero_money, add}
use family_finance_os.Money.Exact.{add-Gives}
use family_finance_os.Analytics.{CashflowEvent}
use family_finance_os.Analytics.Totals.{expense_part, IsAmount}
use family_finance_os.Analytics.Spending.{
  SpendingCategoryTotal, SpendingResult, Tally, is_spending, current_amount, spend, spend_all,
  no_spending, category_total, aggregate_spending,
}

abbrev minor_of : Money → ℤ
minor_of m = m.minor

-- The stored amounts are `int64` values of the reporting currency.
abbrev Stored : String → Dict String Money → Type 0
Stored c d = All (λ (e : String × Money). IsInt64 e.1.minor × (e.1.currency ≡ c)) d

record Inv (c : String) (t : Tally) : Type 0 where
  total_bounded : IsInt64 t.total.minor
  total_currency : t.total.currency ≡ c
  is_map : IsMap t.amount_by_category
  stored : Stored c t.amount_by_category
  adds_up : total minor_of t.amount_by_category ≡ t.total.minor

lookup-Stored :
    (c id : String) (m : Money) (d : Dict String Money)
    → Stored c d
    → lookup id d ≡ some m
    → IsInt64 m.minor × (m.currency ≡ c)
lookup-Stored c id m [] h q = cc
lookup-Stored c id m ((k, v) ∷ d) h q = ground (arith, lookup-Stored c id m d h.1)

insert-Stored :
    (c id : String) (m : Money) (d : Dict String Money)
    → Stored c d
    → IsInt64 m.minor × (m.currency ≡ c)
    → Stored c (insert id m d)
insert-Stored c id m [] h q = (q, tt)
insert-Stored c id m ((k, v) ∷ d) h q = ground (arith, insert-Stored c id m d h.1 q)

current_amount_lem :
    (c id : String) (d : Dict String Money) (m : Money)
    → Stored c d
    → (IsInt64 (current_amount c id d).minor)
      × ((current_amount c id d).currency ≡ c)
      × (total minor_of (insert id m d) +ℤ (current_amount c id d).minor
          ≡ total minor_of d +ℤ m.minor)
current_amount_lem c id d m h = elim (Option-cases (lookup id d)) [
  | inl e ↦ rw e (grind (int_laws, total-insert_new minor_of id m d e))
  | inr (old, e) ↦ rw e (
      grind (
        int_laws,
        total-insert_old minor_of id m old d e,
        lookup-Stored c id old d h e,
        eq_iff old.currency "",
      ))
]

moved : (d' d t s cur m x : ℤ) → d' +ℤ cur ≡ d +ℤ m → d ≡ t → s ≡ t +ℤ x → m ≡ cur +ℤ x → d' ≡ s
moved d' d t s cur m x h1 h2 h3 h4 = grind int_laws

spend-Inv :
    (c : String) (e : CashflowEvent) (t t' : Tally)
    → Inv c t
    → IsAmount e
    → spend e c t ≡ ok t'
    → Inv c t' × (t'.total.minor ≡ t.total.minor +ℤ e.amount.minor)
unfolding spend
spend-Inv c e t t' i h q =
    let (s, q1, q2) = passed (add t.total e.amount) _ q in
    let cur = current_amount c e.category_id t.amount_by_category in
    let (m, q3, q4) = passed (add cur e.amount) _ q2 in
    let l = current_amount_lem c e.category_id t.amount_by_category m i.stored in
    let g = add-Gives t.total e.amount s i.total_bounded h q1 in
    let k = add-Gives cur e.amount m l.0 h q3 in
    subst (λ x. Inv c x × (x.total.minor ≡ t.total.minor +ℤ e.amount.minor)) (ok-injective q4)
      (
        record {
          total_bounded = g.bounded;
          total_currency = g.currency ∙ i.total_currency;
          is_map = insert-IsMap e.category_id m t.amount_by_category i.is_map;
          stored =
              insert-Stored c e.category_id m t.amount_by_category i.stored
                (k.bounded, k.currency ∙ l.1);
          adds_up = moved _ _ _ _ _ _ _ l.2 i.adds_up g.minor k.minor;
        },
        g.minor,
      )

-- What an event adds to one category.
abbrev pub part_of : String → CashflowEvent → ℤ
part_of id e = if str_eq id e.category_id then expense_part e else pos 0

abbrev amount_of : String → Dict String Money → ℤ
amount_of id d = (get (zero_money "") id d).minor

current_amount-minor :
    (c id : String) (d : Dict String Money) → (current_amount c id d).minor ≡ amount_of id d
current_amount-minor c id d = ground arith

amount_of-insert :
    (id k : String) (m : Money) (x : ℤ) (d : Dict String Money)
    → m.minor ≡ amount_of k d +ℤ x
    → amount_of id (insert k m d) ≡ amount_of id d +ℤ (if str_eq id k then x else pos 0)
amount_of-insert id k m x d h =
    rw (lookup-insert k id m d, amount_of)
      (elim (Bool-cases (str_eq id k)) [
        | inl same ↦ rw (same, (eq_iff id k).0 same) h
        | inr other ↦ rw other (omega int_laws)
      ])

spend-amount :
    (c id : String) (e : CashflowEvent) (t t' : Tally)
    → Inv c t
    → IsAmount e
    → spend e c t ≡ ok t'
    → amount_of id t'.amount_by_category
      ≡ amount_of id t.amount_by_category
        +ℤ (if str_eq id e.category_id then e.amount.minor else pos 0)
unfolding spend
spend-amount c id e t t' i h q =
    let (s, q1, q2) = passed (add t.total e.amount) _ q in
    let cur = current_amount c e.category_id t.amount_by_category in
    let (m, q3, q4) = passed (add cur e.amount) _ q2 in
    let l = current_amount_lem c e.category_id t.amount_by_category m i.stored in
    let k = add-Gives cur e.amount m l.0 h q3 in
    subst
      (λ (x : Tally).
        amount_of id x.amount_by_category
        ≡ amount_of id t.amount_by_category
          +ℤ (if str_eq id e.category_id then e.amount.minor else pos 0))
      (ok-injective q4)
      (amount_of-insert id e.category_id m e.amount.minor t.amount_by_category (
        k.minor
        ∙ ap (λ (z : ℤ). z +ℤ e.amount.minor)
            (current_amount-minor c e.category_id t.amount_by_category)))

module _ (c : String) (measure : Tally → ℤ) (part : CashflowEvent → ℤ)
    (idle : (e : CashflowEvent) → is_spending e.type ≡ false → part e ≡ pos 0)
    (step : (e : CashflowEvent) (t t' : Tally)
      → Inv c t
      → IsAmount e
      → is_spending e.type ≡ true
      → spend e c t ≡ ok t'
      → measure t' ≡ measure t +ℤ part e) where
  -- What one event adds to a measure, the loop adds up.
  spend_all-Inv :
      (es : List CashflowEvent) (t t' : Tally)
      → Inv c t
      → All IsAmount es
      → spend_all es c t ≡ ok t'
      → Inv c t' × (measure t' ≡ measure t +ℤ sum part es)
  unfolding spend_all
  spend_all-Inv [] t t' i h q =
      subst (λ x. Inv c x × (measure x ≡ measure t +ℤ pos 0)) (ok-injective q) (i, omega int_laws)
  spend_all-Inv (e ∷ es) t t' i h q = elim (Bool-cases (is_spending e.type)) [
    | inl spent ↦
        let (t1, q1, q2) = passed (spend e c t) _ (rw spent at q) in
        let s = spend-Inv c e t t1 i h.0 q1 in
        let ih = spend_all-Inv es t1 t' s.0 h.1 q2 in
        (ih.0, +ℤ_chain _ _ _ _ _ ih.1 (step e t t1 i h.0 spent q1))
    | inr skipped ↦
        let ih = spend_all-Inv es t t' i h.1 (rw skipped at q) in
        (ih.0, +ℤ_chain _ _ _ _ _ ih.1 (rw (idle e skipped) (omega int_laws)))
  ]

expense_part-idle : (e : CashflowEvent) → is_spending e.type ≡ false → expense_part e ≡ pos 0
expense_part-idle e h = ground arith

expense_part-spent :
    (e : CashflowEvent) → is_spending e.type ≡ true → expense_part e ≡ e.amount.minor
expense_part-spent e h = ground arith

part_of-idle : (id : String) (e : CashflowEvent) → is_spending e.type ≡ false → part_of id e ≡ pos 0
part_of-idle id e h = ground (arith, expense_part-idle e h)

module _ (es : List CashflowEvent) (c : String) (t : Tally) (amounts : All IsAmount es)
    (run : spend_all es c (no_spending c) ≡ ok t) where
  start : Inv c (no_spending c)
  start = record {
    total_bounded = ground arith;
    total_currency = refl;
    is_map = tt;
    stored = tt;
    adds_up = refl;
  }

  -- The loop's total is the sum of the expenses and refunds.
  tally-total : Inv c t × (t.total.minor ≡ sum expense_part es)
  tally-total =
      let h =
        spend_all-Inv c (λ x. x.total.minor) expense_part expense_part-idle
          (λ e t t' i k s q. rw (expense_part-spent e s) (spend-Inv c e t t' i k q).1) es
          (no_spending c) t start amounts run in
      (h.0, h.1 ∙ omega int_laws)

  -- The loop's amount of a category is the sum of that category's events.
  tally-amount : (id : String) → amount_of id t.amount_by_category ≡ sum (part_of id) es
  tally-amount id =
      let h =
        spend_all-Inv c (λ x. amount_of id x.amount_by_category) (part_of id) (part_of-idle id)
          (λ e t t' i k s q. rw (expense_part-spent e s) (spend-amount c id e t t' i k q)) es
          (no_spending c) t start amounts run in
      h.1 ∙ omega int_laws

  -- The categories of the report add up.
  categories-sum :
      sum
        (λ (x : SpendingCategoryTotal). x.amount.minor)
        (map (category_total t) (sort str_less (keys t.amount_by_category)))
      ≡ t.total.minor
  categories-sum =
      sum-map (λ (x : SpendingCategoryTotal). x.amount.minor) (category_total t)
        (sort str_less (keys t.amount_by_category))
      ∙ sum-sort str_less (λ id. amount_of id t.amount_by_category) (keys t.amount_by_category)
      ∙ sum-keys minor_of (zero_money "") t.amount_by_category tally-total.0.is_map
      ∙ tally-total.0.adds_up

  categories-exact :
      (ids : List String)
      → All
          (λ (x : SpendingCategoryTotal). x.amount.minor ≡ sum (part_of x.category_id) es)
          (map (category_total t) ids)
  categories-exact [] = tt
  categories-exact (id ∷ ids) = (tally-amount id, categories-exact ids)

-- A spending report that is returned is exact, for `int64` amounts: its total is the sum of the
-- expenses and refunds, its categories add up to the total, and the amount of each category is the
-- sum of the expenses and refunds with that category.
pub spending_adds_up :
    (es : List CashflowEvent) (currency : String) (r : SpendingResult)
    → All IsAmount es
    → aggregate_spending es currency ≡ ok r
    → (r.total.minor ≡ sum expense_part es)
      × (sum (λ (x : SpendingCategoryTotal). x.amount.minor) r.categories ≡ r.total.minor)
      × All
          (λ (x : SpendingCategoryTotal). x.amount.minor ≡ sum (part_of x.category_id) es)
          r.categories
unfolding aggregate_spending
spending_adds_up es currency r h q =
    let (t, q1, q2) = passed (spend_all es currency (no_spending currency)) _ q in
    let ids = sort str_less (keys t.amount_by_category) in
    subst
      (λ (x : SpendingResult).
        (x.total.minor ≡ sum expense_part es)
        × (sum (λ (x : SpendingCategoryTotal). x.amount.minor) x.categories ≡ x.total.minor)
        × All (λ (x : SpendingCategoryTotal). x.amount.minor ≡ sum (part_of x.category_id) es)
            x.categories)
      (ok-injective q2)
      (
        (tally-total es currency t h q1).1,
        categories-sum es currency t h q1,
        categories-exact es currency t h q1 ids,
      )
