-- ===== src/DataQuality/Clean.antt =====
-- internal/dataquality/analyzer.go: what it means that transactions have no issues.
use family_finance_os.Prelude.{
  ◌≡◌, ◌∙◌, some-injective, refl, sym, ap, arith, ◌↔◌, String, true, false, List, [], ◌∷◌, ◌++◌,
  Option, none, some, All,
}
use mathlib.Core.Path.{subst}
use family_finance_os.Prelude.Text.{str_eq, trim_space}
use family_finance_os.Prelude.Eq.{Dict, lookup, string_eq}
use family_finance_os.Ledger.{Category, CategoryType, Transaction, TransactionType}
use family_finance_os.DataQuality.{
  Ids, Issue, IssueKind, transaction_issues, source_issues, category_issues, destination_issues,
  type_issues, issue_if, is_present, all_issues, category_matches_transaction,
}

-- The account is named and known.
abbrev IsKnown : String → Ids → Type 0
IsKnown id ids = (str_eq id "" ≡ false) × (lookup id ids ≡ some tt)

-- The category of an income or expense is named, known and of the transaction's type.
abbrev HasCategory : Transaction → Dict String Category → CategoryType → Type 0
HasCategory tx by_id type =
    (str_eq tx.category_id "" ≡ false)
    × ((category : Category) × (lookup tx.category_id by_id ≡ some category)
        × (category.type ≡ type))

abbrev FitsType : TransactionType → Transaction → Ids → Dict String Category → Type 0
FitsType TransactionType.income tx ids by_id = HasCategory tx by_id CategoryType.income
FitsType TransactionType.expense tx ids by_id = HasCategory tx by_id CategoryType.expense
FitsType TransactionType.transfer tx ids by_id = IsKnown tx.destination_account_id ids
FitsType _ tx ids by_id = Unit

pub record IsClean (tx : Transaction) (ids : Ids) (by_id : Dict String Category) : Type 0 where
  pub shown : tx.amount_hidden ≡ false
  pub has_currency : str_eq (trim_space tx.source_amount.currency) "" ≡ false
  pub source_known : IsKnown tx.source_account_id ids
  pub fits : FitsType tx.type tx ids by_id

append-empty : (xs ys : List Issue) → (xs ++ ys ≡ []) ↔ ((xs ≡ []) × (ys ≡ []))
append-empty [] ys = (λ h. (refl, h), λ h. h.1)
append-empty (x ∷ xs) ys = (λ h. absurd (cc h), λ h. absurd (cc (h.0)))

known : (o : Option (Unit {0})) → (is_present o ≡ true) ↔ (o ≡ some tt)
known none = ground arith
known (some tt) = ground arith

source_clean :
    (tx : Transaction) (ids : Ids) → (source_issues tx ids ≡ []) ↔ IsKnown tx.source_account_id ids
unfolding source_issues
source_clean tx ids = ground (arith, known (lookup tx.source_account_id ids))

destination_clean :
    (tx : Transaction) (ids : Ids)
    → (destination_issues tx ids ≡ []) ↔ IsKnown tx.destination_account_id ids
unfolding destination_issues
destination_clean tx ids = ground (arith, known (lookup tx.destination_account_id ids))

-- The issues of a category that is known, and of one that is not.
found_clean :
    (tx : Transaction) (o : Option Category) (type : CategoryType)
    → ((t : CategoryType) → (category_matches_transaction t tx.type ≡ true) ↔ (t ≡ type))
    → (category_issues o tx ≡ []) ↔ (
        (str_eq tx.category_id "" ≡ false)
        × ((category : Category) × (o ≡ some category) × (category.type ≡ type)))
found_clean tx none type h = (λ q. absurd (cc q), λ k. absurd (cc (k.1.1)))
found_clean tx (some c) type h = (
  λ q. (ground (arith, q), (c, refl, (h c.type).0 (ground (arith, q)))),
  λ k.
      ground
        (arith, k.0, (h c.type).1 (ap (λ (x : Category). x.type) (some-injective k.1.1) ∙ k.1.2)),
)

matches-income :
    (t : CategoryType)
    → (category_matches_transaction t TransactionType.income ≡ true) ↔ (t ≡ CategoryType.income)
unfolding category_matches_transaction
matches-income t = ground arith

matches-expense :
    (t : CategoryType)
    → (category_matches_transaction t TransactionType.expense ≡ true) ↔ (t ≡ CategoryType.expense)
unfolding category_matches_transaction
matches-expense t = ground arith

type_clean :
    (type : TransactionType) (tx : Transaction) (ids : Ids) (by_id : Dict String Category)
    → tx.type ≡ type
    → (type_issues type tx ids by_id ≡ []) ↔ FitsType type tx ids by_id
unfolding type_issues
type_clean TransactionType.income tx ids by_id e =
    found_clean tx (lookup tx.category_id by_id) CategoryType.income (
      subst
        (λ k.
          (t : CategoryType)
          → (category_matches_transaction t k ≡ true) ↔ (t ≡ CategoryType.income))
        (sym e) matches-income)
type_clean TransactionType.expense tx ids by_id e =
    found_clean tx (lookup tx.category_id by_id) CategoryType.expense (
      subst
        (λ k.
          (t : CategoryType)
          → (category_matches_transaction t k ≡ true) ↔ (t ≡ CategoryType.expense))
        (sym e) matches-expense)
type_clean TransactionType.transfer tx ids by_id e = destination_clean tx ids
type_clean TransactionType.balance_modification tx ids by_id e = (λ q. tt, λ q. refl)
type_clean TransactionType.unknown tx ids by_id e = (λ q. tt, λ q. refl)

hidden_clean :
    (tx : Transaction)
    → (issue_if tx.amount_hidden IssueKind.hidden_amount tx.id "" ≡ []) ↔ (tx.amount_hidden ≡ false)
hidden_clean tx = ground arith

currency_clean :
    (tx : Transaction)
    → (issue_if
          (str_eq (trim_space tx.source_amount.currency) "")
          IssueKind.missing_currency
          tx.id
          ""
        ≡ [])
      ↔ (str_eq (trim_space tx.source_amount.currency) "" ≡ false)
currency_clean tx = ground arith

transaction_issues-IsClean :
    (tx : Transaction) (ids : Ids) (by_id : Dict String Category)
    → (transaction_issues tx ids by_id ≡ []) ↔ IsClean tx ids by_id
unfolding transaction_issues
transaction_issues-IsClean tx ids by_id = (
  λ q.
      let a = (append-empty _ _).0 q in
      let b = (append-empty _ _).0 a.0 in
      let c = (append-empty _ _).0 b.0 in
      record {
        shown = (hidden_clean tx).0 c.0;
        has_currency = (currency_clean tx).0 c.1;
        source_known = (source_clean tx ids).0 b.1;
        fits = (type_clean tx.type tx ids by_id refl).0 a.1;
      },
  λ k.
      let a =
        (append-empty _ _).1 ((hidden_clean tx).1 k.shown, (currency_clean tx).1 k.has_currency) in
      let b = (append-empty _ _).1 (a, (source_clean tx ids).1 k.source_known) in
      (append-empty _ _).1 (b, (type_clean tx.type tx ids by_id refl).1 k.fits),
)

-- There are no issues exactly when every transaction is clean: its amount is shown, its currency
-- is named, its source account is named and known, and so is the category of an income or expense,
-- which has the transaction's type, and the destination account of a transfer.
pub all_issues-IsClean :
    (txs : List Transaction) (ids : Ids) (by_id : Dict String Category)
    → (all_issues txs ids by_id ≡ []) ↔ All (λ tx. IsClean tx ids by_id) txs
unfolding all_issues
all_issues-IsClean [] ids by_id = (λ q. tt, λ k. refl)
all_issues-IsClean (tx ∷ txs) ids by_id = (
  λ q.
      let a = (append-empty (transaction_issues tx ids by_id) (all_issues txs ids by_id)).0 q in
      ((transaction_issues-IsClean tx ids by_id).0 a.0, (all_issues-IsClean txs ids by_id).0 a.1),
  λ k.
      (append-empty (transaction_issues tx ids by_id) (all_issues txs ids by_id)).1
        ((transaction_issues-IsClean tx ids by_id).1 k.0, (all_issues-IsClean txs ids by_id).1 k.1),
)
