-- ===== src/DataQuality.antt =====
-- internal/dataquality/analyzer.go: the issues of transactions. Duplicates has the groups and the report.
pub mod Clean
pub mod Duplicates
pub mod Signatures
pub mod Groups
use family_finance_os.Prelude.{
  String, Bool, true, false, not, ◌&&◌, ◌||◌, List, [], ◌∷◌, ◌++◌, Option, none, some,
  if◌then◌else◌,
}
use family_finance_os.Prelude.Text.{str_eq, trim_space}
use family_finance_os.Prelude.Eq.{Dict, lookup, insert, string_eq}
use family_finance_os.Ledger.{Account, Category, CategoryType, Transaction, TransactionType}

pub data IssueKind : Type 0 where
  missing_source_account missing_destination_account missing_category : IssueKind
  category_type_mismatch transfer_missing_destination hidden_amount : IssueKind
  missing_currency : IssueKind

pub record Issue : Type 0 where
  pub kind : IssueKind
  pub transaction_id : String
  pub reference : String

abbrev pub Ids : Type 0
Ids = Dict String (Unit {0})

-- The loops of `Analyze` that collect the accounts and the categories.
unfoldable pub account_ids_from : List Account → Ids → Ids
account_ids_from [] ids = ids
account_ids_from (account ∷ accounts) ids =
    account_ids_from accounts
      (if not (str_eq (trim_space account.id) "") then insert account.id tt ids else ids)

unfoldable pub category_by_id_from : List Category → Dict String Category → Dict String Category
category_by_id_from [] by_id = by_id
category_by_id_from (category ∷ categories) by_id =
    category_by_id_from categories (
      if not (str_eq (trim_space category.id) "") then insert category.id category by_id else by_id)

unfoldable pub category_matches_transaction : CategoryType → TransactionType → Bool
category_matches_transaction CategoryType.income TransactionType.income = true
category_matches_transaction _ TransactionType.income = false
category_matches_transaction CategoryType.expense TransactionType.expense = true
category_matches_transaction _ TransactionType.expense = false
category_matches_transaction _ _ = true

abbrev pub issue_if : Bool → IssueKind → String → String → List Issue
issue_if test kind id reference =
    if test then record { kind = kind; transaction_id = id; reference = reference } ∷ [] else []

abbrev pub is_present : Option (Unit {0}) → Bool
is_present none = false
is_present (some x) = true

unfoldable pub source_issues : Transaction → Ids → List Issue
source_issues tx account_ids =
    if str_eq tx.source_account_id ""
    then issue_if true IssueKind.missing_source_account tx.id ""
    else issue_if (not (is_present (lookup tx.source_account_id account_ids)))
        IssueKind.missing_source_account tx.id tx.source_account_id

-- The category found for the transaction.
abbrev pub category_issues : Option Category → Transaction → List Issue
category_issues none tx = issue_if true IssueKind.missing_category tx.id tx.category_id
category_issues (some category) tx =
    if str_eq tx.category_id ""
    then issue_if true IssueKind.missing_category tx.id tx.category_id
    else issue_if (not (category_matches_transaction category.type tx.type))
        IssueKind.category_type_mismatch tx.id tx.category_id

unfoldable pub destination_issues : Transaction → Ids → List Issue
destination_issues tx account_ids =
    if str_eq tx.destination_account_id ""
    then issue_if true IssueKind.transfer_missing_destination tx.id ""
    else issue_if (not (is_present (lookup tx.destination_account_id account_ids)))
        IssueKind.missing_destination_account tx.id tx.destination_account_id

-- The `switch` on the type.
unfoldable pub type_issues : TransactionType → Transaction → Ids → Dict String Category → List Issue
unfolding category_matches_transaction destination_issues
type_issues TransactionType.income tx ids by_id = category_issues (lookup tx.category_id by_id) tx
type_issues TransactionType.expense tx ids by_id = category_issues (lookup tx.category_id by_id) tx
type_issues TransactionType.transfer tx ids by_id = destination_issues tx ids
type_issues _ tx ids by_id = []

unfoldable pub transaction_issues : Transaction → Ids → Dict String Category → List Issue
unfolding source_issues type_issues
transaction_issues tx account_ids category_by_id =
    issue_if tx.amount_hidden IssueKind.hidden_amount tx.id ""
    ++ issue_if (str_eq (trim_space tx.source_amount.currency) "") IssueKind.missing_currency tx.id
        ""
    ++ source_issues tx account_ids
    ++ type_issues tx.type tx account_ids category_by_id

-- `report.Issues` before it is sorted.
unfoldable pub all_issues : List Transaction → Ids → Dict String Category → List Issue
unfolding transaction_issues
all_issues [] ids by_id = []
all_issues (tx ∷ txs) ids by_id = transaction_issues tx ids by_id ++ all_issues txs ids by_id
