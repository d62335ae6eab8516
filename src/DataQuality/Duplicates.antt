-- ===== src/DataQuality/Duplicates.antt =====
-- internal/dataquality/analyzer.go: groups of transactions that may be duplicates, and the report. A
-- map of Go has no order; here it has the order in which its keys were written.
use family_finance_os.Prelude.{
  String, ℕ, leb, Bool, true, false, not, ◌&&◌, List, [], ◌∷◌, ◌++◌, length, Option, none, some,
  if◌then◌else◌,
}
use family_finance_os.Prelude.Int.{pos, leb_ℤ, eqb_ℤ}
use family_finance_os.Prelude.Time.{Time, Duration, before, sub_time}
use family_finance_os.Prelude.Text.{str_eq, trim_space}
use family_finance_os.Prelude.Sort.{sort, str_less}
use family_finance_os.Money.{Money}
use family_finance_os.Ledger.{Account, Category, Transaction, TransactionType}
use family_finance_os.DataQuality.{
  Issue, IssueKind, account_ids_from, category_by_id_from, all_issues,
}

pub data Quality : Type 0 where
  clean review : Quality

pub record DuplicateGroup : Type 0 where
  pub transaction_ids : List String
  pub type : TransactionType
  pub amount : Money
  pub first_occurred_at : Time
  pub last_occurred_at : Time

pub record Report : Type 0 where
  pub quality : Quality
  pub checked_transactions : ℕ
  pub issues : List Issue
  pub duplicate_groups : List DuplicateGroup

pub record DuplicateSignature : Type 0 where
  pub type_id : TransactionType
  pub category_id : String
  pub source_id : String
  pub destination_id : String
  pub source_amount : Money
  pub destination_amount : Option Money  -- three fields in the code
  pub comment : String

abbrev pub default_duplicate_window : Duration
default_duplicate_window = pos 300_000_000_000

abbrev pub same_type : TransactionType → TransactionType → Bool
same_type TransactionType.income TransactionType.income = true
same_type TransactionType.expense TransactionType.expense = true
same_type TransactionType.transfer TransactionType.transfer = true
same_type TransactionType.balance_modification TransactionType.balance_modification = true
same_type TransactionType.unknown TransactionType.unknown = true
same_type _ _ = false

abbrev pub equal_money : Money → Money → Bool
equal_money a b = eqb_ℤ a.minor b.minor && str_eq a.currency b.currency

abbrev pub equal_amount : Option Money → Option Money → Bool
equal_amount none none = true
equal_amount (some a) (some b) = equal_money a b
equal_amount _ _ = false

-- The equality of keys of `bySignature`.
unfoldable pub same_signature : DuplicateSignature → DuplicateSignature → Bool
same_signature a b =
    same_type a.type_id b.type_id
    && (str_eq a.category_id b.category_id
        && (str_eq a.source_id b.source_id
            && (str_eq a.destination_id b.destination_id
                && (equal_money a.source_amount b.source_amount
                    && (equal_amount a.destination_amount b.destination_amount
                        && str_eq a.comment b.comment)))))

abbrev pub has_signature : TransactionType → Bool
has_signature TransactionType.income = true
has_signature TransactionType.expense = true
has_signature TransactionType.transfer = true
has_signature _ = false

abbrev pub occurs_before : Transaction → Transaction → Bool
occurs_before a b =
    if not (eqb_ℤ a.occurred_at b.occurred_at)
    then before a.occurred_at b.occurred_at
    else str_less a.id b.id

-- The transactions from `start` to `end`.
pub record Run : Type 0 where
  pub first : Transaction
  pub last : Transaction
  pub members : List Transaction

abbrev pub new_run : Transaction → Run
new_run tx = record { first = tx; last = tx; members = tx ∷ [] }

abbrev pub extend : Run → Transaction → Run
extend run tx = record { first = run.first; last = tx; members = run.members ++ tx ∷ [] }

abbrev pub in_window : Duration → Transaction → Transaction → Bool
in_window window first tx = leb_ℤ (sub_time tx.occurred_at first.occurred_at) window

-- One transaction of the sorted ones: the head of the list is the run that it may belong to.
abbrev pub add_to_runs : Duration → Transaction → List Run → List Run
add_to_runs window tx [] = new_run tx ∷ []
add_to_runs window tx (run ∷ runs) =
    if in_window window run.first tx then extend run tx ∷ runs else new_run tx ∷ run ∷ runs

-- The two loops over the sorted transactions; the runs come out from the last to the first.
unfoldable pub runs_of : Duration → List Transaction → List Run → List Run
runs_of window [] runs = runs
runs_of window (tx ∷ txs) runs = runs_of window txs (add_to_runs window tx runs)

abbrev pub ids_of : List Transaction → List String
ids_of [] = []
ids_of (tx ∷ txs) = tx.id ∷ ids_of txs

abbrev pub group_of : Run → DuplicateGroup
group_of run = record {
  transaction_ids = sort str_less (ids_of run.members);
  type = run.first.type;
  amount = run.first.source_amount;
  first_occurred_at = run.first.occurred_at;
  last_occurred_at = run.last.occurred_at;
}

unfoldable pub groups_of : List Run → List DuplicateGroup → List DuplicateGroup
groups_of [] groups = groups
groups_of (run ∷ runs) groups =
    groups_of runs (if leb 2 (length run.members) then group_of run ∷ groups else groups)

abbrev pub first_id : List String → String
first_id [] = ""
first_id (id ∷ ids) = id

abbrev pub group_before : DuplicateGroup → DuplicateGroup → Bool
group_before a b =
    if not (eqb_ℤ a.first_occurred_at b.first_occurred_at)
    then before a.first_occurred_at b.first_occurred_at
    else str_less (first_id a.transaction_ids) (first_id b.transaction_ids)

abbrev pub kind_text : IssueKind → String
kind_text IssueKind.missing_source_account = "missing_source_account"
kind_text IssueKind.missing_destination_account = "missing_destination_account"
kind_text IssueKind.missing_category = "missing_category"
kind_text IssueKind.category_type_mismatch = "category_type_mismatch"
kind_text IssueKind.transfer_missing_destination = "transfer_missing_destination"
kind_text IssueKind.hidden_amount = "hidden_amount"
kind_text IssueKind.missing_currency = "missing_currency"

abbrev pub issue_before : Issue → Issue → Bool
issue_before a b =
    if not (str_eq a.transaction_id b.transaction_id)
    then str_less a.transaction_id b.transaction_id
    else if not (str_eq (kind_text a.kind) (kind_text b.kind))
    then str_less (kind_text a.kind) (kind_text b.kind)
    else str_less a.reference b.reference

abbrev pub nothing_found : List Issue → List DuplicateGroup → Bool
nothing_found [] [] = true
nothing_found _ _ = false

-- `options.DuplicateWindow`, or the default.
abbrev pub window_of : Duration → Duration
window_of window = if leb_ℤ window (pos 0) then default_duplicate_window else window

module _ (to_lower : String → String) where
  unfoldable pub signature : Transaction → DuplicateSignature
  unfolding trim_space
  signature tx = record {
    type_id = tx.type;
    category_id = tx.category_id;
    source_id = tx.source_account_id;
    destination_id = tx.destination_account_id;
    source_amount = tx.source_amount;
    destination_amount = tx.destination_amount;
    comment = to_lower (trim_space tx.comment);
  }

  -- `bySignature[sig] = append(bySignature[sig], tx)`
  abbrev pub append_at :
      DuplicateSignature
      → Transaction
      → List (DuplicateSignature × List Transaction)
      → List (DuplicateSignature × List Transaction)
  append_at sig tx [] = (sig, tx ∷ []) ∷ []
  append_at sig tx ((other, txs) ∷ rest) =
      if same_signature sig other
      then (other, txs ++ tx ∷ []) ∷ rest
      else (other, txs) ∷ append_at sig tx rest

  unfoldable pub by_signature :
      List Transaction
      → List (DuplicateSignature × List Transaction)
      → List (DuplicateSignature × List Transaction)
  unfolding same_signature signature
  by_signature [] found = found
  by_signature (tx ∷ txs) found =
      by_signature txs (if has_signature tx.type then append_at (signature tx) tx found else found)

  -- The groups of one signature, put before those of the others.
  abbrev pub groups_with : Duration → List Transaction → List DuplicateGroup
  groups_with window txs =
      if not (leb 2 (length txs))
      then []
      else groups_of (runs_of window (sort occurs_before txs) []) []

  unfoldable pub all_groups :
      Duration → List (DuplicateSignature × List Transaction) → List DuplicateGroup
  unfolding runs_of groups_of
  all_groups window [] = []
  all_groups window ((sig, txs) ∷ rest) = groups_with window txs ++ all_groups window rest

  unfoldable pub duplicate_groups : List Transaction → Duration → List DuplicateGroup
  unfolding by_signature all_groups
  duplicate_groups txs window = sort group_before (all_groups window (by_signature txs []))

  unfoldable pub analyze : List Account → List Category → List Transaction → Duration → Report
  unfolding account_ids_from category_by_id_from all_issues duplicate_groups
  analyze accounts categories txs duplicate_window =
      let issues =
        all_issues txs (account_ids_from accounts []) (category_by_id_from categories []) in
      let groups = duplicate_groups txs (window_of duplicate_window) in
      record {
        quality = if nothing_found issues groups then Quality.clean else Quality.review;
        checked_transactions = length txs;
        issues = sort issue_before issues;
        duplicate_groups = groups;
      }
