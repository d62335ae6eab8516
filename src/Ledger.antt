-- ===== src/Ledger.antt =====
-- internal/ledger/models.go: what the external ledger hands over.
use family_finance_os.Prelude.{String, Bool, Option}
use family_finance_os.Prelude.Int.{ℤ}
use family_finance_os.Prelude.Time.{Time}
use family_finance_os.Money.{Money}

pub data AccountCategory : Type 0 where
  unknown cash checking credit_card virtual debt receivables investment savings : AccountCategory
  certificate_of_deposit : AccountCategory

pub data AccountStructure : Type 0 where
  unknown single multiple_sub_accounts : AccountStructure

pub data CategoryType : Type 0 where
  unknown income expense transfer : CategoryType

pub data TransactionType : Type 0 where
  unknown balance_modification income expense transfer : TransactionType

pub record Account : Type 0 where
  pub id : String
  pub name : String
  pub parent_id : String
  pub category : AccountCategory
  pub structure : AccountStructure
  pub balance : Money
  pub is_asset : Bool
  pub is_liability : Bool
  pub hidden : Bool

pub record Category : Type 0 where
  pub id : String
  pub name : String
  pub parent_id : String
  pub type : CategoryType
  pub hidden : Bool

pub record Transaction : Type 0 where
  pub id : String
  pub time_sequence_id : String
  pub type : TransactionType
  pub category_id : String
  pub occurred_at : Time
  pub utc_offset_minutes : ℤ
  pub source_account_id : String
  pub destination_account_id : String
  pub source_amount : Money
  pub destination_amount : Option Money
  pub amount_hidden : Bool
  pub comment : String
  pub editable : Bool
