-- ===== src/DataQuality/Groups.antt =====
-- internal/dataquality/analyzer.go: what a group of duplicates is.
use family_finance_os.Prelude.{◌≡◌, String, leb, true, List, length, All}
use family_finance_os.Prelude.Int.{pos, ◌≤ℤ◌}
use family_finance_os.Prelude.Time.{Time, Duration, sub_time}
use family_finance_os.Prelude.Text.{trim_space}
use family_finance_os.Prelude.Sort.{sort, str_less}
use family_finance_os.Ledger.{Transaction}
use family_finance_os.DataQuality.Duplicates.{
  DuplicateGroup, DuplicateSignature, same_signature, Run, ids_of, signature,
}
use family_finance_os.DataQuality.Signatures.{StartsAt, NotBefore}

module _ (to_lower : String → String) (window : Duration) (P : Transaction → Type 0) where
  abbrev HasSignature : DuplicateSignature → Transaction → Type 0
  HasSignature sig tx = same_signature (signature to_lower tx) sig ≡ true

  abbrev Fits : DuplicateSignature → Transaction → Type 0
  Fits sig tx = HasSignature sig tx × P tx

  -- The fields that a signature is made of.
  abbrev pub IsAlike : DuplicateSignature → Transaction → Type 0
  IsAlike sig tx =
      (tx.type ≡ sig.type_id)
      × (tx.category_id ≡ sig.category_id)
      × (tx.source_account_id ≡ sig.source_id)
      × (tx.destination_account_id ≡ sig.destination_id)
      × (tx.source_amount ≡ sig.source_amount)
      × (tx.destination_amount ≡ sig.destination_amount)
      × (to_lower (trim_space tx.comment) ≡ sig.comment)

  -- A group of at least two of the transactions, of one signature, none earlier than the first and
  -- none later than the window after it.
  pub record IsDuplicates (g : DuplicateGroup) : Type 0 where
    pub members : List Transaction
    pub common : DuplicateSignature
    pub ids : g.transaction_ids ≡ sort str_less (ids_of members)
    pub several : leb 2 (length members) ≡ true
    pub alike : All (IsAlike common) members
    pub first : StartsAt g.first_occurred_at members
    pub not_earlier : All (λ tx. g.first_occurred_at ≤ℤ tx.occurred_at) members
    pub near : All (λ tx. sub_time tx.occurred_at g.first_occurred_at ≤ℤ window) members
    pub given : All P members

  abbrev Alike : DuplicateSignature × List Transaction → Type 0
  Alike (sig, txs) = All (Fits sig) txs

  module _ (positive : pos 0 ≤ℤ window) (sig : DuplicateSignature) where
    abbrev InRun : Transaction → Transaction → Type 0
    InRun first tx =
        HasSignature sig tx
        × (sub_time tx.occurred_at first.occurred_at ≤ℤ window)
        × P tx
        × (first.occurred_at ≤ℤ tx.occurred_at)

    abbrev IsRun : Run → Type 0
    IsRun run = StartsAt run.first.occurred_at run.members × All (InRun run.first) run.members

    -- No run starts after one of the transactions that are left.
    abbrev Begun : List Transaction → Run → Type 0
    Begun txs run = All (NotBefore run.first.occurred_at) txs
