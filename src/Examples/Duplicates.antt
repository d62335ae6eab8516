-- ===== src/Examples/Duplicates.antt =====
-- Two payments that may be one, and a later one.
use family_finance_os.Prelude.{◌≡◌, refl, String, true, false, List, [], ◌∷◌, none}
use family_finance_os.Prelude.Int.{ℤ, pos, ◌-ℤ◌}
use family_finance_os.Ledger.{Transaction, TransactionType}
use family_finance_os.DataQuality.Duplicates.{duplicate_groups, default_duplicate_window}

abbrev same : String → String
same s = s

abbrev payment : String → ℤ → Transaction
payment id minute = record {
  id = id;
  time_sequence_id = "";
  type = TransactionType.expense;
  category_id = "food";
  occurred_at = minute;
  utc_offset_minutes = pos 0;
  source_account_id = "cash";
  destination_account_id = "";
  source_amount = record { minor = pos 500; currency = "CNY" };
  destination_amount = none;
  amount_hidden = false;
  comment = "lunch";
  editable = true;
}

abbrev payments : List Transaction
payments =
    payment "c" (pos 900_000_000_000)
    ∷ payment "b" (pos 200_000_000_000)
    ∷ payment "a" (pos 100_000_000_000)
    ∷ []

found :
    duplicate_groups same payments default_duplicate_window
    ≡ record {
      transaction_ids = "a" ∷ "b" ∷ [];
      type = TransactionType.expense;
      amount = record { minor = pos 500; currency = "CNY" };
      first_occurred_at = pos 100_000_000_000;
      last_occurred_at = pos 200_000_000_000;
    }
      ∷ []
unfolding duplicate_groups ◌-ℤ◌
found = refl

abbrev Shown : Transaction → Type 0
Shown tx = tx.amount_hidden ≡ false
