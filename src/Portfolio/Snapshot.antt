-- ===== src/Portfolio/Snapshot.antt =====
-- internal/portfolio/snapshot.go: which snapshots of assets are stored.
use family_finance_os.Prelude.{
  Bool, true, false, not, ◌&&◌, ◌||◌, String, ℕ, leb, ◌==◌, Option, none, some, Result, Error, ◌>>◌,
  return_if,
}
use family_finance_os.Prelude.Int.{ltb_ℤ, pos}
use family_finance_os.Prelude.Time.{Time, is_zero}
use family_finance_os.Prelude.Text.{str_eq, is_empty, trim_space, all_chars, char_count}
use family_finance_os.Money.{Money}
use family_finance_os.Portfolio.{AssetClass, valid_class}

pub data SnapshotSourceKind : Type 0 where
  manual imported : SnapshotSourceKind
  other_source : String → SnapshotSourceKind

pub record AssetSnapshot : Type 0 where
  pub asset_ref : String
  pub name : String
  pub class : AssetClass
  pub value : Money
  pub source_currency : String
  pub valuation_as_of : Time
  pub fx_as_of : Option Time
  pub source_account_ref : String
  pub source_kind : SnapshotSourceKind

unfoldable pub canonical_required_text : String → Bool
unfolding trim_space
canonical_required_text value = not (is_empty value) && str_eq value (trim_space value)

abbrev pub is_upper : ℕ → Bool
is_upper c = leb 65 c && leb c 90

unfoldable pub valid_currency_code : String → Bool
unfolding all_chars char_count
valid_currency_code value = char_count value == 3 && all_chars is_upper value

abbrev pub zero_fx : Option Time → Bool
zero_fx none = false
zero_fx (some t) = is_zero t

abbrev pub no_fx : Option Time → Bool
no_fx none = true
no_fx (some t) = false

abbrev pub valid_source : SnapshotSourceKind → Bool
valid_source (SnapshotSourceKind.other_source _) = false
valid_source _ = true

unfoldable pub validate_asset_snapshot : AssetSnapshot → Result (Unit {0})
unfolding canonical_required_text valid_currency_code
validate_asset_snapshot s = do
  return_if (not (canonical_required_text s.asset_ref) || not (canonical_required_text s.name))
      Error.invalid_asset_snapshot
  return_if (not (valid_class s.class) || ltb_ℤ s.value.minor (pos 0)) Error.invalid_asset_snapshot
  return_if
      (not (valid_currency_code s.value.currency) || not (valid_currency_code s.source_currency))
      Error.invalid_asset_snapshot
  return_if (is_zero s.valuation_as_of) Error.invalid_asset_snapshot
  return_if (zero_fx s.fx_as_of) Error.invalid_asset_snapshot
  return_if
      (not (is_empty s.source_account_ref) && not (canonical_required_text s.source_account_ref))
      Error.invalid_asset_snapshot
  return_if (not (valid_source s.source_kind)) Error.invalid_asset_snapshot
  return_if (not (str_eq s.source_currency s.value.currency) && no_fx s.fx_as_of)
      Error.invalid_asset_snapshot
