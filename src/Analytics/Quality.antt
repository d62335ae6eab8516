-- ===== src/Analytics/Quality.antt =====
-- internal/analytics/quality.go.
use family_finance_os.Prelude.{not, ◌&&◌, ◌||◌, if◌then◌else◌}
use family_finance_os.Prelude.Int.{pos, ltb_ℤ, eqb_ℤ}
use family_finance_os.Prelude.Time.{Time, Duration, is_zero, sub_time}
use family_finance_os.Money.{Money}

pub data QualityLevel : Type 0 where
  good partial stale : QualityLevel

pub record DataQuality : Type 0 where
  pub as_of : Time
  pub ledger_synced_at : Time
  pub unknown_amount : Money
  pub level : QualityLevel

unfoldable pub evaluate_data_quality : Time → Time → Money → Duration → DataQuality
evaluate_data_quality as_of synced_at unknown_amount stale_after = record {
  as_of = as_of;
  ledger_synced_at = synced_at;
  unknown_amount = unknown_amount;
  level =
      if is_zero synced_at
        || (ltb_ℤ (pos 0) stale_after && ltb_ℤ stale_after (sub_time as_of synced_at))
      then QualityLevel.stale
      else if not (eqb_ℤ unknown_amount.minor (pos 0))
      then QualityLevel.partial
      else QualityLevel.good;
}
