-- ===== src/Analytics/NetWorth.antt =====
-- internal/analytics/networth.go.
use family_finance_os.Prelude.{
  String, List, [], ◌∷◌, Result, ok, err, Error, ◌>>=◌, ◌>>◌, return_if,
}
use family_finance_os.Prelude.Int.{pos, ltb_ℤ}
use family_finance_os.Money.{Money, zero_money, add, sub}

pub data ValuationKind : Type 0 where
  unknown asset liability : ValuationKind

pub record Valuation : Type 0 where
  pub kind : ValuationKind
  pub value : Money

pub record NetWorthResult : Type 0 where
  pub total_assets : Money
  pub total_liabilities : Money
  pub net_worth : Money

-- The `switch` on the kind: the running assets and liabilities.
unfoldable pub post : ValuationKind → Money → Money × Money → Result (Money × Money)
post ValuationKind.asset value (assets, liabilities) = do
  assets' ← add assets value
  ok (assets', liabilities)
post ValuationKind.liability value (assets, liabilities) = do
  liabilities' ← add liabilities value
  ok (assets, liabilities')
post ValuationKind.unknown value totals = err Error.unknown_valuation_kind

unfoldable pub post_all : List Valuation → Money × Money → Result (Money × Money)
unfolding post
post_all [] totals = ok totals
post_all (valuation ∷ valuations) totals = do
  return_if (ltb_ℤ valuation.value.minor (pos 0)) Error.negative_valuation
  totals' ← post valuation.kind valuation.value totals
  post_all valuations totals'

unfoldable pub calculate_net_worth : List Valuation → String → Result NetWorthResult
unfolding post_all
calculate_net_worth valuations currency = do
  totals ← post_all valuations (zero_money currency, zero_money currency)
  net ← sub totals.0 totals.1
  ok (record { total_assets = totals.0; total_liabilities = totals.1; net_worth = net })
