-- ===== src/Debt/Decimal.antt =====
-- internal/debt/decimal.go, over the decimals of the package apd.
use family_finance_os.Prelude.{Bool, ◌≡◌, Result, ok, ◌>>=◌, if◌then◌else◌}
use family_finance_os.Prelude.Int.{ℤ, pos, ◌≤ℤ◌, ltb_ℤ}
use family_finance_os.Prelude.Word.{IsInt64}
use family_finance_os.Money.{add}

-- The part of `apd` that the package uses, in the context `debtContext` of 34 digits that rounds
-- half up. A failing operation is an `err`.
pub record Decimals : Type 1 where
  pub Decimal : Type 0
  pub from_int : ℤ → Decimal
  pub cmp : Decimal → Decimal → ℤ
  pub is_zero : Decimal → Bool
  pub plus : Decimal → Decimal → Result Decimal
  pub minus : Decimal → Decimal → Result Decimal
  pub mul : Decimal → Decimal → Result Decimal
  pub quo : Decimal → Decimal → Result Decimal
  pub quantize : Decimal → Result Decimal
  pub to_int64 : Decimal → Result ℤ

module _ (D : Decimals) where
  open D use {Decimal, from_int, cmp, mul, quo, quantize, to_int64}

  -- A decimal that does not compare below zero.
  abbrev pub IsNonneg : Decimal → Type 0
  IsNonneg d = pos 0 ≤ℤ cmp d (from_int (pos 0))

  -- What apd documents of these operations: a conversion to `int64` succeeds only in range, and
  -- signs are those of the exact results.
  pub record Laws : Type 0 where
    pub to_int64_range : (d : Decimal) (z : ℤ) → to_int64 d ≡ ok z → IsInt64 z
    pub to_int64_nonneg : (d : Decimal) (z : ℤ) → to_int64 d ≡ ok z → IsNonneg d → pos 0 ≤ℤ z
    pub from_int_nonneg : (z : ℤ) → pos 0 ≤ℤ z → IsNonneg (from_int z)
    pub quo_nonneg : (a b c : Decimal) → quo a b ≡ ok c → IsNonneg a → IsNonneg b → IsNonneg c
    pub quantize_nonneg : (a c : Decimal) → quantize a ≡ ok c → IsNonneg a → IsNonneg c

  unfoldable pub round_decimal_to_minor : Decimal → Result ℤ
  round_decimal_to_minor value = do rounded ← quantize value; to_int64 rounded

  unfoldable pub multiply_and_round_minor : ℤ → Decimal → Result ℤ
  unfolding round_decimal_to_minor
  multiply_and_round_minor minor rate = do
    value ← mul (from_int minor) rate
    round_decimal_to_minor value

  unfoldable pub divide_and_round_minor : ℤ → ℤ → Result ℤ
  unfolding round_decimal_to_minor
  divide_and_round_minor minor divisor = do
    value ← quo (from_int minor) (from_int divisor)
    round_decimal_to_minor value

unfoldable pub add_minor_checked : ℤ → ℤ → Result ℤ
add_minor_checked a b = do
  result ← add (record { minor = a; currency = "_" }) (record { minor = b; currency = "_" })
  ok result.minor

abbrev pub min_int : ℤ → ℤ → ℤ
min_int a b = if ltb_ℤ a b then a else b
