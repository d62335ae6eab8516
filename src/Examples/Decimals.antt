-- ===== src/Examples/Decimals.antt =====
-- Decimals with four places, which keep the laws assumed of apd.
use family_finance_os.Prelude.{
  ◌≡◌, arith, ℕ, zero, suc, ◌+◌, ◌*◌, ◌/◌, ◌^◌, ltb, Result, ok, err, Error, if◌then◌else◌,
}
use family_finance_os.Prelude.Int.{ℤ, pos, negsuc, ◌+ℤ◌, ◌-ℤ◌, ◌≤ℤ◌, eqb_ℤ, int_laws}
use family_finance_os.Prelude.Word.{IsInt64}
use family_finance_os.Debt.Decimal.{Decimals, Laws, IsNonneg}
use family_finance_os.Debt.Order.{CmpLaws}

unfoldable pub scaled_quo : ℤ → ℤ → Result ℤ
scaled_quo a (pos zero) = err Error.decimal
scaled_quo (pos a) (pos b) = ok (pos (a * 10000 / b))
scaled_quo (pos a) (negsuc b) = ok (pos 0 -ℤ pos (a * 10000 / suc b))
scaled_quo (negsuc a) (pos b) = ok (pos 0 -ℤ pos (suc a * 10000 / b))
scaled_quo (negsuc a) (negsuc b) = ok (pos (suc a * 10000 / suc b))

unfoldable pub scaled_mul : ℤ → ℤ → Result ℤ
scaled_mul (pos a) (pos b) = ok (pos (a * b / 10000))
scaled_mul (pos a) (negsuc b) = ok (pos 0 -ℤ pos (a * suc b / 10000))
scaled_mul (negsuc a) (pos b) = ok (pos 0 -ℤ pos (suc a * b / 10000))
scaled_mul (negsuc a) (negsuc b) = ok (pos (suc a * suc b / 10000))

-- Half up, away from zero.
unfoldable pub scaled_quantize : ℤ → Result ℤ
scaled_quantize (pos a) = ok (pos ((a + 5000) / 10000 * 10000))
scaled_quantize (negsuc a) = ok (pos 0 -ℤ pos ((suc a + 5000) / 10000 * 10000))

unfoldable pub scaled_int64 : ℤ → Result ℤ
scaled_int64 (pos a) = if ltb (a / 10000) (2 ^ 63) then ok (pos (a / 10000)) else err Error.decimal
scaled_int64 (negsuc a) =
    if ltb (suc a / 10000) (2 ^ 63) then ok (pos 0 -ℤ pos (suc a / 10000)) else err Error.decimal

unfoldable pub scale : ℤ → ℤ
scale (pos a) = pos (a * 10000)
scale (negsuc a) = pos 0 -ℤ pos (suc a * 10000)

abbrev pub four_places : Decimals
four_places = record {
  Decimal = ℤ;
  from_int = scale;
  cmp = λ a b. a -ℤ b;
  is_zero = λ a. eqb_ℤ a (pos 0);
  plus = λ a b. ok (a +ℤ b);
  minus = λ a b. ok (a -ℤ b);
  mul = scaled_mul;
  quo = scaled_quo;
  quantize = scaled_quantize;
  to_int64 = scaled_int64;
}

scaled_int64-IsInt64 : (a z : ℤ) → scaled_int64 a ≡ ok z → IsInt64 z
unfolding scaled_int64 ◌-ℤ◌
scaled_int64-IsInt64 (pos a) z q = ground arith
scaled_int64-IsInt64 (negsuc a) z q = ground arith

not_negative : (a : ℕ) → ¬ (pos 0 ≤ℤ (negsuc a -ℤ pos 0))
not_negative a h = omega (int_laws, h)

scaled_int64-IsNonneg : (a z : ℤ) → scaled_int64 a ≡ ok z → IsNonneg four_places a → pos 0 ≤ℤ z
unfolding scaled_int64 scale ◌-ℤ◌
scaled_int64-IsNonneg (pos a) z q h = ground arith
scaled_int64-IsNonneg (negsuc a) z q h = absurd (not_negative a h)

scale-IsNonneg : (a : ℤ) → pos 0 ≤ℤ a → IsNonneg four_places (scale a)
unfolding scale ◌-ℤ◌
scale-IsNonneg (pos a) h = ground arith
scale-IsNonneg (negsuc a) h = absurd (omega (arith, h))

scaled_quo-IsNonneg :
    (a b c : ℤ)
    → scaled_quo a b ≡ ok c
    → IsNonneg four_places a
    → IsNonneg four_places b
    → IsNonneg four_places c
unfolding scaled_quo scale ◌-ℤ◌
scaled_quo-IsNonneg a (pos zero) c q h k = cc
scaled_quo-IsNonneg (pos a) (pos (suc b)) c q h k = ground arith
scaled_quo-IsNonneg (pos a) (negsuc b) c q h k = absurd (not_negative b k)
scaled_quo-IsNonneg (negsuc a) (pos (suc b)) c q h k = absurd (not_negative a h)
scaled_quo-IsNonneg (negsuc a) (negsuc b) c q h k = absurd (not_negative a h)

scaled_quantize-IsNonneg :
    (a c : ℤ) → scaled_quantize a ≡ ok c → IsNonneg four_places a → IsNonneg four_places c
unfolding scaled_quantize scale ◌-ℤ◌
scaled_quantize-IsNonneg (pos a) c q h = ground arith
scaled_quantize-IsNonneg (negsuc a) c q h = absurd (not_negative a h)

pub four_places-Laws : Laws four_places
four_places-Laws = record {
  to_int64_range = scaled_int64-IsInt64;
  to_int64_nonneg = scaled_int64-IsNonneg;
  from_int_nonneg = scale-IsNonneg;
  quo_nonneg = scaled_quo-IsNonneg;
  quantize_nonneg = scaled_quantize-IsNonneg;
}

swapped : (a b : ℤ) → a -ℤ b ≡ pos 0 -ℤ (b -ℤ a)
swapped a b = omega int_laws

pub four_places-CmpLaws : CmpLaws four_places
four_places-CmpLaws = record { cmp_swap = swapped }
