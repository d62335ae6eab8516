-- ===== src/Goals/Required.antt =====
-- service.go: the arithmetic of the required payment.
use family_finance_os.Prelude.{
  String, ◌≡◌, arith, ℕ, zero, suc, ◌+◌, ◌-◌, ◌*◌, ◌/◌, ◌%◌, ◌≤◌, ◌<◌, ◌^◌, ok, ltb, ◌==◌,
  Bool-cases, inl, inr,
}
use mathlib.Core.Path.{subst}
use native.Mathlib.Nat.{
  div-add-mod, mod-lt, mul_comm, le-mul_of_pos_right, lt_of_mul-lt-mul_right,
  le_of_mul-le-mul_right, div-mul-le_self, le-div_iff_mul-le,
}
use family_finance_os.Prelude.Int.{ℤ, pos}
use family_finance_os.Prelude.Word.{mul64_pos}
use family_finance_os.Money.{Money}
use family_finance_os.Goals.{required_minor, multiply_money}

-- The required payment, for a gap and months above zero, is the least that closes the gap.
pub required_minor_least :
    (gap months : ℕ)
    → gap < 2 ^ 63
    → 0 < months
    → (r : ℕ) × (required_minor (pos gap) (pos months) ≡ pos r)
      × (gap ≤ r * months)
      × ((s : ℕ) → gap ≤ s * months → r ≤ s)
unfolding required_minor
required_minor_least gap months h k =
    let e = div-add-mod gap months in
    let l = mod-lt gap k in
    let q = gap / months in
    elim (Bool-cases (gap % months == 0)) [
      | inl exact ↦ (
        q,
        ground arith,
        grind (arith, e),
        λ s p. le_of_mul-le-mul_right (omega (arith, div-mul-le_self gap months, p)) k,
      )
      | inr rest ↦
          let below : q * months < gap = ground (arith, e, rest, mul_comm months q) in
          let small : q + 1 < 2 ^ 63 = omega (arith, le-mul_of_pos_right q k) in
          (
            q + 1,
            ground (arith, rest, small),
            grind (arith, e, l),
            λ s p.
                let above : q < s = lt_of_mul-lt-mul_right months (omega (arith, below, p)) in
                omega (arith, above),
          )
    ]

-- A product that is returned, of an `int64` amount of zero or more by a count of zero or more, is
-- exact, an `int64`, and in the currency of the amount.
pub multiply_money-exact :
    (v count : ℕ) (c : String) (r : Money)
    → v < 2 ^ 63
    → multiply_money (record { minor = pos v; currency = c }) (pos count) ≡ ok r
    → (r.minor ≡ pos (v * count)) × (r.currency ≡ c) × (v * count < 2 ^ 63)
unfolding multiply_money
multiply_money-exact v zero c r h q = ground arith
multiply_money-exact zero (suc count) c r h q = ground arith
multiply_money-exact (suc v) (suc count) c r h q =
    elim (Bool-cases (ltb ((2 ^ 63 - 1) / suc v) (suc count))) [
      | inl over ↦ absurd (ground (arith, over))
      | inr fits ↦
          let m : suc count * suc v ≤ 2 ^ 63 - 1 =
            (le-div_iff_mul-le {k = suc v} {x = suc count} {y = 2 ^ 63 - 1} (omega arith)).0
              (ground (arith, fits)) in
          let small : suc v * suc count < 2 ^ 63 = omega (arith, m) in
          ground (arith, fits, mul64_pos (suc v) (suc count) small)
    ]

pub multiply_money-pos :
    (value : Money) (v count : ℕ) (r : Money)
    → value.minor ≡ pos v
    → v < 2 ^ 63
    → multiply_money value (pos count) ≡ ok r
    → (r.minor ≡ pos (v * count)) × (r.currency ≡ value.currency) × (v * count < 2 ^ 63)
multiply_money-pos value v count r e h q = multiply_money-exact v count value.currency r h (
    subst
      (λ (z : ℤ).
        multiply_money (record { minor = z; currency = value.currency }) (pos count) ≡ ok r)
      e q)
