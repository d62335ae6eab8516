-- ===== src/Money/Exact.antt =====
-- money.go: the checked operations against sums and differences.
use family_finance_os.Prelude.{◌≡◌, arith, Result, ok, err, Error, if◌then◌else◌, ◌^◌}
use family_finance_os.Prelude.{Bool-cases, true, inl, inr, Bool, not, ◌&&◌, ltb, leb}
use family_finance_os.Prelude.Int.{ℤ, pos_part, neg_part, ◌+ℤ◌, ◌-ℤ◌}
use family_finance_os.Prelude.Word.{IsInt64, add64, sub64, add64_exact, sub64_exact}
use family_finance_os.Prelude.Text.{str_eq, eq_iff}
use family_finance_os.Money.{Money, add, sub, add_overflows, sub_overflows}

-- Whether an integer is a value of `int64`.
abbrev in_int64 : ℤ → Bool
in_int64 z = ltb (pos_part z) (2 ^ 63) && leb (neg_part z) (2 ^ 63)

add_overflows_lem : (a b : ℤ) → IsInt64 a → IsInt64 b → add_overflows a b ≡ not (in_int64 (a +ℤ b))
unfolding ◌+ℤ◌ sub64
add_overflows_lem a b h k = ground arith

sub_overflows_lem : (a b : ℤ) → IsInt64 a → IsInt64 b → sub_overflows a b ≡ not (in_int64 (a -ℤ b))
unfolding ◌-ℤ◌ add64
sub_overflows_lem a b h k = ground arith

in_int64-IsInt64 : (z : ℤ) → in_int64 z ≡ true → IsInt64 z
in_int64-IsInt64 z h = ground arith

-- What an exact operation returns: the number if it is an `int64`, and an overflow if not.
abbrev pub exactly : ℤ → Money → Money → Result Money
exactly z m o =
    if not (str_eq m.currency o.currency)
    then err Error.currency_mismatch
    else if in_int64 z
    then ok (record { minor = z; currency = m.currency })
    else err Error.overflow

-- On `int64` amounts, `Add` is the exact sum: it fails with a currency mismatch exactly when the
-- currencies differ, otherwise with an overflow exactly when the sum is no `int64`, and otherwise
-- returns the sum in the common currency.
pub add-exactly :
    (m o : Money) → IsInt64 m.minor → IsInt64 o.minor → add m o ≡ exactly (m.minor +ℤ o.minor) m o
unfolding add
add-exactly m o h k = elim (Bool-cases (in_int64 (m.minor +ℤ o.minor))) [
  | inl e ↦ ground (
    arith,
    add_overflows_lem m.minor o.minor h k,
    e,
    add64_exact m.minor o.minor (in_int64-IsInt64 _ e),
  )
  | inr e ↦ ground (arith, add_overflows_lem m.minor o.minor h k, e)
]

-- On `int64` amounts, `Sub` is the exact difference: it fails with a currency mismatch exactly when
-- the currencies differ, otherwise with an overflow exactly when the difference is no `int64`, and
-- otherwise returns the difference in the common currency.
pub sub-exactly :
    (m o : Money) → IsInt64 m.minor → IsInt64 o.minor → sub m o ≡ exactly (m.minor -ℤ o.minor) m o
unfolding sub
sub-exactly m o h k = elim (Bool-cases (in_int64 (m.minor -ℤ o.minor))) [
  | inl e ↦ ground (
    arith,
    sub_overflows_lem m.minor o.minor h k,
    e,
    sub64_exact m.minor o.minor (in_int64-IsInt64 _ e),
  )
  | inr e ↦ ground (arith, sub_overflows_lem m.minor o.minor h k, e)
]

-- What a result of an exact operation says.
pub record Gives (z : ℤ) (m o r : Money) : Type 0 where
  pub minor : r.minor ≡ z
  pub currency : r.currency ≡ m.currency
  pub same : m.currency ≡ o.currency
  pub bounded : IsInt64 r.minor

exactly-Gives : (z : ℤ) (m o r : Money) → exactly z m o ≡ ok r → Gives z m o r
exactly-Gives z m o r h = ground (arith, eq_iff m.currency o.currency)

pub add-Gives :
    (m o r : Money)
    → IsInt64 m.minor
    → IsInt64 o.minor
    → add m o ≡ ok r
    → Gives (m.minor +ℤ o.minor) m o r
add-Gives m o r h k e = exactly-Gives _ m o r (rw (add-exactly m o h k) at e)

pub sub-Gives :
    (m o r : Money)
    → IsInt64 m.minor
    → IsInt64 o.minor
    → sub m o ≡ ok r
    → Gives (m.minor -ℤ o.minor) m o r
sub-Gives m o r h k e = exactly-Gives _ m o r (rw (sub-exactly m o h k) at e)
