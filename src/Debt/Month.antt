-- ===== src/Debt/Month.antt =====
-- simulator.go and amortization.go: one simulated month.
use family_finance_os.Prelude.{
  ◌≡◌, refl, arith, not, ◌&&◌, Option, none, some, ok, passed, bind_ok, ok-injective, Bool-cases,
  inl, inr, ◌⊎◌,
}
use mathlib.Core.Path.{subst}
use family_finance_os.Prelude.Int.{ℤ, pos, ◌+ℤ◌, ◌-ℤ◌, ◌≤ℤ◌, ◌<ℤ◌, ltb_ℤ, leb_ℤ, eqb_ℤ, int_laws}
use family_finance_os.Prelude.Word.{IsInt64, sub64, sub64_exact}
use family_finance_os.Money.{Money, add}
use family_finance_os.Money.Exact.{add-Gives}
use family_finance_os.Debt.{DebtContract, DebtPayment, DebtRepaymentType}
use family_finance_os.Debt.Decimal.{
  Decimals, Laws, multiply_and_round_minor, round_decimal_to_minor, min_int, add_minor_checked,
}
use family_finance_os.Debt.Amortization.{
  amounts_of, scheduled_amounts, configured_amounts, with_payment,
}
use family_finance_os.Debt.Simulator.{extra_of, fee_of, simulate_month, money}

-- Between zero and a bound.
abbrev Within : ℤ → ℤ → Type 0
Within z bound = (pos 0 ≤ℤ z) × (z ≤ℤ bound)

add_minor_checked-exact :
    (a b : ℤ) (r : ℤ)
    → IsInt64 a
    → IsInt64 b
    → add_minor_checked a b ≡ ok r
    → (r ≡ a +ℤ b) × IsInt64 r
unfolding add_minor_checked
add_minor_checked-exact a b r h k q =
    let (m, q1, q2) =
      passed (add (record { minor = a; currency = "_" }) (record { minor = b; currency = "_" })) _
        q in
    let g =
      add-Gives (record { minor = a; currency = "_" }) (record { minor = b; currency = "_" }) m h k
        q1 in
    subst (λ (x : ℤ). (x ≡ a +ℤ b) × IsInt64 x) (ok-injective q2) (g.minor, g.bounded)

pub sub-Within : (a b : ℤ) → IsInt64 a → Within b a → (sub64 a b ≡ a -ℤ b) × Within (a -ℤ b) a
unfolding ◌-ℤ◌
sub-Within a b h w = (sub64_exact a b (ground arith), ground arith)

pub Within-IsInt64 : (z b : ℤ) → IsInt64 b → Within z b → IsInt64 z
Within-IsInt64 z b h w = ground arith

-- What a month's amounts satisfy: the principal lies between zero and the opening balance, and the
-- payment is principal and interest.
abbrev Splits : ℤ → ℤ → ℤ × ℤ → Type 0
Splits opening interest (principal, payment) =
    Within principal opening × (payment ≡ principal +ℤ interest)

with_payment-Splits :
    (opening interest principal : ℤ) (r : ℤ × ℤ)
    → IsInt64 opening
    → IsInt64 interest
    → Within principal opening
    → with_payment principal interest ≡ ok r
    → Splits opening interest r × (r.0 ≡ principal)
with_payment-Splits opening interest principal r h k w q =
    let (p, q1, q2) = passed (add_minor_checked principal interest) _ q in
    let e =
      add_minor_checked-exact principal interest p (Within-IsInt64 principal opening h w) k q1 in
    subst (λ (x : ℤ × ℤ). Splits opening interest x × (x.0 ≡ principal)) (ok-injective q2)
      ((w, e.0), refl)

min_int-Within :
    (p opening : ℤ) → pos 0 ≤ℤ p → pos 0 ≤ℤ opening → Within (min_int p opening) opening
min_int-Within p opening h k = ground arith

configured_amounts-Splits :
    (configured opening interest : ℤ) (r : ℤ × ℤ)
    → IsInt64 opening
    → IsInt64 interest
    → pos 0 ≤ℤ opening
    → configured_amounts configured opening interest ≡ ok r
    → Splits opening interest r × (pos 0 <ℤ r.0 ⊎ (opening ≡ pos 0))
unfolding configured_amounts
configured_amounts-Splits configured opening interest r h k o q =
    let (due, q1, q2) = passed (add_minor_checked opening interest) _ q in
    let p = sub64 (min_int configured due) interest in
    elim (Bool-cases (leb_ℤ p (pos 0))) [
      | inl e ↦ absurd (ground arith)
      | inr e ↦
          let s =
            with_payment-Splits opening interest (min_int p opening) r h k
              (min_int-Within p opening (ground arith) o) (rw e at q2) in
          (s.0, rw s.1 (ground arith))
    ]

closes_lem : (o a e rem closing : ℤ) → rem ≡ o -ℤ a → closing ≡ rem -ℤ e → o ≡ a +ℤ e +ℤ closing
closes_lem o a e rem closing h k = rw (k, h) (omega int_laws)

module _ (D : Decimals) where
  open D use {Decimal, from_int, cmp}

  amounts_of-Splits :
      (t : DebtRepaymentType) (debt : DebtContract Decimal)
      (month opening interest annuity equal : ℤ) (r : ℤ × ℤ)
      → IsInt64 opening
      → IsInt64 interest
      → pos 0 ≤ℤ opening
      → pos 0 ≤ℤ equal
      → amounts_of D t debt month opening interest annuity equal ≡ ok r
      → Splits opening interest r
  unfolding amounts_of
  amounts_of-Splits DebtRepaymentType.annuity debt month opening interest annuity equal r h k o n
        q =
      elim (Bool-cases (eqb_ℤ month debt.term_remaining_months)) [
        | inl e ↦ (with_payment-Splits opening interest opening r h k (omega arith) (rw e at q)).0
        | inr e ↦ elim (Bool-cases (ltb_ℤ (sub64 annuity interest) (pos 0))) [
          | inl bad ↦ absurd (ground arith)
          | inr good ↦
              (with_payment-Splits opening interest (min_int (sub64 annuity interest) opening) r h k
                (min_int-Within (sub64 annuity interest) opening (ground arith) o)
                (rw (e, good) at q)).0
        ]
      ]
  amounts_of-Splits DebtRepaymentType.equal_principal debt month opening interest annuity equal r h
        k o n q =
      elim (Bool-cases (eqb_ℤ month debt.term_remaining_months)) [
        | inl e ↦ (with_payment-Splits opening interest opening r h k (omega arith) (rw e at q)).0
        | inr e ↦
            (with_payment-Splits opening interest (min_int equal opening) r h k
              (min_int-Within equal opening n o) (rw e at q)).0
      ]
  amounts_of-Splits DebtRepaymentType.revolving debt month opening interest annuity equal r h k o n
        q =
      (configured_amounts-Splits debt.minimum_payment.minor opening interest r h k o q).0
  amounts_of-Splits DebtRepaymentType.custom debt month opening interest annuity equal r h k o n q =
      (configured_amounts-Splits debt.scheduled_payment.minor opening interest r h k o q).0
  amounts_of-Splits (DebtRepaymentType.other x) debt month opening interest annuity equal r h k o n
        q =
      cc

  extra_of-Within :
      (debt : DebtContract Decimal) (month extra remaining : ℤ)
      → pos 0 ≤ℤ remaining
      → Within (extra_of D debt month extra remaining) remaining
  unfolding extra_of
  extra_of-Within debt month extra remaining h = ground arith

  multiply_range :
      (minor : ℤ) (rate : Decimal) (z : ℤ)
      → Laws D
      → multiply_and_round_minor D minor rate ≡ ok z
      → IsInt64 z
  unfolding multiply_and_round_minor
  multiply_range minor rate z laws q =
      let (v, q1, q2) = passed (D.mul (from_int minor) rate) (round_decimal_to_minor D) q in
      let (d, q3, q4) = passed (D.quantize v) D.to_int64 q2 in laws.to_int64_range d z q4

  fee_range :
      (rate : Option Decimal) (extra z : ℤ) → Laws D → fee_of D rate extra ≡ ok z → IsInt64 z
  fee_range none extra z laws q = ground arith
  fee_range (some rate) extra z laws q =
      elim (Bool-cases (ltb_ℤ (pos 0) extra && not (D.is_zero rate))) [
        | inl e ↦ multiply_range extra rate z laws (rw e at q)
        | inr e ↦ ground arith
      ]

  -- What holds of a simulated month.
  pub record IsMonth (debt : DebtContract Decimal) (extra : ℤ) (p : DebtPayment) : Type 0 where
    -- The balance falls by the principal of the schedule and by the extra principal.
    pub closes :
        p.opening_balance.minor
        ≡ p.scheduled_principal.minor +ℤ p.extra_principal.minor +ℤ p.closing_balance.minor
    pub principal_nonneg : pos 0 ≤ℤ p.scheduled_principal.minor
    pub extra_nonneg : pos 0 ≤ℤ p.extra_principal.minor
    pub closing_nonneg : pos 0 ≤ℤ p.closing_balance.minor
    pub pays : p.scheduled_payment.minor ≡ p.scheduled_principal.minor +ℤ p.interest.minor
    pub interest_range : IsInt64 p.interest.minor
    pub fee_range : IsInt64 p.prepayment_fee.minor
    pub closing_range : IsInt64 p.closing_balance.minor
    -- An extra payment is at most the amount given, and waits for the restricted months.
    pub extra_capped :
        (p.extra_principal.minor ≡ pos 0)
        ⊎ ((p.extra_principal.minor ≤ℤ extra) × (debt.prepayment_restricted_months <ℤ p.month))

  -- The payment that a month returns.
  built : DebtContract Decimal → ℤ → Money → ℤ → ℤ → ℤ × ℤ → ℤ → DebtPayment
  built debt month opening extra interest amounts fee =
      let remaining = sub64 opening.minor amounts.0 in
      let e = extra_of D debt month extra remaining in
      record {
        month = month;
        opening_balance = opening;
        interest = money interest opening.currency;
        scheduled_payment = money amounts.1 opening.currency;
        scheduled_principal = money amounts.0 opening.currency;
        extra_principal = money e opening.currency;
        prepayment_fee = money fee opening.currency;
        closing_balance = money (sub64 remaining e) opening.currency;
      }

  extra_of_capped :
      (debt : DebtContract Decimal) (month extra remaining : ℤ)
      → (extra_of D debt month extra remaining ≡ pos 0)
        ⊎ ((extra_of D debt month extra remaining ≤ℤ extra)
            × (debt.prepayment_restricted_months <ℤ month))
  unfolding extra_of
  extra_of_capped debt month extra remaining = ground arith

  built-IsMonth :
      (debt : DebtContract Decimal) (month : ℤ) (opening : Money) (extra i : ℤ) (a : ℤ × ℤ) (f : ℤ)
      → IsInt64 opening.minor
      → IsInt64 i
      → IsInt64 f
      → Splits opening.minor i a
      → IsMonth debt extra (built debt month opening extra i a f)
  unfolding built
  built-IsMonth debt month opening extra i a f h r fr s =
      let (e1, w1) = sub-Within opening.minor a.0 h s.0 in
      let rem = sub64 opening.minor a.0 in
      let w2 = extra_of-Within debt month extra rem (rw e1 w1.0) in
      let hr = Within-IsInt64 rem opening.minor h (rw e1 w1) in
      let (e3, w3) = sub-Within rem (extra_of D debt month extra rem) hr w2 in
      record {
        closes = closes_lem opening.minor a.0 (extra_of D debt month extra rem) rem _ e1 e3;
        principal_nonneg = s.0.0;
        extra_nonneg = w2.0;
        closing_nonneg = rw e3 w3.0;
        pays = s.1;
        interest_range = r;
        fee_range = fr;
        closing_range = rw e3 (Within-IsInt64 _ rem hr w3);
        extra_capped = extra_of_capped debt month extra rem;
      }

  pub simulate_month-IsMonth :
      (debt : DebtContract Decimal) (month : ℤ) (opening : Money) (rate : Decimal)
      (annuity equal : ℤ) (extra : Money) (p : DebtPayment)
      → Laws D
      → IsInt64 opening.minor
      → pos 0 ≤ℤ opening.minor
      → pos 0 ≤ℤ equal
      → simulate_month D debt month opening rate annuity equal extra ≡ ok p
      → IsMonth debt extra.minor p
        × (p.opening_balance ≡ opening)
        × (p.month ≡ month)
        × (p.closing_balance.currency ≡ opening.currency)
        × (p.interest.currency ≡ opening.currency)
        × (p.prepayment_fee.currency ≡ opening.currency)
  unfolding simulate_month scheduled_amounts built
  simulate_month-IsMonth debt month opening rate annuity equal extra p laws h o n q =
      bind_ok (multiply_and_round_minor D opening.minor rate) _ q λ i q1 q2.
        bind_ok (scheduled_amounts D debt month opening.minor i annuity equal) _ q2 λ a q3 q4.
          bind_ok
            (fee_of D debt.prepayment_fee_rate
              (extra_of D debt month extra.minor (sub64 opening.minor a.0)))
            _ q4
            λ f q5 q6.
              subst
                (λ (x : DebtPayment).
                  IsMonth debt extra.minor x
                  × (x.opening_balance ≡ opening)
                  × (x.month ≡ month)
                  × (x.closing_balance.currency ≡ opening.currency)
                  × (x.interest.currency ≡ opening.currency)
                  × (x.prepayment_fee.currency ≡ opening.currency))
                (ok-injective q6)
                (
                  built-IsMonth debt month opening extra.minor i a f h
                      (multiply_range opening.minor rate i laws q1)
                      (fee_range debt.prepayment_fee_rate _ f laws q5)
                      (amounts_of-Splits debt.repayment_type debt month opening.minor i annuity
                        equal a h (multiply_range opening.minor rate i laws q1) o n q3),
                  refl,
                  refl,
                  refl,
                  refl,
                  refl,
                )
