-- ===== src/Debt/Payoff.antt =====
-- simulator.go: a simulation that is returned.
use family_finance_os.Prelude.{
  ◌≡◌, refl, sym, arith, ◌≤◌, ◌<◌, ◌^◌, not, ◌||◌, String, Option, none, some, ok, Error, return_if,
  return_if_ok, length, bind_ok, ok-injective, Bool-cases, inl, inr, All,
}
use mathlib.Core.Path.{subst}
use family_finance_os.Prelude.Int.{ℤ, pos, pos_part, ◌+ℤ◌, ◌≤ℤ◌, ltb_ℤ, eqb_ℤ, int_laws}
use family_finance_os.Prelude.Word.{IsInt64}
use family_finance_os.Prelude.Sort.{sum}
use family_finance_os.Money.{Money}
use family_finance_os.Debt.{DebtContract, DebtRepaymentType, DebtSimulation}
use family_finance_os.Debt.Decimal.{Decimals, Laws, divide_and_round_minor, round_decimal_to_minor}
use family_finance_os.Debt.Amortization.{annuity_payment_minor}
use family_finance_os.Debt.Validation.{
  validate_debt_for_simulation, check_apr, check_fee_rate, check_rate_type, check_repayment_type,
  currencies_differ, amounts_negative, negative, monthly_rate,
}
use family_finance_os.Debt.Simulator.{
  simulate_months, month_limit, no_progress, amortize, fixed_amounts, simulate_debt_from,
  simulate_debt,
}
use family_finance_os.Debt.Month.{IsMonth}
use family_finance_os.Debt.Schedule.{
  Kept, Chain, Numbered, principal_of, interest_of, fee_of_payment, simulate_months-Kept,
}

paid_off_lem : (d paid b : ℤ) → d ≡ paid +ℤ b → b ≡ pos 0 → paid ≡ d
paid_off_lem d paid b h k = grind int_laws

module _ (D : Decimals) where
  open D use {Decimal, from_int, quo, to_int64, quantize}

  validated :
      (debt : DebtContract Decimal) (extra : Money) (c : String)
      → validate_debt_for_simulation D debt extra ≡ ok c
      → (pos 0 ≤ℤ debt.balance.minor)
        × (pos 0 ≤ℤ extra.minor)
        × (check_repayment_type D debt.repayment_type debt ≡ ok tt)
        × (c ≡ debt.balance.currency)
  unfolding validate_debt_for_simulation
  validated debt extra c q =
      bind_ok (return_if (currencies_differ D debt extra) Error.currency_mismatch) _ q λ _ _ q1.
        bind_ok (return_if (amounts_negative D debt extra) Error.invalid_debt) _ q1 λ u e q2.
          bind_ok (check_apr D debt.apr) _ q2 λ _ _ q3.
            bind_ok (check_fee_rate D debt.prepayment_fee_rate) _ q3 λ _ _ q4.
              bind_ok
                (return_if
                  (negative debt.prepayment_restricted_months
                    || (ltb_ℤ debt.due_day (pos 1) || ltb_ℤ (pos 31) debt.due_day))
                  Error.invalid_debt)
                _ q4
                λ _ _ q5. bind_ok (check_rate_type D debt.rate_type) _ q5 λ _ _ q6.
                  bind_ok (check_repayment_type D debt.repayment_type debt) _ q6 λ _ k q7.
                    let n = return_if_ok (amounts_negative D debt extra) Error.invalid_debt u e in
                    (ground (arith, n), ground (arith, n), k, sym (ok-injective q7))

  divide_nonneg :
      (minor divisor z : ℤ)
      → Laws D
      → pos 0 ≤ℤ minor
      → pos 0 ≤ℤ divisor
      → divide_and_round_minor D minor divisor ≡ ok z
      → pos 0 ≤ℤ z
  unfolding divide_and_round_minor round_decimal_to_minor
  divide_nonneg minor divisor z laws h k q =
      bind_ok (quo (from_int minor) (from_int divisor)) _ q λ v q1 q2.
        bind_ok (quantize v) _ q2 λ r q3 q4. laws.to_int64_nonneg r z q4 (
          laws.quantize_nonneg v r q3 (
            laws.quo_nonneg _ _ v q1 (laws.from_int_nonneg minor h)
              (laws.from_int_nonneg divisor k)))

  fixed_amounts_nonneg :
      (t : DebtRepaymentType) (debt : DebtContract Decimal) (rate : Decimal) (a : ℤ × ℤ)
      → Laws D
      → pos 0 ≤ℤ debt.balance.minor
      → check_repayment_type D t debt ≡ ok tt
      → fixed_amounts D t debt rate ≡ ok a
      → pos 0 ≤ℤ a.1
  unfolding fixed_amounts
  fixed_amounts_nonneg DebtRepaymentType.annuity debt rate a laws h k q =
      bind_ok (annuity_payment_minor D debt.balance.minor debt.term_remaining_months rate) _ q
        λ z q1 q2. subst (λ (x : ℤ × ℤ). pos 0 ≤ℤ x.1) (ok-injective q2) (omega arith)
  fixed_amounts_nonneg DebtRepaymentType.equal_principal debt rate a laws h k q =
      bind_ok (divide_and_round_minor D debt.balance.minor debt.term_remaining_months) _ q
        λ z q1 q2.
          subst (λ (x : ℤ × ℤ). pos 0 ≤ℤ x.1) (ok-injective q2)
            (divide_nonneg debt.balance.minor debt.term_remaining_months z laws h (ground arith) q1)
  fixed_amounts_nonneg DebtRepaymentType.revolving debt rate a laws h k q =
      subst (λ (x : ℤ × ℤ). pos 0 ≤ℤ x.1) (ok-injective q) (omega arith)
  fixed_amounts_nonneg DebtRepaymentType.custom debt rate a laws h k q =
      subst (λ (x : ℤ × ℤ). pos 0 ≤ℤ x.1) (ok-injective q) (omega arith)
  fixed_amounts_nonneg (DebtRepaymentType.other x) debt rate a laws h k q = absurd (cc)

  -- What a simulation's result satisfies.
  pub record IsSchedule (debt : DebtContract Decimal) (extra : Money) (r : DebtSimulation)
      : Type 0 where
    pub months : All (IsMonth D debt extra.minor) r.payments
    pub chain : Chain debt.balance.minor r.payments (pos 0)
    pub numbered : Numbered 1 r.payments
    pub paid_off : sum principal_of r.payments ≡ debt.balance.minor
    pub interest : r.total_interest.minor ≡ sum interest_of r.payments
    pub fees : r.total_fees.minor ≡ sum fee_of_payment r.payments
    pub counted : r.payoff_months ≡ pos (length r.payments)
    pub in_time : length r.payments ≤ pos_part (month_limit D debt.repayment_type debt)

  start :
      (debt : DebtContract Decimal) (extra : ℤ) (c : String)
      → IsInt64 debt.balance.minor
      → pos 0 ≤ℤ debt.balance.minor
      → Kept D debt extra c (no_progress D debt.balance c)
  start debt extra c b h = record {
    months = tt;
    chain = refl;
    numbered = tt;
    interest = refl;
    fees = refl;
    interest_range = omega arith;
    fees_range = omega arith;
    balance_range = b;
    balance_nonneg = h;
    principal = omega int_laws;
  }

  limit_range :
      (t : DebtRepaymentType) (debt : DebtContract Decimal)
      → IsInt64 debt.term_remaining_months
      → pos_part (month_limit D t debt) < 2 ^ 63
  limit_range DebtRepaymentType.annuity debt h = h.0
  limit_range DebtRepaymentType.equal_principal debt h = h.0
  limit_range DebtRepaymentType.revolving debt h = omega arith
  limit_range DebtRepaymentType.custom debt h = omega arith
  limit_range (DebtRepaymentType.other _) debt h = h.0

  amortize-IsSchedule :
      (debt : DebtContract Decimal) (extra : Money) (one : ℤ) (c : String) (apr : Option Decimal)
      (r : DebtSimulation)
      → Laws D
      → IsInt64 debt.balance.minor
      → IsInt64 debt.term_remaining_months
      → pos 0 ≤ℤ debt.balance.minor
      → pos 0 ≤ℤ extra.minor
      → check_repayment_type D debt.repayment_type debt ≡ ok tt
      → amortize D debt extra one c apr ≡ ok r
      → IsSchedule debt extra r
  unfolding amortize
  amortize-IsSchedule debt extra one c none r laws b t h e v q = absurd (cc)
  amortize-IsSchedule debt extra one c (some apr) r laws b t h e v q =
      bind_ok (monthly_rate D apr) _ q λ rate q1 q2.
        bind_ok (fixed_amounts D debt.repayment_type debt rate) _ q2 λ a q3 q4.
          bind_ok
            (simulate_months D debt extra one c rate a.0 a.1
              (pos_part (month_limit D debt.repayment_type debt)) (pos 1)
              (no_progress D debt.balance c))
            _ q4
            λ s q5 q6.
              bind_ok (return_if (not (eqb_ℤ s.balance.minor (pos 0))) Error.non_amortizing_debt) _
                q6
                λ _ q7 q8.
                  let k =
                    simulate_months-Kept D debt extra one c rate a.0 a.1 laws e
                      (fixed_amounts_nonneg debt.repayment_type debt rate a laws h v q3)
                      (pos_part (month_limit D debt.repayment_type debt)) (pos 1)
                      (no_progress D debt.balance c) s (start debt extra.minor c b h) (λ _. refl)
                      (omega (arith, limit_range debt.repayment_type debt t)) q5 in
                  let z : s.balance.minor ≡ pos 0 = ground arith in
                  subst (λ (x : DebtSimulation). IsSchedule debt extra x) (ok-injective q8)
                    (record {
                      months = k.0.months;
                      chain = rw z at k.0.chain;
                      numbered = k.0.numbered;
                      paid_off =
                          paid_off_lem debt.balance.minor (sum principal_of s.payments)
                            s.balance.minor k.0.principal z;
                      interest = k.0.interest;
                      fees = k.0.fees;
                      counted = refl;
                      in_time = omega (arith, k.1);
                    })

  simulate_debt_from-IsSchedule :
      (debt : DebtContract Decimal) (extra : Money) (one : ℤ) (r : DebtSimulation)
      → Laws D
      → IsInt64 debt.balance.minor
      → IsInt64 debt.term_remaining_months
      → simulate_debt_from D debt extra one ≡ ok r
      → IsSchedule debt extra r
  unfolding simulate_debt_from
  simulate_debt_from-IsSchedule debt extra one r laws b t q =
      bind_ok (validate_debt_for_simulation D debt extra) _ q λ c q1 q2.
        let v = validated debt extra c q1 in
        elim (Bool-cases (eqb_ℤ debt.balance.minor (pos 0))) [
          | inr owed ↦
              amortize-IsSchedule debt extra one c debt.apr r laws b t v.0 v.1 v.2 (rw owed at q2)
          | inl none_owed ↦
              subst (λ (x : DebtSimulation). IsSchedule debt extra x)
                (ok-injective (rw none_owed at q2))
                (record {
                  months = tt;
                  chain = ground arith;
                  numbered = tt;
                  paid_off = ground arith;
                  interest = refl;
                  fees = refl;
                  counted = refl;
                  in_time = omega arith;
                })
        ]

  -- A simulation with a monthly extra payment that is returned pays the debt off exactly, whatever
  -- the decimals of the package apd that keep the laws assumed of them, for an `int64` balance and
  -- term: the payments are of the months one, two and so on; each
  -- month's balance falls by a principal and an extra principal of zero or more and never below
  -- zero, its payment is principal and interest, an extra payment is at most the one given and waits
  -- for the restricted months; the months follow one another from the debt's balance to zero, their
  -- principal adds up to the balance, the totals are the sums of interest and fees, and there are at
  -- most as many months as the term, or 1200 where there is none.
  pub simulate_debt-IsSchedule :
      (debt : DebtContract Decimal) (extra : Money) (r : DebtSimulation)
      → Laws D
      → IsInt64 debt.balance.minor
      → IsInt64 debt.term_remaining_months
      → simulate_debt D debt extra ≡ ok r
      → IsSchedule debt extra r
  unfolding simulate_debt
  simulate_debt-IsSchedule debt extra r laws b t q =
      simulate_debt_from-IsSchedule debt extra (pos 0) r laws b t q
