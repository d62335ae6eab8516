-- ===== src/Debt/Schedule.antt =====
-- simulator.go: what a whole simulation satisfies.
use family_finance_os.Prelude.{
  ◌≡◌, refl, sym, ap, ◌∙◌, arith, ◌≤◌, ◌<◌, ◌+◌, ◌^◌, ℕ, zero, suc, String, List, [], ◌∷◌, ◌++◌, ok,
  length, length-append, bind_ok, ok-injective, Bool-cases, inl, inr, All, All-append_one,
}
use mathlib.Core.Path.{subst}
use family_finance_os.Prelude.Int.{ℤ, pos, ◌+ℤ◌, ◌≤ℤ◌, ltb_ℤ, int_laws, +ℤ_assoc}
use family_finance_os.Prelude.Word.{IsInt64, add64, add64_exact}
use family_finance_os.Prelude.Sort.{sum, sum-append_one}
use family_finance_os.Money.{Money, add}
use family_finance_os.Money.Exact.{add-Gives}
use family_finance_os.Debt.{DebtContract, DebtPayment}
use family_finance_os.Debt.Decimal.{Decimals, Laws}
use family_finance_os.Debt.Simulator.{
  Progress, simulate_month, simulate_months, record_payment, month_extra,
}
use family_finance_os.Debt.Month.{IsMonth, simulate_month-IsMonth}

-- Each payment opens with the balance that the one before it left.
abbrev pub Chain : ℤ → List DebtPayment → ℤ → Type 0
Chain opening [] closing = opening ≡ closing
Chain opening (p ∷ ps) closing =
    (p.opening_balance.minor ≡ opening) × Chain p.closing_balance.minor ps closing

Chain-append_one :
    (opening closing : ℤ) (ps : List DebtPayment) (p : DebtPayment)
    → Chain opening ps closing
    → p.opening_balance.minor ≡ closing
    → Chain opening (ps ++ p ∷ []) p.closing_balance.minor
Chain-append_one opening closing [] p h k = (k ∙ sym h, refl)
Chain-append_one opening closing (q ∷ qs) p h k =
    (h.0, Chain-append_one q.closing_balance.minor closing qs p h.1 k)

-- The payments are of the months from a first one on.
abbrev pub Numbered : ℕ → List DebtPayment → Type 0
Numbered k [] = Unit
Numbered k (p ∷ ps) = (p.month ≡ pos k) × Numbered (suc k) ps

Numbered-append_one :
    (k : ℕ) (ps : List DebtPayment) (p : DebtPayment)
    → Numbered k ps
    → p.month ≡ pos (k + length ps)
    → Numbered k (ps ++ p ∷ [])
Numbered-append_one k [] p h e = (e ∙ ap pos (omega arith), tt)
Numbered-append_one k (q ∷ qs) p h e =
    (h.0, Numbered-append_one (suc k) qs p h.1 (e ∙ ap pos (omega arith)))

-- The loop's counter does not wrap before its limit.
next_month :
    (month : ℤ) (n rounds : ℕ)
    → month ≡ pos (1 + n)
    → n + suc rounds < 2 ^ 63
    → 0 < rounds
    → add64 month (pos 1) ≡ pos (1 + (n + 1))
next_month month n rounds h k l =
    let e : pos (1 + n) +ℤ pos 1 ≡ pos (1 + (n + 1)) = omega int_laws in
    ap (λ (m : ℤ). add64 m (pos 1)) h
    ∙ add64_exact (pos (1 + n)) (pos 1) (rw e (omega (arith, k, l)))
    ∙ e

-- What the payments take off the balance.
abbrev pub principal_of : DebtPayment → ℤ
principal_of p = p.scheduled_principal.minor +ℤ p.extra_principal.minor

abbrev pub interest_of : DebtPayment → ℤ
interest_of p = p.interest.minor

abbrev pub fee_of_payment : DebtPayment → ℤ
fee_of_payment p = p.prepayment_fee.minor

principal_lem :
    (d paid b o x closing : ℤ) → d ≡ paid +ℤ b → o ≡ b → o ≡ x +ℤ closing → d ≡ paid +ℤ x +ℤ closing
principal_lem d paid b o x closing h k l =
    h ∙ ap (λ (z : ℤ). paid +ℤ z) (sym k ∙ l) ∙ sym (+ℤ_assoc paid x closing)

module _ (D : Decimals) where
  open D use {Decimal}

  IsMonth-weaken :
      (debt : DebtContract Decimal) (extra : Money) (one month : ℤ) (c : String) (p : DebtPayment)
      → pos 0 ≤ℤ extra.minor
      → IsMonth D debt (month_extra D extra one month c).minor p
      → IsMonth D debt extra.minor p
  IsMonth-weaken debt extra one month c p n h = record {
    closes = h.closes;
    principal_nonneg = h.principal_nonneg;
    extra_nonneg = h.extra_nonneg;
    closing_nonneg = h.closing_nonneg;
    pays = h.pays;
    interest_range = h.interest_range;
    fee_range = h.fee_range;
    closing_range = h.closing_range;
    extra_capped = ground (arith, h.extra_capped);
  }

  -- What the loop keeps.
  pub record Kept (debt : DebtContract Decimal) (extra : ℤ) (c : String) (s : Progress)
      : Type 0 where
    pub months : All (IsMonth D debt extra) s.payments
    pub chain : Chain debt.balance.minor s.payments s.balance.minor
    pub numbered : Numbered 1 s.payments
    pub interest : s.total_interest.minor ≡ sum interest_of s.payments
    pub fees : s.total_fees.minor ≡ sum fee_of_payment s.payments
    pub interest_range : IsInt64 s.total_interest.minor
    pub fees_range : IsInt64 s.total_fees.minor
    pub balance_range : IsInt64 s.balance.minor
    pub balance_nonneg : pos 0 ≤ℤ s.balance.minor
    pub principal : debt.balance.minor ≡ sum principal_of s.payments +ℤ s.balance.minor

  record_payment-Kept :
      (debt : DebtContract Decimal) (extra : ℤ) (c : String) (p : DebtPayment) (s s' : Progress)
      → Kept debt extra c s
      → IsMonth D debt extra p
      → p.opening_balance ≡ s.balance
      → p.month ≡ pos (1 + length s.payments)
      → record_payment D p s ≡ ok s'
      → Kept debt extra c s' × (length s'.payments ≡ length s.payments + 1)
  unfolding record_payment
  record_payment-Kept debt extra c p s s' k m e nth q =
      bind_ok (add s.total_interest p.interest) _ q λ i q1 q2.
        bind_ok (add s.total_fees p.prepayment_fee) _ q2 λ f q3 q4.
          let gi = add-Gives s.total_interest p.interest i k.interest_range m.interest_range q1 in
          let gf = add-Gives s.total_fees p.prepayment_fee f k.fees_range m.fee_range q3 in
          subst
            (λ (x : Progress). Kept debt extra c x × (length x.payments ≡ length s.payments + 1))
            (ok-injective q4)
            (
              record {
                months = All-append_one (IsMonth D debt extra) s.payments p k.months m;
                chain =
                    Chain-append_one debt.balance.minor s.balance.minor s.payments p k.chain
                      (ap (λ (x : Money). x.minor) e);
                numbered = Numbered-append_one 1 s.payments p k.numbered nth;
                interest = gi.minor ∙ rw k.interest (sym (sum-append_one interest_of s.payments p));
                fees = gf.minor ∙ rw k.fees (sym (sum-append_one fee_of_payment s.payments p));
                interest_range = gi.bounded;
                fees_range = gf.bounded;
                balance_range = m.closing_range;
                balance_nonneg = m.closing_nonneg;
                principal = rw (sum-append_one principal_of s.payments p) (
                    principal_lem debt.balance.minor (sum principal_of s.payments) s.balance.minor
                      p.opening_balance.minor (principal_of p) p.closing_balance.minor k.principal
                      (ap (λ (x : Money). x.minor) e) m.closes);
              },
              omega (arith, length-append {0} s.payments (p ∷ [])),
            )

  module _ (debt : DebtContract Decimal) (extra : Money) (one : ℤ) (c : String) (rate : Decimal)
      (annuity equal : ℤ) (laws : Laws D) (extra_nonneg : pos 0 ≤ℤ extra.minor)
      (equal_nonneg : pos 0 ≤ℤ equal) where
    pub simulate_months-Kept :
        (rounds : ℕ) (month : ℤ) (s s' : Progress)
        → Kept debt extra.minor c s
        → (0 < rounds → month ≡ pos (1 + length s.payments))
        → length s.payments + rounds < 2 ^ 63
        → simulate_months D debt extra one c rate annuity equal rounds month s ≡ ok s'
        → Kept debt extra.minor c s' × (length s'.payments ≤ length s.payments + rounds)
    unfolding simulate_months
    simulate_months-Kept zero month s s' k count few q =
        subst
          (λ (x : Progress).
            Kept debt extra.minor c x × (length x.payments ≤ length s.payments + 0))
          (ok-injective q) (k, omega arith)
    simulate_months-Kept (suc rounds) month s s' k count few q =
        elim (Bool-cases (ltb_ℤ (pos 0) s.balance.minor)) [
          | inr done ↦
              subst
                (λ (x : Progress).
                  Kept debt extra.minor c x × (length x.payments ≤ length s.payments + suc rounds))
                (ok-injective (rw done at q)) (k, omega arith)
          | inl more ↦
              bind_ok
                (simulate_month D debt month s.balance rate annuity equal
                  (month_extra D extra one month c))
                _ (rw more at q)
                λ p q1 q2. bind_ok (record_payment D p s) _ q2 λ t q3 q4.
                  let m =
                    simulate_month-IsMonth D debt month s.balance rate annuity equal
                      (month_extra D extra one month c) p laws k.balance_range k.balance_nonneg
                      equal_nonneg q1 in
                  let r =
                    record_payment-Kept debt extra.minor c p s t k
                      (IsMonth-weaken debt extra one month c p extra_nonneg m.0) m.1
                      (m.2 ∙ count (omega arith)) q3 in
                  let ih =
                    simulate_months-Kept rounds (add64 month (pos 1)) t s' r.0
                      (λ more_rounds.
                        next_month month (length s.payments) rounds (count (omega arith)) few
                          more_rounds
                        ∙ ap (λ (n : ℕ). pos (1 + n)) (sym r.1))
                      (omega (arith, few, r.1)) q4 in
                  (ih.0, omega (arith, ih.1, r.1))
        ]
