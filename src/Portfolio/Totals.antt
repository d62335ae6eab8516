-- ===== src/Portfolio/Totals.antt =====
-- internal/portfolio/service.go: the classes of a portfolio and its total.
use family_finance_os.Prelude.{
  ◌≡◌, refl, ap, ◌∙◌, arith, String, not, List, [], ◌∷◌, none, some, ok, Error, return_if, bind_ok,
  ok-injective, All, Bool-cases, Option-cases, inl, inr,
}
use mathlib.Core.Path.{subst}
use family_finance_os.Prelude.Int.{ℤ, pos, ◌+ℤ◌, ltb_ℤ, int_laws, +ℤ_assoc}
use family_finance_os.Prelude.Word.{IsInt64}
use family_finance_os.Prelude.Eq.{
  Dict, lookup, insert, string_eq, total, total-insert_old, total-insert_new,
}
use family_finance_os.Prelude.Sort.{sum}
use family_finance_os.Prelude.Text.{str_eq, eq_iff}
use family_finance_os.Money.{Money, add}
use family_finance_os.Money.Exact.{add-Gives}
use family_finance_os.Debt.Decimal.{Decimals}
use family_finance_os.Portfolio.{
  AssetClass, Holding, SummaryInput, Allocation, Summary, valid_class, current_value, with_value,
  include, include_all, set_shares, no_holdings, summarize,
}

abbrev pub value_of : Holding → ℤ
value_of v = v.value.minor

module _ (D : Decimals) where
  open D use {Decimal, from_int, quo}

  abbrev pub minor_of : Allocation Decimal → ℤ
  minor_of a = a.value.minor

  abbrev Stored : String → Dict AssetClass (Allocation Decimal) → Type 0
  Stored c d =
      All
        (λ (e : AssetClass × Allocation Decimal).
          IsInt64 e.1.value.minor × (e.1.value.currency ≡ c))
        d

  record Inv (c : String) (s : Summary Decimal) : Type 0 where
    total_bounded : IsInt64 s.total.minor
    total_currency : s.total.currency ≡ c
    stored : Stored c s.by_class
    adds_up : total minor_of s.by_class ≡ s.total.minor

  lookup-Stored :
      (c id : String) (m : Allocation Decimal) (d : Dict AssetClass (Allocation Decimal))
      → Stored c d
      → lookup id d ≡ some m
      → IsInt64 m.value.minor × (m.value.currency ≡ c)
  lookup-Stored c id m [] h q = cc
  lookup-Stored c id m ((k, v) ∷ d) h q = ground (arith, lookup-Stored c id m d h.1)

  insert-Stored :
      (c id : String) (m : Allocation Decimal) (d : Dict AssetClass (Allocation Decimal))
      → Stored c d
      → IsInt64 m.value.minor × (m.value.currency ≡ c)
      → Stored c (insert id m d)
  insert-Stored c id m [] h q = (q, tt)
  insert-Stored c id m ((k, v) ∷ d) h q = ground (arith, insert-Stored c id m d h.1 q)

  current_value_lem :
      (c id : String) (d : Dict AssetClass (Allocation Decimal)) (m : Money)
      → Stored c d
      → (IsInt64 (current_value D c id d).minor)
        × ((current_value D c id d).currency ≡ c)
        × (total minor_of (with_value D m id d) +ℤ (current_value D c id d).minor
            ≡ total minor_of d +ℤ m.minor)
  current_value_lem c id d m h = elim (Option-cases (lookup id d)) [
    | inl e ↦
        rw e
          (grind (int_laws, total-insert_new minor_of id (record { value = m; share = none }) d e))
    | inr (old, e) ↦ rw e (
        grind (
          int_laws,
          total-insert_old minor_of id (record { value = m; share = old.share }) old d e,
          lookup-Stored c id old d h e,
          eq_iff old.value.currency "",
        ))
  ]

  moved : (d' d t s cur m x : ℤ) → d' +ℤ cur ≡ d +ℤ m → d ≡ t → s ≡ t +ℤ x → m ≡ cur +ℤ x → d' ≡ s
  moved d' d t s cur m x h1 h2 h3 h4 = grind int_laws

  include-Inv :
      (input : SummaryInput) (v : Holding) (s s' : Summary Decimal)
      → Inv input.reporting_currency s
      → IsInt64 v.value.minor
      → include D input v s ≡ ok s'
      → Inv input.reporting_currency s' × (s'.total.minor ≡ s.total.minor +ℤ v.value.minor)
  unfolding include
  include-Inv input v s s' i h q =
      let c = input.reporting_currency in
      bind_ok (return_if (not (valid_class v.class)) Error.invalid_asset_class) _ q λ _ _ q1.
        bind_ok (return_if (ltb_ℤ v.value.minor (pos 0)) Error.negative_valuation) _ q1 λ _ _ q2.
          bind_ok (return_if (not (str_eq v.value.currency c)) Error.currency_mismatch) _ q2
            λ _ _ q3. bind_ok (add s.total v.value) _ q3 λ t e1 q4.
              bind_ok (add (current_value D c v.class s.by_class) v.value) _ q4 λ m e2 q5.
                let l = current_value_lem c v.class s.by_class m i.stored in
                let g = add-Gives s.total v.value t i.total_bounded h e1 in
                let k = add-Gives (current_value D c v.class s.by_class) v.value m l.0 h e2 in
                subst
                  (λ (x : Summary Decimal).
                    Inv c x × (x.total.minor ≡ s.total.minor +ℤ v.value.minor))
                  (ok-injective q5)
                  (
                    record {
                      total_bounded = g.bounded;
                      total_currency = g.currency ∙ i.total_currency;
                      stored =
                          insert-Stored c v.class _ s.by_class i.stored
                            (k.bounded, k.currency ∙ l.1);
                      adds_up = moved _ _ _ _ _ _ _ l.2 i.adds_up g.minor k.minor;
                    },
                    g.minor,
                  )

  include_all-Inv :
      (input : SummaryInput) (vs : List Holding) (s s' : Summary Decimal)
      → Inv input.reporting_currency s
      → All (λ v. IsInt64 v.value.minor) vs
      → include_all D input vs s ≡ ok s'
      → Inv input.reporting_currency s' × (s'.total.minor ≡ s.total.minor +ℤ sum value_of vs)
  unfolding include_all
  include_all-Inv input [] s s' i h q =
      subst
        (λ (x : Summary Decimal).
          Inv input.reporting_currency x × (x.total.minor ≡ s.total.minor +ℤ pos 0))
        (ok-injective q) (i, omega int_laws)
  include_all-Inv input (v ∷ vs) s s' i h q = bind_ok (include D input v s) _ q λ t q1 q2.
      let one = include-Inv input v s t i h.0 q1 in
      let rest = include_all-Inv input vs t s' one.0 h.1 q2 in
      (rest.0, rest.1 ∙ ap (λ z. z +ℤ sum value_of vs) one.1 ∙ +ℤ_assoc _ _ _)

  set_shares-total :
      (n : ℤ) (d d' : Dict AssetClass (Allocation Decimal))
      → set_shares D n d ≡ ok d'
      → total minor_of d' ≡ total minor_of d
  unfolding set_shares
  set_shares-total n [] d' q =
      subst (λ (x : Dict AssetClass (Allocation Decimal)). total minor_of x ≡ pos 0)
        (ok-injective q) refl
  set_shares-total n ((c, a) ∷ d) d' q =
      bind_ok (quo (from_int a.value.minor) (from_int n)) _ q λ share _ q1.
        bind_ok (set_shares D n d) _ q1 λ rest e q2.
          subst
            (λ (x : Dict AssetClass (Allocation Decimal)).
              total minor_of x ≡ a.value.minor +ℤ total minor_of d)
            (ok-injective q2) (ap (λ z. a.value.minor +ℤ z) (set_shares-total n d rest e))

  abbrev Sums : SummaryInput → Summary Decimal → Type 0
  Sums input r =
      (r.total.minor ≡ sum value_of input.valuations)
      × (r.total.currency ≡ input.reporting_currency)
      × (total minor_of r.by_class ≡ r.total.minor)

  -- A summary that is returned is exact, for `int64` values and whatever the decimals: its total is
  -- the sum of the values, in the reporting currency, and the values of its classes add up to it.
  pub summarize_adds_up :
      (input : SummaryInput) (r : Summary Decimal)
      → All (λ v. IsInt64 v.value.minor) input.valuations
      → summarize D input ≡ ok r
      → (r.total.minor ≡ sum value_of input.valuations)
        × (r.total.currency ≡ input.reporting_currency)
        × (total minor_of r.by_class ≡ r.total.minor)
  unfolding summarize
  summarize_adds_up input r h q =
      let c = input.reporting_currency in
      bind_ok (include_all D input input.valuations (no_holdings D c)) _ q λ s q1 q2.
        let empty : Inv c (no_holdings D c) = record {
          total_bounded = (omega arith, omega arith);
          total_currency = refl;
          stored = tt;
          adds_up = refl;
        } in
        let i = include_all-Inv input input.valuations (no_holdings D c) s empty h q1 in
        let e : s.total.minor ≡ sum value_of input.valuations = i.1 ∙ omega int_laws in
        elim (Bool-cases (ltb_ℤ (pos 0) s.total.minor)) [
          | inl positive ↦
              bind_ok (set_shares D s.total.minor s.by_class) _ (rw positive at q2) λ d q3 q4.
                subst (Sums input) (ok-injective q4) (
                  e,
                  i.0.total_currency,
                  set_shares-total s.total.minor s.by_class d q3 ∙ i.0.adds_up,
                )
          | inr other ↦
              subst (Sums input) (ok-injective (rw other at q2))
                (e, i.0.total_currency, i.0.adds_up)
        ]
