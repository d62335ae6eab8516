-- ===== src/Household/Amounts.antt =====
-- internal/household/service.go: the amounts that each operation leaves in the tables.
use family_finance_os.Prelude.{
  ◌≡◌, refl, ap, arith, Bool, false, not, String, ℕ, List, [], ◌∷◌, ◌++◌, some, Result, ok, err,
  bind_ok, return_if_ok, or_err-ok, if_intro, Error, return_if, ◌>>◌, ok-injective, All,
  All-append_one,
}
use family_finance_os.Prelude.Int.{ℤ, pos, ltb_ℤ, leb_ℤ, eqb_ℤ, ◌≤ℤ◌}
use family_finance_os.Prelude.Eq.{Dict, insert}
use family_finance_os.Auth.{int_eq}
use family_finance_os.Money.{Money}
use family_finance_os.Prelude.Text.{str_eq}
use mathlib.Core.Path.{subst}
use family_finance_os.Household.{
  valid_cadence, valid_stability, valid_kind, Household, NewHousehold, NewMember, Member,
  IncomeSource, NewIncomeSource, ExpenseBaseline, NewExpenseBaseline, HouseholdPolicy,
  validate_money_for_base, validate_new_household, validate_name, normalize_currency,
}
use family_finance_os.Household.Service.{
  HouseholdStore, household_row, is_known, home_row, amount_row, get_household, create_household,
  add_member, add_income_source, add_expense_baseline, set_policy, check_member,
}

-- An amount that is not negative and in the base currency of the household.
abbrev pub Fits : List Household → ℤ → Money → Type 0
Fits homes id amount =
    (home : Household) × (household_row id homes ≡ some home)
    × (amount.currency ≡ home.base_currency)
    × (pos 0 ≤ℤ amount.minor)

pub record AmountsFit (s : HouseholdStore) : Type 0 where
  pub sources :
      All (λ (x : IncomeSource). Fits s.households x.household_id x.amount) s.income_sources
  pub baselines :
      All (λ (x : ExpenseBaseline). Fits s.households x.household_id x.amount) s.expense_baselines
  pub floors : All (λ (x : ℤ × Money). Fits s.households x.0 x.1) s.policies

household_row-append :
    (id : ℤ) (homes : List Household) (new home : Household)
    → household_row id homes ≡ some home
    → household_row id (homes ++ new ∷ []) ≡ some home
household_row-append id [] new home h = cc
household_row-append id (x ∷ xs) new home h = ground (arith, household_row-append id xs new home)

Fits-append :
    (homes : List Household) (new : Household) (id : ℤ) (amount : Money)
    → Fits homes id amount
    → Fits (homes ++ new ∷ []) id amount
Fits-append homes new id amount f = (f.0, household_row-append id homes new f.0 f.1, f.2, f.3)

All-imply {ℓ κ μ} :
    {A : Type ℓ} (P : A → Type κ) (Q : A → Type μ)
    → ((a : A) → P a → Q a)
    → (xs : List A) → All P xs
    → All Q xs
All-imply P Q f [] h = tt
All-imply P Q f (x ∷ xs) h = (f x h.0, All-imply P Q f xs h.1)

All-insert {κ} :
    (P : ℤ × Money → Type κ) (k : ℤ) (v : Money) (d : Dict ℤ Money)
    → All P d
    → P (k, v)
    → All P (insert k v d)
All-insert P k v [] h p = (p, tt)
All-insert P k v ((j, w) ∷ d) h p =
    if_intro (All P) (eqb_ℤ k j) _ _ (λ _. (p, h.1)) (λ _. (h.0, All-insert P k v d h.1 p))

passed_check {ℓ} :
    {A : Type ℓ} (m : Result (Unit {0})) (r : Result A) {a : A} → (m >> r) ≡ ok a → r ≡ ok a
passed_check (ok u) r h = h
passed_check (err e) r h = absurd (cc)

not_below : (a : ℤ) → ltb_ℤ a (pos 0) ≡ false → pos 0 ≤ℤ a
not_below a h = ground arith

get_household_row :
    (id : ℤ) (s : HouseholdStore) (home : Household)
    → get_household id s ≡ ok home
    → household_row id s.households ≡ some home
get_household_row id s home h =
    or_err-ok Error.record_not_found (household_row id s.households) home
      (passed_check (return_if (leb_ℤ id (pos 0)) Error.id_not_positive) _ h)

module _ (to_upper : String → String) (byte_length : String → ℕ) (known_zone : String → Bool) where
  not_negative :
      (amount : Money) (base : String) (u : Unit {0})
      → validate_money_for_base to_upper byte_length amount base ≡ ok u
      → pos 0 ≤ℤ amount.minor
  unfolding validate_money_for_base
  not_negative amount base u h =
      bind_ok (normalize_currency to_upper byte_length amount.currency) _ h λ c q1 h1.
        let last =
          passed_check (return_if (not (str_eq c base)) Error.base_currency_mismatch) _ h1 in
        not_below amount.minor
          (return_if_ok (ltb_ℤ amount.minor (pos 0)) Error.negative_amount u last)

  accepted :
      (id : ℤ) (s : HouseholdStore) (home : Household) (amount : Money) (u : Unit {0})
      → get_household id s ≡ ok home
      → validate_money_for_base to_upper byte_length amount home.base_currency ≡ ok u
      → Fits s.households id (amount_row amount home)
  accepted id s home amount u q v =
      (home, get_household_row id s home q, refl, not_negative amount home.base_currency u v)

  pub source_added-AmountsFit :
      (new_id id : ℤ) (input : NewIncomeSource) (s t : HouseholdStore) (x : IncomeSource)
      → AmountsFit s
      → add_income_source to_upper byte_length new_id id input s ≡ ok (t, x)
      → AmountsFit t
  unfolding add_income_source
  source_added-AmountsFit new_id id input s t x fit h =
      bind_ok (get_household id s) _ h λ home q1 h1.
        bind_ok (validate_name input.name) _ h1 λ name q2 h2.
          bind_ok (validate_money_for_base to_upper byte_length input.amount home.base_currency) _
            h2
            λ u q3 h3.
              let h4 =
                passed_check (return_if (not (valid_cadence input.cadence)) Error.invalid_cadence) _
                  h3 in
              let h5 =
                passed_check
                  (return_if (not (valid_stability input.stability)) Error.invalid_stability) _
                  h4 in
              let h6 = passed_check (check_member input.member_id id s) _ h5 in
              subst AmountsFit (ap (λ p. p.0) (ok-injective h6)) (record {
                sources =
                    All-append_one _ s.income_sources _ fit.sources
                      (accepted id s home input.amount u q1 q3);
                baselines = fit.baselines;
                floors = fit.floors;
              })

  pub baseline_added-AmountsFit :
      (new_id id : ℤ) (input : NewExpenseBaseline) (s t : HouseholdStore) (x : ExpenseBaseline)
      → AmountsFit s
      → add_expense_baseline to_upper byte_length new_id id input s ≡ ok (t, x)
      → AmountsFit t
  unfolding add_expense_baseline
  baseline_added-AmountsFit new_id id input s t x fit h =
      bind_ok (get_household id s) _ h λ home q1 h1.
        bind_ok (validate_name input.name) _ h1 λ name q2 h2.
          bind_ok (validate_money_for_base to_upper byte_length input.amount home.base_currency) _
            h2
            λ u q3 h3.
              let h4 =
                passed_check (return_if (not (valid_cadence input.cadence)) Error.invalid_cadence) _
                  h3 in
              subst AmountsFit (ap (λ p. p.0) (ok-injective h4)) (record {
                sources = fit.sources;
                baselines =
                    All-append_one _ s.expense_baselines _ fit.baselines
                      (accepted id s home input.amount u q1 q3);
                floors = fit.floors;
              })

  pub policy_set-AmountsFit :
      (id : ℤ) (floor : Money) (s t : HouseholdStore) (x : HouseholdPolicy)
      → AmountsFit s
      → set_policy to_upper byte_length id floor s ≡ ok (t, x)
      → AmountsFit t
  unfolding set_policy
  policy_set-AmountsFit id floor s t x fit h = bind_ok (get_household id s) _ h λ home q1 h1.
      bind_ok (validate_money_for_base to_upper byte_length floor home.base_currency) _ h1
        λ u q2 h2. subst AmountsFit (ap (λ p. p.0) (ok-injective h2)) (record {
          sources = fit.sources;
          baselines = fit.baselines;
          floors =
              All-insert _ id (amount_row floor home) s.policies fit.floors
                (accepted id s home floor u q1 q2);
        })

  pub member_added-AmountsFit :
      (new_id id : ℤ) (input : NewMember) (s t : HouseholdStore) (x : Member)
      → AmountsFit s
      → add_member new_id id input s ≡ ok (t, x)
      → AmountsFit t
  unfolding add_member
  member_added-AmountsFit new_id id input s t x fit h =
      let h1 = passed_check (return_if (leb_ℤ id (pos 0)) Error.id_not_positive) _ h in
      bind_ok (validate_name input.name) _ h1 λ name q2 h2.
        let h3 =
          passed_check (return_if (not (valid_kind input.kind)) Error.invalid_member_kind) _ h2 in
        let h4 =
          passed_check (return_if (not (is_known id s.households)) Error.constraint_violation) _
            h3 in
        subst AmountsFit (ap (λ p. p.0) (ok-injective h4))
          (record { sources = fit.sources; baselines = fit.baselines; floors = fit.floors })

  pub created-AmountsFit :
      (new_id : ℤ) (input : NewHousehold) (s t : HouseholdStore) (x : Household)
      → AmountsFit s
      → create_household to_upper byte_length known_zone new_id input s ≡ ok (t, x)
      → AmountsFit t
  unfolding create_household
  created-AmountsFit new_id input s t x fit h =
      bind_ok (validate_new_household to_upper byte_length known_zone input) _ h λ valid q1 h1.
        let keep = Fits-append s.households (home_row new_id valid) in
        subst AmountsFit (ap (λ p. p.0) (ok-injective h1)) (record {
          sources = All-imply _ _ (λ y. keep y.household_id y.amount) s.income_sources fit.sources;
          baselines =
              All-imply _ _ (λ y. keep y.household_id y.amount) s.expense_baselines fit.baselines;
          floors = All-imply _ _ (λ y. keep y.0 y.1) s.policies fit.floors;
        })
