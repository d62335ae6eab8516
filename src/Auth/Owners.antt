-- ===== src/Auth/Owners.antt =====
-- internal/auth/rbac_store.go: the active owners of a household.
use family_finance_os.Prelude.{
  ◌≡◌, refl, ap, arith, Bool, true, false, String, Option, none, some, if◌then◌else◌, ◌&&◌, ◌||◌,
  not, ok, return_if, or_err, or_err-ok, bind_ok, ok-injective, return_if_ok, last_owner,
  record_not_found, id_not_positive, constraint_violation, username_exists, Bool-cases, inl, inr,
  ◌⊎◌,
}
use mathlib.Core.Path.{subst}
use family_finance_os.Prelude.Int.{ℤ, pos, pos_part, neg_part, ◌+ℤ◌, ◌≤ℤ◌, leb_ℤ, eqb_ℤ, int_laws}
use family_finance_os.Prelude.Text.{is_empty}
use family_finance_os.Prelude.Time.{Time}
use family_finance_os.Prelude.Eq.{lookup, total-insert_old, total-insert_new}
use family_finance_os.Auth.{
  int_eq, eqb_ℤ_iff, Role, is_owner, User, AuthStore, HouseholdMember, is_set, is_null,
  is_active_owner,
}
use family_finance_os.Auth.Members.{
  active_owners, if_one, require_another_active_owner, check_ids, load_household_member, store_user,
  update_household_member_role, disable_household_member, enable_household_member,
  create_household_member, new_user, is_some, has_username, in_household,
}

-- A household has an active owner.
abbrev pub HasOwner : ℤ → AuthStore → Type 0
HasOwner h s = pos 1 ≤ℤ active_owners h s

abbrev owns : ℤ → User → ℤ
owns h u = if_one (is_active_owner h u)

-- Writing a row over an old one shifts the count by the difference of the two.
count_replaced :
    (h id : ℤ) (old u : User) (s : AuthStore)
    → lookup id s.users ≡ some old
    → active_owners h (store_user id u s) +ℤ owns h old ≡ active_owners h s +ℤ owns h u
count_replaced h id old u s q = total-insert_old (owns h) id u old s.users q

in_household-ok :
    (h : ℤ) (v u : User) → in_household h v ≡ ok u → (v ≡ u) × (eqb_ℤ u.household_id h ≡ true)
in_household-ok h v u q = ground arith

pub load-found :
    (h id : ℤ) (s : AuthStore) (u : User)
    → load_household_member h id s ≡ ok u
    → (lookup id s.users ≡ some u) × (eqb_ℤ u.household_id h ≡ true)
unfolding load_household_member
load-found h id s u q =
    bind_ok (or_err record_not_found (lookup id s.users)) (in_household h) q λ v q1 q2. (
      subst (λ w. lookup id s.users ≡ some w) (in_household-ok h v u q2).0
          (or_err-ok record_not_found (lookup id s.users) v q1),
      (in_household-ok h v u q2).1,
    )

owns_bounds : (h : ℤ) (u : User) → (pos 0 ≤ℤ owns h u) × (owns h u ≤ℤ pos 1)
owns_bounds h u = ground arith

-- A write keeps an owner if it takes none away, or if there were two.
keep :
    (k id : ℤ) (old u : User) (s : AuthStore)
    → lookup id s.users ≡ some old
    → HasOwner k s
    → (owns k old ≤ℤ owns k u) ⊎ (pos 2 ≤ℤ active_owners k s)
    → HasOwner k (store_user id u s)
keep k id old u s q has (inl grows) = omega (
  int_laws,
  has,
  grows,
  ap pos_part (count_replaced k id old u s q),
  ap neg_part (count_replaced k id old u s q),
)
keep k id old u s q has (inr two) = omega (
  int_laws,
  two,
  owns_bounds k u,
  owns_bounds k old,
  ap pos_part (count_replaced k id old u s q),
  ap neg_part (count_replaced k id old u s q),
)

another-two :
    (h : ℤ) (s : AuthStore) (x : Unit {0})
    → require_another_active_owner h s ≡ ok x
    → pos 2 ≤ℤ active_owners h s
another-two h s x q =
    ground (arith, return_if_ok (leb_ℤ (active_owners h s) (pos 1)) last_owner x q)

-- What a member loses by a guarded change, seen from household `k`.
guarded :
    (h k : ℤ) (old u : User) (s : AuthStore) (x : Unit {0}) (test : Bool)
    → eqb_ℤ old.household_id h ≡ true
    → (test ≡ false → owns k old ≤ℤ owns k u)
    → (if test then require_another_active_owner h s else ok tt) ≡ ok x
    → (owns k old ≤ℤ owns k u) ⊎ (pos 2 ≤ℤ active_owners k s)
guarded h k old u s x false home keeps q = inl (keeps refl)
guarded h k old u s x true home keeps q = elim (Bool-cases (eqb_ℤ h k)) [
  | inl same ↦
      inr (subst (λ j. pos 2 ≤ℤ active_owners j s) ((eqb_ℤ_iff h k).0 same) (another-two h s x q))
  | inr other ↦ inl (ground (arith))
]

pub not_some {ℓ} : {A : Type ℓ} (o : Option A) → is_some o ≡ false → o ≡ none
not_some none e = refl
not_some (some u) e = cc

grows :
    (k id : ℤ) (u : User) (s : AuthStore)
    → is_some (lookup id s.users) ≡ false
    → HasOwner k s
    → HasOwner k (store_user id u s)
grows k id u s e has = omega (
  int_laws,
  has,
  owns_bounds k u,
  ap pos_part (total-insert_new (owns k) id u s.users (not_some (lookup id s.users) e)),
  ap neg_part (total-insert_new (owns k) id u s.users (not_some (lookup id s.users) e)),
)

pub update_role-keeps :
    (h id : ℤ) (role : Role) (now : Time) (s t : AuthStore) (m : HouseholdMember) (k : ℤ)
    → update_household_member_role h id role now s ≡ ok (m, t)
    → HasOwner k s
    → HasOwner k t
unfolding update_household_member_role
update_role-keeps h id role now s t m k q has = bind_ok (check_ids h id) _ q λ _ c0 q0.
    bind_ok (load_household_member h id s) _ q0 λ u c1 q1.
      bind_ok
        (if is_null u.disabled_at && (is_owner u.role && not (is_owner role))
          then require_another_active_owner h s
          else ok tt)
        _ q1
        λ x c2 q2.
          subst (λ (r : HouseholdMember × AuthStore). HasOwner k r.1) (ok-injective q2)
            (keep k id u (record u { role = role; updated_at = now }) s (load-found h id s u c1).0
              has
              (guarded h k u (record u { role = role; updated_at = now }) s x
                (is_null u.disabled_at && (is_owner u.role && not (is_owner role)))
                (load-found h id s u c1).1 (λ e. ground arith) c2))

pub disable-keeps :
    (h id : ℤ) (now : Time) (s t : AuthStore) (m : HouseholdMember) (k : ℤ)
    → disable_household_member h id now s ≡ ok (m, t)
    → HasOwner k s
    → HasOwner k t
unfolding disable_household_member
disable-keeps h id now s t m k q has = bind_ok (check_ids h id) _ q λ _ c0 q0.
    bind_ok (load_household_member h id s) _ q0 λ u c1 q1.
      elim (Bool-cases (is_set u.disabled_at)) [
        | inl e ↦
            subst (λ (r : HouseholdMember × AuthStore). HasOwner k r.1) (ok-injective (rw e at q1))
              has
        | inr e ↦
            bind_ok (if is_owner u.role then require_another_active_owner h s else ok tt) _
              (rw e at q1)
              λ x c2 q2.
                subst (λ (r : HouseholdMember × AuthStore). HasOwner k r.1) (ok-injective q2)
                  (keep k id u (record u { disabled_at = some now; updated_at = now }) s
                    (load-found h id s u c1).0 has
                    (guarded h k u (record u { disabled_at = some now; updated_at = now }) s x
                      (is_owner u.role) (load-found h id s u c1).1 (λ f. ground arith) c2))
      ]

pub enable-keeps :
    (h id : ℤ) (now : Time) (s t : AuthStore) (m : HouseholdMember) (k : ℤ)
    → enable_household_member h id now s ≡ ok (m, t)
    → HasOwner k s
    → HasOwner k t
unfolding enable_household_member
enable-keeps h id now s t m k q has = bind_ok (check_ids h id) _ q λ _ c0 q0.
    bind_ok (load_household_member h id s) _ q0 λ u c1 q1.
      elim (Bool-cases (is_null u.disabled_at)) [
        | inl e ↦
            subst (λ (r : HouseholdMember × AuthStore). HasOwner k r.1) (ok-injective (rw e at q1))
              has
        | inr e ↦
            subst (λ (r : HouseholdMember × AuthStore). HasOwner k r.1) (ok-injective (rw e at q1))
              (keep k id u (record u { disabled_at = none; updated_at = now }) s
                (load-found h id s u c1).0 has (inl (ground arith)))
      ]

pub create-keeps :
    (id : ℤ) (now : Time) (h : ℤ) (username normalized hash : String) (role : Role)
    (s t : AuthStore) (m : HouseholdMember) (k : ℤ)
    → create_household_member id now h username normalized hash role s ≡ ok (m, t)
    → HasOwner k s
    → HasOwner k t
unfolding create_household_member
create-keeps id now h username normalized hash role s t m k q has =
    bind_ok (return_if (leb_ℤ h (pos 0)) id_not_positive) _ q λ _ c0 q0.
      bind_ok (return_if (is_empty normalized || is_empty hash) constraint_violation) _ q0
        λ _ c1 q1.
          bind_ok (return_if (has_username normalized s.users) username_exists) _ q1 λ _ c2 q2.
            bind_ok (return_if (is_some (lookup id s.users)) constraint_violation) _ q2 λ x c3 q3.
              subst (λ (r : HouseholdMember × AuthStore). HasOwner k r.1) (ok-injective q3)
                (grows k id (new_user h username normalized hash role now) s
                  (return_if_ok (is_some (lookup id s.users)) constraint_violation x c3) has)
