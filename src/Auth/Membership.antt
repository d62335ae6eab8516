-- ===== src/Auth/Membership.antt =====
-- internal/auth/rbac_store.go and postgres_store.go: what the calls that write users keep.
use family_finance_os.Prelude.{
  ◌≡◌, inl, inr, refl, Bool, not, ◌&&◌, ◌||◌, String, Option, none, some, ok, bind_ok, ok-injective,
  return_if, return_if_ok, Bool-cases, if◌then◌else◌, username_exists, constraint_violation,
  id_not_positive,
}
use mathlib.Core.Path.{subst}
use family_finance_os.Prelude.Int.{ℤ, pos, leb_ℤ}
use family_finance_os.Prelude.Time.{Time}
use family_finance_os.Prelude.Text.{is_empty}
use family_finance_os.Prelude.Eq.{lookup}
use family_finance_os.Auth.{
  int_eq, Role, is_owner, User, AuthStore, HouseholdMember, is_set, is_null,
}
use family_finance_os.Auth.Members.{
  check_ids, require_another_active_owner, load_household_member, update_household_member_role,
  disable_household_member, enable_household_member, create_household_member, has_username, is_some,
  store_user, revoke_user_sessions,
}
use family_finance_os.Auth.Owners.{load-found, not_some}
use family_finance_os.Auth.Challenges.{
  create_or_get, create_or_get_admin_user, find_username, new_admin,
}
use family_finance_os.Auth.Evolution.{
  Evolves, Evolves-same, Evolves-trans, Evolves-store_user, Evolves-add_user,
}

-- A write of other columns than the second factor's.
other_columns :
    (h id : ℤ) (u v : User) (s : AuthStore)
    → load_household_member h id s ≡ ok u
    → v.totp_enrolled_at ≡ u.totp_enrolled_at
    → v.totp_last_counter ≡ u.totp_last_counter
    → Evolves s (store_user id v s)
other_columns h id u v s q p r =
    Evolves-store_user id u v s (load-found h id s u q).0
      (record { enrolled = λ e. rw (p, e); counter = λ _ c e. rw (r, e) })

pub update_role-Evolves :
    (h id : ℤ) (role : Role) (now : Time) (s t : AuthStore) (m : HouseholdMember)
    → update_household_member_role h id role now s ≡ ok (m, t)
    → Evolves s t
unfolding update_household_member_role
update_role-Evolves h id role now s t m q = bind_ok (check_ids h id) _ q λ _ _ q0.
    bind_ok (load_household_member h id s) _ q0 λ u f q1.
      bind_ok
        (if is_null u.disabled_at && (is_owner u.role && not (is_owner role))
          then require_another_active_owner h s
          else ok tt)
        _ q1
        λ _ _ q2.
          subst (λ (r : HouseholdMember × AuthStore). Evolves s r.1) (ok-injective q2)
            (other_columns h id u (record u { role = role; updated_at = now }) s f refl refl)

-- The same where the sessions are revoked too.
disabled_kept :
    (h id : ℤ) (u v : User) (now : Time) (s : AuthStore)
    → load_household_member h id s ≡ ok u
    → v.totp_enrolled_at ≡ u.totp_enrolled_at
    → v.totp_last_counter ≡ u.totp_last_counter
    → Evolves s (record (store_user id v s) { sessions = revoke_user_sessions id now s.sessions })
disabled_kept h id u v now s f p r =
    Evolves-trans s (store_user id v s) _ (other_columns h id u v s f p r)
      (Evolves-same (store_user id v s) _ refl refl)

pub disable-Evolves :
    (h id : ℤ) (now : Time) (s t : AuthStore) (m : HouseholdMember)
    → disable_household_member h id now s ≡ ok (m, t)
    → Evolves s t
unfolding disable_household_member
disable-Evolves h id now s t m q = bind_ok (check_ids h id) _ q λ _ _ q0.
    bind_ok (load_household_member h id s) _ q0 λ u f q1. elim (Bool-cases (is_set u.disabled_at)) [
      | inl e ↦
          subst (λ (r : HouseholdMember × AuthStore). Evolves s r.1) (ok-injective (rw e at q1))
            (Evolves-same s s refl refl)
      | inr e ↦
          bind_ok (if is_owner u.role then require_another_active_owner h s else ok tt) _
            (rw e at q1)
            λ _ _ q2.
              subst (λ (r : HouseholdMember × AuthStore). Evolves s r.1) (ok-injective q2)
                (disabled_kept h id u (record u { disabled_at = some now; updated_at = now }) now s
                  f refl refl)
    ]

pub enable-Evolves :
    (h id : ℤ) (now : Time) (s t : AuthStore) (m : HouseholdMember)
    → enable_household_member h id now s ≡ ok (m, t)
    → Evolves s t
unfolding enable_household_member
enable-Evolves h id now s t m q = bind_ok (check_ids h id) _ q λ _ _ q0.
    bind_ok (load_household_member h id s) _ q0 λ u f q1.
      elim (Bool-cases (is_null u.disabled_at)) [
        | inl e ↦
            subst (λ (r : HouseholdMember × AuthStore). Evolves s r.1) (ok-injective (rw e at q1))
              (Evolves-same s s refl refl)
        | inr e ↦
            subst (λ (r : HouseholdMember × AuthStore). Evolves s r.1) (ok-injective (rw e at q1))
              (other_columns h id u (record u { disabled_at = none; updated_at = now }) s f refl
                refl)
      ]

pub create-Evolves :
    (id : ℤ) (now : Time) (h : ℤ) (username normalized hash : String) (role : Role)
    (s t : AuthStore) (m : HouseholdMember)
    → create_household_member id now h username normalized hash role s ≡ ok (m, t)
    → Evolves s t
unfolding create_household_member
create-Evolves id now h username normalized hash role s t m q =
    bind_ok (return_if (leb_ℤ h (pos 0)) id_not_positive) _ q λ _ _ q0.
      bind_ok (return_if (is_empty normalized || is_empty hash) constraint_violation) _ q0 λ _ _ q1.
        bind_ok (return_if (has_username normalized s.users) username_exists) _ q1 λ _ _ q2.
          bind_ok (return_if (is_some (lookup id s.users)) constraint_violation) _ q2 λ x f q3.
            subst (λ (r : HouseholdMember × AuthStore). Evolves s r.1) (ok-injective q3)
              (Evolves-add_user id _ s (
                not_some (lookup id s.users)
                  (return_if_ok (is_some (lookup id s.users)) constraint_violation x f)))

admin_row-Evolves :
    (id : ℤ) (u : User) (s : AuthStore) (found : Option (ℤ × User))
    (r : ℤ × User × Bool × AuthStore)
    → create_or_get id u s found ≡ ok r
    → Evolves s r.3
admin_row-Evolves id u s none r q =
    bind_ok (return_if (is_some (lookup id s.users)) constraint_violation) _ q λ x f q1.
      subst (λ (x : ℤ × User × Bool × AuthStore). Evolves s x.3) (ok-injective q1)
        (Evolves-add_user id u s (
          not_some (lookup id s.users)
            (return_if_ok (is_some (lookup id s.users)) constraint_violation x f)))
admin_row-Evolves id u s (some (old_id, old)) r q =
    subst (λ (x : ℤ × User × Bool × AuthStore). Evolves s x.3) (ok-injective q)
      (Evolves-same s s refl refl)

pub admin-Evolves :
    (id : ℤ) (now : Time) (username normalized hash : String) (h : ℤ) (s : AuthStore)
    (r : ℤ × User × Bool × AuthStore)
    → create_or_get_admin_user id now username normalized hash h s ≡ ok r
    → Evolves s r.3
unfolding create_or_get_admin_user
admin-Evolves id now username normalized hash h s r q =
    admin_row-Evolves id (new_admin username normalized hash h now) s
      (find_username normalized s.users) r q
