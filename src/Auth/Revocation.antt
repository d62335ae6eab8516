-- ===== src/Auth/Revocation.antt =====
-- internal/auth/rbac_store.go and postgres_store.go: the sessions of a disabled member.
use family_finance_os.Prelude.{
  ◌≡◌, ◌≢◌, refl, sym, false, String, ℕ, Option, some, List, [], ◌∷◌, if◌then◌else◌, ◌&&◌, ◌||◌,
  not, leb, Result, ok, err, bind_ok, ok-injective, ◌∙◌, some-injective, or_err-ok, Bool-cases, inl,
  inr, return_if, or_err, invalid_member_input, id_not_positive, constraint_violation,
  username_exists, record_not_found,
}
use mathlib.Core.Path.{subst}
use family_finance_os.Prelude.Int.{ℤ, pos, leb_ℤ, eqb_ℤ}
use family_finance_os.Prelude.Time.{Time}
use family_finance_os.Prelude.Text.{is_empty, trim_space}
use family_finance_os.Prelude.Eq.{lookup}
use family_finance_os.Auth.{
  int_eq, eqb_ℤ_iff, Role, is_owner, parse_role, User, AuthStore, HouseholdMember, is_set, is_null,
}
use family_finance_os.Auth.Members.{
  check_ids, load_household_member, require_another_active_owner, disable_household_member,
  enable_household_member, update_household_member_role, create_household_member,
  service_create_household_member, service_update_household_member_role, is_some, has_username,
}
use family_finance_os.Auth.Owners.{load-found}
use family_finance_os.Auth.Requests.{
  Request, create, update_role, disable, enable, answer, serve, committed,
}
use family_finance_os.Auth.Sessions.{
  SessionView, find_session, get_session, AllRevoked, revoke-AllRevoked, revoke-keeps, find-open,
}

-- What a successful operation leaves of the sessions.
abbrev Closed : ℤ → AuthStore → Type 0
Closed id s = AllRevoked id s.sessions

update_role-Closed :
    (h id : ℤ) (role : Role) (now : Time) (s t : AuthStore) (m : HouseholdMember) (k : ℤ)
    → update_household_member_role h id role now s ≡ ok (m, t)
    → Closed k s
    → Closed k t
unfolding update_household_member_role
update_role-Closed h id role now s t m k q closed = bind_ok (check_ids h id) _ q λ _ c0 q0.
    bind_ok (load_household_member h id s) _ q0 λ u c1 q1.
      bind_ok
        (if is_null u.disabled_at && (is_owner u.role && not (is_owner role))
          then require_another_active_owner h s
          else ok tt)
        _ q1
        λ x c2 q2.
          subst (λ (r : HouseholdMember × AuthStore). Closed k r.1) (ok-injective q2) closed

disable-Closed :
    (h id : ℤ) (now : Time) (s t : AuthStore) (m : HouseholdMember) (k : ℤ)
    → disable_household_member h id now s ≡ ok (m, t)
    → Closed k s
    → Closed k t
unfolding disable_household_member
disable-Closed h id now s t m k q closed = bind_ok (check_ids h id) _ q λ _ c0 q0.
    bind_ok (load_household_member h id s) _ q0 λ u c1 q1.
      elim (Bool-cases (is_set u.disabled_at)) [
        | inl e ↦
            subst (λ (r : HouseholdMember × AuthStore). Closed k r.1) (ok-injective (rw e at q1))
              closed
        | inr e ↦
            bind_ok (if is_owner u.role then require_another_active_owner h s else ok tt) _
              (rw e at q1)
              λ x c2 q2.
                subst (λ (r : HouseholdMember × AuthStore). Closed k r.1) (ok-injective q2)
                  (revoke-keeps k id now s.sessions closed)
      ]

enable-Closed :
    (h id : ℤ) (now : Time) (s t : AuthStore) (m : HouseholdMember) (k : ℤ)
    → enable_household_member h id now s ≡ ok (m, t)
    → Closed k s
    → Closed k t
unfolding enable_household_member
enable-Closed h id now s t m k q closed = bind_ok (check_ids h id) _ q λ _ c0 q0.
    bind_ok (load_household_member h id s) _ q0 λ u c1 q1.
      elim (Bool-cases (is_null u.disabled_at)) [
        | inl e ↦
            subst (λ (r : HouseholdMember × AuthStore). Closed k r.1) (ok-injective (rw e at q1))
              closed
        | inr e ↦
            subst (λ (r : HouseholdMember × AuthStore). Closed k r.1) (ok-injective (rw e at q1))
              closed
      ]

create-Closed :
    (id : ℤ) (now : Time) (h : ℤ) (username normalized hash : String) (role : Role)
    (s t : AuthStore) (m : HouseholdMember) (k : ℤ)
    → create_household_member id now h username normalized hash role s ≡ ok (m, t)
    → Closed k s
    → Closed k t
unfolding create_household_member
create-Closed id now h username normalized hash role s t m k q closed =
    bind_ok (return_if (leb_ℤ h (pos 0)) id_not_positive) _ q λ _ c0 q0.
      bind_ok (return_if (is_empty normalized || is_empty hash) constraint_violation) _ q0
        λ _ c1 q1.
          bind_ok (return_if (has_username normalized s.users) username_exists) _ q1 λ _ c2 q2.
            bind_ok (return_if (is_some (lookup id s.users)) constraint_violation) _ q2 λ x c3 q3.
              subst (λ (r : HouseholdMember × AuthStore). Closed k r.1) (ok-injective q3) closed

same_row :
    (id : ℤ) (s : AuthStore) (u v : User)
    → lookup id s.users ≡ some u
    → is_set u.disabled_at ≡ false
    → lookup id s.users ≡ some v
    → is_set v.disabled_at ≡ false
same_row id s u v found active q =
    subst (λ w. is_set w.disabled_at ≡ false) (some-injective (sym found ∙ q)) active

-- A successful disabling of a member that was active.
disable-closes :
    (h id : ℤ) (now : Time) (s t : AuthStore) (m : HouseholdMember) (u : User)
    → lookup id s.users ≡ some u
    → is_set u.disabled_at ≡ false
    → disable_household_member h id now s ≡ ok (m, t)
    → Closed id t
unfolding disable_household_member load_household_member
disable-closes h id now s t m u found active q = bind_ok (check_ids h id) _ q λ _ c0 q0.
    bind_ok (load_household_member h id s) _ q0 λ v c1 q1.
      bind_ok (if is_owner v.role then require_another_active_owner h s else ok tt) _
        (rw (same_row id s u v found active (load-found h id s v c1).0) at q1)
        λ x c2 q2.
          subst (λ (r : HouseholdMember × AuthStore). Closed id r.1) (ok-injective q2)
            (revoke-AllRevoked id now s.sessions)

module _ (to_lower : String → String) (hash_password : String → Option String)
    (byte_length : String → ℕ) where
  answer-Closed :
      (r : Request) (s t : AuthStore) (m : HouseholdMember) (k : ℤ)
      → answer to_lower hash_password byte_length r s ≡ ok (m, t)
      → Closed k s
      → Closed k t
  unfolding answer service_create_household_member service_update_household_member_role
  answer-Closed (create id now h username password raw) s t m k q closed =
      let user = to_lower (trim_space (trim_space username)) in
      bind_ok
        (return_if (leb_ℤ h (pos 0) || (is_empty user || not (leb (byte_length user) 128)))
          invalid_member_input)
        _ q
        λ _ c0 q0.
          bind_ok (or_err invalid_member_input (parse_role to_lower raw)) _ q0 λ role c1 q1.
            bind_ok (or_err invalid_member_input (hash_password password)) _ q1 λ hash c2 q2.
              create-Closed id now h (trim_space username) user hash role s t m k q2 closed
  answer-Closed (update_role h id raw now) s t m k q closed =
      bind_ok (or_err invalid_member_input (parse_role to_lower raw)) _ q
        λ role c0 q0. update_role-Closed h id role now s t m k q0 closed
  answer-Closed (disable h id now) s t m k q closed = disable-Closed h id now s t m k q closed
  answer-Closed (enable h id now) s t m k q closed = enable-Closed h id now s t m k q closed

  committed-Closed :
      (a : Result (HouseholdMember × AuthStore)) (r : Request) (s : AuthStore) (k : ℤ)
      → answer to_lower hash_password byte_length r s ≡ a
      → Closed k s
      → Closed k (committed s a)
  committed-Closed (ok (m, t)) r s k q closed = answer-Closed r s t m k q closed
  committed-Closed (err e) r s k q closed = closed

  serve-Closed :
      (k : ℤ) (rs : List Request) (s : AuthStore)
      → Closed k s
      → Closed k (serve to_lower hash_password byte_length rs s)
  unfolding serve
  serve-Closed k [] s closed = closed
  serve-Closed k (r ∷ rs) s closed =
      let after_r = answer to_lower hash_password byte_length r s in
      serve-Closed k rs (committed s after_r) (committed-Closed after_r r s k refl closed)

get-Closed :
    (id : ℤ) (token : String) (now : Time) (s : AuthStore) (view : SessionView)
    → Closed id s
    → get_session token now s ≡ ok view
    → eqb_ℤ view.session.user_id id ≡ false
unfolding get_session
get-Closed id token now s view closed q =
    bind_ok (or_err record_not_found (find_session token now s.sessions)) _ q λ x c0 q0.
      bind_ok (or_err record_not_found (lookup x.user_id s.users)) _ q0 λ u c1 q1.
        elim (Bool-cases (is_null u.disabled_at)) [
          | inl e ↦
              subst (λ (v : SessionView). eqb_ℤ v.session.user_id id ≡ false)
                (ok-injective (rw e at q1))
                (find-open id token now s.sessions x closed
                  (or_err-ok record_not_found (find_session token now s.sessions) x c0))
          | inr e ↦ absurd (cc (rw e at q1))
        ]

-- Once an active member has been disabled, no token opens a session of that member at any time,
-- whatever requests on members follow, even requests that enable the member again.
pub disable-ends_sessions :
    (to_lower : String → String) (hash_password : String → Option String) (byte_length : String → ℕ)
    (h id : ℤ) (now later : Time) (s t : AuthStore) (m : HouseholdMember) (u : User)
    (rs : List Request) (token : String) (view : SessionView)
    → lookup id s.users ≡ some u
    → is_set u.disabled_at ≡ false
    → disable_household_member h id now s ≡ ok (m, t)
    → get_session token later (serve to_lower hash_password byte_length rs t) ≡ ok view
    → view.session.user_id ≢ id
disable-ends_sessions to_lower hash byte_length h id now later s t m u rs token view found active q
      opened same =
    cc (
      get-Closed id token later (serve to_lower hash byte_length rs t) view
          (serve-Closed to_lower hash byte_length id rs t
            (disable-closes h id now s t m u found active q))
          opened,
      (eqb_ℤ_iff view.session.user_id id).1 same,
    )
