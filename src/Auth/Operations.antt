-- ===== src/Auth/Operations.antt =====
-- internal/auth/postgres_store.go and rbac_store.go: the calls of the store that the server makes,
-- each one transaction, and a run of them. The commands of maintenance.go are not among them.
use family_finance_os.Prelude.{String, Bool, Option, none, some, List, [], ◌∷◌, Result, ok, err}
use family_finance_os.Prelude.Int.{ℤ}
use family_finance_os.Prelude.Time.{Time}
use family_finance_os.Auth.{Role, User, Session, Challenge, AuthStore}
use family_finance_os.Auth.Members.{
  update_household_member_role, disable_household_member, enable_household_member,
  create_household_member,
}
use family_finance_os.Auth.Sessions.{touch_session, revoke_session, after_call}
use family_finance_os.Auth.Challenges.{
  create_or_get_admin_user, create_challenge, consume_challenge, complete_enrollment,
  complete_totp_login, complete_recovery_login,
}

pub data StoreCall : Type 0 where
  call_admin : ℤ → String → String → String → ℤ → StoreCall
  call_challenge : String → Challenge → StoreCall
  call_consume : String → StoreCall
  call_enrollment : String → ℤ → Session → List String → StoreCall
  call_totp : String → ℤ → Session → StoreCall
  call_recovery : String → String → Session → StoreCall
  call_touch call_revoke : String → StoreCall
  call_role : ℤ → ℤ → Role → StoreCall
  call_disable call_enable : ℤ → ℤ → StoreCall
  call_member : ℤ → ℤ → String → String → String → Role → StoreCall

-- The tables of an answer.
abbrev pub tables {ℓ} : {T : Type ℓ} → Result (T × AuthStore) → Result AuthStore
tables (err e) = err e
tables (ok (answer, s)) = ok s

abbrev pub admin_tables : Result (ℤ × User × Bool × AuthStore) → Result AuthStore
admin_tables (err e) = err e
admin_tables (ok (id, u, created, s)) = ok s

unfoldable pub apply : StoreCall → Time → AuthStore → Result AuthStore
unfolding create_or_get_admin_user create_challenge consume_challenge complete_enrollment
    complete_totp_login complete_recovery_login touch_session revoke_session
    update_household_member_role disable_household_member enable_household_member
    create_household_member
apply (call_admin id username normalized hash household_id) now s =
    admin_tables (create_or_get_admin_user id now username normalized hash household_id s)
apply (call_challenge token c) now s = create_challenge token c s
apply (call_consume token) now s = tables (consume_challenge token now s)
apply (call_enrollment token counter session hashes) now s =
    complete_enrollment token counter session hashes now s
apply (call_totp token counter session) now s = complete_totp_login token counter session now s
apply (call_recovery token hash session) now s = complete_recovery_login token hash session now s
apply (call_touch token) now s = touch_session token now s
apply (call_revoke token) now s = revoke_session token now s
apply (call_role household_id user_id role) now s =
    tables (update_household_member_role household_id user_id role now s)
apply (call_disable household_id user_id) now s =
    tables (disable_household_member household_id user_id now s)
apply (call_enable household_id user_id) now s =
    tables (enable_household_member household_id user_id now s)
apply (call_member id household_id username normalized hash role) now s =
    tables (create_household_member id now household_id username normalized hash role s)

-- Calls one after another, each at its time; one that fails is rolled back.
unfoldable pub run : List (Time × StoreCall) → AuthStore → AuthStore
unfolding apply
run [] s = s
run ((now, call) ∷ calls) s = run calls (after_call s (apply call now s))

-- The token of the challenge that a call consumes.
abbrev pub consumes : StoreCall → Option String
consumes (call_consume token) = some token
consumes (call_enrollment token _ _ _) = some token
consumes (call_totp token _ _) = some token
consumes (call_recovery token _ _) = some token
consumes _ = none
