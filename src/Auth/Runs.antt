-- ===== src/Auth/Runs.antt =====
-- internal/auth/postgres_store.go and rbac_store.go: what a run of the store's calls keeps.
use family_finance_os.Prelude.{
  ◌≡◌, inl, inr, refl, Bool, String, List, [], ◌∷◌, Result, ok, err, ok-injective, Bool-cases, ℕ,
  ◌==◌,
}
use mathlib.Core.Path.{subst}
use family_finance_os.Prelude.Int.{ℤ}
use family_finance_os.Prelude.Time.{Time}
use family_finance_os.Prelude.Eq.{string_eq}
use family_finance_os.Auth.{int_eq, User, Session, AuthStore}
use family_finance_os.Auth.Sessions.{touch_session, revoke_session, if_affected, after_call}
use family_finance_os.Auth.Operations.{
  StoreCall, call_admin, call_challenge, call_consume, call_enrollment, call_totp, call_recovery,
  call_touch, call_revoke, call_role, call_disable, call_enable, call_member, tables, admin_tables,
  apply, run,
}
use family_finance_os.Auth.Evolution.{Evolves, Evolves-same, Evolves-trans}
use family_finance_os.Auth.Completions.{
  complete_totp_login-Done, complete_recovery_login-Done, complete_enrollment-Done,
  consume_challenge-Done, create_challenge-Evolves,
}
use family_finance_os.Auth.Membership.{
  update_role-Evolves, disable-Evolves, enable-Evolves, create-Evolves, admin-Evolves,
}

pub tables_ok {ℓ} :
    {T : Type ℓ} (r : Result (T × AuthStore)) (t : AuthStore)
    → tables r ≡ ok t
    → (answer : T) × (r ≡ ok (answer, t))
tables_ok (err e) t q = cc
tables_ok (ok (answer, s)) t q = (answer, rw (ok-injective q))

admin_tables_ok :
    (r : Result (ℤ × User × Bool × AuthStore)) (t : AuthStore)
    → admin_tables r ≡ ok t
    → (a : ℤ × User × Bool × AuthStore) × (r ≡ ok a) × (a.3 ≡ t)
admin_tables_ok (err e) t q = cc
admin_tables_ok (ok a) t q = (a, refl, ok-injective q)

if_affected-Evolves :
    (s t : AuthStore) (r : ℕ × List Session) → if_affected s r ≡ ok t → Evolves s t
if_affected-Evolves s t (count, sessions) q = elim (Bool-cases (count == 0)) [
  | inl none_found ↦ absurd (cc (rw none_found at q))
  | inr found ↦
      subst (λ (x : AuthStore). Evolves s x) (ok-injective (rw found at q))
        (Evolves-same s _ refl refl)
]

touch_session-Evolves :
    (token : String) (now : Time) (s t : AuthStore) → touch_session token now s ≡ ok t → Evolves s t
unfolding touch_session
touch_session-Evolves token now s t q = if_affected-Evolves s t _ q

revoke_session-Evolves :
    (token : String) (now : Time) (s t : AuthStore)
    → revoke_session token now s ≡ ok t
    → Evolves s t
unfolding revoke_session
revoke_session-Evolves token now s t q = if_affected-Evolves s t _ q

apply-Evolves :
    (call : StoreCall) (now : Time) (s t : AuthStore) → apply call now s ≡ ok t → Evolves s t
unfolding apply
apply-Evolves (call_admin id username normalized hash h) now s t q =
    let a = admin_tables_ok _ t q in
    subst (λ (x : AuthStore). Evolves s x) a.2
      (admin-Evolves id now username normalized hash h s a.0 a.1)
apply-Evolves (call_challenge token c) now s t q = create_challenge-Evolves token c s t q
apply-Evolves (call_consume token) now s t q =
    let a = tables_ok _ t q in (consume_challenge-Done token now s t a.0 a.1).0
apply-Evolves (call_enrollment token counter x hashes) now s t q =
    (complete_enrollment-Done token counter x hashes now s t q).0
apply-Evolves (call_totp token counter x) now s t q =
    (complete_totp_login-Done token counter x now s t q).0
apply-Evolves (call_recovery token hash x) now s t q =
    (complete_recovery_login-Done token hash x now s t q).0
apply-Evolves (call_touch token) now s t q = touch_session-Evolves token now s t q
apply-Evolves (call_revoke token) now s t q = revoke_session-Evolves token now s t q
apply-Evolves (call_role h id role) now s t q =
    let a = tables_ok _ t q in update_role-Evolves h id role now s t a.0 a.1
apply-Evolves (call_disable h id) now s t q =
    let a = tables_ok _ t q in disable-Evolves h id now s t a.0 a.1
apply-Evolves (call_enable h id) now s t q =
    let a = tables_ok _ t q in enable-Evolves h id now s t a.0 a.1
apply-Evolves (call_member id h username normalized hash role) now s t q =
    let a = tables_ok _ t q in create-Evolves id now h username normalized hash role s t a.0 a.1

after_call-Evolves :
    (s : AuthStore) (r : Result AuthStore)
    → ((t : AuthStore) → r ≡ ok t → Evolves s t)
    → Evolves s (after_call s r)
after_call-Evolves s (err e) f = Evolves-same s s refl refl
after_call-Evolves s (ok t) f = f t refl

pub run-Evolves : (calls : List (Time × StoreCall)) (s : AuthStore) → Evolves s (run calls s)
unfolding run
run-Evolves [] s = Evolves-same s s refl refl
run-Evolves ((now, call) ∷ calls) s =
    let t = after_call s (apply call now s) in
    Evolves-trans s t (run calls t)
      (after_call-Evolves s (apply call now s) (apply-Evolves call now s)) (run-Evolves calls t)
