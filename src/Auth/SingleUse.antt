-- ===== src/Auth/SingleUse.antt =====
-- internal/auth/postgres_store.go: a challenge that is completed again, whatever calls of the store
-- come between.
use family_finance_os.Prelude.{◌≡◌, String, some, List, ok, err, some-injective, record_not_found}
use mathlib.Core.Path.{subst}
use family_finance_os.Prelude.Time.{Time}
use family_finance_os.Prelude.Eq.{string_eq}
use family_finance_os.Auth.{int_eq, AuthStore}
use family_finance_os.Auth.Challenges.{
  get_challenge, consume_kind, complete_totp_login, complete_recovery_login, complete_enrollment,
  consume_challenge,
}
use family_finance_os.Auth.Operations.{
  StoreCall, call_admin, call_challenge, call_consume, call_enrollment, call_totp, call_recovery,
  call_touch, call_revoke, call_role, call_disable, call_enable, call_member, apply, run, consumes,
}
use family_finance_os.Auth.Completions.{
  Done, complete_totp_login-Done, complete_recovery_login-Done, complete_enrollment-Done,
  consume_challenge-Done, Spent-refused,
}
use family_finance_os.Auth.Runs.{tables_ok, run-Evolves}

-- The same token, under the name that the call has for it.
renamed :
    (other token : String) (s t : AuthStore)
    → some other ≡ some token
    → Done other s t
    → Done token s t
renamed other token s t h d = subst (λ (x : String). Done x s t) (some-injective h) d

apply-Done :
    (call : StoreCall) (token : String) (now : Time) (s t : AuthStore)
    → consumes call ≡ some token
    → apply call now s ≡ ok t
    → Done token s t
unfolding apply
apply-Done (call_consume other) token now s t h q =
    let a = tables_ok _ t q in
    renamed other token s t h (consume_challenge-Done other now s t a.0 a.1)
apply-Done (call_enrollment other counter x hashes) token now s t h q =
    renamed other token s t h (complete_enrollment-Done other counter x hashes now s t q)
apply-Done (call_totp other counter x) token now s t h q =
    renamed other token s t h (complete_totp_login-Done other counter x now s t q)
apply-Done (call_recovery other hash x) token now s t h q =
    renamed other token s t h (complete_recovery_login-Done other hash x now s t q)
apply-Done (call_admin _ _ _ _ _) token now s t h q = absurd (cc)
apply-Done (call_challenge _ _) token now s t h q = absurd (cc)
apply-Done (call_touch _) token now s t h q = absurd (cc)
apply-Done (call_revoke _) token now s t h q = absurd (cc)
apply-Done (call_role _ _ _) token now s t h q = absurd (cc)
apply-Done (call_disable _ _) token now s t h q = absurd (cc)
apply-Done (call_enable _ _) token now s t h q = absurd (cc)
apply-Done (call_member _ _ _ _ _ _) token now s t h q = absurd (cc)

apply_refused :
    (call : StoreCall) (token : String) (now : Time) (s : AuthStore)
    → consumes call ≡ some token
    → get_challenge token now s ≡ err record_not_found
    → apply call now s ≡ err record_not_found
unfolding apply
apply_refused (call_consume other) token now s h q = rw (consume_challenge, some-injective h, q)
apply_refused (call_enrollment other counter x hashes) token now s h q =
    rw (complete_enrollment, consume_kind, some-injective h, q)
apply_refused (call_totp other counter x) token now s h q =
    rw (complete_totp_login, consume_kind, some-injective h, q)
apply_refused (call_recovery other hash x) token now s h q =
    rw (complete_recovery_login, consume_kind, some-injective h, q)
apply_refused (call_admin _ _ _ _ _) token now s h q = absurd (cc)
apply_refused (call_challenge _ _) token now s h q = absurd (cc)
apply_refused (call_touch _) token now s h q = absurd (cc)
apply_refused (call_revoke _) token now s h q = absurd (cc)
apply_refused (call_role _ _ _) token now s h q = absurd (cc)
apply_refused (call_disable _ _) token now s h q = absurd (cc)
apply_refused (call_enable _ _) token now s h q = absurd (cc)
apply_refused (call_member _ _ _ _ _ _) token now s h q = absurd (cc)

-- A challenge is used once: after a call that consumed it, no other call that consumes it succeeds,
-- whatever calls of the store come between.
pub apply_once :
    (first second : StoreCall) (token : String) (now later : Time) (calls : List (Time × StoreCall))
    (s t : AuthStore)
    → consumes first ≡ some token
    → consumes second ≡ some token
    → apply first now s ≡ ok t
    → apply second later (run calls t) ≡ err record_not_found
apply_once first second token now later calls s t f g q =
    apply_refused second token later (run calls t) g (
      Spent-refused token later (run calls t)
        ((run-Evolves calls t).spent token (apply-Done first token now s t f q).1))
