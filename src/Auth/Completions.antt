-- ===== src/Auth/Completions.antt =====
-- internal/auth/postgres_store.go: what the calls on challenges, and so logins, keep.
use family_finance_os.Prelude.{
  ◌≡◌, refl, ap, arith, Bool, true, false, not, ◌&&◌, String, Option, some, List, ok, err, bind_ok,
  or_err, or_err-ok, ok-injective, return_if, return_if_ok, record_not_found, no_pending_secret,
  constraint_violation,
}
use mathlib.Core.Path.{subst}
use family_finance_os.Prelude.Int.{ℤ}
use family_finance_os.Prelude.Time.{Time}
use family_finance_os.Prelude.Text.{is_empty}
use family_finance_os.Prelude.Eq.{lookup, lookup-insert, string_eq}
use family_finance_os.Auth.{
  int_eq, User, Session, Challenge, ChallengeKind, challenge_login, challenge_totp_enrollment,
  AuthStore, is_set, is_null,
}
use family_finance_os.Auth.Members.{is_some}
use family_finance_os.Auth.Owners.{not_some}
use family_finance_os.Auth.Evolution.{
  Grows, Spent, Evolves, Evolves-same, Evolves-trans, Evolves-store_user, Evolves-store_consumed,
  Evolves-new_challenge,
}
use family_finance_os.Auth.Challenges.{
  get_challenge, of_kind, consume_kind, store_consumed, is_newer, advance_counter, enroll_user,
  insert_session, has_token, insert_recovery_codes, delete_codes, consume_recovery_code,
  complete_totp_login, complete_recovery_login, complete_enrollment, create_challenge,
  consume_challenge,
}

-- A call that consumed a challenge.
abbrev pub Done : String → AuthStore → AuthStore → Type 0
Done token s t = Evolves s t × Spent token t.challenges

then_Evolves : (token : String) (s r t : AuthStore) → Done token s r → Evolves r t → Done token s t
then_Evolves token s r t d f = (Evolves-trans s r t d.0 f, f.spent token d.1)

store_consumed-Done :
    (token : String) (now : Time) (c : Challenge) (s : AuthStore)
    → Done token s (store_consumed token now c s)
store_consumed-Done token now c s = (
  Evolves-store_consumed token now c s,
  (
    record c { consumed_at = some now },
    rw (
      lookup-insert token token (record c { consumed_at = some now }) s.challenges,
      (string_eq.beq_iff token token).1 refl,
    ),
    refl,
  ),
)

consume_kind-Done :
    (kind : ChallengeKind) (token : String) (now : Time) (s t : AuthStore) (c : Challenge)
    → consume_kind kind token now s ≡ ok (c, t)
    → Done token s t
unfolding consume_kind
consume_kind-Done kind token now s t c q = bind_ok (get_challenge token now s) _ q λ d _ q1.
    bind_ok (of_kind kind d) _ q1 λ d' _ q2.
      subst (λ (x : AuthStore). Done token s x)
        (ap (λ (x : Challenge × AuthStore). x.1) (ok-injective q2))
        (store_consumed-Done token now d' s)

pub insert_session-Evolves :
    (x : Session) (s t : AuthStore) → insert_session x s ≡ ok t → Evolves s t
unfolding insert_session
insert_session-Evolves x s t q =
    bind_ok (return_if (has_token x.token_hash s.sessions) constraint_violation) _ q λ _ _ q1.
      subst (λ (y : AuthStore). Evolves s y) (ok-injective q1) (Evolves-same s _ refl refl)

advanced :
    (u : User) (counter : ℤ) (now : Time)
    → is_newer u.totp_last_counter counter ≡ true
    → Grows u (record u { totp_last_counter = some counter; updated_at = now })
advanced u counter now h = record { enrolled = λ p. p; counter = λ p c q. ground (arith, h, q) }

pub all_true : (a b c : Bool) → not (a && (b && c)) ≡ false → (a ≡ true) × (b ≡ true) × (c ≡ true)
all_true a b c h = ground arith

not_set : (a : Bool) (x : Option Time) → not (a && is_null x) ≡ false → is_set x ≡ false
not_set a x h = ground arith

advance_counter-Evolves :
    (id counter : ℤ) (now : Time) (s t : AuthStore)
    → advance_counter id counter now s ≡ ok t
    → Evolves s t
unfolding advance_counter
advance_counter-Evolves id counter now s t q =
    bind_ok (or_err record_not_found (lookup id s.users)) _ q λ u f q1.
      bind_ok
        (return_if
          (not (
            is_null u.disabled_at
            && (is_set u.totp_enrolled_at && is_newer u.totp_last_counter counter)))
          record_not_found)
        _ q1
        λ r g q2.
          subst (λ (x : AuthStore). Evolves s x) (ok-injective q2)
            (Evolves-store_user id u _ s (or_err-ok record_not_found (lookup id s.users) u f)
              (advanced u counter now (all_true _ _ _ (return_if_ok _ record_not_found r g)).2))

enroll_user-Evolves :
    (id counter : ℤ) (secret : String) (now : Time) (s t : AuthStore)
    → enroll_user id secret counter now s ≡ ok t
    → Evolves s t
unfolding enroll_user
enroll_user-Evolves id counter secret now s t q =
    bind_ok (or_err record_not_found (lookup id s.users)) _ q λ u f q1.
      bind_ok
        (return_if (not (is_null u.disabled_at && is_null u.totp_enrolled_at)) record_not_found) _
        q1
        λ r g q2.
          subst (λ (x : AuthStore). Evolves s x) (ok-injective q2)
            (Evolves-store_user id u _ s (or_err-ok record_not_found (lookup id s.users) u f)
              (record {
                enrolled = λ _. refl;
                counter = λ p c h.
                    absurd
                      (cc (p, not_set _ u.totp_enrolled_at (return_if_ok _ record_not_found r g)));
              }))

pub complete_totp_login-Done :
    (token : String) (counter : ℤ) (x : Session) (now : Time) (s t : AuthStore)
    → complete_totp_login token counter x now s ≡ ok t
    → Done token s t
unfolding complete_totp_login
complete_totp_login-Done token counter x now s t q =
    bind_ok (consume_kind challenge_login token now s) _ q λ r f q1.
      bind_ok (advance_counter r.0.user_id counter now r.1) _ q1 λ s2 g q2.
        then_Evolves token s r.1 t (consume_kind-Done challenge_login token now s r.1 r.0 f) (
          Evolves-trans r.1 s2 t (advance_counter-Evolves r.0.user_id counter now r.1 s2 g)
            (insert_session-Evolves (record x { user_id = r.0.user_id }) s2 t q2))

pub complete_recovery_login-Done :
    (token hash : String) (x : Session) (now : Time) (s t : AuthStore)
    → complete_recovery_login token hash x now s ≡ ok t
    → Done token s t
unfolding complete_recovery_login consume_recovery_code
complete_recovery_login-Done token hash x now s t q =
    bind_ok (consume_kind challenge_login token now s) _ q λ r f q1.
      let used = consume_recovery_code r.0.user_id hash now r.1 in
      bind_ok (return_if (not used.0) record_not_found) _ q1 λ _ _ q2.
        then_Evolves token s r.1 t (consume_kind-Done challenge_login token now s r.1 r.0 f) (
          Evolves-trans r.1 used.1 t (Evolves-same r.1 used.1 refl refl)
            (insert_session-Evolves (record x { user_id = r.0.user_id }) used.1 t q2))

pub complete_enrollment-Done :
    (token : String) (counter : ℤ) (x : Session) (hashes : List String) (now : Time)
    (s t : AuthStore)
    → complete_enrollment token counter x hashes now s ≡ ok t
    → Done token s t
unfolding complete_enrollment
complete_enrollment-Done token counter x hashes now s t q =
    bind_ok (consume_kind challenge_totp_enrollment token now s) _ q λ r f q1.
      bind_ok (return_if (is_empty r.0.pending_totp_secret_ciphertext) no_pending_secret) _ q1
        λ _ _ q2.
          bind_ok (enroll_user r.0.user_id r.0.pending_totp_secret_ciphertext counter now r.1) _ q2
            λ s2 g q3.
              bind_ok
                (insert_recovery_codes r.0.user_id hashes
                  (delete_codes r.0.user_id s2.recovery_codes))
                _ q3
                λ codes _ q4.
                  then_Evolves token s r.1 t
                    (consume_kind-Done challenge_totp_enrollment token now s r.1 r.0 f)
                    (Evolves-trans r.1 s2 t
                      (enroll_user-Evolves r.0.user_id counter r.0.pending_totp_secret_ciphertext
                        now r.1 s2 g)
                      (Evolves-trans s2 (record s2 { recovery_codes = codes }) t
                        (Evolves-same s2 _ refl refl)
                        (insert_session-Evolves (record x { user_id = r.0.user_id })
                          (record s2 { recovery_codes = codes }) t q4)))

pub consume_challenge-Done :
    (token : String) (now : Time) (s t : AuthStore) (c : Challenge)
    → consume_challenge token now s ≡ ok (c, t)
    → Done token s t
unfolding consume_challenge
consume_challenge-Done token now s t c q = bind_ok (get_challenge token now s) _ q λ d _ q1.
    subst (λ (x : AuthStore). Done token s x)
      (ap (λ (x : Challenge × AuthStore). x.1) (ok-injective q1))
      (store_consumed-Done token now d s)

pub create_challenge-Evolves :
    (token : String) (c : Challenge) (s t : AuthStore)
    → create_challenge token c s ≡ ok t
    → Evolves s t
unfolding create_challenge
create_challenge-Evolves token c s t q =
    bind_ok (return_if (is_some (lookup token s.challenges)) constraint_violation) _ q λ x f q1.
      subst (λ (x : AuthStore). Evolves s x) (ok-injective q1)
        (Evolves-new_challenge token _ s
          (not_some (lookup token s.challenges) (return_if_ok _ constraint_violation x f)))

-- A challenge that was consumed is not found.
pub Spent-refused :
    (token : String) (now : Time) (s : AuthStore)
    → Spent token s.challenges
    → get_challenge token now s ≡ err record_not_found
unfolding get_challenge
Spent-refused token now s (c, f, h) = rw (f, h)
