-- ===== src/Auth/Challenged.antt =====
-- internal/auth/service.go: what the first step of a login leaves.
use family_finance_os.Prelude.{
  ◌≡◌, ◌⊎◌, inl, inr, refl, arith, Bool, true, false, not, ◌||◌, String, Option, none, some, ok,
  return_if, return_if_ok, or_err, or_err-ok, bind_ok, ok-injective, Bool-cases,
  invalid_credentials, secret_box, record_not_found, constraint_violation,
}
use mathlib.Core.Path.{subst}
use family_finance_os.Prelude.Int.{ℤ}
use family_finance_os.Prelude.Time.{Time, before, after, add_time}
use family_finance_os.Prelude.Text.{is_empty}
use family_finance_os.Prelude.Eq.{lookup, lookup-insert, string_eq}
use family_finance_os.Auth.{
  User, Challenge, challenge_login, challenge_totp_enrollment, AuthStore, is_null, is_set,
}
use family_finance_os.Auth.Members.{is_some}
use family_finance_os.Auth.Challenges.{
  find_username, get_user_by_normalized_username, create_challenge, get_challenge,
}
use family_finance_os.Auth.Login.{
  Crypto, Random, LoginResult, enroll_totp, verify_totp_step, challenge_ttl, not_found_as,
  not_found_as_ok, normalize_username, new_challenge, secret_of, begin_login,
}

create_challenge-get_challenge :
    (token : String) (c : Challenge) (later : Time) (s t : AuthStore)
    → create_challenge token c s ≡ ok t
    → after c.expires_at later ≡ true
    → get_challenge token later t ≡ ok (record c { consumed_at = none })
unfolding create_challenge get_challenge
create_challenge-get_challenge token c later s t q h =
    bind_ok (return_if (is_some (lookup token s.challenges)) constraint_violation) _ q λ _ _ q1.
      subst (λ (x : AuthStore). get_challenge token later x ≡ ok (record c { consumed_at = none }))
        (ok-injective q1)
        (rw (
          lookup-insert token token (record c { consumed_at = none }) s.challenges,
          (string_eq.beq_iff token token).1 refl,
          h,
        ))

allowed :
    (a : Bool) (x : Option Time) → (not a || is_set x) ≡ false → (a ≡ true) × (is_null x ≡ true)
allowed a x h = ground (arith, h)

module _ (C : Crypto) where
  open C use {hash_token, verify_password, seal}

  -- An active user with that password, and a challenge of theirs that the token of the answer
  -- opens: to enrol if the second factor is not set up, to log in if it is.
  pub record Challenged (username password : String) (later : Time) (s : AuthStore)
      (result : LoginResult) (t : AuthStore) : Type 0 where
    pub id : ℤ
    pub user : User
    pub challenge : Challenge
    pub known : find_username (normalize_username C username) s.users ≡ some (id, user)
    pub password_ok : verify_password user.password_hash password ≡ true
    pub active : is_null user.disabled_at ≡ true
    pub opened : get_challenge (hash_token result.challenge_token) later t ≡ ok challenge
    pub of_user : challenge.user_id ≡ id
    pub step :
        ((result.step ≡ enroll_totp)
          × (challenge.kind ≡ challenge_totp_enrollment)
          × ((is_null user.totp_enrolled_at || is_empty (secret_of user)) ≡ true))
        ⊎ ((result.step ≡ verify_totp_step)
            × (challenge.kind ≡ challenge_login)
            × ((is_null user.totp_enrolled_at || is_empty (secret_of user)) ≡ false))

  found_ok :
      (name : String) (s : AuthStore) (u : ℤ × User)
      → not_found_as invalid_credentials (get_user_by_normalized_username name s) ≡ ok u
      → find_username name s.users ≡ some u
  found_ok name s u q =
      or_err-ok record_not_found (find_username name s.users) u
        (not_found_as_ok invalid_credentials (get_user_by_normalized_username name s) u q)

  -- The first step of a login that succeeds knew an active user with that password. For five
  -- minutes the token it answers with opens a challenge of that user: to log in if the second factor
  -- is set up, to set it up if not.
  pub begin_login-Challenged :
      (r : Random) (username password : String) (now later : Time) (s t : AuthStore)
      (result : LoginResult)
      → begin_login C r username password now s ≡ ok (result, t)
      → before later (add_time now challenge_ttl) ≡ true
      → Challenged username password later s result t
  unfolding begin_login
  begin_login-Challenged r username password now later s t result q h =
      let name = normalize_username C username in
      bind_ok (return_if (is_empty name) invalid_credentials) _ q λ _ _ q1.
        bind_ok (not_found_as invalid_credentials (get_user_by_normalized_username name s)) _ q1
          λ u f q2.
            bind_ok
              (return_if
                (not (verify_password u.1.password_hash password) || is_set u.1.disabled_at)
                invalid_credentials)
              _ q2
              λ v g q3.
                elim (Bool-cases (is_null u.1.totp_enrolled_at || is_empty (secret_of u.1))) [
                  | inl enroll ↦
                      bind_ok (or_err secret_box (seal r.totp_secret)) _ (rw enroll at q3)
                        λ sealed _ q4.
                          bind_ok
                            (create_challenge (hash_token r.challenge_token)
                              (new_challenge C u.0 challenge_totp_enrollment sealed now) s)
                            _ q4
                            λ s' k q5.
                              subst
                                (λ (x : LoginResult × AuthStore).
                                  Challenged username password later s x.0 x.1)
                                (ok-injective q5)
                                (record {
                                  id = u.0;
                                  user = u.1;
                                  challenge =
                                      new_challenge C u.0 challenge_totp_enrollment sealed now;
                                  known = found_ok name s u f;
                                  password_ok =
                                      (allowed _ u.1.disabled_at
                                        (return_if_ok _ invalid_credentials v g)).0;
                                  active =
                                      (allowed _ u.1.disabled_at
                                        (return_if_ok _ invalid_credentials v g)).1;
                                  opened =
                                      create_challenge-get_challenge (hash_token r.challenge_token)
                                        (new_challenge C u.0 challenge_totp_enrollment sealed now)
                                        later s s' k h;
                                  of_user = refl;
                                  step = inl (refl, refl, enroll);
                                })
                  | inr verify ↦
                      bind_ok
                        (create_challenge (hash_token r.challenge_token)
                          (new_challenge C u.0 challenge_login "" now) s)
                        _ (rw verify at q3)
                        λ s' k q5.
                          subst
                            (λ (x : LoginResult × AuthStore).
                              Challenged username password later s x.0 x.1)
                            (ok-injective q5)
                            (record {
                              id = u.0;
                              user = u.1;
                              challenge = new_challenge C u.0 challenge_login "" now;
                              known = found_ok name s u f;
                              password_ok =
                                  (allowed _ u.1.disabled_at
                                    (return_if_ok _ invalid_credentials v g)).0;
                              active =
                                  (allowed _ u.1.disabled_at
                                    (return_if_ok _ invalid_credentials v g)).1;
                              opened =
                                  create_challenge-get_challenge (hash_token r.challenge_token)
                                    (new_challenge C u.0 challenge_login "" now) later s s' k h;
                              of_user = refl;
                              step = inr (refl, refl, verify);
                            })
                ]
