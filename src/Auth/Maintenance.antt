-- ===== src/Auth/Maintenance.antt =====
-- internal/auth/maintenance.go: the commands that reset a password or a second factor, each one
-- serializable transaction.
use family_finance_os.Prelude.{
  Bool, true, false, not, String, Option, none, [], ◌∷◌, Result, ok, ◌>>=◌, ◌>>◌, return_if, or_err,
  if◌then◌else◌, username_required, invalid_password, record_not_found,
}
use family_finance_os.Prelude.Int.{ℤ, eqb_ℤ}
use family_finance_os.Prelude.Time.{Time}
use family_finance_os.Prelude.Text.{is_empty, trim_space}
use family_finance_os.Prelude.Eq.{Dict}
use family_finance_os.Auth.{User, Challenge, AuthStore, is_null}
use family_finance_os.Auth.Members.{store_user, revoke_user_sessions}
use family_finance_os.Auth.Challenges.{get_user_by_normalized_username, delete_codes}

-- `DELETE FROM auth_challenges WHERE user_id = $1`
unfoldable pub delete_challenges : ℤ → Dict String Challenge → Dict String Challenge
delete_challenges id [] = []
delete_challenges id ((token, c) ∷ cs) =
    let rest = delete_challenges id cs in if eqb_ℤ c.user_id id then rest else (token, c) ∷ rest

unfoldable pub revoke_auth_state : ℤ → Time → Bool → AuthStore → AuthStore
unfolding revoke_user_sessions delete_challenges delete_codes
revoke_auth_state id now clear_recovery_codes s = record s {
  sessions = revoke_user_sessions id now s.sessions;
  challenges = delete_challenges id s.challenges;
  recovery_codes =
      if clear_recovery_codes then delete_codes id s.recovery_codes else s.recovery_codes;
}

-- `WHERE normalized_username = $1 AND disabled_at IS NULL`
abbrev pub get_active_user : String → AuthStore → Result (ℤ × User)
get_active_user name s = do
  u ← get_user_by_normalized_username name s
  return_if (not (is_null u.1.disabled_at)) record_not_found
  ok u

module _ (to_lower : String → String) (hash_password : String → Option String) where
  unfoldable pub reset_password : String → String → Time → AuthStore → Result AuthStore
  unfolding revoke_auth_state
  reset_password username password now s = do
    return_if (is_empty (to_lower (trim_space username))) username_required
    hash ← or_err invalid_password (hash_password password)
    u ← get_active_user (to_lower (trim_space username)) s
    ok (
        revoke_auth_state u.0 now false
          (store_user u.0 (record u.1 { password_hash = hash; updated_at = now }) s))

  unfoldable pub reset_totp : String → Time → AuthStore → Result AuthStore
  unfolding revoke_auth_state
  reset_totp username now s = do
    return_if (is_empty (to_lower (trim_space username))) username_required
    u ← get_active_user (to_lower (trim_space username)) s
    ok (
        revoke_auth_state u.0 now true (
          store_user u.0
            (record u.1 {
              totp_secret_ciphertext = none;
              totp_last_counter = none;
              totp_enrolled_at = none;
              updated_at = now;
            })
            s))
