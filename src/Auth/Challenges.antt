-- ===== src/Auth/Challenges.antt =====
-- internal/auth/postgres_store.go: users, challenges, recovery codes, and the transactions that
-- complete a login. An error rolls a transaction back, so the tables stay as they were. The checks
-- of the tables on lengths and the foreign keys are left out.
use family_finance_os.Prelude.{
  Bool, true, false, not, ◌&&◌, String, Option, none, some, List, [], ◌∷◌, Result, ok, err, ◌>>=◌,
  ◌>>◌, return_if, or_err, if◌then◌else◌, record_not_found, constraint_violation, no_pending_secret,
}
use family_finance_os.Prelude.Int.{ℤ, eqb_ℤ, ltb_ℤ}
use family_finance_os.Prelude.Time.{Time, after}
use family_finance_os.Prelude.Text.{str_eq, is_empty}
use family_finance_os.Prelude.Eq.{Dict, lookup, insert, string_eq}
use family_finance_os.Auth.{
  int_eq, role_owner, User, Session, Challenge, ChallengeKind, challenge_login,
  challenge_totp_enrollment, RecoveryCode, AuthStore, is_set, is_null,
}
use family_finance_os.Auth.Members.{is_some, store_user}

-- `WHERE normalized_username = $1`, which is unique.
unfoldable pub find_username : String → Dict ℤ User → Option (ℤ × User)
find_username name [] = none
find_username name ((id, u) ∷ users) =
    let rest = find_username name users in
    if str_eq u.normalized_username name then some (id, u) else rest

abbrev pub get_user_by_normalized_username : String → AuthStore → Result (ℤ × User)
get_user_by_normalized_username name s = or_err record_not_found (find_username name s.users)

abbrev pub get_user_by_id : ℤ → AuthStore → Result User
get_user_by_id id s = or_err record_not_found (lookup id s.users)

-- A new administrator has the default role of the table, the owner's. The identity column's next
-- value is an argument.
abbrev pub new_admin : String → String → String → ℤ → Time → User
new_admin username normalized hash household_id now = record {
  username = username;
  normalized_username = normalized;
  password_hash = hash;
  household_id = household_id;
  role = role_owner;
  totp_secret_ciphertext = none;
  totp_last_counter = none;
  totp_enrolled_at = none;
  disabled_at = none;
  created_at = now;
  updated_at = now;
}

-- `INSERT ... ON CONFLICT DO NOTHING` unless the name is found. The user, whether it was created, and
-- the tables.
abbrev pub create_or_get :
    ℤ → User → AuthStore → Option (ℤ × User) → Result (ℤ × User × Bool × AuthStore)
create_or_get id u s none = do
  return_if (is_some (lookup id s.users)) constraint_violation
  ok (id, u, true, store_user id u s)
create_or_get id u s (some (old_id, old)) = ok (old_id, old, false, s)

unfoldable pub create_or_get_admin_user :
    ℤ → Time → String → String → String → ℤ → AuthStore → Result (ℤ × User × Bool × AuthStore)
unfolding find_username
create_or_get_admin_user id now username normalized hash household_id s =
    create_or_get id (new_admin username normalized hash household_id now) s
      (find_username normalized s.users)

unfoldable pub create_challenge : String → Challenge → AuthStore → Result AuthStore
create_challenge token_hash c s = do
  return_if (is_some (lookup token_hash s.challenges)) constraint_violation
  ok (record s { challenges = insert token_hash (record c { consumed_at = none }) s.challenges })

-- `consumed_at IS NULL AND expires_at > $2`
abbrev pub is_pending : Time → Challenge → Bool
is_pending now c = is_null c.consumed_at && after c.expires_at now

abbrev pub pending : Time → Challenge → Result Challenge
pending now c = if is_pending now c then ok c else err record_not_found

unfoldable pub get_challenge : String → Time → AuthStore → Result Challenge
get_challenge token_hash now s =
    or_err record_not_found (lookup token_hash s.challenges) >>= pending now

abbrev pub store_consumed : String → Time → Challenge → AuthStore → AuthStore
store_consumed token_hash now c s = record s {
  challenges = insert token_hash (record c { consumed_at = some now }) s.challenges;
}

unfoldable pub consume_challenge : String → Time → AuthStore → Result (Challenge × AuthStore)
unfolding get_challenge
consume_challenge token_hash now s = do
  c ← get_challenge token_hash now s
  ok (record c { consumed_at = some now }, store_consumed token_hash now c s)

abbrev pub same_kind : ChallengeKind → ChallengeKind → Bool
same_kind challenge_login challenge_login = true
same_kind challenge_totp_enrollment challenge_totp_enrollment = true
same_kind _ _ = false

abbrev pub of_kind : ChallengeKind → Challenge → Result Challenge
of_kind kind c = if same_kind kind c.kind then ok c else err record_not_found

-- The first statement of the three transactions, which also tests the kind.
unfoldable pub consume_kind :
    ChallengeKind → String → Time → AuthStore → Result (Challenge × AuthStore)
unfolding get_challenge
consume_kind kind token_hash now s = do
  c ← get_challenge token_hash now s
  c' ← of_kind kind c
  ok (c', store_consumed token_hash now c' s)

unfoldable pub has_token : String → List Session → Bool
has_token token [] = false
has_token token (x ∷ xs) =
    let rest = has_token token xs in if str_eq x.token_hash token then true else rest

-- The hash of a token is unique. A new session is not revoked.
unfoldable pub insert_session : Session → AuthStore → Result AuthStore
unfolding has_token
insert_session x s = do
  return_if (has_token x.token_hash s.sessions) constraint_violation
  ok (record s { sessions = record x { revoked_at = none } ∷ s.sessions })

unfoldable pub has_code : ℤ → String → List RecoveryCode → Bool
has_code id hash [] = false
has_code id hash (c ∷ cs) =
    let rest = has_code id hash cs in
    if eqb_ℤ c.user_id id && str_eq c.code_hash hash then true else rest

unfoldable pub insert_recovery_codes :
    ℤ → List String → List RecoveryCode → Result (List RecoveryCode)
unfolding has_code
insert_recovery_codes id [] codes = ok codes
insert_recovery_codes id (hash ∷ hashes) codes = do
  return_if (has_code id hash codes) constraint_violation
  insert_recovery_codes id hashes
      (record { user_id = id; code_hash = hash; consumed_at = none } ∷ codes)

abbrev pub create_session : Session → AuthStore → Result AuthStore
create_session x s = insert_session x s

-- `InsertRecoveryCodes`, one transaction.
abbrev pub add_recovery_codes : ℤ → List String → AuthStore → Result AuthStore
add_recovery_codes id hashes s = do
  codes ← insert_recovery_codes id hashes s.recovery_codes
  ok (record s { recovery_codes = codes })

-- `DELETE FROM auth_recovery_codes WHERE user_id = $1`
unfoldable pub delete_codes : ℤ → List RecoveryCode → List RecoveryCode
delete_codes id [] = []
delete_codes id (c ∷ cs) =
    let rest = delete_codes id cs in if eqb_ℤ c.user_id id then rest else c ∷ rest

abbrev pub usable : ℤ → String → RecoveryCode → Bool
usable id hash c = eqb_ℤ c.user_id id && (str_eq c.code_hash hash && is_null c.consumed_at)

-- The table after the update, and whether a row was updated.
unfoldable pub use_code : ℤ → String → Time → List RecoveryCode → Bool × List RecoveryCode
use_code id hash now [] = (false, [])
use_code id hash now (c ∷ cs) =
    let rest = use_code id hash now cs in
    if usable id hash c
    then (true, record c { consumed_at = some now } ∷ rest.1)
    else (rest.0, c ∷ rest.1)

abbrev pub with_codes : AuthStore → Bool × List RecoveryCode → Bool × AuthStore
with_codes s (found, codes) = (found, record s { recovery_codes = codes })

unfoldable pub consume_recovery_code : ℤ → String → Time → AuthStore → Bool × AuthStore
unfolding use_code
consume_recovery_code id hash now s = with_codes s (use_code id hash now s.recovery_codes)

-- `UPDATE auth_users ... WHERE id = $1 AND disabled_at IS NULL AND totp_enrolled_at IS NULL`
unfoldable pub enroll_user : ℤ → String → ℤ → Time → AuthStore → Result AuthStore
enroll_user id secret counter now s = do
  u ← get_user_by_id id s
  return_if (not (is_null u.disabled_at && is_null u.totp_enrolled_at)) record_not_found
  ok (
      store_user id
        (record u {
          totp_secret_ciphertext = some secret;
          totp_last_counter = some counter;
          totp_enrolled_at = some now;
          updated_at = now;
        })
        s)

unfoldable pub complete_enrollment :
    String → ℤ → Session → List String → Time → AuthStore → Result AuthStore
unfolding consume_kind enroll_user insert_session insert_recovery_codes delete_codes
complete_enrollment token_hash counter session hashes now s = do
  r ← consume_kind challenge_totp_enrollment token_hash now s
  return_if (is_empty r.0.pending_totp_secret_ciphertext) no_pending_secret
  s2 ← enroll_user r.0.user_id r.0.pending_totp_secret_ciphertext counter now r.1
  codes ← insert_recovery_codes r.0.user_id hashes (delete_codes r.0.user_id s2.recovery_codes)
  insert_session (record session { user_id = r.0.user_id }) (record s2 { recovery_codes = codes })

-- `totp_last_counter IS NULL OR totp_last_counter < $2`
abbrev pub is_newer : Option ℤ → ℤ → Bool
is_newer none counter = true
is_newer (some last) counter = ltb_ℤ last counter

unfoldable pub advance_counter : ℤ → ℤ → Time → AuthStore → Result AuthStore
advance_counter id counter now s = do
  u ← get_user_by_id id s
  return_if
      (not (
        is_null u.disabled_at
        && (is_set u.totp_enrolled_at && is_newer u.totp_last_counter counter)))
      record_not_found
  ok (store_user id (record u { totp_last_counter = some counter; updated_at = now }) s)

unfoldable pub complete_totp_login : String → ℤ → Session → Time → AuthStore → Result AuthStore
unfolding consume_kind advance_counter insert_session
complete_totp_login token_hash counter session now s = do
  r ← consume_kind challenge_login token_hash now s
  s2 ← advance_counter r.0.user_id counter now r.1
  insert_session (record session { user_id = r.0.user_id }) s2

unfoldable pub complete_recovery_login :
    String → String → Session → Time → AuthStore → Result AuthStore
unfolding consume_kind use_code insert_session
complete_recovery_login token_hash code_hash session now s = do
  r ← consume_kind challenge_login token_hash now s
  let used = consume_recovery_code r.0.user_id code_hash now r.1
  return_if (not used.0) record_not_found
  insert_session (record session { user_id = r.0.user_id }) used.1
