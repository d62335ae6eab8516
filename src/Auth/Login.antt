-- ===== src/Auth/Login.antt =====
-- internal/auth/service.go: the two steps of a login. Each call of the store is one transaction,
-- and a call of a method is a sequence of them; here none of another call comes between them.
use family_finance_os.Prelude.{
  ◌≡◌, arith, Bool, not, ◌||◌, String, Option, none, some, List, [], map, Result, ok, err, Error,
  ◌>>=◌, ◌>>◌, return_if, or_err, if◌then◌else◌, invalid_credentials, invalid_second_factor,
  secret_box, record_not_found,
}
use family_finance_os.Prelude.Int.{ℤ, pos, negsuc}
use family_finance_os.Prelude.Time.{Time, Duration, add_time}
use family_finance_os.Prelude.Text.{is_empty, trim_space}
use family_finance_os.Auth.{
  User, Session, Challenge, ChallengeKind, challenge_login, challenge_totp_enrollment, AuthStore,
  is_null, is_set,
}
use family_finance_os.Auth.Challenges.{
  get_user_by_normalized_username, get_user_by_id, create_challenge, get_challenge, same_kind,
  complete_enrollment, complete_totp_login, complete_recovery_login,
}
use family_finance_os.Auth.Totp.{TotpCodes, verify_totp}
use family_finance_os.Auth.RecoveryCodes.{recovery_code, normalize_recovery_code}

-- What the service calls of Go's library and of its cryptography: hashes of tokens and codes, the
-- test of a password against a hash (an error counts as a failure), and the box that seals secrets.
pub record Crypto : Type 1 where
  pub to_lower : String → String
  pub to_upper : String → String
  pub hash_token : String → String
  pub hash_code : String → String
  pub verify_password : String → String → Bool
  pub seal : String → Option String
  pub unseal : String → Option String
  pub totp : TotpCodes

-- The random values that a call draws.
pub record Random : Type 0 where
  pub challenge_token : String
  pub totp_secret : String
  pub session_token : String
  pub csrf_token : String
  pub recovery_codes : List String

abbrev pub challenge_ttl : Duration
challenge_ttl = pos 300_000_000_000

abbrev pub session_idle_timeout : Duration
session_idle_timeout = pos 1_800_000_000_000

abbrev pub session_absolute_ttl : Duration
session_absolute_ttl = pos 43_200_000_000_000

abbrev pub session_touch_cadence : Duration
session_touch_cadence = pos 300_000_000_000

pub data LoginStep : Type 0 where
  enroll_totp verify_totp_step : LoginStep

pub record LoginResult : Type 0 where
  pub challenge_token : String
  pub step : LoginStep
  pub totp_secret : String

pub record SessionIssue : Type 0 where
  pub session_token : String
  pub csrf_token : String
  pub recovery_codes : List String

abbrev pub secret_of : User → String
secret_of u = elim u.totp_secret_ciphertext [ none ↦ "" | some secret ↦ secret ]

abbrev pub last_counter_of : User → ℤ
last_counter_of u = elim u.totp_last_counter [ none ↦ negsuc 0 | some counter ↦ counter ]

-- `if err != nil { return ..., e }` whatever the error.
abbrev pub or_else {ℓ} : {T : Type ℓ} → Error → Result T → Result T
or_else e (err e') = err e
or_else e (ok value) = ok value

-- `errors.Is(err, ErrNotFound)` becomes another error.
abbrev pub not_found_as {ℓ} : {T : Type ℓ} → Error → Result T → Result T
not_found_as e (err record_not_found) = err e
not_found_as e (err e') = err e'
not_found_as e (ok value) = ok value

pub not_found_as_ok {ℓ} :
    {T : Type ℓ} (e : Error) (r : Result T) (x : T) → not_found_as e r ≡ ok x → r ≡ ok x
not_found_as_ok e r x q = ground arith

module _ (C : Crypto) where
  open C use {to_lower, to_upper, hash_token, hash_code, verify_password, seal, unseal, totp}

  abbrev pub normalize_username : String → String
  normalize_username username = to_lower (trim_space username)

  abbrev pub new_challenge : ℤ → ChallengeKind → String → Time → Challenge
  new_challenge user_id kind secret now = record {
    user_id = user_id;
    kind = kind;
    pending_totp_secret_ciphertext = secret;
    created_at = now;
    expires_at = add_time now challenge_ttl;
    consumed_at = none;
  }

  abbrev pub login_result : Random → LoginStep → String → AuthStore → LoginResult × AuthStore
  login_result r step secret s =
      (record { challenge_token = r.challenge_token; step = step; totp_secret = secret }, s)

  -- The address for an authenticator is made from the user's name and the secret, and left out.
  unfoldable pub begin_login :
      Random → String → String → Time → AuthStore → Result (LoginResult × AuthStore)
  unfolding create_challenge
  begin_login r username password now s = do
    return_if (is_empty (normalize_username username)) invalid_credentials
    u ←
        not_found_as invalid_credentials
          (get_user_by_normalized_username (normalize_username username) s)
    return_if (not (verify_password u.1.password_hash password) || is_set u.1.disabled_at)
        invalid_credentials
    let enroll = (do
      sealed ← or_err secret_box (seal r.totp_secret)
      s' ←
          create_challenge (hash_token r.challenge_token)
            (new_challenge u.0 challenge_totp_enrollment sealed now) s
      ok (login_result r enroll_totp r.totp_secret s'))
    let verify = (do
      s' ←
          create_challenge (hash_token r.challenge_token) (new_challenge u.0 challenge_login "" now)
            s
      ok (login_result r verify_totp_step "" s'))
    if is_null u.1.totp_enrolled_at || is_empty (secret_of u.1) then enroll else verify

  unfoldable pub new_session : Random → ℤ → Time → Result (SessionIssue × Session)
  new_session r user_id now = do
    sealed ← or_err secret_box (seal r.csrf_token)
    ok (
      record { session_token = r.session_token; csrf_token = r.csrf_token; recovery_codes = [] },
      record {
        token_hash = hash_token r.session_token;
        user_id = user_id;
        csrf_token_hash = hash_token r.csrf_token;
        csrf_token_ciphertext = sealed;
        created_at = now;
        last_seen_at = now;
        expires_at = add_time now session_absolute_ttl;
        revoked_at = none;
      },
    )

  -- The codes that are drawn are stored as hashes, and shown in groups.
  unfoldable pub confirm_enrollment :
      Random → String → String → Time → AuthStore → Result (SessionIssue × AuthStore)
  unfolding get_challenge new_session complete_enrollment verify_totp recovery_code
  confirm_enrollment r challenge_token attempt now s = do
    c ← or_else invalid_second_factor (get_challenge (hash_token challenge_token) now s)
    return_if
        (not (same_kind challenge_totp_enrollment c.kind)
          || is_empty c.pending_totp_secret_ciphertext)
        invalid_second_factor
    secret ← or_err invalid_second_factor (unseal c.pending_totp_secret_ciphertext)
    counter ←
        or_else invalid_second_factor (verify_totp totp secret (trim_space attempt) now (negsuc 0))
    issued ← new_session r c.user_id now
    s' ← not_found_as invalid_second_factor (
        complete_enrollment (hash_token challenge_token) counter issued.1
          (map hash_code r.recovery_codes) now s)
    ok (record issued.0 { recovery_codes = map recovery_code r.recovery_codes }, s')

  unfoldable pub complete_by_code : String → String → Session → Time → AuthStore → Result AuthStore
  unfolding complete_recovery_login normalize_recovery_code
  complete_by_code token_hash attempt session now s = do
    normalized ← or_err invalid_second_factor (normalize_recovery_code to_upper attempt)
    complete_recovery_login token_hash (hash_code normalized) session now s

  unfoldable pub complete_by_totp :
      User → String → String → Session → Time → AuthStore → Result AuthStore
  unfolding complete_totp_login verify_totp
  complete_by_totp u token_hash attempt session now s = do
    secret ← or_err invalid_second_factor (unseal (secret_of u))
    counter ←
        or_else invalid_second_factor
          (verify_totp totp secret (trim_space attempt) now (last_counter_of u))
    complete_totp_login token_hash counter session now s

  unfoldable pub verify_second_factor :
      Random → String → String → Bool → Time → AuthStore → Result (SessionIssue × AuthStore)
  unfolding get_challenge new_session complete_by_code complete_by_totp
  verify_second_factor r challenge_token attempt recovery now s = do
    c ← or_else invalid_second_factor (get_challenge (hash_token challenge_token) now s)
    return_if (not (same_kind challenge_login c.kind)) invalid_second_factor
    u ← or_else invalid_second_factor (get_user_by_id c.user_id s)
    return_if (is_set u.disabled_at || (is_null u.totp_enrolled_at || is_empty (secret_of u)))
        invalid_second_factor
    issued ← new_session r c.user_id now
    let by_code = complete_by_code (hash_token challenge_token) attempt issued.1 now s
    let by_totp = complete_by_totp u (hash_token challenge_token) attempt issued.1 now s
    s' ← not_found_as invalid_second_factor (if recovery then by_code else by_totp)
    ok (issued.0, s')
