-- ===== src/Examples/Logins.antt =====
-- A login with a second factor, and what comes after it. The codes of this example are the last six
-- digits that a counter has in ones, and every text is its own hash.
use family_finance_os.Prelude.{
  ◌≡◌, ◌≢◌, refl, arith, inl, inr, String, Bool, true, false, ℕ, zero, suc, List, [], ◌∷◌, Option,
  none, some, Result, ok, err, invalid_credentials, unauthenticated, record_not_found,
  if◌then◌else◌,
}
use family_finance_os.Prelude.Int.{ℤ, pos, negsuc, eqb_ℤ, ◌+ℤ◌}
use family_finance_os.Prelude.Time.{Time}
use family_finance_os.Prelude.Text.{str_eq}
use family_finance_os.Auth.{
  Role, User, Session, Challenge, ChallengeKind, challenge_login, RecoveryCode, AuthStore,
}
use family_finance_os.Auth.Totp.{TotpCodes, verify_totp, verify_totp-Accepted, Accepted}
use family_finance_os.Auth.RecoveryCodes.{
  recovery_code, normalize_recovery_code, IsBase32, normalize-recovery_code,
}
use family_finance_os.Auth.Sessions.{SessionView, get_session}
use family_finance_os.Auth.Challenges.{complete_totp_login}
use family_finance_os.Auth.Login.{Crypto, Random, verify_totp_step, LoginResult, begin_login}
use family_finance_os.Auth.Challenged.{Challenged, begin_login-Challenged}
use family_finance_os.Auth.Identity.{SessionIdentity, authenticate_session, logout}
use family_finance_os.Auth.Authenticated.{
  Stands, authenticate_session-Stands, authenticate_session-logout, authenticate_session_idle,
}
use family_finance_os.Auth.Operations.{StoreCall, call_totp, call_recovery, call_touch, apply, run}
use family_finance_os.Auth.SingleUse.{apply_once}
use family_finance_os.Auth.Replay.{complete_totp_login_once}

abbrev same : String → String
same s = s

-- One code for each of two counters, and none that is tried for another.
abbrev code_of : String → ℤ → String
code_of key counter =
    if eqb_ℤ counter (pos 1) then "111111" else if eqb_ℤ counter (pos 2) then "222222" else "none"

abbrev codes : TotpCodes
codes = record { Key = String; decode_secret = some; code_for = code_of }

abbrev crypto : Crypto
crypto = record {
  to_lower = same;
  to_upper = same;
  hash_token = same;
  hash_code = same;
  verify_password = str_eq;
  seal = some;
  unseal = some;
  totp = codes;
}

abbrev random : Random
random = record {
  challenge_token = "challenge";
  totp_secret = "secret";
  session_token = "session";
  csrf_token = "csrf";
  recovery_codes = [];
}

abbrev anna : User
anna = record {
  username = "anna";
  normalized_username = "anna";
  password_hash = "word";
  household_id = pos 1;
  role = Role.role_owner;
  totp_secret_ciphertext = some "secret";
  totp_last_counter = some (pos 0);
  totp_enrolled_at = some (pos 0);
  disabled_at = none;
  created_at = pos 0;
  updated_at = pos 0;
}

abbrev open_challenge : Challenge
open_challenge = record {
  user_id = pos 1;
  kind = challenge_login;
  pending_totp_secret_ciphertext = "";
  created_at = pos 0;
  expires_at = pos 100;
  consumed_at = none;
}

abbrev session : String → Session
session token = record {
  token_hash = token;
  user_id = pos 1;
  csrf_token_hash = "csrf";
  csrf_token_ciphertext = "csrf";
  created_at = pos 0;
  last_seen_at = pos 0;
  expires_at = pos 9_000_000_000_000;
  revoked_at = none;
}

abbrev store : AuthStore
store = record {
  users = (pos 1, anna) ∷ [];
  sessions = [];
  challenges = ("first", open_challenge) ∷ ("second", open_challenge) ∷ [];
  recovery_codes = record { user_id = pos 1; code_hash = "code"; consumed_at = none } ∷ [];
}

-- A minute after the epoch: the second step of thirty seconds has ended.
abbrev minute_one : Time
minute_one = pos 62_135_596_860_000_000_000

verify_totp-Accepted_example : Accepted codes "secret" "111111" minute_one (pos 0) (pos 1)
unfolding verify_totp family_finance_os.Prelude.Int.◌-ℤ◌
verify_totp-Accepted_example =
    verify_totp-Accepted codes "secret" "111111" minute_one (pos 0) (pos 1) refl

letters : IsBase32 "ABCDEFGHIJKLMNOP"
letters = (
  inl (omega arith, omega arith),
  (
    inl (omega arith, omega arith),
    (
      inl (omega arith, omega arith),
      (
        inl (omega arith, omega arith),
        (
          inl (omega arith, omega arith),
          (
            inl (omega arith, omega arith),
            (
              inl (omega arith, omega arith),
              (
                inl (omega arith, omega arith),
                (
                  inl (omega arith, omega arith),
                  (
                    inl (omega arith, omega arith),
                    (
                      inl (omega arith, omega arith),
                      (
                        inl (omega arith, omega arith),
                        (
                          inl (omega arith, omega arith),
                          (
                            inl (omega arith, omega arith),
                            (inl (omega arith, omega arith), (inl (omega arith, omega arith), tt)),
                          ),
                        ),
                      ),
                    ),
                  ),
                ),
              ),
            ),
          ),
        ),
      ),
    ),
  ),
)

normalize-recovery_code_example :
    normalize_recovery_code same (recovery_code "ABCDEFGHIJKLMNOP") ≡ some "ABCDEFGHIJKLMNOP"
unfolding family_finance_os.Prelude.Text.all_chars family_finance_os.Prelude.Text.char_count
normalize-recovery_code_example = normalize-recovery_code same "ABCDEFGHIJKLMNOP" letters refl refl

abbrev begun : LoginResult
begun = record { challenge_token = "challenge"; step = verify_totp_step; totp_secret = "" }

abbrev begun_store : AuthStore
begun_store = record store {
  challenges =
      ("first", open_challenge)
      ∷ ("second", open_challenge)
      ∷ (
        "challenge",
        record open_challenge { created_at = pos 5; expires_at = pos 300_000_000_005 },
      )
      ∷ [];
}

begin_login-Challenged_example :
    Challenged crypto "anna" "word" (pos 300_000_000_000) store begun begun_store
unfolding begin_login family_finance_os.Prelude.Text.trim_space
    family_finance_os.Auth.Challenges.find_username ◌+ℤ◌
begin_login-Challenged_example =
    begin_login-Challenged crypto random "anna" "word" (pos 5) (pos 300_000_000_000) store
      begun_store begun refl refl

abbrev logged_in : AuthStore
logged_in = record store {
  users = (pos 1, record anna { totp_last_counter = some (pos 1); updated_at = pos 5 }) ∷ [];
  sessions = session "session" ∷ [];
  challenges =
      ("first", record open_challenge { consumed_at = some (pos 5) })
      ∷ ("second", open_challenge)
      ∷ [];
}

abbrev between : List (Time × StoreCall)
between =
    (pos 6, call_touch "session") ∷ (pos 7, call_recovery "third" "code" (session "other")) ∷ []

apply_once_example :
    apply (call_recovery "first" "code" (session "again")) (pos 8) (run between logged_in)
    ≡ err record_not_found
unfolding apply
apply_once_example =
    apply_once (call_totp "first" (pos 1) (session "session"))
      (call_recovery "first" "code" (session "again")) "first" (pos 5) (pos 8) between store
      logged_in refl refl refl

complete_totp_login_once_example :
    complete_totp_login "second" (pos 1) (session "again") (pos 8) (run between logged_in)
    ≡ err record_not_found
unfolding complete_totp_login run
complete_totp_login_once_example =
    complete_totp_login_once "first" "second" (pos 1) (pos 1) (session "session") (session "again")
      (pos 5) (pos 8) between store logged_in open_challenge open_challenge refl refl refl refl
      (omega arith)

abbrev identity : SessionIdentity
identity = record {
  user_id = pos 1;
  username = "anna";
  household_id = pos 1;
  role = Role.role_owner;
  csrf_token = "csrf";
}

authenticate_session-Stands_example : Stands crypto "session" (pos 8) logged_in identity
unfolding authenticate_session family_finance_os.Prelude.Text.trim_space ◌+ℤ◌
authenticate_session-Stands_example =
    authenticate_session-Stands crypto "session" (pos 8) logged_in logged_in identity refl

authenticate_session-logout_example :
    (authenticate_session crypto "session" (pos 9) (logout crypto "session" (pos 8) logged_in)).0
    ≡ err unauthenticated
authenticate_session-logout_example =
    authenticate_session-logout crypto "session" (pos 8) (pos 9) logged_in

abbrev view : SessionView
view = record { session = session "session"; username = "anna"; household_id = pos 1 }

authenticate_session_idle_example :
    ((authenticate_session crypto "session" (pos 1_800_000_000_000) logged_in).0
      ≡ err unauthenticated)
    × ((authenticate_session crypto "session"
          (pos 9)
          (authenticate_session crypto "session" (pos 1_800_000_000_000) logged_in).1).0
        ≡ err unauthenticated)
    × ((other : String)
        → str_eq other "session" ≡ false
        → get_session other
            (pos 9)
            (authenticate_session crypto "session" (pos 1_800_000_000_000) logged_in).1
          ≡ get_session other (pos 9) logged_in)
unfolding family_finance_os.Prelude.Text.trim_space get_session ◌+ℤ◌
authenticate_session_idle_example =
    authenticate_session_idle crypto "session" (pos 1_800_000_000_000) (pos 9) logged_in view refl
      (omega arith)
