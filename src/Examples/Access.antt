-- ===== src/Examples/Access.antt =====
-- An address that is locked out, and a household of two owners.
use family_finance_os.Prelude.{
  err, record_not_found, ◌≡◌, ◌≢◌, refl, arith, String, Bool, true, false, ℕ, suc, List, [], ◌∷◌,
  Option, none, some, Result, ok, length, All,
}
use family_finance_os.Prelude.Int.{pos, ◌+ℤ◌}
use family_finance_os.Prelude.Time.{Time}
use family_finance_os.Throttle.{LoginThrottle, new_login_throttle, allow, record_success}
use family_finance_os.Throttle.Bounds.{ask, fail, succeed, run, IsBounded, run-IsBounded}
use family_finance_os.Throttle.Lockout.{fail_all, fail_all-locks_out, record_success-lets_in}
use family_finance_os.Auth.{AuthStore, User, Session, HouseholdMember, Role}
use family_finance_os.Auth.Members.{disable_household_member}
use family_finance_os.Auth.Owners.{HasOwner}
use family_finance_os.Auth.Requests.{
  Request, create, update_role, disable, enable, serve, serve-keeps_owner,
}
use family_finance_os.Auth.Sessions.{SessionView, get_session}
use family_finance_os.Auth.Revocation.{disable-ends_sessions}

-- The names in these examples are in lower case.
abbrev same : String → String
same s = s

abbrev throttle : LoginThrottle
throttle = record { max_failures = pos 3; window = pos 1000; max_entries = pos 10; buckets = [] }

run-IsBounded_example : IsBounded (
    run same
      (fail "1.2.3.4" "anna" (pos 5) ∷ ask "1.2.3.4" "anna" (pos 6) ∷ succeed "1.2.3.4" "anna" ∷ [])
      (new_login_throttle (pos 3) (pos 1000) (pos 10)))
run-IsBounded_example =
    run-IsBounded same (pos 3) (pos 1000) (pos 10)
      (fail "1.2.3.4" "anna" (pos 5) ∷ ask "1.2.3.4" "anna" (pos 6) ∷ succeed "1.2.3.4" "anna" ∷ [])

abbrev more_failures : List (String × Time)
more_failures = ("ben", pos 20) ∷ ("", pos 900) ∷ []

fail_all-locks_out_example :
    (allow same "1.2.3.4" "carl"
      (pos 1000)
      (fail_all same "1.2.3.4" (("anna", pos 10) ∷ more_failures) throttle)).0
    ≡ false
unfolding family_finance_os.Throttle.prune ◌+ℤ◌
fail_all-locks_out_example =
    fail_all-locks_out same "1.2.3.4" "anna" "carl" (pos 10) (pos 1000) more_failures throttle refl
      refl (refl, (refl, tt)) refl (omega arith) refl

record_success-lets_in_example :
    (allow same "1.2.3.4" "anna" (pos 1000) (record_success same "1.2.3.4" "anna" throttle)).0
    ≡ true
unfolding family_finance_os.Throttle.prune record_success
    family_finance_os.Throttle.login_throttle_keys family_finance_os.Prelude.Text.trim_space
record_success-lets_in_example =
    record_success-lets_in same "1.2.3.4" "anna" (pos 1000) throttle refl

abbrev user : String → Role → User
user name role = record {
  username = name;
  normalized_username = name;
  password_hash = "hash";
  household_id = pos 1;
  role = role;
  totp_secret_ciphertext = none;
  totp_last_counter = none;
  totp_enrolled_at = none;
  disabled_at = none;
  created_at = pos 0;
  updated_at = pos 0;
}

abbrev session : Session
session = record {
  token_hash = "token";
  user_id = pos 1;
  csrf_token_hash = "csrf";
  csrf_token_ciphertext = "sealed";
  created_at = pos 0;
  last_seen_at = pos 0;
  expires_at = pos 1000;
  revoked_at = none;
}

abbrev other_session : Session
other_session = record session { token_hash = "other"; user_id = pos 2 }

abbrev store : AuthStore
store = record {
  users = (pos 1, user "anna" Role.role_owner) ∷ (pos 2, user "ben" Role.role_owner) ∷ [];
  sessions = session ∷ other_session ∷ [];
  challenges = [];
  recovery_codes = [];
}

abbrev hash_password : String → Option String
hash_password s = some "hash"

abbrev byte_length : String → ℕ
byte_length s = 4

abbrev requests : List Request
requests = disable (pos 1) (pos 1) (pos 7) ∷ update_role (pos 1) (pos 2) "viewer" (pos 8) ∷ []

serve-keeps_owner_example : HasOwner (pos 1) (serve same hash_password byte_length requests store)
unfolding ◌+ℤ◌
serve-keeps_owner_example =
    serve-keeps_owner same hash_password byte_length (pos 1) requests store (omega arith)

abbrev disabled : User
disabled = record (user "anna" Role.role_owner) { disabled_at = some (pos 7); updated_at = pos 7 }

abbrev after_disable : AuthStore
after_disable = record {
  users = (pos 1, disabled) ∷ (pos 2, user "ben" Role.role_owner) ∷ [];
  sessions = record session { revoked_at = some (pos 7) } ∷ other_session ∷ [];
  challenges = [];
  recovery_codes = [];
}

abbrev member : HouseholdMember
member = record {
  user_id = pos 1;
  username = "anna";
  role = Role.role_owner;
  disabled = true;
  totp_enrolled = false;
}

abbrev bens_view : SessionView
bens_view = record { session = other_session; username = "ben"; household_id = pos 1 }

disable-ends_sessions_example : bens_view.session.user_id ≢ pos 1
unfolding disable_household_member ◌+ℤ◌ get_session serve family_finance_os.Auth.Requests.answer
    family_finance_os.Auth.Members.enable_household_member
disable-ends_sessions_example =
    disable-ends_sessions same hash_password byte_length (pos 1) (pos 1) (pos 7) (pos 9) store
      after_disable member (user "anna" Role.role_owner) (enable (pos 1) (pos 1) (pos 8) ∷ [])
      "other" bens_view refl refl refl refl
