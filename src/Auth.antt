-- ===== src/Auth.antt =====
-- internal/auth/role.go, rbac_store.go and the tables of db/migrations/00010_auth.sql and
-- 00011_household_roles.sql that they use. A table is an association list by its primary key, an
-- SQL statement a function on the tables.
pub mod Members
pub mod Owners
pub mod Requests
pub mod Sessions
pub mod Revocation
pub mod Challenges
pub mod Totp
pub mod RecoveryCodes
pub mod Login
pub mod Challenged
pub mod Identity
pub mod Authenticated
pub mod Maintenance
pub mod Operations
pub mod Evolution
pub mod Replay
pub mod Runs
pub mod SingleUse
pub mod Completions
pub mod Membership
use family_finance_os.Prelude.{
  ◌≡◌, ◌↔◌, Bool, true, false, String, Option, none, some, List, [], ◌∷◌, if◌then◌else◌, ◌&&◌, ◌||◌,
  arith,
}
use family_finance_os.Prelude.Int.{ℤ, eqb_ℤ, pos, ◌+ℤ◌}
use family_finance_os.Prelude.Time.{Time}
use family_finance_os.Prelude.Text.{str_eq, trim_space}
use family_finance_os.Prelude.Eq.{Eq, Dict}

pub eqb_ℤ_iff : (a b : ℤ) → (eqb_ℤ a b ≡ true) ↔ (a ≡ b)
eqb_ℤ_iff a b = ground arith

instance abbrev pub int_eq : Eq ℤ
int_eq = record { beq = eqb_ℤ; beq_iff = eqb_ℤ_iff }

pub data Role : Type 0 where
  role_owner role_editor role_viewer : Role

unfoldable pub parse_role : (String → String) → String → Option Role
parse_role to_lower raw =
    let role = to_lower (trim_space raw) in
    if str_eq role "owner"
    then some role_owner
    else if str_eq role "editor"
    then some role_editor
    else if str_eq role "viewer"
    then some role_viewer
    else none

abbrev pub is_owner : Role → Bool
is_owner role_owner = true
is_owner role_editor = false
is_owner role_viewer = false

unfoldable pub can_edit_finance : Role → Bool
can_edit_finance role_owner = true
can_edit_finance role_editor = true
can_edit_finance role_viewer = false

-- A row of auth_users; its id is the table's key. Bytes are texts.
pub record User : Type 0 where
  pub username : String
  pub normalized_username : String
  pub password_hash : String
  pub household_id : ℤ
  pub role : Role
  pub totp_secret_ciphertext : Option String
  pub totp_last_counter : Option ℤ
  pub totp_enrolled_at : Option Time
  pub disabled_at : Option Time
  pub created_at : Time
  pub updated_at : Time

-- A row of auth_sessions, which its token's hash identifies.
pub record Session : Type 0 where
  pub token_hash : String
  pub user_id : ℤ
  pub csrf_token_hash : String
  pub csrf_token_ciphertext : String
  pub created_at : Time
  pub last_seen_at : Time
  pub expires_at : Time
  pub revoked_at : Option Time

pub data ChallengeKind : Type 0 where
  challenge_login challenge_totp_enrollment : ChallengeKind

-- A row of auth_challenges; its token's hash, which is unique, is the table's key. The empty text
-- stands for NULL.
pub record Challenge : Type 0 where
  pub user_id : ℤ
  pub kind : ChallengeKind
  pub pending_totp_secret_ciphertext : String
  pub created_at : Time
  pub expires_at : Time
  pub consumed_at : Option Time

-- A row of auth_recovery_codes.
pub record RecoveryCode : Type 0 where
  pub user_id : ℤ
  pub code_hash : String
  pub consumed_at : Option Time

pub record AuthStore : Type 0 where
  pub users : Dict ℤ User
  pub sessions : List Session
  pub challenges : Dict String Challenge
  pub recovery_codes : List RecoveryCode

pub record HouseholdMember : Type 0 where
  pub user_id : ℤ
  pub username : String
  pub role : Role
  pub disabled : Bool
  pub totp_enrolled : Bool

abbrev pub is_set : Option Time → Bool
is_set none = false
is_set (some t) = true

abbrev pub is_null : Option Time → Bool
is_null none = true
is_null (some t) = false

abbrev pub scan_household_member : ℤ → User → HouseholdMember
scan_household_member id u = record {
  user_id = id;
  username = u.username;
  role = u.role;
  disabled = is_set u.disabled_at;
  totp_enrolled = is_set u.totp_enrolled_at;
}

-- `household_id = $1 AND role = 'owner' AND disabled_at IS NULL`
abbrev pub is_active_owner : ℤ → User → Bool
is_active_owner household_id u =
    eqb_ℤ u.household_id household_id && (is_owner u.role && is_null u.disabled_at)
