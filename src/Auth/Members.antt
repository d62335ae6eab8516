-- ===== src/Auth/Members.antt =====
-- internal/auth/rbac_store.go and rbac_service.go: managing the members of a household. A change of
-- a member runs under the household's advisory lock in one transaction, and creating a member is
-- one INSERT, so each is one step; an error rolls it back. The household of a new member is taken
-- to exist (a foreign key), and the connection not to fail.
use family_finance_os.Prelude.{
  Bool, true, false, String, ℕ, Option, none, some, List, [], ◌∷◌, if◌then◌else◌, ◌&&◌, ◌||◌, not,
  leb, Result, ok, err, ◌>>=◌, ◌>>◌, return_if, or_err, record_not_found, last_owner,
  username_exists, invalid_member_input, id_not_positive, constraint_violation,
}
use family_finance_os.Prelude.Int.{ℤ, pos, leb_ℤ, eqb_ℤ}
use family_finance_os.Prelude.Time.{Time}
use family_finance_os.Prelude.Text.{str_eq, trim_space, is_empty}
use family_finance_os.Prelude.Eq.{Dict, lookup, insert, total}
use family_finance_os.Auth.{
  int_eq, Role, parse_role, is_owner, User, Session, AuthStore, HouseholdMember, is_set, is_null,
  scan_household_member, is_active_owner,
}

abbrev pub if_one : Bool → ℤ
if_one b = if b then pos 1 else pos 0

-- `SELECT count(*)` of the active owners.
abbrev pub active_owners : ℤ → AuthStore → ℤ
active_owners household_id s = total (λ u. if_one (is_active_owner household_id u)) s.users

abbrev pub require_another_active_owner : ℤ → AuthStore → Result (Unit {0})
require_another_active_owner household_id s =
    return_if (leb_ℤ (active_owners household_id s) (pos 1)) last_owner

-- `WHERE household_id = $1 AND id = $2`
abbrev pub in_household : ℤ → User → Result User
in_household household_id u =
    if eqb_ℤ u.household_id household_id then ok u else err record_not_found

unfoldable pub load_household_member : ℤ → ℤ → AuthStore → Result User
load_household_member household_id user_id s =
    or_err record_not_found (lookup user_id s.users) >>= in_household household_id

abbrev pub store_user : ℤ → User → AuthStore → AuthStore
store_user id u s = record s { users = insert id u s.users }

abbrev pub check_ids : ℤ → ℤ → Result (Unit {0})
check_ids household_id user_id =
    return_if (leb_ℤ household_id (pos 0) || leb_ℤ user_id (pos 0)) id_not_positive

abbrev updated : ℤ → User → AuthStore → HouseholdMember × AuthStore
updated id u s = (scan_household_member id u, store_user id u s)

unfoldable pub update_household_member_role :
    ℤ → ℤ → Role → Time → AuthStore → Result (HouseholdMember × AuthStore)
unfolding load_household_member
update_household_member_role household_id user_id new_role now s =
    check_ids household_id user_id
    >> (load_household_member household_id user_id s >>= λ current.
        (if is_null current.disabled_at && (is_owner current.role && not (is_owner new_role))
          then require_another_active_owner household_id s
          else ok tt)
        >> ok (updated user_id (record current { role = new_role; updated_at = now }) s))

-- `UPDATE auth_sessions SET revoked_at = $2 WHERE user_id = $1 AND revoked_at IS NULL`
unfoldable pub revoke_user_sessions : ℤ → Time → List Session → List Session
revoke_user_sessions id now [] = []
revoke_user_sessions id now (x ∷ xs) =
    (if eqb_ℤ x.user_id id && is_null x.revoked_at then record x { revoked_at = some now } else x)
    ∷ revoke_user_sessions id now xs

abbrev pub revoked : ℤ → Time → HouseholdMember × AuthStore → HouseholdMember × AuthStore
revoked id now (m, s) = (m, record s { sessions = revoke_user_sessions id now s.sessions })

unfoldable pub disable_household_member :
    ℤ → ℤ → Time → AuthStore → Result (HouseholdMember × AuthStore)
unfolding load_household_member revoke_user_sessions
disable_household_member household_id user_id now s =
    check_ids household_id user_id
    >> (load_household_member household_id user_id s >>= λ current.
        if is_set current.disabled_at
        then ok (scan_household_member user_id current, s)
        else ((if is_owner current.role then require_another_active_owner household_id s else ok tt)
            >> ok (
                revoked user_id now (
                  updated user_id (record current { disabled_at = some now; updated_at = now })
                    s))))

unfoldable pub enable_household_member :
    ℤ → ℤ → Time → AuthStore → Result (HouseholdMember × AuthStore)
unfolding load_household_member
enable_household_member household_id user_id now s =
    check_ids household_id user_id
    >> (load_household_member household_id user_id s >>= λ current.
        if is_null current.disabled_at
        then ok (scan_household_member user_id current, s)
        else ok (updated user_id (record current { disabled_at = none; updated_at = now }) s))

unfoldable pub has_username : String → Dict ℤ User → Bool
has_username name [] = false
has_username name ((id, u) ∷ users) =
    let rest = has_username name users in if str_eq u.normalized_username name then true else rest

abbrev pub new_user : ℤ → String → String → String → Role → Time → User
new_user household_id username normalized hash role now = record {
  username = username;
  normalized_username = normalized;
  password_hash = hash;
  household_id = household_id;
  role = role;
  totp_secret_ciphertext = none;
  totp_last_counter = none;
  totp_enrolled_at = none;
  disabled_at = none;
  created_at = now;
  updated_at = now;
}

abbrev pub is_some {ℓ} : {A : Type ℓ} → Option A → Bool
is_some none = false
is_some (some a) = true

-- The identity column's next value is an argument; the primary key refuses one that is in use.
unfoldable pub create_household_member :
    ℤ
    → Time
    → ℤ
    → String
    → String
    → String
    → Role
    → AuthStore
    → Result (HouseholdMember × AuthStore)
unfolding has_username
create_household_member id now household_id username normalized hash role s =
    return_if (leb_ℤ household_id (pos 0)) id_not_positive
    >> (return_if (is_empty normalized || is_empty hash) constraint_violation
        >> (return_if (has_username normalized s.users) username_exists
            >> (return_if (is_some (lookup id s.users)) constraint_violation
                >> ok (updated id (new_user household_id username normalized hash role now) s))))

-- rbac_service.go. Lower case, password hashing and the length in bytes are parameters: the first
-- and the last are Go's library, the hash is argon2id with a random salt.
module _ (to_lower : String → String) (hash_password : String → Option String)
    (byte_length : String → ℕ) where
  unfoldable pub service_create_household_member :
      ℤ → Time → ℤ → String → String → String → AuthStore → Result (HouseholdMember × AuthStore)
  service_create_household_member id now household_id raw_username password raw_role s =
      let username = trim_space raw_username in
      let normalized = to_lower (trim_space username) in
      return_if
        (leb_ℤ household_id (pos 0)
          || (is_empty normalized || not (leb (byte_length normalized) 128)))
        invalid_member_input
      >> (or_err invalid_member_input (parse_role to_lower raw_role) >>= λ role.
          or_err invalid_member_input (hash_password password) >>= λ hash.
          create_household_member id now household_id username normalized hash role s)

  unfoldable pub service_update_household_member_role :
      ℤ → ℤ → String → Time → AuthStore → Result (HouseholdMember × AuthStore)
  service_update_household_member_role household_id user_id raw_role now s =
      or_err invalid_member_input (parse_role to_lower raw_role) >>= λ role.
      update_household_member_role household_id user_id role now s
