-- ===== src/Auth/Sessions.antt =====
-- internal/auth/postgres_store.go: reading, touching and revoking sessions, and what the
-- management of members leaves of them.
use family_finance_os.Prelude.{
  ◌≡◌, arith, true, false, String, Option, none, some, List, [], ◌∷◌, if◌then◌else◌, ◌&&◌, Result,
  ok, err, ◌>>=◌, All, or_err, record_not_found, ℕ, suc, ◌==◌, Bool, Bool-cases, inl, inr,
  some-injective, refl,
}
use mathlib.Core.Path.{subst}
use mathlib.Core.List.{Mem, mem-cons_self, mem-cons_of_mem}
use family_finance_os.Prelude.Int.{ℤ, eqb_ℤ, ◌<ℤ◌}
use family_finance_os.Prelude.Time.{Time, after}
use family_finance_os.Prelude.Text.{str_eq, eq_iff}
use family_finance_os.Prelude.Eq.{lookup}
use family_finance_os.Auth.{int_eq, User, Session, AuthStore, is_null, Role}
use family_finance_os.Auth.Members.{revoke_user_sessions}

pub record SessionView : Type 0 where
  pub session : Session
  pub username : String
  pub household_id : ℤ

-- The row of the token that is not revoked and has not expired.
unfoldable pub find_session : String → Time → List Session → Option Session
find_session token now [] = none
find_session token now (x ∷ xs) =
    let rest = find_session token now xs in
    if str_eq x.token_hash token && (is_null x.revoked_at && after x.expires_at now)
    then some x
    else rest

-- The join with the user, who must not be disabled.
abbrev pub view_of : Session → User → Result SessionView
view_of x u =
    if is_null u.disabled_at
    then ok (record { session = x; username = u.username; household_id = u.household_id })
    else err record_not_found

unfoldable pub get_session : String → Time → AuthStore → Result SessionView
unfolding find_session
get_session token now s = or_err record_not_found (find_session token now s.sessions) >>= λ x.
    or_err record_not_found (lookup x.user_id s.users) >>= λ u. view_of x u

-- No session of the user is open.
abbrev pub AllRevoked : ℤ → List Session → Type 0
AllRevoked id xs = All (λ x. (eqb_ℤ x.user_id id && is_null x.revoked_at) ≡ false) xs

pub revoke-AllRevoked :
    (id : ℤ) (now : Time) (xs : List Session) → AllRevoked id (revoke_user_sessions id now xs)
unfolding revoke_user_sessions
revoke-AllRevoked id now [] = tt
revoke-AllRevoked id now (x ∷ xs) = (ground arith, revoke-AllRevoked id now xs)

pub revoke-keeps :
    (id other : ℤ) (now : Time) (xs : List Session)
    → AllRevoked id xs
    → AllRevoked id (revoke_user_sessions other now xs)
unfolding revoke_user_sessions
revoke-keeps id other now [] h = tt
revoke-keeps id other now (x ∷ xs) h = (ground (arith, h.0), revoke-keeps id other now xs h.1)

pub find-open :
    (id : ℤ) (token : String) (now : Time) (xs : List Session) (x : Session)
    → AllRevoked id xs
    → find_session token now xs ≡ some x
    → eqb_ℤ x.user_id id ≡ false
unfolding find_session
find-open id token now [] x h q = cc
find-open id token now (y ∷ ys) x h q = ground (arith, h.0, find-open id token now ys x h.1)

-- `UPDATE auth_sessions SET ... WHERE ...` with the number of rows it affects.
unfoldable pub update_sessions :
    (Session → Bool) → (Session → Session) → List Session → ℕ × List Session
update_sessions test change [] = (0, [])
update_sessions test change (x ∷ xs) =
    let rest = update_sessions test change xs in
    if test x then (suc rest.0, change x ∷ rest.1) else (rest.0, x ∷ rest.1)

abbrev pub if_affected : AuthStore → ℕ × List Session → Result AuthStore
if_affected s (count, sessions) =
    if count == 0 then err record_not_found else ok (record s { sessions = sessions })

abbrev is_open : String → Session → Bool
is_open token x = str_eq x.token_hash token && is_null x.revoked_at

unfoldable pub touch_session : String → Time → AuthStore → Result AuthStore
unfolding update_sessions
touch_session token now s = if_affected s (
    update_sessions (λ x. is_open token x && after x.expires_at now)
      (λ x. record x { last_seen_at = now }) s.sessions)

unfoldable pub revoke_session : String → Time → AuthStore → Result AuthStore
unfolding update_sessions
revoke_session token now s =
    if_affected s
      (update_sessions (λ x. is_open token x) (λ x. record x { revoked_at = some now }) s.sessions)

unfoldable pub get_user_role : ℤ → AuthStore → Result Role
get_user_role id s = or_err record_not_found (lookup id s.users) >>= λ u.
    if is_null u.disabled_at then ok u.role else err record_not_found

revoke-find :
    (token : String) (now later : Time) (xs : List Session)
    → find_session token later
        (update_sessions (λ x. is_open token x) (λ x. record x { revoked_at = some now }) xs).1
      ≡ none
unfolding find_session update_sessions
revoke-find token now later [] = refl
revoke-find token now later (x ∷ xs) = ground (arith, revoke-find token now later xs)

-- The tables after a call whose error is dropped.
abbrev pub after_call : AuthStore → Result AuthStore → AuthStore
after_call s (err e) = s
after_call s (ok t) = t

suc_nonzero : (n : ℕ) → (suc n == 0) ≡ true → ⊥
suc_nonzero n h = ground arith

none-find :
    (token : String) (later : Time) (xs : List Session) (change : Session → Session)
    → ((update_sessions (λ x. is_open token x) change xs).0 == 0) ≡ true
    → find_session token later xs ≡ none
unfolding find_session update_sessions
none-find token later [] change h = refl
none-find token later (x ∷ xs) change h = elim (Bool-cases (is_open token x)) [
  | inl is_one ↦ absurd (suc_nonzero _ (rw is_one at h))
  | inr other ↦ ground (arith, other, none-find token later xs change (rw other at h))
]

-- The same without an answer: whether or not a session was revoked, none is open afterwards.
pub after-revoke_session :
    (token : String) (now later : Time) (s : AuthStore)
    → get_session token later (after_call s (revoke_session token now s)) ≡ err record_not_found
unfolding revoke_session get_session
after-revoke_session token now later s =
    elim (Bool-cases (
      (update_sessions (λ x. is_open token x) (λ x. record x { revoked_at = some now })
        s.sessions).0
      == 0)) [
        | inl none_found ↦ rw (none_found, none-find token later s.sessions _ none_found)
        | inr found ↦ rw (found, revoke-find token now later s.sessions)
      ]

pub null_none : (o : Option Time) → is_null o ≡ true → o ≡ none
null_none none h = refl
null_none (some t) h = cc

all_three : (a b c : Bool) → (a && (b && c)) ≡ true → (a ≡ true) × (b ≡ true) × (c ≡ true)
all_three a b c h = ground (arith, h)

later_than : (a b : Time) → after a b ≡ true → b <ℤ a
later_than a b h = ground arith

row_facts :
    (y : Session) (token : String) (now : Time)
    → (str_eq y.token_hash token && (is_null y.revoked_at && after y.expires_at now)) ≡ true
    → (y.token_hash ≡ token) × (y.revoked_at ≡ none) × (now <ℤ y.expires_at)
row_facts y token now h =
    let facts = all_three (str_eq y.token_hash token) (is_null y.revoked_at) _ h in
    (
      (eq_iff y.token_hash token).0 facts.0,
      null_none y.revoked_at facts.1,
      later_than y.expires_at now facts.2,
    )

-- What the row of an open session says.
pub find_session-open :
    (token : String) (now : Time) (xs : List Session) (x : Session)
    → find_session token now xs ≡ some x
    → (x.token_hash ≡ token) × (x.revoked_at ≡ none) × (now <ℤ x.expires_at)
unfolding find_session
find_session-open token now [] x h = cc
find_session-open token now (y ∷ ys) x h =
    elim (Bool-cases
      (str_eq y.token_hash token && (is_null y.revoked_at && after y.expires_at now))) [
        | inl found ↦
            let facts = row_facts y token now found in
            subst
              (λ (z : Session).
                (z.token_hash ≡ token) × (z.revoked_at ≡ none) × (now <ℤ z.expires_at))
              (some-injective (rw found at h)) facts
        | inr other ↦ find_session-open token now ys x (rw other at h)
      ]

pub find_session-Mem :
    (token : String) (now : Time) (xs : List Session) (x : Session)
    → find_session token now xs ≡ some x
    → Mem x xs
unfolding find_session
find_session-Mem token now [] x h = cc
find_session-Mem token now (y ∷ ys) x h =
    elim (Bool-cases
      (str_eq y.token_hash token && (is_null y.revoked_at && after y.expires_at now))) [
        | inl found ↦
            subst (λ (z : Session). Mem z (y ∷ ys)) (some-injective (rw found at h)) mem-cons_self
        | inr other ↦ mem-cons_of_mem y (find_session-Mem token now ys x (rw other at h))
      ]

revoke-other :
    (token other : String) (now later : Time) (xs : List Session)
    → str_eq other token ≡ false
    → find_session other later
        (update_sessions (λ x. is_open token x) (λ x. record x { revoked_at = some now }) xs).1
      ≡ find_session other later xs
unfolding find_session update_sessions
revoke-other token other now later [] h = refl
revoke-other token other now later (x ∷ xs) h = ground (
  arith,
  eq_iff x.token_hash token,
  eq_iff x.token_hash other,
  eq_iff other token,
  revoke-other token other now later xs h,
)

-- Revoking a session by its token leaves every other token what it opens.
pub after-revoke_other :
    (token other : String) (now later : Time) (s : AuthStore)
    → str_eq other token ≡ false
    → get_session other later (after_call s (revoke_session token now s))
      ≡ get_session other later s
unfolding revoke_session get_session
after-revoke_other token other now later s h =
    elim (Bool-cases (
      (update_sessions (λ x. is_open token x) (λ x. record x { revoked_at = some now })
        s.sessions).0
      == 0)) [
        | inl none_found ↦ rw none_found
        | inr found ↦ rw (found, revoke-other token other now later s.sessions h)
      ]
