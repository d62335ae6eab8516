-- ===== src/Auth/Identity.antt =====
-- internal/auth/service.go: who a session's token stands for, and logging out.
use family_finance_os.Prelude.{
  Bool, not, String, Result, ok, err, ◌>>=◌, or_err, if◌then◌else◌, unauthenticated,
}
use family_finance_os.Prelude.Int.{ℤ}
use family_finance_os.Prelude.Time.{Time, before, add_time}
use family_finance_os.Prelude.Text.{is_empty, trim_space}
use family_finance_os.Auth.{Role, Session, AuthStore, int_eq}
use family_finance_os.Auth.Sessions.{
  SessionView, get_session, get_user_role, touch_session, revoke_session, after_call,
}
use family_finance_os.Auth.Login.{
  Crypto, session_idle_timeout, session_touch_cadence, not_found_as, or_else,
}

pub record SessionIdentity : Type 0 where
  pub user_id : ℤ
  pub username : String
  pub household_id : ℤ
  pub role : Role
  pub csrf_token : String

abbrev pub is_idle : Time → Session → Bool
is_idle now x = not (before now (add_time x.last_seen_at session_idle_timeout))

abbrev pub touch_due : Time → Session → Bool
touch_due now x = not (before now (add_time x.last_seen_at session_touch_cadence))

abbrev pub identity_of : SessionView → Role → String → SessionIdentity
identity_of v role csrf = record {
  user_id = v.session.user_id;
  username = v.username;
  household_id = v.household_id;
  role = role;
  csrf_token = csrf;
}

abbrev pub settle :
    AuthStore → Result (SessionIdentity × AuthStore) → Result SessionIdentity × AuthStore
settle s (err e) = (err e, s)
settle s (ok (identity, t)) = (ok identity, t)

module _ (C : Crypto) where
  open C use {hash_token, unseal}

  -- A session that is not idle: its identity and the tables with the session touched if it is due.
  unfoldable pub identify :
      String → Time → SessionView → AuthStore → Result (SessionIdentity × AuthStore)
  unfolding get_user_role touch_session
  identify token_hash now v s = do
    role ← not_found_as unauthenticated (get_user_role v.session.user_id s)
    csrf ← or_err unauthenticated (unseal v.session.csrf_token_ciphertext)
    let touched = or_else unauthenticated (touch_session token_hash now s)
    s' ← (if touch_due now v.session then touched else ok s)
    ok (identity_of v role csrf, s')

  -- The answer, and the tables: an idle session is revoked although the answer_of is an error.
  unfoldable pub authenticate_view :
      String → Time → Result SessionView → AuthStore → Result SessionIdentity × AuthStore
  unfolding identify revoke_session
  authenticate_view token_hash now (err e) s = (not_found_as unauthenticated (err e), s)
  authenticate_view token_hash now (ok v) s =
      if is_idle now v.session
      then (err unauthenticated, after_call s (revoke_session token_hash now s))
      else settle s (identify token_hash now v s)

  unfoldable pub authenticate_session :
      String → Time → AuthStore → Result SessionIdentity × AuthStore
  unfolding get_session authenticate_view
  authenticate_session raw now s =
      if is_empty (trim_space raw)
      then (err unauthenticated, s)
      else authenticate_view (hash_token raw) now (get_session (hash_token raw) now s) s

  -- The tables: a token that opens no session is no error.
  unfoldable pub logout : String → Time → AuthStore → AuthStore
  unfolding revoke_session
  logout raw now s =
      if is_empty (trim_space raw) then s else after_call s (revoke_session (hash_token raw) now s)
