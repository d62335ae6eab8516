-- ===== src/Auth/Authenticated.antt =====
-- internal/auth/service.go: what an authenticated session stands for, logging out and idling.
use family_finance_os.Prelude.{
  ◌≡◌, none, refl, sym, ap, arith, true, false, String, some, Result, ok, err, or_err, or_err-ok,
  if◌then◌else◌, unauthenticated, record_not_found, Bool-cases, inl, inr, bind_ok, ok-injective,
}
use mathlib.Core.List.{Mem}
use family_finance_os.Prelude.Int.{ℤ, pos, ◌+ℤ◌, ◌≤ℤ◌, ◌<ℤ◌}
use family_finance_os.Prelude.Time.{Time}
use family_finance_os.Prelude.Text.{is_empty, trim_space, str_eq}
use family_finance_os.Prelude.Eq.{lookup}
use family_finance_os.Auth.{Role, User, Session, AuthStore, int_eq, is_null}
use family_finance_os.Auth.Sessions.{
  SessionView, find_session, get_session, view_of, get_user_role, touch_session, revoke_session,
  after_call, after-revoke_session, after-revoke_other, find_session-open, find_session-Mem,
  null_none,
}
use family_finance_os.Auth.Login.{Crypto, not_found_as, not_found_as_ok, or_else}
use family_finance_os.Auth.Identity.{
  SessionIdentity, is_idle, touch_due, identity_of, settle, identify, authenticate_view,
  authenticate_session, logout,
}

module _ (C : Crypto) where
  open C use {hash_token, unseal}

  -- What an identity stands for: an open session, used within the idle timeout, and an active user.
  pub record Stands (raw : String) (now : Time) (s : AuthStore) (i : SessionIdentity) : Type 0 where
    pub session : Session
    pub user : User
    pub open_session : find_session (hash_token raw) now s.sessions ≡ some session
    pub listed : Mem session s.sessions
    pub of_token : session.token_hash ≡ hash_token raw
    pub not_revoked : session.revoked_at ≡ none
    pub not_expired : now <ℤ session.expires_at
    pub of_user : session.user_id ≡ i.user_id
    pub fresh : now <ℤ session.last_seen_at +ℤ pos 1_800_000_000_000
    pub known : lookup i.user_id s.users ≡ some user
    pub active : user.disabled_at ≡ none
    pub role : i.role ≡ user.role
    pub username : i.username ≡ user.username
    pub household : i.household_id ≡ user.household_id

  settle_ok :
      (s t : AuthStore) (r : Result (SessionIdentity × AuthStore)) (i : SessionIdentity)
      → settle s r ≡ (ok i, t)
      → r ≡ ok (i, t)
  settle_ok s t (err e) i q = cc (ap (λ (x : Result SessionIdentity × AuthStore). x.0) q)
  settle_ok s t (ok (j, u)) i q =
      let same = ok-injective (ap (λ (x : Result SessionIdentity × AuthStore). x.0) q) in
      let left = ap (λ (x : Result SessionIdentity × AuthStore). x.1) q in rw (same, left)

  get_user_role_ok :
      (id : ℤ) (s : AuthStore) (u : User) (role : Role)
      → lookup id s.users ≡ some u
      → get_user_role id s ≡ ok role
      → role ≡ u.role
  unfolding get_user_role
  get_user_role_ok id s u role h q = elim (Bool-cases (is_null u.disabled_at)) [
    | inl active ↦ sym (ok-injective (rw (h, active) at q))
    | inr disabled ↦ absurd (cc (rw (h, disabled) at q))
  ]

  view_of_ok :
      (x : Session) (u : User) (v : SessionView)
      → view_of x u ≡ ok v
      → (is_null u.disabled_at ≡ true)
        × (v.session ≡ x)
        × (v.username ≡ u.username)
        × (v.household_id ≡ u.household_id)
  view_of_ok x u v q = elim (Bool-cases (is_null u.disabled_at)) [
    | inl active ↦
        let same = ok-injective (rw active at q) in
        (
          active,
          ap (λ (w : SessionView). w.session) (sym same),
          ap (λ (w : SessionView). w.username) (sym same),
          ap (λ (w : SessionView). w.household_id) (sym same),
        )
    | inr disabled ↦ absurd (cc (rw disabled at q))
  ]

  -- What `identify` answers with.
  identify_ok :
      (token_hash : String) (now : Time) (v : SessionView) (s t : AuthStore) (i : SessionIdentity)
      → identify C token_hash now v s ≡ ok (i, t)
      → (role : Role) × (csrf : String) × (get_user_role v.session.user_id s ≡ ok role)
        × (i ≡ identity_of v role csrf)
  unfolding identify
  identify_ok token_hash now v s t i q =
      bind_ok (not_found_as unauthenticated (get_user_role v.session.user_id s)) _ q λ role e q1.
        bind_ok (or_err unauthenticated (unseal v.session.csrf_token_ciphertext)) _ q1 λ csrf _ q2.
          bind_ok
            (if touch_due now v.session
              then or_else unauthenticated (touch_session token_hash now s)
              else ok s)
            _ q2
            λ _ _ q3. (
              role,
              csrf,
              not_found_as_ok unauthenticated (get_user_role v.session.user_id s) role e,
              ap (λ (x : SessionIdentity × AuthStore). x.0) (sym (ok-injective q3)),
            )

  used_within :
      (now : Time) (x : Session)
      → is_idle now x ≡ false
      → now <ℤ x.last_seen_at +ℤ pos 1_800_000_000_000
  used_within now x h = ground arith

  stands :
      (raw : String) (now : Time) (s t : AuthStore) (v : SessionView) (i : SessionIdentity)
      → get_session (hash_token raw) now s ≡ ok v
      → is_idle now v.session ≡ false
      → identify C (hash_token raw) now v s ≡ ok (i, t)
      → Stands raw now s i
  unfolding get_session
  stands raw now s t v i q fresh p =
      let made = identify_ok (hash_token raw) now v s t i p in
      bind_ok (or_err record_not_found (find_session (hash_token raw) now s.sessions)) _ q λ x f q1.
        bind_ok (or_err record_not_found (lookup x.user_id s.users)) _ q1 λ u g q2.
          let seen = view_of_ok x u v q2 in
          let same_id : x.user_id ≡ i.user_id = cc (made.3, seen.1) in
          let opened =
            or_err-ok record_not_found (find_session (hash_token raw) now s.sessions) x f in
          let row = find_session-open (hash_token raw) now s.sessions x opened in
          let user = or_err-ok record_not_found (lookup x.user_id s.users) u g in
          record {
            session = x;
            user = u;
            open_session = opened;
            listed = find_session-Mem (hash_token raw) now s.sessions x opened;
            of_token = row.0;
            not_revoked = row.1;
            not_expired = row.2;
            of_user = same_id;
            fresh = used_within now x (rw seen.1 at fresh);
            known = rw same_id at user;
            active = null_none u.disabled_at seen.0;
            role = cc (made.3, get_user_role_ok x.user_id s u made.0 user (rw seen.1 at made.2));
            username = cc (made.3, seen.2);
            household = cc (made.3, seen.3);
          }

  answer_of :
      {s t : AuthStore} {r r' : Result SessionIdentity}
      → Path (Result SessionIdentity × AuthStore) (r, s) (r', t)
      → r ≡ r'
  answer_of q = ap (λ (x : Result SessionIdentity × AuthStore). x.0) q

  view-Stands :
      (raw : String) (now : Time) (s t : AuthStore) (i : SessionIdentity) (r : Result SessionView)
      → get_session (hash_token raw) now s ≡ r
      → authenticate_view C (hash_token raw) now r s ≡ (ok i, t)
      → Stands raw now s i
  unfolding authenticate_view
  view-Stands raw now s t i (err e) h q =
      absurd (cc (not_found_as_ok unauthenticated (err e) i (answer_of q)))
  view-Stands raw now s t i (ok v) h q = elim (Bool-cases (is_idle now v.session)) [
    | inl idle ↦ absurd (cc (answer_of (rw idle at q)))
    | inr fresh ↦
        stands raw now s t v i h fresh
          (settle_ok s t (identify C (hash_token raw) now v s) i (rw fresh at q))
  ]

  -- An identity that authentication answers with stands for a session of that token, which is neither
  -- revoked nor expired and was last used less than thirty minutes before, of a user who is not disabled, and has that user's name,
  -- household and role.
  pub authenticate_session-Stands :
      (raw : String) (now : Time) (s t : AuthStore) (i : SessionIdentity)
      → authenticate_session C raw now s ≡ (ok i, t)
      → Stands raw now s i
  unfolding authenticate_session authenticate_view
  authenticate_session-Stands raw now s t i q = elim (Bool-cases (is_empty (trim_space raw))) [
    | inl blank ↦ absurd (cc (answer_of (rw blank at q)))
    | inr given ↦
        view-Stands raw now s t i (get_session (hash_token raw) now s) refl (rw given at q)
  ]

  closed :
      (raw : String) (later : Time) (s : AuthStore)
      → get_session (hash_token raw) later s ≡ err record_not_found
      → (authenticate_session C raw later s).0 ≡ err unauthenticated
  unfolding authenticate_session authenticate_view
  closed raw later s h = elim (Bool-cases (is_empty (trim_space raw))) [
    | inl blank ↦ rw blank
    | inr given ↦ rw (given, h)
  ]

  logout_step :
      (raw : String) (now : Time) (s : AuthStore)
      → is_empty (trim_space raw) ≡ false
      → logout C raw now s ≡ after_call s (revoke_session (hash_token raw) now s)
  unfolding logout
  logout_step raw now s given = rw given

  -- After logging out, the token never authenticates again, at any time.
  pub authenticate_session-logout :
      (raw : String) (now later : Time) (s : AuthStore)
      → (authenticate_session C raw later (logout C raw now s)).0 ≡ err unauthenticated
  unfolding logout authenticate_session
  authenticate_session-logout raw now later s = elim (Bool-cases (is_empty (trim_space raw))) [
    | inl blank ↦ rw blank
    | inr given ↦ cc (
      logout_step raw now s given,
      closed raw later (after_call s (revoke_session (hash_token raw) now s))
          (after-revoke_session (hash_token raw) now later s),
    )
  ]

  idle_step :
      (raw : String) (now : Time) (s : AuthStore) (v : SessionView)
      → is_empty (trim_space raw) ≡ false
      → get_session (hash_token raw) now s ≡ ok v
      → is_idle now v.session ≡ true
      → authenticate_session C raw now s
        ≡ (err unauthenticated, after_call s (revoke_session (hash_token raw) now s))
  unfolding authenticate_session authenticate_view
  idle_step raw now s v given h idle = rw (given, h, idle)

  idle_from :
      (now : Time) (x : Session)
      → x.last_seen_at +ℤ pos 1_800_000_000_000 ≤ℤ now
      → is_idle now x ≡ true
  idle_from now x h = ground arith

  -- A session that was last used thirty minutes before or earlier is answered with an error, and its
  -- token never authenticates on the tables left, at any time; every other token opens there what it
  -- opened before.
  pub authenticate_session_idle :
      (raw : String) (now later : Time) (s : AuthStore) (v : SessionView)
      → get_session (hash_token raw) now s ≡ ok v
      → v.session.last_seen_at +ℤ pos 1_800_000_000_000 ≤ℤ now
      → ((authenticate_session C raw now s).0 ≡ err unauthenticated)
        × ((authenticate_session C raw later (authenticate_session C raw now s).1).0
            ≡ err unauthenticated)
        × ((other : String)
            → str_eq other (hash_token raw) ≡ false
            → get_session other later (authenticate_session C raw now s).1
              ≡ get_session other later s)
  unfolding authenticate_session
  authenticate_session_idle raw now later s v h unused =
      elim (Bool-cases (is_empty (trim_space raw))) [
        | inl blank ↦ (rw blank refl, rw blank refl, λ other differs. rw blank refl)
        | inr given ↦
            let revoked = idle_step raw now s v given h (idle_from now v.session unused) in
            (
              rw revoked,
              cc (
                revoked,
                closed raw later (after_call s (revoke_session (hash_token raw) now s))
                    (after-revoke_session (hash_token raw) now later s),
              ),
              λ other differs.
                  rw revoked (after-revoke_other (hash_token raw) other now later s differs),
            )
      ]
