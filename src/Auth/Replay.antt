-- ===== src/Auth/Replay.antt =====
-- internal/auth/postgres_store.go: a code of a second factor that is used again, whatever calls of
-- the store come between.
use family_finance_os.Prelude.{
  ◌≡◌, inl, inr, refl, sym, ap, arith, Bool, true, false, not, ◌&&◌, String, Option, none, some,
  List, ok, err, bind_ok, or_err, or_err-ok, ok-injective, some-injective, return_if, return_if_ok,
  Bool-cases, record_not_found,
}
use mathlib.Core.Path.{subst}
use family_finance_os.Prelude.Int.{ℤ, ◌≤ℤ◌}
use family_finance_os.Prelude.Time.{Time}
use family_finance_os.Prelude.Eq.{lookup, lookup-insert, string_eq}
use family_finance_os.Auth.{
  int_eq, User, Session, Challenge, challenge_login, AuthStore, is_set, is_null,
}
use family_finance_os.Auth.Challenges.{
  get_challenge, of_kind, consume_kind, store_consumed, is_pending, same_kind, pending, is_newer,
  advance_counter, complete_totp_login,
}
use family_finance_os.Auth.Operations.{StoreCall, run}
use family_finance_os.Auth.Evolution.{Evolves}
use family_finance_os.Auth.Completions.{all_true, insert_session-Evolves}
use family_finance_os.Auth.Runs.{run-Evolves}

-- The user's last code is at least a counter.
abbrev Reached : ℤ → ℤ → AuthStore → Type 0
Reached id counter s =
    (u : User) × (lookup id s.users ≡ some u)
    × (is_set u.totp_enrolled_at ≡ true)
    × (is_newer u.totp_last_counter counter ≡ false)

pending_row : (now : Time) (e d : Challenge) → pending now e ≡ ok d → e ≡ d
pending_row now e d q = ground (arith, q)

kind_row : (d e : Challenge) → of_kind challenge_login d ≡ ok e → d ≡ e
kind_row d e q = ground (arith, q)

consumed_row :
    (token : String) (now : Time) (s : AuthStore) (r : Challenge × AuthStore)
    → consume_kind challenge_login token now s ≡ ok r
    → lookup token s.challenges ≡ some r.0
unfolding consume_kind get_challenge
consumed_row token now s r q = bind_ok (get_challenge token now s) _ q λ d f q1.
    bind_ok (or_err record_not_found (lookup token s.challenges)) _ f λ e g f1.
      bind_ok (of_kind challenge_login d) _ q1 λ d' k q2.
        let found = or_err-ok record_not_found (lookup token s.challenges) e g in
        let row = ap (λ (x : Challenge × AuthStore). x.0) (ok-injective q2) in
        cc (found, row, pending_row now e d f1, kind_row d d' k)

advance_counter-Reached :
    (id counter : ℤ) (now : Time) (s t : AuthStore)
    → advance_counter id counter now s ≡ ok t
    → Reached id counter t
unfolding advance_counter
advance_counter-Reached id counter now s t q =
    bind_ok (or_err record_not_found (lookup id s.users)) _ q λ u f q1.
      bind_ok
        (return_if
          (not (
            is_null u.disabled_at
            && (is_set u.totp_enrolled_at && is_newer u.totp_last_counter counter)))
          record_not_found)
        _ q1
        λ r g q2.
          subst (λ (x : AuthStore). Reached id counter x) (ok-injective q2)
            (
              record u { totp_last_counter = some counter; updated_at = now },
              rw (
                lookup-insert id id
                    (record u { totp_last_counter = some counter; updated_at = now }) s.users,
                (int_eq.beq_iff id id).1 refl,
              ),
              (all_true _ _ _ (return_if_ok _ record_not_found r g)).1,
              ground arith,
            )

-- Every later store that evolved from one has reached the counter too.
Reached-Evolves :
    (id counter : ℤ) (s t : AuthStore) → Evolves s t → Reached id counter s → Reached id counter t
Reached-Evolves id counter s t f (u, found, enrolled, newest) =
    let v = f.users id u found in
    (v.0, v.1, v.2.enrolled enrolled, v.2.counter enrolled counter newest)

below : (last : Option ℤ) (a b : ℤ) → is_newer last a ≡ false → b ≤ℤ a → is_newer last b ≡ false
below none a b h le = cc
below (some last) a b h le = ground arith

same_row :
    (token : String) (s : AuthStore) (c d : Challenge)
    → lookup token s.challenges ≡ some c
    → lookup token s.challenges ≡ some d
    → c ≡ d
same_row token s c d f g = some-injective (cc (f, g))

complete_totp_login-Reached :
    (token : String) (counter : ℤ) (x : Session) (now : Time) (s t : AuthStore) (c : Challenge)
    → lookup token s.challenges ≡ some c
    → complete_totp_login token counter x now s ≡ ok t
    → Reached c.user_id counter t
unfolding complete_totp_login
complete_totp_login-Reached token counter x now s t c h q =
    bind_ok (consume_kind challenge_login token now s) _ q λ r f q1.
      bind_ok (advance_counter r.0.user_id counter now r.1) _ q1 λ s2 g q2.
        subst (λ (y : Challenge). Reached y.user_id counter t)
          (same_row token s r.0 c (consumed_row token now s r f) h)
          (Reached-Evolves r.0.user_id counter s2 t
            (insert_session-Evolves (record x { user_id = r.0.user_id }) s2 t q2)
            (advance_counter-Reached r.0.user_id counter now r.1 s2 g))

and_false : (a : Bool) → (a && false) ≡ false
and_false a = ground arith

advance_counter_refused :
    (id counter used : ℤ) (now : Time) (s : AuthStore)
    → Reached id used s
    → counter ≤ℤ used
    → advance_counter id counter now s ≡ err record_not_found
unfolding advance_counter
advance_counter_refused id counter used now s (u, found, enrolled, newest) le = rw (
  found,
  enrolled,
  below u.totp_last_counter used counter newest le,
  and_false (is_null u.disabled_at),
)

totp_refused :
    (token : String) (counter used : ℤ) (x : Session) (now : Time) (s : AuthStore) (c : Challenge)
    → lookup token s.challenges ≡ some c
    → Reached c.user_id used s
    → counter ≤ℤ used
    → complete_totp_login token counter x now s ≡ err record_not_found
unfolding complete_totp_login consume_kind get_challenge
totp_refused token counter used x now s c h reached le = elim (Bool-cases (is_pending now c)) [
  | inl open_still ↦ elim (Bool-cases (same_kind challenge_login c.kind)) [
    | inl login ↦ rw (
      h,
      open_still,
      login,
      advance_counter_refused c.user_id counter used now (store_consumed token now c s) reached le,
    )
    | inr other_kind ↦ rw (h, open_still, other_kind)
  ]
  | inr closed ↦ rw (h, closed)
]

-- A code is used once: after a login with the code of a counter, no login of the same user with a
-- code of that counter or an earlier one succeeds, whatever calls of the store come between.
pub complete_totp_login_once :
    (token other : String) (counter again : ℤ) (x y : Session) (now later : Time)
    (calls : List (Time × StoreCall)) (s t : AuthStore) (c d : Challenge)
    → lookup token s.challenges ≡ some c
    → complete_totp_login token counter x now s ≡ ok t
    → lookup other (run calls t).challenges ≡ some d
    → d.user_id ≡ c.user_id
    → again ≤ℤ counter
    → complete_totp_login other again y later (run calls t) ≡ err record_not_found
complete_totp_login_once token other counter again x y now later calls s t c d h q g same le =
    totp_refused other again counter y later (run calls t) d g
      (subst (λ (id : ℤ). Reached id counter (run calls t)) (sym same)
        (Reached-Evolves c.user_id counter t (run calls t) (run-Evolves calls t)
          (complete_totp_login-Reached token counter x now s t c h q)))
      le
