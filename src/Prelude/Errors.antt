-- ===== src/Prelude/Errors.antt =====
-- Go's `(T, error)`. An error is the sentinel that `errors.Is` finds in it, since the wrapping by
-- `fmt.Errorf("...: %w", err)` keeps that; the text around it is left out.
use mathlib.Core.Path.{◌≡◌, refl, ap}
use mathlib.Core.Option.{Option, none, some}
use mathlib.Core.Bool.{Bool, true, false}

pub data Error : Type 0 where
  currency_mismatch overflow : Error
  apr_required invalid_debt non_amortizing_debt invalid_strategy : Error
  decimal : Error
  negative_valuation unknown_valuation_kind : Error
  negative_emergency_input : Error
  name_required invalid_currency invalid_timezone base_currency_mismatch negative_amount : Error
  invalid_member_kind invalid_cadence invalid_stability not_a_member : Error
  invalid_goal goal_assumptions_unsupported : Error
  invalid_asset_class invalid_asset_snapshot : Error
  record_not_found last_owner username_exists invalid_member_input : Error
  id_not_positive invalid_role constraint_violation : Error
  invalid_scenario negative_planned : Error
  invalid_advice_request advisor_response encoding provider_failed : Error
  invalid_advice_audit record_failed : Error
  tool_not_allowed invalid_tool_definition duplicate_tool tool_not_found invalid_tool_input : Error
  invalid_job run_not_claimed job_execution : Error
  invalid_credentials invalid_second_factor unauthenticated : Error
  no_pending_secret secret_box invalid_totp username_required invalid_password : Error

pub data Result {ℓ} (T : Type ℓ) : Type ℓ where
  err : Error → Result T
  ok : T → Result T

infixl 5 ◌>>◌ ◌>>=◌
-- `if err != nil { return ..., err }` after a call.
abbrev pub ◌>>=◌ {ℓ κ} : {T : Type ℓ} {U : Type κ} → Result T → (T → Result U) → Result U
err e >>= next = err e
ok value >>= next = next value

-- The same where the call returns an error alone.
abbrev pub ◌>>◌ {ℓ} : {U : Type ℓ} → Result (Unit {0}) → Result U → Result U
check >> rest = check >>= λ _. rest

-- `if test { return ..., e }`
abbrev pub return_if : Bool → Error → Result (Unit {0})
return_if true e = err e
return_if false e = ok tt

-- The value of an option, or an error.
abbrev pub or_err {ℓ} : {A : Type ℓ} → Error → Option A → Result A
or_err e none = err e
or_err e (some a) = ok a

-- The value that a successful bind passes on.
abbrev pub Passed {ℓ κ} : {T : Type ℓ} {U : Type κ} → Result T → (T → Result U) → U → Type (ℓ ⊔ κ)
Passed {T = T} m next b = (value : T) × (m ≡ ok value) × (next value ≡ ok b)

pub passed {ℓ κ} :
    {T : Type ℓ} {U : Type κ} (m : Result T) (next : T → Result U) {b : U}
    → (m >>= next) ≡ ok b
    → Passed m next b
passed (err e) next q = cc
passed (ok value) next q = (value, refl, q)

pub ok-injective {ℓ} : {A : Type ℓ} {a b : A} → ok a ≡ ok b → a ≡ b
ok-injective h = cc

-- The same inversion, for a goal that takes the bound value.
pub bind_ok {ℓ κ μ} :
    {A : Type ℓ} {B : Type κ} {P : Type μ} (m : Result A) (f : A → Result B) {b : B}
    → (m >>= f) ≡ ok b
    → ((a : A) → m ≡ ok a → f a ≡ ok b → P)
    → P
bind_ok (ok a) f h k = k a refl h
bind_ok (err e) f h k = absurd (cc)

pub return_if_ok : (b : Bool) (e : Error) (u : Unit {0}) → return_if b e ≡ ok u → b ≡ false
return_if_ok true e u h = cc
return_if_ok false e u h = refl

pub some-injective {ℓ} : {A : Type ℓ} {a b : A} → some a ≡ some b → a ≡ b
some-injective h = cc

pub or_err-ok {ℓ} : {A : Type ℓ} (e : Error) (o : Option A) (a : A) → or_err e o ≡ ok a → o ≡ some a
or_err-ok e none a h = cc
or_err-ok e (some b) a h = ap some (ok-injective h)
