-- ===== src/Auth/Evolution.antt =====
-- What every run of the store's calls keeps: a user's second factor, the counter of the last code,
-- and that a challenge was consumed.
use family_finance_os.Prelude.{
  ◌≡◌, ◌⊎◌, inl, inr, refl, ap, true, false, String, none, some, some-injective, Bool-cases,
}
use mathlib.Core.Path.{subst}
use family_finance_os.Prelude.Int.{ℤ, eqb_ℤ}
use family_finance_os.Prelude.Time.{Time}
use family_finance_os.Prelude.Text.{str_eq}
use family_finance_os.Prelude.Eq.{Dict, lookup, insert, lookup-insert, string_eq}
use family_finance_os.Auth.{int_eq, User, Challenge, AuthStore, is_set, is_null}
use family_finance_os.Auth.Members.{store_user}
use family_finance_os.Auth.Challenges.{store_consumed, is_newer}

-- The second factor stays, and no counter that an enrolled user used becomes new.
pub record Grows (u v : User) : Type 0 where
  pub enrolled : is_set u.totp_enrolled_at ≡ true → is_set v.totp_enrolled_at ≡ true
  pub counter :
      is_set u.totp_enrolled_at ≡ true
      → (c : ℤ) → is_newer u.totp_last_counter c ≡ false
      → is_newer v.totp_last_counter c ≡ false

abbrev pub Grown : User → Dict ℤ User → ℤ → Type 0
Grown u users id = (v : User) × (lookup id users ≡ some v) × Grows u v

abbrev pub Spent : String → Dict String Challenge → Type 0
Spent token cs = (c : Challenge) × (lookup token cs ≡ some c) × (is_null c.consumed_at ≡ false)

pub record Evolves (s t : AuthStore) : Type 0 where
  pub users : (id : ℤ) (u : User) → lookup id s.users ≡ some u → Grown u t.users id
  pub spent : (token : String) → Spent token s.challenges → Spent token t.challenges

pub Grows-refl : (u : User) → Grows u u
Grows-refl u = record { enrolled = λ h. h; counter = λ _ c h. h }

pub Grows-trans : (u v w : User) → Grows u v → Grows v w → Grows u w
Grows-trans u v w f g = record {
  enrolled = λ h. g.enrolled (f.enrolled h);
  counter = λ p c h. g.counter (f.enrolled p) c (f.counter p c h);
}

-- Neither table changes.
pub Evolves-same : (s t : AuthStore) → t.users ≡ s.users → t.challenges ≡ s.challenges → Evolves s t
Evolves-same s t p q = record {
  users = λ id u h. (u, rw (p, h), Grows-refl u);
  spent = λ token h. (h.0, rw (q, h.1), h.2);
}

pub Evolves-trans : (s t r : AuthStore) → Evolves s t → Evolves t r → Evolves s r
Evolves-trans s t r f g = record {
  users = λ id u h.
      let m = f.users id u h in
      let n = g.users id m.0 m.1 in (n.0, n.1, Grows-trans u m.0 n.0 m.2 n.2);
  spent = λ token h. g.spent token (f.spent token h);
}

same_user :
    (k id : ℤ) (old u : User) (users : Dict ℤ User)
    → id ≡ k
    → lookup k users ≡ some old
    → lookup id users ≡ some u
    → old ≡ u
same_user k id old u users same h f =
    some-injective (cc (h, f, ap (λ (x : ℤ). lookup x users) same))

insert-Grown :
    (k id : ℤ) (old new u : User) (users : Dict ℤ User)
    → lookup k users ≡ some old
    → Grows old new
    → lookup id users ≡ some u
    → Grown u (insert k new users) id
insert-Grown k id old new u users h g f = elim (Bool-cases (eqb_ℤ id k)) [
  | inl same ↦ (
    new,
    rw (lookup-insert k id new users, same),
    subst (λ (x : User). Grows x new)
        (same_user k id old u users ((int_eq.beq_iff id k).0 same) h f) g,
  )
  | inr other ↦ (u, rw (lookup-insert k id new users, other, f), Grows-refl u)
]

-- A user who is there is written.
pub Evolves-store_user :
    (id : ℤ) (old new : User) (s : AuthStore)
    → lookup id s.users ≡ some old
    → Grows old new
    → Evolves s (store_user id new s)
Evolves-store_user id old new s h g = record {
  users = λ k u f. insert-Grown id k old new u s.users h g f;
  spent = λ token q. q;
}

-- A user is added.
pub Evolves-add_user :
    (id : ℤ) (new : User) (s : AuthStore)
    → lookup id s.users ≡ none
    → Evolves s (store_user id new s)
Evolves-add_user id new s h = record {
  users = λ k u f. (
    u,
    elim (Bool-cases (eqb_ℤ k id)) [
      | inl same ↦ absurd (cc (h, f, (int_eq.beq_iff k id).0 same))
      | inr other ↦ rw (lookup-insert id k new s.users, other, f)
    ],
    Grows-refl u,
  );
  spent = λ token q. q;
}

insert-Spent :
    (token other : String) (c : Challenge) (cs : Dict String Challenge)
    → (is_null c.consumed_at ≡ false) ⊎ (lookup token cs ≡ none)
    → Spent other cs
    → Spent other (insert token c cs)
insert-Spent token other c cs (inl h) q = elim (Bool-cases (str_eq other token)) [
  | inl same ↦ (c, rw (lookup-insert token other c cs, same), h)
  | inr differs ↦ (q.0, rw (lookup-insert token other c cs, differs, q.1), q.2)
]
insert-Spent token other c cs (inr h) q = elim (Bool-cases (str_eq other token)) [
  | inl same ↦ absurd (cc (h, q.1, (string_eq.beq_iff other token).0 same))
  | inr differs ↦ (q.0, rw (lookup-insert token other c cs, differs, q.1), q.2)
]

-- A challenge is consumed.
pub Evolves-store_consumed :
    (token : String) (now : Time) (c : Challenge) (s : AuthStore)
    → Evolves s (store_consumed token now c s)
Evolves-store_consumed token now c s = record {
  users = λ k u f. (u, f, Grows-refl u);
  spent = λ other q.
      insert-Spent token other (record c { consumed_at = some now }) s.challenges (inl refl) q;
}

-- A challenge with a new token is stored.
pub Evolves-new_challenge :
    (token : String) (c : Challenge) (s : AuthStore)
    → lookup token s.challenges ≡ none
    → Evolves s (record s { challenges = insert token c s.challenges })
Evolves-new_challenge token c s h = record {
  users = λ k u f. (u, f, Grows-refl u);
  spent = λ other q. insert-Spent token other c s.challenges (inr h) q;
}
