-- ===== src/DataQuality/Signatures.antt =====
-- internal/dataquality/analyzer.go: when signatures are the same, and the order of transactions.
use family_finance_os.Prelude.{
  ◌≡◌, ap, Bool, ◌&&◌, refl, arith, String, true, false, List, [], ◌∷◌, ◌++◌, Option, none, some,
  if_intro, All,
}
use family_finance_os.Prelude.Int.{ℤ, pos, ◌≤ℤ◌, ◌-ℤ◌, leb_ℤ, eqb_ℤ}
use family_finance_os.Prelude.Time.{Time, Duration, sub_time}
use family_finance_os.Prelude.Text.{str_eq, eq_iff}
use family_finance_os.Prelude.Sort.{sort, insert_sorted, insert_sorted-All}
use mathlib.Core.Path.{ap₂}
use family_finance_os.Auth.{eqb_ℤ_iff}
use family_finance_os.Money.{Money}
use family_finance_os.Ledger.{Transaction, TransactionType}
use family_finance_os.DataQuality.Duplicates.{
  DuplicateSignature, same_type, equal_money, equal_amount, same_signature, occurs_before,
}

same_type_refl : (t : TransactionType) → same_type t t ≡ true
same_type_refl t = ground arith

str_eq_refl : (s : String) → str_eq s s ≡ true
str_eq_refl s = (eq_iff s s).1 refl

eqb_refl : (z : ℤ) → eqb_ℤ z z ≡ true
eqb_refl z = ground arith

equal_money_refl : (m : Money) → equal_money m m ≡ true
equal_money_refl m = rw (eqb_refl m.minor, str_eq_refl m.currency)

equal_amount_refl : (o : Option Money) → equal_amount o o ≡ true
equal_amount_refl none = refl
equal_amount_refl (some m) = equal_money_refl m

pub same_signature_refl : (s : DuplicateSignature) → same_signature s s ≡ true
unfolding same_signature
same_signature_refl s = rw (
  same_type_refl s.type_id,
  str_eq_refl s.category_id,
  str_eq_refl s.source_id,
  str_eq_refl s.destination_id,
  eqb_refl s.source_amount.minor,
  str_eq_refl s.source_amount.currency,
  equal_amount_refl s.destination_amount,
  str_eq_refl s.comment,
)

both : (a b : Bool) → (a && b) ≡ true → (a ≡ true) × (b ≡ true)
both a b h = ground (arith, h)

abbrev money_of : ℤ → String → Money
money_of m c = record { minor = m; currency = c }

same_type_eq : (a b : TransactionType) → same_type a b ≡ true → a ≡ b
same_type_eq a b h = ground (arith, h)

equal_money_eq : (a b : Money) → equal_money a b ≡ true → a ≡ b
equal_money_eq a b h =
    let facts = both (eqb_ℤ a.minor b.minor) (str_eq a.currency b.currency) h in
    ap₂ (λ (m : ℤ) (c : String). money_of m c) ((eqb_ℤ_iff a.minor b.minor).0 facts.0)
      ((eq_iff a.currency b.currency).0 facts.1)

equal_amount_eq : (a b : Option Money) → equal_amount a b ≡ true → a ≡ b
equal_amount_eq none none h = refl
equal_amount_eq none (some b) h = cc
equal_amount_eq (some a) none h = cc
equal_amount_eq (some a) (some b) h = ap some (equal_money_eq a b h)

-- What the equality of keys says of the fields.
abbrev pub SameFields : DuplicateSignature → DuplicateSignature → Type 0
SameFields a b =
    (a.type_id ≡ b.type_id)
    × (a.category_id ≡ b.category_id)
    × (a.source_id ≡ b.source_id)
    × (a.destination_id ≡ b.destination_id)
    × (a.source_amount ≡ b.source_amount)
    × (a.destination_amount ≡ b.destination_amount)
    × (a.comment ≡ b.comment)

pub same_signature_fields : (a b : DuplicateSignature) → same_signature a b ≡ true → SameFields a b
unfolding same_signature
same_signature_fields a b h =
    let t0 = both (same_type a.type_id b.type_id) _ h in
    let t1 = both (str_eq a.category_id b.category_id) _ t0.1 in
    let t2 = both (str_eq a.source_id b.source_id) _ t1.1 in
    let t3 = both (str_eq a.destination_id b.destination_id) _ t2.1 in
    let t4 = both (equal_money a.source_amount b.source_amount) _ t3.1 in
    let t5 = both (equal_amount a.destination_amount b.destination_amount) _ t4.1 in
    (
      same_type_eq a.type_id b.type_id t0.0,
      (eq_iff a.category_id b.category_id).0 t1.0,
      (eq_iff a.source_id b.source_id).0 t2.0,
      (eq_iff a.destination_id b.destination_id).0 t3.0,
      equal_money_eq a.source_amount b.source_amount t4.0,
      equal_amount_eq a.destination_amount b.destination_amount t5.0,
      (eq_iff a.comment b.comment).0 t5.1,
    )

pub All-map {ℓ κ μ} :
    {A : Type ℓ} {Q : A → Type κ} {R : A → Type μ} (f : (a : A) → Q a → R a) (xs : List A)
    → All Q xs
    → All R xs
All-map f [] h = tt
All-map f (x ∷ xs) h = (f x h.0, All-map f xs h.1)

pub All-append {ℓ κ} :
    {A : Type ℓ} (Q : A → Type κ) (xs ys : List A) → All Q xs → All Q ys → All Q (xs ++ ys)
All-append Q [] ys h k = k
All-append Q (x ∷ xs) ys h k = (h.0, All-append Q xs ys h.1 k)

pub zero_within : (t : Time) (window : Duration) → pos 0 ≤ℤ window → sub_time t t ≤ℤ window
unfolding ◌-ℤ◌
zero_within t window h = ground arith

pub leb_le : (a b : ℤ) → leb_ℤ a b ≡ true → a ≤ℤ b
leb_le a b h = ground arith

-- The transactions in the order of their times.
abbrev pub NotBefore : Time → Transaction → Type 0
NotBefore t tx = t ≤ℤ tx.occurred_at

abbrev pub InOrder : List Transaction → Type 0
InOrder [] = Unit
InOrder (x ∷ xs) = All (NotBefore x.occurred_at) xs × InOrder xs

in_order : (a b : Transaction) → occurs_before a b ≡ true → a.occurred_at ≤ℤ b.occurred_at
in_order a b h = ground (arith, h)

not_in_order : (a b : Transaction) → occurs_before a b ≡ false → b.occurred_at ≤ℤ a.occurred_at
not_in_order a b h = ground (arith, h)

at_or_after : (a b c : Time) → a ≤ℤ b → b ≤ℤ c → a ≤ℤ c
at_or_after a b c h k = omega (arith, h, k)

pub no_earlier : (t : Time) → t ≤ℤ t
no_earlier t = omega arith

insert_sorted-InOrder :
    (x : Transaction) (xs : List Transaction)
    → InOrder xs
    → InOrder (insert_sorted occurs_before x xs)
insert_sorted-InOrder x [] h = (tt, tt)
insert_sorted-InOrder x (y ∷ ys) h =
    if_intro InOrder (occurs_before y x) _ _
      (λ first. (
        insert_sorted-All occurs_before (NotBefore y.occurred_at) x ys (in_order y x first) h.0,
        insert_sorted-InOrder x ys h.1,
      ))
      (λ later.
        let least = not_in_order y x later in
        (
          (
            least,
            All-map
                (λ (z : Transaction). at_or_after x.occurred_at y.occurred_at z.occurred_at least)
                ys h.0,
          ),
          h,
        ))

pub sort-InOrder : (xs : List Transaction) → InOrder (sort occurs_before xs)
sort-InOrder [] = tt
sort-InOrder (x ∷ xs) = insert_sorted-InOrder x (sort occurs_before xs) (sort-InOrder xs)

-- The list begins at a time.
abbrev pub StartsAt : Time → List Transaction → Type 0
StartsAt t [] = ⊥
StartsAt t (x ∷ xs) = x.occurred_at ≡ t

pub StartsAt-append : (t : Time) (xs ys : List Transaction) → StartsAt t xs → StartsAt t (xs ++ ys)
StartsAt-append t [] ys h = absurd h
StartsAt-append t (x ∷ xs) ys h = h
