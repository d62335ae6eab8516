-- ===== src/Throttle/Table.antt =====
-- login_throttle.go: what the loops over the table and the keys do to one entry.
use family_finance_os.Prelude.{
  ◌≡◌, refl, ap, arith, ◌<◌, Bool, true, false, String, ℕ, suc, ◌==◌, ◌^◌, ◌-◌, [], ◌∷◌, none, some,
  Option-cases, inl, inr, Bool-cases,
}
use Prim.Native.Char.{code}
use family_finance_os.Prelude.Int.{pos, ◌+ℤ◌}
use family_finance_os.Prelude.Word.{add64, wrap64}
use family_finance_os.Prelude.Time.{Time, Duration}
use family_finance_os.Prelude.Text.{append}
use family_finance_os.Prelude.Eq.{Dict, lookup, string_eq, lookup-insert}
use family_finance_os.Throttle.{
  LoginFailureBucket, LoginThrottle, is_live, prune, is_full, bumped, bump, ip_key,
}

pub lookup-prune_live :
    (w : Duration) (now : Time) (k : String) (b : LoginFailureBucket)
    (d : Dict String LoginFailureBucket)
    → lookup k d ≡ some b
    → is_live w now b ≡ true
    → lookup k (prune w now d) ≡ some b
unfolding prune
lookup-prune_live w now k b [] q live = cc
lookup-prune_live w now k b ((j, c) ∷ d) q live = ground (arith, lookup-prune_live w now k b d)

pub lookup-prune-none :
    (w : Duration) (now : Time) (k : String) (d : Dict String LoginFailureBucket)
    → lookup k d ≡ none
    → lookup k (prune w now d) ≡ none
unfolding prune
lookup-prune-none w now k [] q = refl
lookup-prune-none w now k ((j, c) ∷ d) q = ground (arith, lookup-prune-none w now k d)

pub lookup-bump_old :
    (l : LoginThrottle) (now : Time) (k : String) (b : LoginFailureBucket)
    (d : Dict String LoginFailureBucket)
    → lookup k d ≡ some b
    → lookup k (bump l now k d) ≡ some (bumped b)
unfolding bump
lookup-bump_old l now k b d q =
    ground (arith, lookup-insert k k (bumped b) d, string_eq.beq_iff k k)

abbrev first_strike : Time → LoginFailureBucket
first_strike now = bumped (record { count = pos 0; started_at = now })

pub lookup-bump_new :
    (l : LoginThrottle) (now : Time) (k : String) (d : Dict String LoginFailureBucket)
    → lookup k d ≡ none
    → is_full l d ≡ false
    → lookup k (bump l now k d) ≡ some (first_strike now)
unfolding bump
lookup-bump_new l now k d q room =
    ground (arith, lookup-insert k k (first_strike now) d, string_eq.beq_iff k k)

pub lookup-bump_other :
    (l : LoginThrottle) (now : Time) (k j : String) (d : Dict String LoginFailureBucket)
    → string_eq.beq k j ≡ false
    → lookup k (bump l now j d) ≡ lookup k d
unfolding bump
lookup-bump_other l now k j d ne = elim (Option-cases (lookup j d)) [
  | inl q ↦ ground (arith, lookup-insert j k (first_strike now) d)
  | inr (b, q) ↦ ground (arith, lookup-insert j k (bumped b) d)
]

starts_with_i : String → Bool
starts_with_i String.[] = false
starts_with_i (String.◌∷◌ c s) = code c == 105

pub ip_key-user : (ip user : String) → string_eq.beq (ip_key ip) (append "user:" user) ≡ false
unfolding append starts_with_i
ip_key-user ip user = elim (Bool-cases (string_eq.beq (ip_key ip) (append "user:" user))) [
  | inl same ↦ absurd (cc (ap starts_with_i ((string_eq.beq_iff _ _).0 same)))
  | inr differ ↦ differ
]

pub add64-suc : (n : ℕ) → n < 2 ^ 63 - 1 → add64 (pos n) (pos 1) ≡ pos (suc n)
unfolding add64 wrap64 ◌+ℤ◌
add64-suc n h = ground (arith)
