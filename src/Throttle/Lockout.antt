-- ===== src/Throttle/Lockout.antt =====
-- login_throttle.go: lockouts of an address.
use family_finance_os.Prelude.{
  ◌≡◌, ◌∙◌, refl, sym, ap, arith, ◌<◌, true, false, String, ℕ, suc, ◌^◌, ◌-◌, ◌+◌, List, [], ◌∷◌,
  none, some, length, inl, inr, Bool-cases, All,
}
use mathlib.Core.Path.{subst}
use family_finance_os.Prelude.Int.{pos, leb_ℤ}
use family_finance_os.Prelude.Time.{Time, Duration, before, add_time}
use family_finance_os.Prelude.Text.{append, is_empty, trim_space}
use family_finance_os.Prelude.Eq.{Dict, lookup, erase, string_eq, lookup-erase}
use family_finance_os.Throttle.{
  LoginFailureBucket, LoginThrottle, is_live, prune, prune_locked, is_full, allow_keys, bump,
  bump_all, erase_all, ip_key, login_throttle_keys, allow, record_failure, record_success,
}
use family_finance_os.Throttle.Table.{
  lookup-prune_live, lookup-prune-none, lookup-bump_old, lookup-bump_new, lookup-bump_other,
  ip_key-user, add64-suc,
}

-- The bucket of an address that has failed `n` times since `start`.
abbrev strikes : ℕ → Time → LoginFailureBucket
strikes n start = record { count = pos n; started_at = start }

lookup-erase_all :
    (k : String) (keys : List String) (d : Dict String LoginFailureBucket)
    → lookup k d ≡ none
    → lookup k (erase_all keys d) ≡ none
unfolding erase_all
lookup-erase_all k [] d q = q
lookup-erase_all k (j ∷ keys) d q =
    lookup-erase_all k keys (erase j d) (ground (arith, lookup-erase j k d))

erase_all-none :
    (keys : List String) (d : Dict String LoginFailureBucket)
    → All (λ k. lookup k (erase_all keys d) ≡ none) keys
unfolding erase_all
erase_all-none [] d = tt
erase_all-none (k ∷ keys) d = (
  lookup-erase_all k keys (erase k d) (ground (arith, lookup-erase k k d, string_eq.beq_iff k k)),
  erase_all-none keys (erase k d),
)

All-prune-none :
    (w : Duration) (now : Time) (keys : List String) (d : Dict String LoginFailureBucket)
    → All (λ k. lookup k d ≡ none) keys
    → All (λ k. lookup k (prune w now d) ≡ none) keys
All-prune-none w now [] d h = tt
All-prune-none w now (k ∷ keys) d h =
    (lookup-prune-none w now k d h.0, All-prune-none w now keys d h.1)

allow_keys-new :
    (l : LoginThrottle) (keys : List String)
    → All (λ k. lookup k l.buckets ≡ none) keys
    → is_full l l.buckets ≡ false
    → allow_keys l keys ≡ true
unfolding allow_keys
allow_keys-new l [] new room = refl
allow_keys-new l (k ∷ keys) new room = ground (arith, allow_keys-new l keys)

module _ (to_lower : String → String) where
  -- The user's key leaves the address's bucket alone.
  bump_all-ip :
      (l : LoginThrottle) (now : Time) (ip user : String) (d : Dict String LoginFailureBucket)
      → lookup (ip_key ip) (bump_all l now (login_throttle_keys to_lower ip user) d)
        ≡ lookup (ip_key ip) (bump l now (ip_key ip) d)
  unfolding bump_all login_throttle_keys
  bump_all-ip l now ip user d = elim (Bool-cases (is_empty (to_lower (trim_space user)))) [
    | inl q ↦ rw q
    | inr q ↦ ground (
      arith,
      lookup-bump_other l now (ip_key ip) (append "user:" (to_lower (trim_space user)))
          (bump l now (ip_key ip) d) (ip_key-user ip (to_lower (trim_space user))),
    )
  ]

  record_failure-first :
      (l : LoginThrottle) (now : Time) (ip user : String)
      → lookup (ip_key ip) (prune l.window now l.buckets) ≡ none
      → is_full l (prune l.window now l.buckets) ≡ false
      → lookup (ip_key ip) (record_failure to_lower ip user now l).buckets ≡ some (strikes 1 now)
  unfolding record_failure
  record_failure-first l now ip user q room =
      bump_all-ip (prune_locked l now) now ip user (prune l.window now l.buckets)
      ∙ lookup-bump_new (prune_locked l now) now (ip_key ip) (prune l.window now l.buckets) q room
      ∙ ap (λ c. some (record { count = c; started_at = now })) (add64-suc 0 (omega arith))

  record_failure-next :
      (n : ℕ) (l : LoginThrottle) (start now : Time) (ip user : String)
      → n < 2 ^ 63 - 1
      → lookup (ip_key ip) l.buckets ≡ some (strikes n start)
      → is_live l.window now (strikes n start) ≡ true
      → lookup (ip_key ip) (record_failure to_lower ip user now l).buckets
        ≡ some (strikes (suc n) start)
  unfolding record_failure
  record_failure-next n l start now ip user small q live =
      bump_all-ip (prune_locked l now) now ip user (prune l.window now l.buckets)
      ∙ lookup-bump_old (prune_locked l now) now (ip_key ip) (strikes n start)
          (prune l.window now l.buckets)
          (lookup-prune_live l.window now (ip_key ip) (strikes n start) l.buckets q live)
      ∙ ap (λ c. some (record { count = c; started_at = start })) (add64-suc n small)

  -- Failures from one address, under any names.
  pub fail_all : String → List (String × Time) → LoginThrottle → LoginThrottle
  fail_all ip [] l = l
  fail_all ip ((user, now) ∷ rest) l = fail_all ip rest (record_failure to_lower ip user now l)

  lookup-fail_all :
      (ip : String) (rest : List (String × Time)) (l : LoginThrottle) (n : ℕ) (start : Time)
      → n + length rest < 2 ^ 63
      → lookup (ip_key ip) l.buckets ≡ some (strikes n start)
      → All (λ a. before a.1 (add_time start l.window) ≡ true) rest
      → lookup (ip_key ip) (fail_all ip rest l).buckets ≡ some (strikes (n + length rest) start)
  unfolding fail_all record_failure
  lookup-fail_all ip [] l n start small q live =
      q ∙ ap (λ (m : ℕ). some (strikes m start)) (omega arith)
  lookup-fail_all ip ((user, now) ∷ rest) l n start small q live =
      lookup-fail_all ip rest (record_failure to_lower ip user now l) (suc n) start
        (omega (arith, small))
        (record_failure-next n l start now ip user (omega (arith, small)) q live.0) live.1
      ∙ ap (λ (m : ℕ). some (strikes m start)) (omega arith)

  allow-locked :
      (n : ℕ) (l : LoginThrottle) (start now : Time) (ip user : String)
      → lookup (ip_key ip) l.buckets ≡ some (strikes n start)
      → before now (add_time start l.window) ≡ true
      → leb_ℤ l.max_failures (pos n) ≡ true
      → (allow to_lower ip user now l).0 ≡ false
  unfolding allow allow_keys login_throttle_keys
  allow-locked n l start now ip user q live enough =
      ground (arith, lookup-prune_live l.window now (ip_key ip) (strikes n start) l.buckets q live)

  fail_all-max_failures :
      (ip : String) (rest : List (String × Time)) (l : LoginThrottle)
      → (fail_all ip rest l).max_failures ≡ l.max_failures × (fail_all ip rest l).window ≡ l.window
  unfolding fail_all record_failure
  fail_all-max_failures ip [] l = (refl, refl)
  fail_all-max_failures ip ((user, now) ∷ rest) l =
      fail_all-max_failures ip rest (record_failure to_lower ip user now l)

  -- An address that is new to the table, which has room for it, fails once and then again and
  -- again within the window, under whatever usernames. When it has failed `max_failures` times
  -- or more in all, and fewer than 2^63 times, every further login from it within the window is refused, under any username.
  pub fail_all-locks_out :
      (ip user asked : String) (start now : Time) (rest : List (String × Time)) (l : LoginThrottle)
      → lookup (ip_key ip) (prune l.window start l.buckets) ≡ none
      → is_full l (prune l.window start l.buckets) ≡ false
      → All (λ a. before a.1 (add_time start l.window) ≡ true) rest
      → before now (add_time start l.window) ≡ true
      → suc (length rest) < 2 ^ 63
      → leb_ℤ l.max_failures (pos (suc (length rest))) ≡ true
      → (allow to_lower ip asked now (fail_all ip ((user, start) ∷ rest) l)).0 ≡ false
  unfolding fail_all record_failure
  fail_all-locks_out ip user asked start now rest l new room within soon small enough =
      allow-locked (suc (length rest)) (fail_all ip ((user, start) ∷ rest) l) start now ip asked
        (lookup-fail_all ip rest (record_failure to_lower ip user start l) 1 start
            (omega (arith, small)) (record_failure-first l start ip user new room) within
          ∙ ap (λ (m : ℕ). some (strikes m start)) (omega arith))
        (subst (λ w. before now (add_time start w) ≡ true)
          (sym (fail_all-max_failures ip ((user, start) ∷ rest) l).1) soon)
        (subst (λ m. leb_ℤ m (pos (suc (length rest))) ≡ true)
          (sym (fail_all-max_failures ip ((user, start) ∷ rest) l).0) enough)

  -- A success lets in the next login from its address under its username, at any time, as long
  -- as the table is not full of live buckets of others.
  pub record_success-lets_in :
      (ip user : String) (now : Time) (l : LoginThrottle)
      → is_full l (prune l.window now (record_success to_lower ip user l).buckets) ≡ false
      → (allow to_lower ip user now (record_success to_lower ip user l)).0 ≡ true
  unfolding allow record_success
  record_success-lets_in ip user now l room =
      allow_keys-new (prune_locked (record_success to_lower ip user l) now)
        (login_throttle_keys to_lower ip user)
        (All-prune-none l.window now (login_throttle_keys to_lower ip user)
          (erase_all (login_throttle_keys to_lower ip user) l.buckets)
          (erase_all-none (login_throttle_keys to_lower ip user) l.buckets))
        room
