-- ===== src/Throttle/Bounds.antt =====
-- login_throttle.go: the size of the table of failures.
use family_finance_os.Prelude.{arith, ◌≤◌, String, List, [], ◌∷◌, length, Option-cases, inl, inr}
use family_finance_os.Prelude.Int.{ℤ, pos, ◌≤ℤ◌}
use family_finance_os.Prelude.Time.{Time, Duration}
use family_finance_os.Prelude.Eq.{
  Dict, lookup, erase, string_eq, length-insert_new, length-insert_old, length-erase,
}
use family_finance_os.Throttle.{
  LoginFailureBucket, LoginThrottle, new_login_throttle, prune, bump, bump_all, erase_all, allow,
  record_failure, record_success, login_throttle_keys, bumped, prune_locked,
}

-- The table has at most as many entries as configured.
abbrev pub IsBounded : LoginThrottle → Type 0
IsBounded l = pos (length l.buckets) ≤ℤ l.max_entries

length-prune :
    (w : Duration) (now : Time) (d : Dict String LoginFailureBucket)
    → length (prune w now d) ≤ length d
unfolding prune
length-prune w now [] = omega arith
length-prune w now ((k, b) ∷ d) = ground (arith, length-prune w now d)

length-bump :
    (l : LoginThrottle) (now : Time) (key : String) (d : Dict String LoginFailureBucket)
    → pos (length d) ≤ℤ l.max_entries
    → pos (length (bump l now key d)) ≤ℤ l.max_entries
unfolding bump
length-bump l now key d h = elim (Option-cases (lookup key d)) [
  | inl new ↦
      ground
        (arith, length-insert_new key (bumped (record { count = pos 0; started_at = now })) d new)
  | inr (b, old) ↦ ground (arith, length-insert_old key (bumped b) b d old)
]

length-bump_all :
    (l : LoginThrottle) (now : Time) (keys : List String) (d : Dict String LoginFailureBucket)
    → pos (length d) ≤ℤ l.max_entries
    → pos (length (bump_all l now keys d)) ≤ℤ l.max_entries
unfolding bump_all
length-bump_all l now [] d h = h
length-bump_all l now (k ∷ ks) d h =
    length-bump_all l now ks (bump l now k d) (length-bump l now k d h)

length-erase_all :
    (keys : List String) (d : Dict String LoginFailureBucket) → length (erase_all keys d) ≤ length d
unfolding erase_all
length-erase_all [] d = omega arith
length-erase_all (k ∷ ks) d = omega (arith, length-erase_all ks (erase k d), length-erase k d)

-- What a server does with its throttle.
pub data Event : Type 0 where
  ask : String → String → Time → Event
  fail : String → String → Time → Event
  succeed : String → String → Event

module _ (to_lower : String → String) where
  pub step : Event → LoginThrottle → LoginThrottle
  step (ask ip user now) l = (allow to_lower ip user now l).1
  step (fail ip user now) l = record_failure to_lower ip user now l
  step (succeed ip user) l = record_success to_lower ip user l

  pub run : List Event → LoginThrottle → LoginThrottle
  run [] l = l
  run (e ∷ es) l = run es (step e l)

  step-IsBounded : (e : Event) (l : LoginThrottle) → IsBounded l → IsBounded (step e l)
  unfolding step allow record_failure record_success
  step-IsBounded (ask ip user now) l h = omega (arith, h, length-prune l.window now l.buckets)
  step-IsBounded (fail ip user now) l h =
      length-bump_all (prune_locked l now) now (login_throttle_keys to_lower ip user)
        (prune l.window now l.buckets) (omega (arith, h, length-prune l.window now l.buckets))
  step-IsBounded (succeed ip user) l h =
      omega (arith, h, length-erase_all (login_throttle_keys to_lower ip user) l.buckets)

  run-IsBounded_from : (es : List Event) (l : LoginThrottle) → IsBounded l → IsBounded (run es l)
  unfolding run
  run-IsBounded_from [] l h = h
  run-IsBounded_from (e ∷ es) l h = run-IsBounded_from es (step e l) (step-IsBounded e l h)

  -- Whatever the settings a throttle is made with, and whatever logins are asked for, fail or
  -- succeed afterwards, in any order and at any times, its table has at most `max_entries` entries.
  pub run-IsBounded :
      (max_failures : ℤ) (window : Duration) (max_entries : ℤ) (es : List Event)
      → IsBounded (run es (new_login_throttle max_failures window max_entries))
  unfolding new_login_throttle
  run-IsBounded max_failures window max_entries es =
      run-IsBounded_from es (new_login_throttle max_failures window max_entries) (ground arith)
