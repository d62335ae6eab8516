-- ===== src/Throttle.antt =====
-- internal/server/login_throttle.go: failed logins by address and by username. Each method runs
-- under the mutex, so it is one step; receivers are not nil.
pub mod Bounds
pub mod Table
pub mod Lockout
use family_finance_os.Prelude.{
  Bool, true, false, String, ℕ, List, [], ◌∷◌, Option, none, some, if◌then◌else◌, leb, length,
}
use family_finance_os.Prelude.Int.{ℤ, pos, leb_ℤ, ◌+ℤ◌}
use family_finance_os.Prelude.Word.{add64}
use family_finance_os.Prelude.Time.{Time, Duration, before, add_time}
use family_finance_os.Prelude.Text.{append, is_empty, trim_space}
use family_finance_os.Prelude.Eq.{Dict, lookup, insert, erase, string_eq}
use family_finance_os.Prelude.Keys.{or_zero}

pub record LoginFailureBucket : Type 0 where
  pub count : ℤ  -- int
  pub started_at : Time

pub record LoginThrottle : Type 0 where
  pub max_failures : ℤ  -- int
  pub window : Duration
  pub max_entries : ℤ  -- int
  pub buckets : Dict String LoginFailureBucket

unfoldable pub new_login_throttle : ℤ → Duration → ℤ → LoginThrottle
new_login_throttle max_failures window max_entries = record {
  max_failures = if leb_ℤ max_failures (pos 0) then pos 5 else max_failures;
  window = if leb_ℤ window (pos 0) then pos 300_000_000_000 else window;
  max_entries = if leb_ℤ max_entries (pos 0) then pos 4096 else max_entries;
  buckets = [];
}

abbrev pub is_live : Duration → Time → LoginFailureBucket → Bool
is_live window now bucket = before now (add_time bucket.started_at window)

-- The loop of `pruneLocked` over the map.
unfoldable pub prune :
    Duration → Time → Dict String LoginFailureBucket → Dict String LoginFailureBucket
prune window now [] = []
prune window now ((key, bucket) ∷ buckets) =
    if is_live window now bucket
    then (key, bucket) ∷ prune window now buckets
    else prune window now buckets

abbrev pub prune_locked : LoginThrottle → Time → LoginThrottle
prune_locked l now = record l { buckets = prune l.window now l.buckets }

abbrev pub is_full : LoginThrottle → Dict String LoginFailureBucket → Bool
is_full l buckets = leb_ℤ l.max_entries (pos (length buckets))

-- The loop of `Allow` over the keys.
unfoldable pub allow_keys : LoginThrottle → List String → Bool
allow_keys l [] = true
allow_keys l (key ∷ keys) =
    let rest = allow_keys l keys in
    elim (lookup key l.buckets) [
      | none ↦ if is_full l l.buckets then false else rest
      | some bucket ↦ if leb_ℤ l.max_failures bucket.count then false else rest
    ]

abbrev pub bumped : LoginFailureBucket → LoginFailureBucket
bumped bucket = record bucket { count = add64 bucket.count (pos 1) }

-- One round of the loop of `RecordFailure`.
unfoldable pub bump :
    LoginThrottle → Time → String → Dict String LoginFailureBucket → Dict String LoginFailureBucket
bump l now key buckets = elim (lookup key buckets) [
  | none ↦
      if is_full l buckets
      then buckets
      else insert key (bumped (record { count = pos 0; started_at = now })) buckets
  | some bucket ↦ insert key (bumped bucket) buckets
]

unfoldable pub bump_all :
    LoginThrottle
    → Time
    → List String
    → Dict String LoginFailureBucket
    → Dict String LoginFailureBucket
bump_all l now [] buckets = buckets
bump_all l now (key ∷ keys) buckets = bump_all l now keys (bump l now key buckets)

unfoldable pub erase_all :
    List String → Dict String LoginFailureBucket → Dict String LoginFailureBucket
erase_all [] buckets = buckets
erase_all (key ∷ keys) buckets = erase_all keys (erase key buckets)

abbrev pub ip_key : String → String
ip_key ip = append "ip:" (if is_empty (trim_space ip) then "unknown" else trim_space ip)

-- `strings.ToLower` is a parameter, so that its Unicode tables need not be.
module _ (to_lower : String → String) where
  unfoldable pub login_throttle_keys : String → String → List String
  unfolding append
  login_throttle_keys ip username =
      let user = to_lower (trim_space username) in
      ip_key ip ∷ (if is_empty user then [] else append "user:" user ∷ [])

  unfoldable pub allow : String → String → Time → LoginThrottle → Bool × LoginThrottle
  unfolding prune allow_keys
  allow ip username now l =
      let l' = prune_locked l now in (allow_keys l' (login_throttle_keys ip username), l')

  unfoldable pub record_failure : String → String → Time → LoginThrottle → LoginThrottle
  unfolding prune bump bump_all
  record_failure ip username now l =
      let l' = prune_locked l now in
      record l' { buckets = bump_all l' now (login_throttle_keys ip username) l'.buckets }

  unfoldable pub record_success : String → String → LoginThrottle → LoginThrottle
  unfolding erase_all
  record_success ip username l = record l {
    buckets = erase_all (login_throttle_keys ip username) l.buckets;
  }
