-- ===== src/Scheduler.antt =====
-- internal/scheduler: postgres.go with the statements of db/queries/job_runs.sql. A call of the store
-- is one statement, so it is one step. Jobs is scheduler.go.
pub mod Jobs
pub mod Claims
pub mod Claimed
use family_finance_os.Prelude.{
  ℕ, leb, ◌==◌, ◌+◌, ◌*◌, ◌/◌, ◌≡◌, ◌↔◌, refl, sym, ap, arith, Bool, true, false, not, ◌&&◌, ◌||◌,
  String, List, [], ◌∷◌, Option, none, some, Result, ok, err, Error, ◌>>=◌, ◌>>◌, return_if,
  if◌then◌else◌, Bool-cases, inl, inr,
}
use family_finance_os.Prelude.Int.{ℤ, pos, negsuc, leb_ℤ, eqb_ℤ}
use family_finance_os.Prelude.Time.{Time}
use family_finance_os.Prelude.Text.{
  str_eq, eq_iff, is_empty, trim_space, char_count, all_chars, take_chars, drop_chars,
}
use family_finance_os.Prelude.Eq.{Eq, Dict, lookup, insert}
use family_finance_os.Auth.{eqb_ℤ_iff}

pub record RunKey : Type 0 where
  pub household_id : ℤ
  pub job_name : String
  pub scheduled_for : Time
  pub period : String

-- The columns of a run that are unique together.
abbrev pub JobKey : Type 0
JobKey = ℤ × String × Time

abbrev pub same_key : JobKey → JobKey → Bool
same_key a b = eqb_ℤ a.0 b.0 && (str_eq a.1 b.1 && eqb_ℤ a.2 b.2)

abbrev all_of : Bool → Bool → Bool → Bool
all_of a b c = a && (b && c)

all_of_iff : (a b c : Bool) → all_of a b c ≡ true → (a ≡ true) × (b ≡ true) × (c ≡ true)
all_of_iff a b c h = ground (arith, h)

pub same_key_iff : (a b : JobKey) → (same_key a b ≡ true) ↔ (a ≡ b)
same_key_iff (a, b, c) (d, e, f) = (
  λ h.
      let t = all_of_iff (eqb_ℤ a d) (str_eq b e) (eqb_ℤ c f) h in
      rw ((eqb_ℤ_iff a d).0 t.0, (eq_iff b e).0 t.1, (eqb_ℤ_iff c f).0 t.2),
  λ q. rw (
    (eqb_ℤ_iff a d).1 (ap (λ (x : JobKey). x.0) q),
    (eq_iff b e).1 (ap (λ (x : JobKey). x.1) q),
    (eqb_ℤ_iff c f).1 (ap (λ (x : JobKey). x.2) q),
  ),
)

instance abbrev pub key_eq : Eq JobKey
key_eq = record { beq = same_key; beq_iff = same_key_iff }

pub data JobStatus : Type 0 where
  running succeeded failed : JobStatus

-- A row of job_runs.
pub record JobRun : Type 0 where
  pub period : String
  pub status : JobStatus
  pub started_at : Time
  pub finished_at : Option Time
  pub error_code : Option String

abbrev pub JobRuns : Type 0
JobRuns = Dict JobKey JobRun

pub data RunStatus : Type 0 where
  run_succeeded run_failed : RunStatus
  other_status : String → RunStatus

pub record RunOutcome : Type 0 where
  pub status : RunStatus
  pub error_code : String

-- An instant as `TIMESTAMPTZ` stores it, in whole microseconds.
abbrev pub micros : Time → Time
micros (pos n) = pos (n / 1000 * 1000)
micros (negsuc n) = negsuc (n / 1000 * 1000 + 999)

abbrev pub job_key : RunKey → JobKey
job_key k = (k.household_id, trim_space k.job_name, micros k.scheduled_for)

abbrev pub started : RunKey → Time → JobRun
started k now = record {
  period = trim_space k.period;
  status = JobStatus.running;
  started_at = micros now;
  finished_at = none;
  error_code = none;
}

-- `WHERE job_runs.status = 'failed'`, on a conflict only.
abbrev pub claimable : Option JobRun → Bool
claimable none = true
claimable (some run) = elim run.status [ JobStatus.failed ↦ true | _ ↦ false ]

abbrev is_decimal : ℕ → Bool
is_decimal c = leb 48 c && leb c 57

-- `0[1-9]|1[0-2]`
abbrev is_month_number : String → Bool
is_month_number m =
    let tens = take_chars 1 m in
    let ones = drop_chars 1 m in
    (str_eq tens "0" && all_chars (λ c. leb 49 c && leb c 57) ones)
    || (str_eq tens "1" && all_chars (λ c. leb 48 c && leb c 50) ones)

-- `^[0-9]{4}-(0[1-9]|1[0-2])$`
abbrev is_period : String → Bool
is_period p =
    char_count p == 7
    && (all_chars is_decimal (take_chars 4 p)
        && (str_eq (take_chars 1 (drop_chars 4 p)) "-" && is_month_number (drop_chars 5 p)))

-- The constraints of job_runs on a row that is inserted.
unfoldable pub is_admitted : (ℤ → Bool) → RunKey → Bool
unfolding trim_space char_count all_chars take_chars drop_chars
is_admitted known k =
    known k.household_id
    && (not (is_empty (trim_space k.job_name))
        && (is_empty (trim_space k.period) || is_period (trim_space k.period)))

abbrev pub claim_row : RunKey → Time → JobRuns → Bool × JobRuns
claim_row k now runs =
    if claimable (lookup (job_key k) runs)
    then (true, insert (job_key k) (started k now) runs)
    else (false, runs)

-- The first argument tells which households there are.
unfoldable pub claim : (ℤ → Bool) → RunKey → Time → JobRuns → Result (Bool × JobRuns)
unfolding trim_space is_admitted
claim known k now runs = do
  return_if (not (is_admitted known k)) Error.constraint_violation
  ok (claim_row k now runs)

-- The status and the error code that are stored.
abbrev pub outcome_row : RunOutcome → Result (JobStatus × Option String)
outcome_row o = elim o.status [
  | RunStatus.run_succeeded ↦
      if is_empty o.error_code then ok (JobStatus.succeeded, none) else err Error.invalid_job
  | RunStatus.run_failed ↦
      if is_empty (trim_space o.error_code)
      then err Error.invalid_job
      else ok (JobStatus.failed, some (trim_space o.error_code))
  | RunStatus.other_status _ ↦ err Error.invalid_job
]

abbrev pub is_running : JobRun → Bool
is_running run = elim run.status [ JobStatus.running ↦ true | _ ↦ false ]

abbrev pub finished : JobRun → Time → JobStatus × Option String → JobRun
finished run now row = record run {
  status = row.0;
  finished_at = some (micros now);
  error_code = row.1;
}

-- `WHERE ... AND status = 'running'`, and one row is wanted.
abbrev pub finish_row :
    JobKey → Time → JobStatus × Option String → JobRuns → Option JobRun → Result JobRuns
finish_row key now row runs none = err Error.run_not_claimed
finish_row key now row runs (some run) =
    if is_running run
    then ok (insert key (finished run now row) runs)
    else err Error.run_not_claimed

unfoldable pub finish : RunKey → Time → RunOutcome → JobRuns → Result JobRuns
unfolding trim_space
finish k now outcome runs = do
  row ← outcome_row outcome
  finish_row (job_key k) now row runs (lookup (job_key k) runs)

unfoldable pub recover_interrupted : Time → JobRuns → JobRuns
recover_interrupted now [] = []
recover_interrupted now ((key, run) ∷ runs) =
    (
      key,
      if is_running run then finished run now (JobStatus.failed, some "process_restarted") else run,
    )
    ∷ recover_interrupted now runs
