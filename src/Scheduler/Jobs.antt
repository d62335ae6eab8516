-- ===== src/Scheduler/Jobs.antt =====
-- internal/scheduler/scheduler.go. The time zone arithmetic of MonthlySchedule is a parameter, as the
-- interface Schedule is in the code.
use family_finance_os.Prelude.{
  Bool, true, false, not, ◌&&◌, ◌||◌, String, List, [], ◌∷◌, Option, none, some, Result, ok, err,
  Error, ◌>>◌, return_if, if◌then◌else◌,
}
use family_finance_os.Prelude.Int.{ℤ, pos, leb_ℤ}
use family_finance_os.Prelude.Time.{Time}
use family_finance_os.Prelude.Text.{is_empty, trim_space}
use family_finance_os.Scheduler.{JobRuns, RunKey, RunOutcome, RunStatus, claim, finish}

pub data CatchUpPolicy : Type 0 where
  catch_up_none catch_up_latest_only : CatchUpPolicy
  other_policy : ℤ → CatchUpPolicy

pub record Schedule : Type 0 where
  pub latest_due : Time → Option Time
  pub next : Time → Time

-- The job's `Run` answers whether it succeeded. Other calls of the store may come while it runs, so
-- it takes the table to another.
pub record Job : Type 0 where
  pub household_id : ℤ
  pub name : String
  pub schedule : Option Schedule
  pub catch_up : CatchUpPolicy
  pub period : Option (Time → String)
  pub run : Option (Time → JobRuns → Bool × JobRuns)

abbrev pub has_run : Job → Bool
has_run job = elim job.run [ none ↦ false | some _ ↦ true ]

abbrev pub has_schedule : Job → Bool
has_schedule job = elim job.schedule [ none ↦ false | some _ ↦ true ]

unfoldable pub validate_job : Job → Bool → Result (Unit {0})
unfolding trim_space
validate_job job require_schedule = do
  return_if
      (leb_ℤ job.household_id (pos 0) || (is_empty (trim_space job.name) || not (has_run job)))
      Error.invalid_job
  return_if (require_schedule && not (has_schedule job)) Error.invalid_job

abbrev pub run_key : Job → Time → RunKey
run_key job scheduled_for = record {
  household_id = job.household_id;
  job_name = trim_space job.name;
  scheduled_for = scheduled_for;
  period = elim job.period [ none ↦ "" | some period ↦ trim_space (period scheduled_for) ];
}

abbrev pub outcome_of : Bool → RunOutcome
outcome_of true = record { status = RunStatus.run_succeeded; error_code = "" }
outcome_of false = record { status = RunStatus.run_failed; error_code = "job_failed" }

abbrev pub answer_run : Bool → JobRuns → Result JobRuns → Result (Unit {0}) × JobRuns
answer_run done runs (err e) = (err e, runs)
answer_run done runs (ok runs') = (if done then ok tt else err Error.job_execution, runs')

-- After the job has run: the answer, and the table.
unfoldable pub finish_run : RunKey → Time → Bool × JobRuns → Result (Unit {0}) × JobRuns
unfolding finish
finish_run key now (done, runs) = answer_run done runs (finish key now (outcome_of done) runs)

-- A claimed run; its job is there, since it was validated.
unfoldable pub run_claimed :
    RunKey
    → Option (Time → JobRuns → Bool × JobRuns)
    → Time
    → Bool × JobRuns
    → Result (Unit {0}) × JobRuns
unfolding finish_run
run_claimed key run end (false, runs) = (ok tt, runs)
run_claimed key none end (true, runs) = (err Error.invalid_job, runs)
run_claimed key (some run) end (true, runs) = finish_run key end (run key.scheduled_for runs)

-- What follows the claim; `runs` is the table before it.
unfoldable pub after_claim :
    RunKey
    → Option (Time → JobRuns → Bool × JobRuns)
    → Time
    → JobRuns
    → Result (Bool × JobRuns)
    → Result (Unit {0}) × JobRuns
unfolding run_claimed
after_claim key run end runs (err e) = (err e, runs)
after_claim key run end runs (ok claimed) = run_claimed key run end claimed

-- `if err := validateJob(...); err != nil { return err }`
abbrev pub after_check :
    JobRuns → Result (Unit {0}) → Result (Unit {0}) × JobRuns → Result (Unit {0}) × JobRuns
after_check runs (err e) rest = (err e, runs)
after_check runs (ok _) rest = rest

-- What one turn of the loop of `Run` reads from the clock.
pub record Turn : Type 0 where
  pub now : Time
  pub start : Time
  pub end : Time

-- An error that is not the job's own ends the loop.
abbrev pub ends : Result (Unit {0}) → Bool
ends (ok _) = false
ends (err Error.job_execution) = false
ends (err _) = true

abbrev pub next_of : Option Schedule → Time → Time
next_of none now = now
next_of (some schedule) now = schedule.next now

module _ (known : ℤ → Bool) where
  -- The clock is read before the claim, and before the end.
  unfoldable pub run_due : Job → Time → Time → Time → JobRuns → Result (Unit {0}) × JobRuns
  unfolding validate_job claim after_claim
  run_due job scheduled_for start end runs =
      let key = run_key job scheduled_for in
      after_check runs (validate_job job false)
        (after_claim key job.run end runs (claim known key start runs))

  abbrev pub due_of : Option Schedule → Time → Option Time
  due_of none now = none
  due_of (some schedule) now = schedule.latest_due now

  abbrev pub run_if_due : Job → Time → Time → JobRuns → Option Time → Result (Unit {0}) × JobRuns
  run_if_due job start end runs none = (ok tt, runs)
  run_if_due job start end runs (some due) = run_due job due start end runs

  abbrev pub catch_up_by :
      CatchUpPolicy → Job → Time → Time → Time → JobRuns → Result (Unit {0}) × JobRuns
  catch_up_by CatchUpPolicy.catch_up_none job now start end runs = (ok tt, runs)
  catch_up_by CatchUpPolicy.catch_up_latest_only job now start end runs =
      run_if_due job start end runs (due_of job.schedule now)
  catch_up_by (CatchUpPolicy.other_policy _) job now start end runs = (err Error.invalid_job, runs)

  unfoldable pub catch_up : Job → Time → Time → Time → JobRuns → Result (Unit {0}) × JobRuns
  unfolding validate_job run_due
  catch_up job now start end runs =
      after_check runs (validate_job job true) (catch_up_by job.catch_up job now start end runs)

  -- The loop over the turns until the context is done, which is no error here.
  unfoldable pub run_turns :
      Job → List Turn → Result (Unit {0}) × JobRuns → Result (Unit {0}) × JobRuns
  unfolding run_due
  run_turns job [] (answer, runs) = (if ends answer then answer else ok tt, runs)
  run_turns job (turn ∷ turns) (answer, runs) =
      let rest =
        run_turns job turns
          (run_due job (next_of job.schedule turn.now) turn.start turn.end runs) in
      if ends answer then (answer, runs) else rest

  unfoldable pub run_job : Job → Turn → List Turn → JobRuns → Result (Unit {0}) × JobRuns
  unfolding validate_job catch_up run_turns
  run_job job turn turns runs =
      after_check runs (validate_job job true)
        (run_turns job turns (catch_up job turn.now turn.start turn.end runs))
