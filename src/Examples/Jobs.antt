-- ===== src/Examples/Jobs.antt =====
-- Runs of a monthly job.
use family_finance_os.Prelude.{
  ◌≡◌, refl, Bool, true, false, String, List, [], ◌∷◌, Option, none, some, Result, ok, err,
}
use family_finance_os.Prelude.Int.{ℤ, pos, eqb_ℤ}
use family_finance_os.Prelude.Time.{Time}
use family_finance_os.Prelude.Eq.{lookup}
use family_finance_os.Scheduler.{
  RunKey, RunOutcome, RunStatus, JobRun, JobRuns, JobStatus, job_key, key_eq, is_admitted, claim,
  finish, started,
}
use family_finance_os.Scheduler.Jobs.{Job, CatchUpPolicy, run_due, run_key}
use family_finance_os.Scheduler.Claims.{
  StoreStep, claim_step, finish_step, steps, claim-Final_refused,
}
use family_finance_os.Scheduler.Claimed.{claim_exclusive, run_due_once, done_runs}

abbrev monthly : RunKey
monthly = record {
  household_id = pos 1;
  job_name = "report";
  scheduled_for = pos 100_000;
  period = "2026-05";
}

abbrev household_one : ℤ → Bool
household_one id = eqb_ℤ id (pos 1)

abbrev later_month : RunKey
later_month = record monthly { scheduled_for = pos 200_000 }

abbrev well : RunOutcome
well = record { status = RunStatus.run_succeeded; error_code = "" }

abbrev row : JobStatus → JobRun
row status = record {
  period = "2026-05";
  status = status;
  started_at = pos 101_000;
  finished_at = some (pos 102_000);
  error_code = none;
}

abbrev table : JobStatus → JobRuns
table status = (job_key monthly, row status) ∷ []

abbrev calls : List StoreStep
calls = claim_step later_month (pos 201_000) ∷ finish_step later_month (pos 202_000) well ∷ []

claim-Final_refused_example :
    (claim household_one monthly
        (pos 203_000)
        (steps household_one calls (table JobStatus.succeeded))
      ≡ ok (false, steps household_one calls (table JobStatus.succeeded)))
    × (lookup (job_key monthly) (steps household_one calls (table JobStatus.succeeded))
        ≡ some (row JobStatus.succeeded))
unfolding family_finance_os.Prelude.Text.trim_space is_admitted
claim-Final_refused_example =
    claim-Final_refused household_one calls monthly (pos 203_000) (row JobStatus.succeeded)
      (table JobStatus.succeeded) (refl, refl)

claim_exclusive_example :
    claim household_one monthly
      (pos 205_000)
      (steps household_one calls ((job_key monthly, started monthly (pos 101_000)) ∷ []))
    ≡ ok (false, steps household_one calls ((job_key monthly, started monthly (pos 101_000)) ∷ []))
unfolding claim
claim_exclusive_example =
    claim_exclusive household_one calls monthly (pos 101_000) (pos 205_000) []
      ((job_key monthly, started monthly (pos 101_000)) ∷ []) refl (refl, (refl, tt))

abbrev report : Time → JobRuns → Bool × JobRuns
report scheduled_for runs = (true, runs)

abbrev job : Job
job = record {
  household_id = pos 1;
  name = "report";
  schedule = none;
  catch_up = CatchUpPolicy.catch_up_none;
  period = none;
  run = some report;
}

abbrev claimed : JobRuns
claimed = (job_key monthly, started (run_key job (pos 100_000)) (pos 101_000)) ∷ []

run_due_once_example :
    (run_due household_one job (pos 100_000) (pos 101_000) (pos 102_000) []
      ≡ (ok tt, done_runs job (pos 100_000) (pos 101_000) (pos 102_000) claimed))
    × (run_due household_one job (pos 100_000) (pos 300_000) (pos 301_000) (
          steps household_one calls
            (done_runs job (pos 100_000) (pos 101_000) (pos 102_000) claimed))
        ≡ (
          ok tt,
          steps household_one calls
              (done_runs job (pos 100_000) (pos 101_000) (pos 102_000) claimed),
        ))
unfolding family_finance_os.Scheduler.Jobs.validate_job claim
run_due_once_example =
    run_due_once household_one job (pos 100_000) (pos 101_000) (pos 102_000) (pos 300_000)
      (pos 301_000) [] claimed claimed report calls refl refl refl refl refl
