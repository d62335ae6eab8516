-- ===== src/Scheduler/Claims.antt =====
-- postgres.go: which runs can be claimed, whatever calls of the store come between.
use family_finance_os.Prelude.{
  ◌≡◌, ◌∙◌, ◌⊎◌, constraint_violation, refl, arith, Bool, true, false, String, List, [], ◌∷◌,
  Option, none, some, Result, ok, err, ◌>>=◌, if◌then◌else◌, Bool-cases, inl, inr,
}
use family_finance_os.Prelude.Int.{ℤ}
use family_finance_os.Prelude.Time.{Time}
use family_finance_os.Prelude.Eq.{lookup, insert, lookup-insert}
use family_finance_os.Scheduler.{
  RunKey, RunOutcome, JobKey, key_eq, same_key, same_key_iff, JobRun, JobRuns, JobStatus, job_key,
  started, claimable, is_admitted, claim_row, claim, outcome_row, is_running, finished, finish_row,
  finish, recover_interrupted,
}

pub data StoreStep : Type 0 where
  claim_step : RunKey → Time → StoreStep
  finish_step : RunKey → Time → RunOutcome → StoreStep
  recover_step : Time → StoreStep

abbrev pub kept : JobRuns → Result JobRuns → JobRuns
kept runs (err e) = runs
kept runs (ok runs') = runs'

-- The table after a claim, which leaves it on an error.
abbrev pub claimed_runs : JobRuns → Result (Bool × JobRuns) → JobRuns
claimed_runs runs (err e) = runs
claimed_runs runs (ok claimed) = claimed.1

module _ (known : ℤ → Bool) where
  -- A call of the store; one that fails leaves the table.
  unfoldable pub step : StoreStep → JobRuns → JobRuns
  unfolding claim finish recover_interrupted
  step (claim_step k now) runs = claimed_runs runs (claim known k now runs)
  step (finish_step k now outcome) runs = kept runs (finish k now outcome runs)
  step (recover_step now) runs = recover_interrupted now runs

  unfoldable pub steps : List StoreStep → JobRuns → JobRuns
  unfolding step
  steps [] runs = runs
  steps (s ∷ ss) runs = steps ss (step s runs)

abbrev pub recovered : Time → Option JobRun → Option JobRun
recovered now none = none
recovered now (some run) =
    some (
      if is_running run then finished run now (JobStatus.failed, some "process_restarted") else run)

pub lookup-recover :
    (key : JobKey) (now : Time) (runs : JobRuns)
    → lookup key (recover_interrupted now runs) ≡ recovered now (lookup key runs)
unfolding recover_interrupted
lookup-recover key now [] = refl
lookup-recover key now ((k, run) ∷ runs) = elim (Bool-cases (same_key key k)) [
  | inl same ↦ rw same
  | inr other ↦ rw (other, lookup-recover key now runs)
]

-- A row that no call changes is not running and not failed.
abbrev pub is_final : JobRun → Bool
is_final run = elim run.status [ JobStatus.succeeded ↦ true | _ ↦ false ]

pub final_row :
    (run : JobRun) → is_final run ≡ true → (claimable (some run) ≡ false) × (is_running run ≡ false)
final_row run h = ground arith

abbrev pub Final : JobKey → JobRun → JobRuns → Type 0
Final key run runs = (lookup key runs ≡ some run) × (is_final run ≡ true)

pub written :
    (key other : JobKey) (run row : JobRun) (runs : JobRuns)
    → lookup key runs ≡ some run
    → same_key key other ≡ false
    → lookup key (insert other row runs) ≡ some run
written key other run row runs h differs = rw (lookup-insert other key row runs, differs, h)

claim_row-Final :
    (k : RunKey) (now : Time) (key : JobKey) (run : JobRun) (runs : JobRuns)
    → Final key run runs
    → lookup key (claim_row k now runs).1 ≡ some run
claim_row-Final k now key run runs (found, final) =
    elim (Bool-cases (claimable (lookup (job_key k) runs))) [
      | inl free ↦ elim (Bool-cases (same_key key (job_key k))) [
        | inl same ↦
            absurd
              (cc (free, found, (same_key_iff key (job_key k)).0 same, (final_row run final).0))
        | inr other ↦ rw (free, written key (job_key k) run (started k now) runs found other)
      ]
      | inr taken ↦ rw (taken, found)
    ]

-- The two ways in which a claim ends.
pub claim-cases :
    (known : ℤ → Bool) (k : RunKey) (now : Time) (runs : JobRuns)
    → (is_admitted known k ≡ true) × (claim known k now runs ≡ ok (claim_row k now runs))
      ⊎ (is_admitted known k ≡ false) × (claim known k now runs ≡ err constraint_violation)
unfolding claim
claim-cases known k now runs = elim (Bool-cases (is_admitted known k)) [
  | inl fits ↦ inl (fits, rw fits refl)
  | inr bad ↦ inr (bad, rw bad refl)
]

claim-Final :
    (known : ℤ → Bool) (k : RunKey) (now : Time) (key : JobKey) (run : JobRun) (runs : JobRuns)
    → Final key run runs
    → lookup key (claimed_runs runs (claim known k now runs)) ≡ some run
claim-Final known k now key run runs f = elim (claim-cases known k now runs) [
  | inl (_, e) ↦ rw e (claim_row-Final k now key run runs f)
  | inr (_, e) ↦ rw e f.0
]

finish_row-Final :
    (other : JobKey) (now : Time) (row : JobStatus × Option String) (key : JobKey) (run : JobRun)
    (runs : JobRuns) (o : Option JobRun)
    → lookup other runs ≡ o
    → Final key run runs
    → lookup key (kept runs (finish_row other now row runs o)) ≡ some run
finish_row-Final other now row key run runs none h f = f.0
finish_row-Final other now row key run runs (some old) h f = elim (Bool-cases (is_running old)) [
  | inl active ↦ elim (Bool-cases (same_key key other)) [
    | inl same ↦
        absurd (cc (active, h, f.0, (same_key_iff key other).0 same, (final_row run f.1).1))
    | inr differs ↦ rw (active, written key other run (finished old now row) runs f.0 differs)
  ]
  | inr idle ↦ rw (idle, f.0)
]

finish-Final :
    (k : RunKey) (now : Time) (row : Result (JobStatus × Option String)) (key : JobKey)
    (run : JobRun) (runs : JobRuns)
    → Final key run runs
    → lookup key
        (kept runs (row >>= λ r. finish_row (job_key k) now r runs (lookup (job_key k) runs)))
      ≡ some run
finish-Final k now (err e) key run runs f = f.0
finish-Final k now (ok row) key run runs f =
    finish_row-Final (job_key k) now row key run runs (lookup (job_key k) runs) refl f

module _ (known : ℤ → Bool) where
  step-Final :
      (s : StoreStep) (key : JobKey) (run : JobRun) (runs : JobRuns)
      → Final key run runs
      → lookup key (step known s runs) ≡ some run
  unfolding step finish
  step-Final (claim_step k now) key run runs f = claim-Final known k now key run runs f
  step-Final (finish_step k now outcome) key run runs f =
      finish-Final k now (outcome_row outcome) key run runs f
  step-Final (recover_step now) key run runs f =
      rw (lookup-recover key now runs, f.0, (final_row run f.1).1)

  pub steps-Final :
      (ss : List StoreStep) (key : JobKey) (run : JobRun) (runs : JobRuns)
      → Final key run runs
      → lookup key (steps known ss runs) ≡ some run
  unfolding steps
  steps-Final [] key run runs f = f.0
  steps-Final (s ∷ ss) key run runs f =
      steps-Final ss key run (step known s runs) (step-Final s key run runs f, f.1)

  -- A run that succeeded is never claimed again, and its row never changes, whatever calls of the
  -- store come between: a claim is answered with false, or with an error if the row that it asks for
  -- violates a constraint.
  pub claim-Final_refused :
      (ss : List StoreStep) (k : RunKey) (now : Time) (run : JobRun) (runs : JobRuns)
      → Final (job_key k) run runs
      → (claim known k now (steps known ss runs) ≡ (
          if is_admitted known k
          then ok (false, steps known ss runs)
          else err constraint_violation))
        × (lookup (job_key k) (steps known ss runs) ≡ some run)
  claim-Final_refused ss k now run runs f =
      let stays = steps-Final ss (job_key k) run runs f in
      (
        elim (claim-cases known k now (steps known ss runs)) [
          | inl (fits, e) ↦ e ∙ rw (fits, stays, (final_row run f.1).0) refl
          | inr (bad, e) ↦ e ∙ rw bad refl
        ],
        stays,
      )
