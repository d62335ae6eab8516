-- ===== src/Scheduler/Claimed.antt =====
-- postgres.go and scheduler.go: runs that are claimed, recovered and ended.
use family_finance_os.Prelude.{
  ◌≡◌, sym, ok-injective, refl, ap, ◌∙◌, arith, Bool, true, false, not, String, List, [], ◌∷◌,
  Option, none, some, Result, ok, err, ◌>>=◌, Bool-cases, inl, inr, All,
}
use mathlib.Core.Path.{subst}
use family_finance_os.Prelude.Int.{ℤ}
use family_finance_os.Prelude.Time.{Time}
use family_finance_os.Prelude.Eq.{lookup, insert, lookup-insert}
use family_finance_os.Scheduler.{
  RunKey, JobKey, key_eq, same_key, same_key_iff, JobRun, JobRuns, JobStatus, job_key, started,
  claimable, is_admitted, claim_row, claim, outcome_row, is_running, finished, finish_row, finish,
}
use family_finance_os.Scheduler.Jobs.{
  Job, run_key, validate_job, after_check, finish_run, run_claimed, after_claim, run_due,
}
use family_finance_os.Scheduler.Claims.{
  StoreStep, claim_step, finish_step, recover_step, kept, claimed_runs, claim-cases, step, steps,
  is_final, Final, written, claim-Final_refused,
}

abbrev pub is_succeeded : Option JobRun → Bool
is_succeeded none = false
is_succeeded (some run) = is_final run

claim_ok :
    (known : ℤ → Bool) (k : RunKey) (now : Time) (runs : JobRuns)
    → is_admitted known k ≡ true
    → claim known k now runs ≡ ok (claim_row k now runs)
unfolding claim
claim_ok known k now runs fits = rw fits refl

-- Whether a call can end the run of a key.
abbrev pub leaves : JobKey → StoreStep → Bool
leaves key (claim_step k now) = true
leaves key (finish_step k now outcome) = not (same_key key (job_key k))
leaves key (recover_step now) = false

abbrev pub Leaves : JobKey → StoreStep → Type 0
Leaves key s = leaves key s ≡ true

abbrev Running : JobKey → JobRun → JobRuns → Type 0
Running key run runs = (lookup key runs ≡ some run) × (is_running run ≡ true)

not_claimable : (run : JobRun) → is_running run ≡ true → claimable (some run) ≡ false
not_claimable run h = ground arith

claim_row-Running :
    (k : RunKey) (now : Time) (key : JobKey) (run : JobRun) (runs : JobRuns)
    → Running key run runs
    → lookup key (claim_row k now runs).1 ≡ some run
claim_row-Running k now key run runs (found, active) =
    elim (Bool-cases (claimable (lookup (job_key k) runs))) [
      | inl free ↦ elim (Bool-cases (same_key key (job_key k))) [
        | inl same ↦
            absurd
              (cc (free, found, (same_key_iff key (job_key k)).0 same, not_claimable run active))
        | inr other ↦ rw (free, written key (job_key k) run (started k now) runs found other)
      ]
      | inr taken ↦ rw (taken, found)
    ]

claim-Running :
    (known : ℤ → Bool) (k : RunKey) (now : Time) (key : JobKey) (run : JobRun) (runs : JobRuns)
    → Running key run runs
    → lookup key (claimed_runs runs (claim known k now runs)) ≡ some run
claim-Running known k now key run runs f = elim (claim-cases known k now runs) [
  | inl (_, e) ↦ rw e (claim_row-Running k now key run runs f)
  | inr (_, e) ↦ rw e f.0
]

finish_row-other :
    (other : JobKey) (now : Time) (row : JobStatus × Option String) (key : JobKey) (run : JobRun)
    (runs : JobRuns) (o : Option JobRun)
    → lookup key runs ≡ some run
    → same_key key other ≡ false
    → lookup key (kept runs (finish_row other now row runs o)) ≡ some run
finish_row-other other now row key run runs none h differs = h
finish_row-other other now row key run runs (some old) h differs =
    elim (Bool-cases (is_running old)) [
      | inl active ↦ rw (active, written key other run (finished old now row) runs h differs)
      | inr idle ↦ rw (idle, h)
    ]

finish-other :
    (k : RunKey) (now : Time) (row : Result (JobStatus × Option String)) (key : JobKey)
    (run : JobRun) (runs : JobRuns)
    → lookup key runs ≡ some run
    → same_key key (job_key k) ≡ false
    → lookup key
        (kept runs (row >>= λ r. finish_row (job_key k) now r runs (lookup (job_key k) runs)))
      ≡ some run
finish-other k now (err e) key run runs h differs = h
finish-other k now (ok row) key run runs h differs =
    finish_row-other (job_key k) now row key run runs (lookup (job_key k) runs) h differs

from_not : (b : Bool) → not b ≡ true → b ≡ false
from_not b h = ground arith

module _ (known : ℤ → Bool) where
  step-Running :
      (s : StoreStep) (key : JobKey) (run : JobRun) (runs : JobRuns)
      → Leaves key s
      → Running key run runs
      → lookup key (step known s runs) ≡ some run
  unfolding step finish
  step-Running (claim_step k now) key run runs h f = claim-Running known k now key run runs f
  step-Running (finish_step k now outcome) key run runs h f =
      finish-other k now (outcome_row outcome) key run runs f.0 (from_not _ h)
  step-Running (recover_step now) key run runs h f = absurd (cc h)

  steps-Running :
      (ss : List StoreStep) (key : JobKey) (run : JobRun) (runs : JobRuns)
      → All (Leaves key) ss
      → Running key run runs
      → lookup key (steps known ss runs) ≡ some run
  unfolding steps
  steps-Running [] key run runs h f = f.0
  steps-Running (s ∷ ss) key run runs h f =
      steps-Running ss key run (step known s runs) h.1 (step-Running s key run runs h.0 f, f.1)

claim_row_writes :
    (k : RunKey) (now : Time) (runs t : JobRuns)
    → claim_row k now runs ≡ (true, t)
    → lookup (job_key k) t ≡ some (started k now)
claim_row_writes k now runs t q = elim (Bool-cases (claimable (lookup (job_key k) runs))) [
  | inl free ↦
      subst (λ (x : JobRuns). lookup (job_key k) x ≡ some (started k now))
        (ap (λ (x : Bool × JobRuns). x.1) (rw free at q))
        (rw (
          lookup-insert (job_key k) (job_key k) (started k now) runs,
          (same_key_iff (job_key k) (job_key k)).1 refl,
        ))
  | inr taken ↦ absurd (cc (ap (λ (x : Bool × JobRuns). x.0) (rw taken at q)))
]

claim_writes :
    (known : ℤ → Bool) (k : RunKey) (now : Time) (runs t : JobRuns)
    → claim known k now runs ≡ ok (true, t)
    → (is_admitted known k ≡ true) × (lookup (job_key k) t ≡ some (started k now))
claim_writes known k now runs t q = elim (claim-cases known k now runs) [
  | inl (fits, e) ↦ (fits, claim_row_writes k now runs t (ok-injective (sym e ∙ q)))
  | inr (_, e) ↦ absurd (cc (e, q))
]

-- A run that was claimed is refused to every other claim, whatever calls of the store come between
-- that neither end this run nor recover the interrupted ones.
pub claim_exclusive :
    (known : ℤ → Bool) (ss : List StoreStep) (k : RunKey) (now later : Time) (runs t : JobRuns)
    → claim known k now runs ≡ ok (true, t)
    → All (Leaves (job_key k)) ss
    → claim known k later (steps known ss t) ≡ ok (false, steps known ss t)
claim_exclusive known ss k now later runs t q h =
    let made = claim_writes known k now runs t q in
    let stays = steps-Running known ss (job_key k) (started k now) t h (made.1, refl) in
    claim_ok known k later (steps known ss t) made.0
    ∙ rw (stays, not_claimable (started k now) refl) refl

-- What a run that ends well leaves.
finish_run_ok :
    (k : RunKey) (end : Time) (run : JobRun) (runs : JobRuns)
    → lookup (job_key k) runs ≡ some run
    → is_running run ≡ true
    → finish_run k end (true, runs)
      ≡ (ok tt, insert (job_key k) (finished run end (JobStatus.succeeded, none)) runs)
unfolding finish_run finish
finish_run_ok k end run runs h active = rw (h, active)

run_due_step :
    (known : ℤ → Bool) (job : Job) (due start end : Time) (runs : JobRuns)
    (r : Result (Bool × JobRuns))
    → validate_job job false ≡ ok tt
    → claim known (run_key job due) start runs ≡ r
    → run_due known job due start end runs ≡ after_claim (run_key job due) job.run end runs r
unfolding run_due
run_due_step known job due start end runs r valid claimed =
    ap
      (λ (x : Result (Unit {0})).
        after_check runs x (
          after_claim (run_key job due) job.run end runs
            (claim known (run_key job due) start runs)))
      valid
    ∙ ap (after_claim (run_key job due) job.run end runs) claimed

run_claimed_ok :
    (k : RunKey) (run : Option (Time → JobRuns → Bool × JobRuns))
    (f : Time → JobRuns → Bool × JobRuns) (end : Time) (t u : JobRuns)
    → run ≡ some f
    → f k.scheduled_for t ≡ (true, u)
    → (runs : JobRuns) → after_claim k run end runs (ok (true, t)) ≡ finish_run k end (true, u)
unfolding run_claimed after_claim
run_claimed_ok k run f end t u is_f ran runs = rw (is_f, ran)

run_claimed_refused :
    (k : RunKey) (run : Option (Time → JobRuns → Bool × JobRuns)) (end : Time) (t : JobRuns)
    → after_claim k run end t (ok (false, t)) ≡ (ok tt, t)
unfolding run_claimed after_claim
run_claimed_refused k run end t = refl

-- The table after a run that went well.
abbrev pub done_runs : Job → Time → Time → Time → JobRuns → JobRuns
done_runs job due start end u =
    let k = run_key job due in
    insert (job_key k) (finished (started k start) end (JobStatus.succeeded, none)) u

-- A due job that can be claimed, and whose function succeeds and leaves its row to the scheduler, is
-- recorded as succeeded; from then on a call for the same due time does nothing, whatever calls of
-- the store come between.
pub run_due_once :
    (known : ℤ → Bool) (job : Job) (due start end start' end' : Time) (runs t u : JobRuns)
    (f : Time → JobRuns → Bool × JobRuns) (ss : List StoreStep)
    → validate_job job false ≡ ok tt
    → job.run ≡ some f
    → claim known (run_key job due) start runs ≡ ok (true, t)
    → f due t ≡ (true, u)
    → lookup (job_key (run_key job due)) u ≡ some (started (run_key job due) start)
    → (run_due known job due start end runs ≡ (ok tt, done_runs job due start end u))
      × (run_due known job due start' end' (steps known ss (done_runs job due start end u))
          ≡ (ok tt, steps known ss (done_runs job due start end u)))
run_due_once known job due start end start' end' runs t u f ss valid is_f claimed ran still =
    let k = run_key job due in
    let row = finished (started k start) end (JobStatus.succeeded, none) in
    let ended = done_runs job due start end u in
    let final : Final (job_key k) row ended = (
      rw (
        lookup-insert (job_key k) (job_key k) row u,
        (same_key_iff (job_key k) (job_key k)).1 refl,
      ),
      refl,
    ) in
    (
      run_due_step known job due start end runs (ok (true, t)) valid claimed
          ∙ run_claimed_ok k job.run f end t u is_f ran runs
          ∙ finish_run_ok k end (started k start) u still refl,
      run_due_step known job due start' end' (steps known ss ended)
            (ok (false, steps known ss ended)) valid
            ((claim-Final_refused known ss k start' row ended final).0
              ∙ rw (claim_writes known k start runs t claimed).0 refl)
          ∙ run_claimed_refused k job.run end' (steps known ss ended),
    )
