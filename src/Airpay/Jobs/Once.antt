-- ===== src/Airpay/Jobs/Once.antt =====
-- However jobs are queued, taken, interrupted and cancelled (api/airpay_runtime/airpay_jobs.py): how often an
-- action that may spend money is executed.
use homtech_hub.Prelude.{
  ℕ, ◌+◌, ◌≤◌, ◌≡◌, refl, true, false, ◌⊎◌, inl, inr, List, [], some, total, arith, subst,
}
use homtech_hub.Airpay.Jobs.{Job, JobState, JobStore, is_sensitive, is_queued, find_job}
use homtech_hub.Airpay.Jobs.Work.{JobStep, job_run}
use homtech_hub.Airpay.Jobs.Chances.{is_run, chance, IsOnce, job_run-AllOnce}

abbrev pub no_jobs : JobStore
no_jobs = record { jobs = []; held = []; executed = [] }

bound-runs :
    (n : ℕ) (st : JobState) → n + chance st ≤ 1 → (n ≤ 1) × ((n ≡ 0) ⊎ (is_queued st ≡ false))
bound-runs n JobState.queued few = (omega (arith, few), inl (omega (arith, few)))
bound-runs n JobState.running few = (omega (arith, few), inr refl)
bound-runs n JobState.succeeded few = (omega (arith, few), inr refl)
bound-runs n JobState.failed few = (omega (arith, few), inr refl)

-- Whatever is queued, cancelled, taken by workers, reported, finished and interrupted from the empty queue
-- on: a job that may spend money (pay, voucher, reconcile) is handed to its executor at most once, and not
-- before it has left the state queued.
pub sensitive_runs_once :
    (steps : List JobStep) (id : ℕ) (j : Job)
    → find_job id (job_run no_jobs steps).jobs ≡ some j
    → is_sensitive j.action ≡ true
    → (total (is_run id) (job_run no_jobs steps).executed ≤ 1)
      × ((total (is_run id) (job_run no_jobs steps).executed ≡ 0) ⊎ (is_queued j.state ≡ false))
sensitive_runs_once steps id j found sensitive =
    let s = job_run no_jobs steps in
    let once : IsOnce (total (is_run id) s.executed) (some j) =
      subst (IsOnce (total (is_run id) s.executed)) found
        (job_run-AllOnce no_jobs steps (λ i. refl) id) in
    elim once [
      | inl harmless ↦ absurd (ground (arith, harmless, sensitive))
      | inr few ↦ bound-runs (total (is_run id) s.executed) j.state few
    ]
