-- ===== src/Airpay/Jobs/Active.antt =====
-- The active jobs of api/airpay_runtime/airpay_jobs.py: those of one owner and one transaction.
use homtech_hub.Prelude.{
  ℕ, ◌+◌, ◌≤◌, ◌≡◌, refl, Bool, true, false, ◌&&◌, inl, inr, Text, List, [], ◌∷◌, ◌++◌, Option,
  none, some, ◌==◌, if◌then◌else◌, total, total-append, arith, Bool-cases, any, find, text_eq,
  text_eq_iff, sym, subst, ◌∙◌,
}
use homtech_hub.Airpay.Jobs.{
  is_active_for, is_held, cancelled, interrupted, Job, running, JobAction, JobPayload, JobStore,
  is_active, find_job, put_job, enqueue_job, new_job, cancel_job, try_job, run_one, failed_job,
}
use homtech_hub.Airpay.Jobs.Work.{
  with_progress, JobOutcome, job_result, job_refused, job_crashed, JobStep, submit, cancel, work,
  report, finish, lose, finished, written, job_step, job_run,
}
use homtech_hub.Airpay.Jobs.Moves.{find_job-id, enqueue_job-cases, cancel_job-cases, try_job-cases}
use homtech_hub.Airpay.Jobs.Once.{no_jobs}

abbrev pub active_share : Text → ℕ → Job → ℕ
active_share owner transaction j = if is_active_for owner transaction j then 1 else 0

total-put_job :
    (f : Job → ℕ) (j' j : Job) (jobs : List Job)
    → find_job j'.id jobs ≡ some j
    → total f (put_job j' jobs) + f j ≡ total f jobs + f j'
total-put_job f j' j [] h = ground arith
total-put_job f j' j (x ∷ jobs) h = ground (arith, total-put_job f j' j jobs)

none_active :
    (owner : Text) (transaction : ℕ) (jobs : List Job)
    → find (is_active_for owner transaction) jobs ≡ none
    → total (active_share owner transaction) jobs ≡ 0
unfolding find
none_active owner transaction [] h = refl
none_active owner transaction (j ∷ jobs) h = ground (arith, none_active owner transaction jobs)

abbrev IsSingle : JobStore → Type 0
IsSingle s = (owner : Text) (transaction : ℕ) → total (active_share owner transaction) s.jobs ≤ 1

update-IsSingle :
    (j j' : Job) (s : JobStore) (held executed : List ℕ)
    → IsSingle s
    → find_job j'.id s.jobs ≡ some j
    → ((owner : Text) (transaction : ℕ)
        → active_share owner transaction j' ≤ active_share owner transaction j)
    → IsSingle (record { jobs = put_job j' s.jobs; held = held; executed = executed })
update-IsSingle j j' s held executed single found fewer owner transaction = omega (
  arith,
  single owner transaction,
  fewer owner transaction,
  total-put_job (active_share owner transaction) j' j s.jobs found,
)

-- A job that has ended counts for nothing; one that goes on counts as before.
ended_share :
    (now status : ℕ) (message : Text) (j : Job) (owner : Text) (transaction : ℕ)
    → active_share owner transaction (failed_job now message status j)
      ≤ active_share owner transaction j
ended_share now status message j owner transaction = ground arith

running_share :
    (now : ℕ) (j : Job) (owner : Text) (transaction : ℕ)
    → is_active j.state ≡ true
    → active_share owner transaction (record j { state = running; updated_at = now })
      ≤ active_share owner transaction j
running_share now j owner transaction active = ground (arith, active)

finished_share :
    (now : ℕ) (outcome : JobOutcome) (j : Job) (owner : Text) (transaction : ℕ)
    → active_share owner transaction (finished now outcome j) ≤ active_share owner transaction j
unfolding finished
finished_share now (job_result v) j owner transaction = ground arith
finished_share now (job_refused e) j owner transaction = ground arith
finished_share now job_crashed j owner transaction = ground arith

new_share :
    (j : Job) (jobs : List Job) (owner : Text) (transaction : ℕ)
    → find (is_active_for j.created_by j.transaction_id) jobs ≡ none
    → total (active_share owner transaction) jobs ≤ 1
    → total (active_share owner transaction) (jobs ++ j ∷ []) ≤ 1
new_share j jobs owner transaction free single =
    elim (Bool-cases (text_eq j.created_by owner && j.transaction_id == transaction)) [
      | inl same ↦
          let same_owner : j.created_by ≡ owner =
            (text_eq_iff j.created_by owner).0 (ground (arith, same)) in
          let same_transaction : j.transaction_id ≡ transaction = ground (arith, same) in
          let none_old : total (active_share owner transaction) jobs ≡ 0 =
            subst (λ o. total (active_share o transaction) jobs ≡ 0) same_owner
              (subst (λ t. total (active_share j.created_by t) jobs ≡ 0) same_transaction
                (none_active j.created_by j.transaction_id jobs free)) in
          let few : active_share owner transaction j ≤ 1 = ground arith in
          omega (arith, none_old, few, total-append (active_share owner transaction) jobs (j ∷ []))
      | inr other ↦
          let none_new : active_share owner transaction j ≡ 0 = ground (arith, other) in
          omega
            (arith, single, none_new, total-append (active_share owner transaction) jobs (j ∷ []))
    ]

enqueue_job-IsSingle :
    (owner : Text) (transaction : ℕ) (action : JobAction) (payload : JobPayload) (id now : ℕ)
    (s : JobStore)
    → IsSingle s
    → IsSingle (enqueue_job owner transaction action payload id now s).1
enqueue_job-IsSingle owner transaction action payload id now s single =
    elim (enqueue_job-cases owner transaction action payload id now s) [
      | inl same ↦ subst IsSingle (sym same) single
      | inr (free, fresh, added) ↦ subst IsSingle (sym added) (λ other t.
          new_share (new_job owner transaction action payload id now) s.jobs other t free
            (single other t))
    ]

cancel_job-IsSingle :
    (owner : Text) (id now : ℕ) (s : JobStore) → IsSingle s → IsSingle (cancel_job owner id now s).1
cancel_job-IsSingle owner id now s single = elim (cancel_job-cases owner id now s) [
  | inl same ↦ subst IsSingle (sym same) single
  | inr (j, found, put) ↦ subst IsSingle (sym put) (
      update-IsSingle j (failed_job now cancelled 409 j) s s.held s.executed single
        (subst (λ i. find_job i s.jobs ≡ some j) (sym (find_job-id id s.jobs j found)) found)
        (ended_share now 409 cancelled j))
]

try_job-IsSingle :
    (actions : List JobAction) (now id : ℕ) (s s' : JobStore)
    → IsSingle s
    → try_job actions now id s ≡ some s'
    → IsSingle s'
try_job-IsSingle actions now id s s' single h =
    let (j, found, moved) = try_job-cases actions now id s s' h in
    let here : find_job j.id s.jobs ≡ some j =
      subst (λ i. find_job i s.jobs ≡ some j) (sym (find_job-id id s.jobs j found)) found in
    elim moved [
      | inl stopped ↦ subst IsSingle (sym stopped) (
          update-IsSingle j (failed_job now interrupted 409 j) s s.held s.executed single here
            (ended_share now 409 interrupted j))
      | inr (begun, active, free) ↦ subst IsSingle (sym begun) (
          update-IsSingle j (record j { state = running; updated_at = now }) s (j.id ∷ s.held)
            (j.id ∷ s.executed) single here
            (λ owner transaction. running_share now j owner transaction active))
    ]

run_one-IsSingle :
    (actions : List JobAction) (now : ℕ) (ids : List ℕ) (s : JobStore)
    → IsSingle s
    → IsSingle (run_one actions now ids s)
unfolding run_one
run_one-IsSingle actions now [] s single = single
run_one-IsSingle actions now (id ∷ ids) s single =
    go (run_one-IsSingle actions now ids s single) (try_job actions now id s) refl
  where
    go :
        IsSingle (run_one actions now ids s)
        → (o : Option JobStore) → try_job actions now id s ≡ o
        → IsSingle (elim o as (λ _. JobStore) [ none ↦ run_one actions now ids s | some s' ↦ s' ])
    go rest none h = rest
    go rest (some s') h = try_job-IsSingle actions now id s s' single h

written-IsSingle :
    (id : ℕ) (f : Job → Job) (s : JobStore)
    → ((j : Job)
        → ((f j).id ≡ j.id)
          × ((owner : Text) (transaction : ℕ)
              → active_share owner transaction (f j) ≤ active_share owner transaction j))
    → IsSingle s
    → IsSingle (written id f s)
unfolding any
written-IsSingle id f s keeps single = go (is_held id s) (find_job id s.jobs) refl
  where
    go :
        (b : Bool) (o : Option Job)
        → find_job id s.jobs ≡ o
        → IsSingle (
            if b
            then (elim o as (λ _. JobStore) [
              | none ↦ s
              | some j ↦ record s { jobs = put_job (f j) s.jobs }
            ])
            else s)
    go false o h = single
    go true none h = single
    go true (some j) h =
        update-IsSingle j (f j) s s.held s.executed single
          (subst (λ i. find_job i s.jobs ≡ some j) (sym ((keeps j).0 ∙ find_job-id id s.jobs j h))
            h)
          (keeps j).1

finished-id : (now : ℕ) (outcome : JobOutcome) (j : Job) → (finished now outcome j).id ≡ j.id
unfolding finished
finished-id now (job_result v) j = refl
finished-id now (job_refused e) j = refl
finished-id now job_crashed j = refl

job_step-IsSingle : (s : JobStore) (a : JobStep) → IsSingle s → IsSingle (job_step s a)
unfolding job_step
job_step-IsSingle s (submit owner transaction action payload id now) single =
    enqueue_job-IsSingle owner transaction action payload id now s single
job_step-IsSingle s (cancel owner id now) single = cancel_job-IsSingle owner id now s single
job_step-IsSingle s (work actions now ids) single = run_one-IsSingle actions now ids s single
job_step-IsSingle s (report id value now) single =
    written-IsSingle id (with_progress now value) s (λ j. (refl, λ owner transaction. omega arith))
      single
job_step-IsSingle s (finish id outcome now) single =
    written-IsSingle id (finished now outcome) s
      (λ j. (finished-id now outcome j, finished_share now outcome j)) single
job_step-IsSingle s (lose id) single = single

job_run-IsSingle : (s : JobStore) (steps : List JobStep) → IsSingle s → IsSingle (job_run s steps)
unfolding job_run
job_run-IsSingle s [] single = single
job_run-IsSingle s (a ∷ steps) single =
    job_run-IsSingle (job_step s a) steps (job_step-IsSingle s a single)

-- Whatever is queued, cancelled, taken, finished and interrupted from the empty queue on: an owner has at
-- most one job that is queued or running for a transaction.
pub one_active_job :
    (steps : List JobStep) (owner : Text) (transaction : ℕ)
    → total (active_share owner transaction) (job_run no_jobs steps).jobs ≤ 1
one_active_job steps = job_run-IsSingle no_jobs steps (λ owner transaction. omega arith)
