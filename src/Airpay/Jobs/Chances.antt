-- ===== src/Airpay/Jobs/Chances.antt =====
-- How often a job of api/airpay_runtime/airpay_jobs.py has run, and may run still.
use homtech_hub.Prelude.{
  ℕ, ◌+◌, ◌≤◌, ◌≡◌, refl, Bool, true, false, ◌⊎◌, inl, inr, Text, List, [], ◌∷◌, Option, none, some,
  ◌==◌, if◌then◌else◌, total, arith, any, sym, subst, ap, ◌∙◌,
}
use homtech_hub.Airpay.Jobs.{
  is_held, cancelled, interrupted, Job, JobState, queued, running, JobAction, JobPayload, JobStore,
  is_sensitive, find_job, put_job, enqueue_job, new_job, cancel_job, try_job, run_one, failed_job,
}
use homtech_hub.Airpay.Jobs.Work.{
  with_progress, JobOutcome, job_result, job_refused, job_crashed, JobStep, submit, cancel, work,
  report, finish, lose, finished, written, job_step, job_run,
}
use homtech_hub.Airpay.Jobs.Moves.{
  find_job-put_job, find_job-id, find_job-append, enqueue_job-cases, cancel_job-cases,
  try_job-cases,
}

-- 1 for the job itself
abbrev pub is_run : ℕ → ℕ → ℕ
is_run id other = if other == id then 1 else 0

-- 1 while a job may still be taken
abbrev pub chance : JobState → ℕ
chance queued = 1
chance _ = 0

-- of the number of runs
abbrev pub IsOnce : ℕ → Option Job → Type 0
IsOnce n none = n ≡ 0
IsOnce n (some j) = (is_sensitive j.action ≡ false) ⊎ (n + chance j.state ≤ 1)

abbrev pub AllOnce : JobStore → Type 0
AllOnce s = (id : ℕ) → IsOnce (total (is_run id) s.executed) (find_job id s.jobs)

-- An update of one job, with the runs that it has then.
pub put-AllOnce :
    (j j' : Job) (s : JobStore) (held executed : List ℕ)
    → AllOnce s
    → find_job j'.id s.jobs ≡ some j
    → ((id : ℕ) → (j'.id == id) ≡ false → total (is_run id) executed ≡ total (is_run id) s.executed)
    → IsOnce (total (is_run j'.id) executed) (some j')
    → AllOnce (record { jobs = put_job j' s.jobs; held = held; executed = executed })
put-AllOnce j j' s held executed all found others once id =
    subst (IsOnce (total (is_run id) executed)) (sym (find_job-put_job id j' s.jobs))
      (go (j'.id == id) refl)
  where
    go :
        (b : Bool)
        → (j'.id == id) ≡ b
        → IsOnce (total (is_run id) executed) (
            if b
            then (elim (find_job id s.jobs) [ none ↦ none | some _ ↦ some j' ])
            else find_job id s.jobs)
    go true same =
        let e : j'.id ≡ id = ground (arith, same) in
        subst
          (λ i.
            IsOnce (total (is_run i) executed)
              (elim (find_job i s.jobs) as (λ _. Option Job) [ none ↦ none | some _ ↦ some j' ]))
          e
          (subst
            (λ o.
              IsOnce (total (is_run j'.id) executed)
                (elim o as (λ _. Option Job) [ none ↦ none | some _ ↦ some j' ]))
            (sym found) once)
    go false other = subst (λ n. IsOnce n (find_job id s.jobs)) (sym (others id other)) (all id)

-- An update that runs nothing, and after which the job has no better chance.
pub update-AllOnce :
    (j j' : Job) (s : JobStore)
    → AllOnce s
    → find_job j'.id s.jobs ≡ some j
    → is_sensitive j'.action ≡ is_sensitive j.action
    → chance j'.state ≤ chance j.state
    → AllOnce (record s { jobs = put_job j' s.jobs })
update-AllOnce j j' s all found same fewer =
    put-AllOnce j j' s s.held s.executed all found (λ id other. refl)
      (elim (subst (IsOnce (total (is_run j'.id) s.executed)) found (all j'.id)) [
        | inl harmless ↦ inl (same ∙ harmless)
        | inr few ↦ inr (omega (arith, few, fewer))
      ])

pub added-IsOnce :
    (n : ℕ) (o : Option Job) (b : Bool) (new : Job)
    → IsOnce n o
    → chance new.state ≤ 1
    → IsOnce n
        (elim o as (λ _. Option Job) [ some j ↦ some j | none ↦ if b then some new else none ])
added-IsOnce n (some j) b new once few = once
added-IsOnce n none false new once few = once
added-IsOnce n none true new once few = inr (omega (arith, once, few))

pub enqueue_job-AllOnce :
    (owner : Text) (transaction : ℕ) (action : JobAction) (payload : JobPayload) (id now : ℕ)
    (s : JobStore)
    → AllOnce s
    → AllOnce (enqueue_job owner transaction action payload id now s).1
enqueue_job-AllOnce owner transaction action payload id now s all =
    elim (enqueue_job-cases owner transaction action payload id now s) [
      | inl same ↦ subst AllOnce (sym same) all
      | inr (free, fresh, added) ↦ subst AllOnce (sym added) (λ other.
          subst (IsOnce (total (is_run other) s.executed))
            (sym (find_job-append other s.jobs (new_job owner transaction action payload id now)))
            (added-IsOnce (total (is_run other) s.executed) (find_job other s.jobs) (id == other)
              (new_job owner transaction action payload id now) (all other) (omega arith)))
    ]

pub cancel_job-AllOnce :
    (owner : Text) (id now : ℕ) (s : JobStore) → AllOnce s → AllOnce (cancel_job owner id now s).1
cancel_job-AllOnce owner id now s all = elim (cancel_job-cases owner id now s) [
  | inl same ↦ subst AllOnce (sym same) all
  | inr (j, found, put) ↦ subst AllOnce (sym put) (
      update-AllOnce j (failed_job now cancelled 409 j) s all
        (subst (λ i. find_job i s.jobs ≡ some j) (sym (find_job-id id s.jobs j found)) found) refl
        (omega arith))
]

pub started-IsOnce :
    (j : Job) (now : ℕ) (executed : List ℕ)
    → (is_sensitive j.action ≡ false) ⊎ (j.state ≡ queued)
    → IsOnce (total (is_run j.id) executed) (some j)
    → IsOnce
        (total (is_run j.id) (j.id ∷ executed))
        (some (record j { state = running; updated_at = now }))
started-IsOnce j now executed (inl harmless) once = inl harmless
started-IsOnce j now executed (inr fresh) (inl harmless) = inl harmless
started-IsOnce j now executed (inr fresh) (inr few) =
    let chances : chance j.state ≡ 1 = ap chance fresh in inr (ground (arith, few, chances))

pub try_job-AllOnce :
    (actions : List JobAction) (now id : ℕ) (s s' : JobStore)
    → AllOnce s
    → try_job actions now id s ≡ some s'
    → AllOnce s'
try_job-AllOnce actions now id s s' all h =
    let (j, found, moved) = try_job-cases actions now id s s' h in
    let here : find_job j.id s.jobs ≡ some j =
      subst (λ i. find_job i s.jobs ≡ some j) (sym (find_job-id id s.jobs j found)) found in
    elim moved [
      | inl stopped ↦
          subst AllOnce (sym stopped)
            (update-AllOnce j (failed_job now interrupted 409 j) s all here refl (omega arith))
      | inr (begun, active, free) ↦ subst AllOnce (sym begun) (
          put-AllOnce j (record j { state = running; updated_at = now }) s (j.id ∷ s.held)
            (j.id ∷ s.executed) all here (λ other different. ground (arith, different))
            (started-IsOnce j now s.executed free
              (subst (IsOnce (total (is_run j.id) s.executed)) here (all j.id))))
    ]

pub run_one-AllOnce :
    (actions : List JobAction) (now : ℕ) (ids : List ℕ) (s : JobStore)
    → AllOnce s
    → AllOnce (run_one actions now ids s)
unfolding run_one
run_one-AllOnce actions now [] s all = all
run_one-AllOnce actions now (id ∷ ids) s all =
    go (run_one-AllOnce actions now ids s all) (try_job actions now id s) refl
  where
    go :
        AllOnce (run_one actions now ids s)
        → (o : Option JobStore) → try_job actions now id s ≡ o
        → AllOnce (elim o as (λ _. JobStore) [ none ↦ run_one actions now ids s | some s' ↦ s' ])
    go rest none h = rest
    go rest (some s') h = try_job-AllOnce actions now id s s' all h

-- What a worker writes keeps the job's action, and does not queue it.
pub written-AllOnce :
    (id : ℕ) (f : Job → Job) (s : JobStore)
    → ((j : Job)
        → ((f j).id ≡ j.id) × ((f j).action ≡ j.action) × (chance (f j).state ≤ chance j.state))
    → AllOnce s
    → AllOnce (written id f s)
unfolding any
written-AllOnce id f s keeps all = go (is_held id s) (find_job id s.jobs) refl
  where
    go :
        (b : Bool) (o : Option Job)
        → find_job id s.jobs ≡ o
        → AllOnce (
            if b
            then (elim o as (λ _. JobStore) [
              | none ↦ s
              | some j ↦ record s { jobs = put_job (f j) s.jobs }
            ])
            else s)
    go false o h = all
    go true none h = all
    go true (some j) h =
        update-AllOnce j (f j) s all
          (subst (λ i. find_job i s.jobs ≡ some j) (sym ((keeps j).0 ∙ find_job-id id s.jobs j h))
            h)
          (ap is_sensitive (keeps j).1) (keeps j).2

pub finished-keeps :
    (now : ℕ) (outcome : JobOutcome) (j : Job)
    → ((finished now outcome j).id ≡ j.id)
      × ((finished now outcome j).action ≡ j.action)
      × (chance (finished now outcome j).state ≤ chance j.state)
unfolding finished
finished-keeps now (job_result v) j = (refl, refl, omega arith)
finished-keeps now (job_refused e) j = (refl, refl, omega arith)
finished-keeps now job_crashed j = (refl, refl, omega arith)

pub job_step-AllOnce : (s : JobStore) (a : JobStep) → AllOnce s → AllOnce (job_step s a)
unfolding job_step
job_step-AllOnce s (submit owner transaction action payload id now) all =
    enqueue_job-AllOnce owner transaction action payload id now s all
job_step-AllOnce s (cancel owner id now) all = cancel_job-AllOnce owner id now s all
job_step-AllOnce s (work actions now ids) all = run_one-AllOnce actions now ids s all
job_step-AllOnce s (report id value now) all =
    written-AllOnce id (with_progress now value) s (λ j. (refl, refl, omega arith)) all
job_step-AllOnce s (finish id outcome now) all =
    written-AllOnce id (finished now outcome) s (λ j. finished-keeps now outcome j) all
job_step-AllOnce s (lose id) all = all

pub job_run-AllOnce : (s : JobStore) (steps : List JobStep) → AllOnce s → AllOnce (job_run s steps)
unfolding job_run
job_run-AllOnce s [] all = all
job_run-AllOnce s (a ∷ steps) all = job_run-AllOnce (job_step s a) steps (job_step-AllOnce s a all)
