-- ===== src/Airpay/Jobs/Moves.antt =====
-- What each operation of api/airpay_runtime/airpay_jobs.py may do to the table of jobs.
use homtech_hub.Prelude.{
  ℕ, ◌≡◌, refl, Bool, true, false, not, ◌&&◌, ◌||◌, ◌⊎◌, inl, inr, Text, List, [], ◌∷◌, ◌++◌, none,
  some, ◌==◌, if◌then◌else◌, arith, Option-cases, Bool-cases, find,
}
use homtech_hub.Airpay.Jobs.{
  same_action, same_payload, is_active_for, cancelled, interrupted, Job, JobState, queued,
  JobAction, JobPayload, JobStore, is_sensitive, is_running, is_active, find_job, put_job,
  enqueue_job, new_job, cancel_job, try_job, failed_job, started,
}

pub find_job-put_job :
    (id : ℕ) (j' : Job) (jobs : List Job)
    → find_job id (put_job j' jobs) ≡ (
        if j'.id == id
        then (elim (find_job id jobs) [ none ↦ none | some _ ↦ some j' ])
        else find_job id jobs)
find_job-put_job id j' [] = ground arith
find_job-put_job id j' (j ∷ jobs) = ground (arith, find_job-put_job id j' jobs)

pub find_job-id : (id : ℕ) (jobs : List Job) (j : Job) → find_job id jobs ≡ some j → j.id ≡ id
find_job-id id [] j h = ground arith
find_job-id id (x ∷ jobs) j h = ground (arith, find_job-id id jobs j)

pub find_job-append :
    (id : ℕ) (jobs : List Job) (new : Job)
    → find_job id (jobs ++ new ∷ []) ≡ (elim (find_job id jobs) [
      | some j ↦ some j
      | none ↦ if new.id == id then some new else none
    ])
find_job-append id [] new = refl
find_job-append id (j ∷ jobs) new = ground (arith, find_job-append id jobs new)

pub enqueue_job-cases :
    (owner : Text) (transaction : ℕ) (action : JobAction) (payload : JobPayload) (id now : ℕ)
    (s : JobStore)
    → ((enqueue_job owner transaction action payload id now s).1 ≡ s)
      ⊎ ((find (is_active_for owner transaction) s.jobs ≡ none)
          × (find_job id s.jobs ≡ none)
          × ((enqueue_job owner transaction action payload id now s).1
              ≡ record s { jobs = s.jobs ++ new_job owner transaction action payload id now ∷ [] }))
unfolding enqueue_job
enqueue_job-cases owner transaction action payload id now s =
    elim (Option-cases (find (is_active_for owner transaction) s.jobs)) [
      | inl free ↦ elim (Option-cases (find_job id s.jobs)) [
        | inl fresh ↦ ground (arith, free, fresh)
        | inr (other, taken) ↦ ground (arith, free, taken)
      ]
      | inr (j, found) ↦
          elim (Bool-cases
            (not (same_action j.action action) || not (same_payload j.payload payload))) [
              | inl other ↦ ground (arith, found, other)
              | inr same ↦ ground (arith, found, same)
            ]
    ]

pub cancel_job-cases :
    (owner : Text) (id now : ℕ) (s : JobStore)
    → ((cancel_job owner id now s).1 ≡ s)
      ⊎ ((j : Job) × (find_job id s.jobs ≡ some j)
          × ((cancel_job owner id now s).1
              ≡ record s { jobs = put_job (failed_job now cancelled 409 j) s.jobs }))
unfolding cancel_job
cancel_job-cases owner id now s = elim (Option-cases (find_job id s.jobs)) [
  | inl missing ↦ ground (arith, missing)
  | inr (j, found) ↦ ground (arith, found)
]

taken_when :
    (st : JobState) (b : Bool)
    → is_active st ≡ true
    → (is_running st && b) ≡ false
    → (b ≡ false) ⊎ (st ≡ queued)
taken_when JobState.queued b active other = inr refl
taken_when JobState.running b active other = inl other
taken_when JobState.succeeded b active other = ground arith
taken_when JobState.failed b active other = ground arith

pub try_job-cases :
    (actions : List JobAction) (now id : ℕ) (s s' : JobStore)
    → try_job actions now id s ≡ some s'
    → (j : Job) × (find_job id s.jobs ≡ some j)
      × ((s' ≡ record s { jobs = put_job (failed_job now interrupted 409 j) s.jobs })
          ⊎ ((s' ≡ started now j s)
              × (is_active j.state ≡ true)
              × ((is_sensitive j.action ≡ false) ⊎ (j.state ≡ queued))))
unfolding try_job
try_job-cases actions now id s s' h = elim (Option-cases (find_job id s.jobs)) [
  | inl missing ↦ ground (arith, missing, h)
  | inr (j, found) ↦ (
    j,
    found,
    elim (Bool-cases (is_active j.state)) [
      | inr settled ↦ ground (arith, found, settled, h)
      | inl active ↦ elim (Bool-cases (is_running j.state && is_sensitive j.action)) [
        | inl stopped ↦ inl (ground (arith, found, active, stopped, h))
        | inr other ↦ inr (
          ground (arith, found, active, other, h),
          active,
          taken_when j.state (is_sensitive j.action) active other,
        )
      ]
    ],
  )
]
