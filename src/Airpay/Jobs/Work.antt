-- ===== src/Airpay/Jobs/Work.antt =====
-- api/airpay_runtime/airpay_jobs.py: AirpayJobs.execute, what a worker writes to its job, and the queue as a
-- whole.
use homtech_hub.Prelude.{
  ℕ, Text, Bool, true, false, List, [], ◌∷◌, none, some, ◌==◌, if◌then◌else◌, codes, any, truncated,
  Json,
}
use homtech_hub.Airpay.JobResult.{hide_codes}
use homtech_hub.Airpay.Http.{HttpError, http, detail_of}
use homtech_hub.Airpay.Jobs.{
  Job, JobAction, JobPayload, JobStore, cancel_job, enqueue_job, failed_job, find_job, interrupted,
  is_held, put_job, run_one, check_batch, renew_batch, pay_batch, voucher_batch, reconcile_payment,
  succeeded, no_payload, token, confirmed_amount,
}

-- The call that `AirpayJobs.execute` makes, or what it raises. A body without its key is a `KeyError`.
pub data JobWork : Type 0 where
  checks_batch : Text → Text → JobWork
  renews_batch : Text → ℕ → JobWork
  pays_batch : Text → ℕ → Text → JobWork
  fetches_vouchers : Text → ℕ → JobWork
  reconciles : Text → ℕ → JobWork
  refuses : HttpError → JobWork
  misses_key : JobWork

abbrev pub checked_work : Job → JobWork
checked_work j = elim j.payload [
  | token t ↦ checks_batch j.created_by t
  | no_payload ↦ misses_key
  | confirmed_amount a ↦ misses_key
]

abbrev pub payment_work : Job → JobWork
payment_work j = elim j.payload [
  | confirmed_amount a ↦ pays_batch j.created_by j.transaction_id a
  | no_payload ↦ misses_key
  | token t ↦ misses_key
]

-- `disabled` is what `require_enabled` raises.
unfoldable pub execute_job : Bool → Bool → HttpError → Job → JobWork
execute_job stopped enabled disabled j =
    if stopped then refuses (http 409 interrupted) else elim j.action [
      | check_batch ↦ checked_work j
      | renew_batch ↦ renews_batch j.created_by j.transaction_id
      | pay_batch ↦ if enabled then payment_work j else refuses disabled
      | voucher_batch ↦
          if enabled then fetches_vouchers j.created_by j.transaction_id else refuses disabled
      | reconcile_payment ↦
          if enabled then reconciles j.created_by j.transaction_id else refuses disabled
    ]

-- The actions that `AirpayJobs.run_one` takes.
abbrev pub worker_actions : Bool → List JobAction
worker_actions true = check_batch ∷ renew_batch ∷ pay_batch ∷ voucher_batch ∷ reconcile_payment ∷ []
worker_actions false = check_batch ∷ renew_batch ∷ []

-- What `execute` returns or raises.
pub data JobOutcome : Type 0 where
  job_result : Json → JobOutcome
  job_refused : HttpError → JobOutcome
  job_crashed : JobOutcome

abbrev pub status_of : HttpError → ℕ
status_of (http status detail) = status

unfoldable pub finished : ℕ → JobOutcome → Job → Job
unfolding hide_codes
finished now (job_result v) j = record j {
  state = succeeded;
  result = some (hide_codes v);
  updated_at = now;
}
finished now (job_refused e) j = failed_job now (truncated (detail_of e)) (status_of e) j
finished now job_crashed j =
    failed_job now (codes "Запрос прерван. Обновите сохранённый результат покупки.") 503 j

-- The lock of a job is released when its worker is done, or when its connection is lost.
unfoldable pub released : ℕ → List ℕ → List ℕ
released id [] = []
released id (h ∷ held) = let rest = released id held in if h == id then rest else h ∷ rest

-- What a worker that holds the lock of a job writes to it.
abbrev pub written : ℕ → (Job → Job) → JobStore → JobStore
written id f s =
    if is_held id s
    then elim (find_job id s.jobs) [ none ↦ s | some j ↦ record s { jobs = put_job (f j) s.jobs } ]
    else s

abbrev pub with_progress : ℕ → ℕ → Job → Job
with_progress now value j = record j { progress = value; updated_at = now }

pub data JobStep : Type 0 where
  submit : Text → ℕ → JobAction → JobPayload → ℕ → ℕ → JobStep
  cancel : Text → ℕ → ℕ → JobStep
  -- a worker with the actions that it takes and the candidates that it has read
  work : List JobAction → ℕ → List ℕ → JobStep
  report : ℕ → ℕ → ℕ → JobStep
  finish : ℕ → JobOutcome → ℕ → JobStep
  lose : ℕ → JobStep

unfoldable pub job_step : JobStore → JobStep → JobStore
unfolding enqueue_job cancel_job run_one finished released any
job_step s (submit owner transaction action payload id now) =
    (enqueue_job owner transaction action payload id now s).1
job_step s (cancel owner id now) = (cancel_job owner id now s).1
job_step s (work actions now ids) = run_one actions now ids s
job_step s (report id value now) = written id (with_progress now value) s
job_step s (finish id outcome now) =
    let s' = written id (finished now outcome) s in record s' { held = released id s'.held }
job_step s (lose id) = record s { held = released id s.held }

unfoldable pub job_run : JobStore → List JobStep → JobStore
unfolding job_step
job_run s [] = s
job_run s (a ∷ steps) = job_run (job_step s a) steps
