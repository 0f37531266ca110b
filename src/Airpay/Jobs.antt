-- ===== src/Airpay/Jobs.antt =====
-- api/airpay_runtime/airpay_jobs.py: the queue of actions on transactions, and how a worker takes from it.
pub mod Work
pub mod Moves
pub mod Chances
pub mod Once
pub mod Active
pub mod Queue
pub mod Order
pub mod Paging
use homtech_hub.Prelude.{
  ℕ, ◌+◌, Text, Bool, true, false, not, ◌&&◌, ◌||◌, List, [], ◌∷◌, ◌++◌, Option, none, some, ◌==◌,
  if◌then◌else◌, text_eq, codes, any, find, is_empty, truncated, Json,
}
use homtech_hub.Airpay.JobResult.{hide_codes}
use homtech_hub.Airpay.Http.{HttpError, http, detail_of, Try, returns, raises}

pub data JobAction : Type 0 where
  check_batch renew_batch pay_batch voucher_batch reconcile_payment : JobAction

pub data JobState : Type 0 where
  queued running succeeded failed : JobState

-- The bodies that api/airpay_runtime/airpay_api.py puts into the queue.
pub data JobPayload : Type 0 where
  no_payload : JobPayload
  token : Text → JobPayload
  confirmed_amount : Text → JobPayload

pub record Job : Type 0 where
  pub id : ℕ
  pub created_by : Text
  pub transaction_id : ℕ
  pub action : JobAction
  pub payload : JobPayload
  pub state : JobState
  pub progress : ℕ
  pub result : Option Json
  pub error : Text
  pub error_status : Option ℕ
  pub created_at : ℕ
  pub updated_at : ℕ

-- The table, the jobs whose advisory lock is held, and the jobs that were handed to `execute`, the last
-- first.
pub record JobStore : Type 0 where
  pub jobs : List Job
  pub held : List ℕ
  pub executed : List ℕ

-- SENSITIVE_ACTIONS
abbrev pub is_sensitive : JobAction → Bool
is_sensitive pay_batch = true
is_sensitive voucher_batch = true
is_sensitive reconcile_payment = true
is_sensitive _ = false

abbrev pub action_index : JobAction → ℕ
action_index check_batch = 0
action_index renew_batch = 1
action_index pay_batch = 2
action_index voucher_batch = 3
action_index reconcile_payment = 4

abbrev pub same_action : JobAction → JobAction → Bool
same_action a b = action_index a == action_index b

abbrev pub same_payload : JobPayload → JobPayload → Bool
same_payload no_payload no_payload = true
same_payload (token s) (token t) = text_eq s t
same_payload (confirmed_amount s) (confirmed_amount t) = text_eq s t
same_payload _ _ = false

abbrev pub is_queued : JobState → Bool
is_queued queued = true
is_queued _ = false

abbrev pub is_running : JobState → Bool
is_running running = true
is_running _ = false

abbrev pub is_failed : JobState → Bool
is_failed failed = true
is_failed _ = false

abbrev pub is_active : JobState → Bool
is_active s = is_queued s || is_running s

-- A select and an update by the primary key.
abbrev pub find_job : ℕ → List Job → Option Job
find_job id [] = none
find_job id (j ∷ jobs) = if j.id == id then some j else find_job id jobs

abbrev pub put_job : Job → List Job → List Job
put_job j' [] = []
put_job j' (j ∷ jobs) = if j.id == j'.id then j' ∷ jobs else j ∷ put_job j' jobs

-- An active job of this owner and this transaction: the key of the partial unique index.
abbrev pub is_active_for : Text → ℕ → Job → Bool
is_active_for owner transaction j =
    text_eq j.created_by owner && j.transaction_id == transaction && is_active j.state

pub data JobAnswer : Type 0 where
  shown : Job → JobAnswer
  refused : HttpError → JobAnswer
  -- an exception of the database that nothing catches
  broken : JobAnswer

abbrev pub new_job : Text → ℕ → JobAction → JobPayload → ℕ → ℕ → Job
new_job owner transaction action payload id now = record {
  id = id;
  created_by = owner;
  transaction_id = transaction;
  action = action;
  payload = payload;
  state = queued;
  progress = 0;
  result = none;
  error = [];
  error_status = none;
  created_at = now;
  updated_at = now;
}

-- `AirpayJobStore.enqueue`
unfoldable pub enqueue_job :
    Text → ℕ → JobAction → JobPayload → ℕ → ℕ → JobStore → JobAnswer × JobStore
unfolding find
enqueue_job owner transaction action payload id now s =
    elim (find (is_active_for owner transaction) s.jobs) [
      | some j ↦
          if not (same_action j.action action) || not (same_payload j.payload payload)
          then (
            refused (
                http 409
                  (codes "Другое действие этой покупки уже выполняется. Обновите результат.")),
            s,
          )
          else (shown j, s)
      | none ↦ elim (find_job id s.jobs) [
        | some other ↦ (broken, s)
        | none ↦
            let j = new_job owner transaction action payload id now in
            (shown j, record s { jobs = s.jobs ++ j ∷ [] })
      ]
    ]

abbrev pub job_missing : HttpError
job_missing = http 404 (codes "Задание Airpay не найдено")

abbrev pub cancelled : Text
cancelled = codes "Запуск задания отменён владельцем. Сохранённые оплаты и результаты не изменены."

-- INTERRUPTED
abbrev pub interrupted : Text
interrupted =
    codes
      "Исполнитель остановился во время действия. Сначала обновите сохранённую покупку; продолжение доступно только вручную. Ошибка задания не означает отказ оплаты."

abbrev pub failed_job : ℕ → Text → ℕ → Job → Job
failed_job now message status j = record j {
  state = failed;
  error = message;
  error_status = some status;
  updated_at = now;
}

abbrev pub is_held : ℕ → JobStore → Bool
is_held id s = any (λ h. h == id) s.held

-- `AirpayJobStore.cancel`, up to the lock and under it.
unfoldable pub cancel_job : Text → ℕ → ℕ → JobStore → JobAnswer × JobStore
unfolding any
cancel_job owner id now s = elim (find_job id s.jobs) [
  | none ↦ (refused job_missing, s)
  | some j ↦
      if not (text_eq j.created_by owner)
      then (refused job_missing, s)
      else if is_held id s
      then (refused (http 409 (codes "Задание уже выполняется. Обновите сохранённую покупку.")), s)
      else if is_failed j.state && text_eq j.error cancelled
      then (shown j, s)
      else if not (is_queued j.state)
      then (refused (http 409 (codes "Можно отменить только ещё не начатое задание")), s)
      else (
        shown (failed_job now cancelled 409 j),
        record s { jobs = put_job (failed_job now cancelled 409 j) s.jobs },
      )
]

abbrev pub started : ℕ → Job → JobStore → JobStore
started now j s = record s {
  jobs = put_job (record j { state = running; updated_at = now }) s.jobs;
  held = j.id ∷ s.held;
  executed = j.id ∷ s.executed;
}

-- One candidate of `AirpayJobStore.run_one`, up to the call of `execute`: `none` goes on to the next one.
unfoldable pub try_job : List JobAction → ℕ → ℕ → JobStore → Option JobStore
unfolding any
try_job actions now id s = if is_held id s then none else elim (find_job id s.jobs) [
  | none ↦ none
  | some j ↦
      if not (is_active j.state)
      then none
      else if is_running j.state && is_sensitive j.action
      then some (record s { jobs = put_job (failed_job now interrupted 409 j) s.jobs })
      else if not (any (same_action j.action) actions)
      then none
      else some (started now j s)
]

-- `run_one`, over the candidates that it has read.
unfoldable pub run_one : List JobAction → ℕ → List ℕ → JobStore → JobStore
unfolding try_job
run_one actions now [] s = s
run_one actions now (id ∷ ids) s =
    let rest = run_one actions now ids s in
    elim (try_job actions now id s) [ none ↦ rest | some s' ↦ s' ]
