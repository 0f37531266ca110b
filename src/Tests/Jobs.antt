-- ===== src/Tests/Jobs.antt =====
-- Runs of the job queue of Airpay, and of the settings.
use homtech_hub.Prelude.{
  ◌≤◌, ◌≡◌, refl, ◌⊎◌, true, false, Text, List, [], ◌∷◌, Option, none, some, total, Json, string,
  object, no_fields, field, codes, text_eq, any, find, strip, lower,
}
use homtech_hub.Airpay.JobResult.{hide_codes, hide_codes-IsCodeless, IsCodeless}
use homtech_hub.Airpay.Jobs.{
  Job, running, pay_batch, confirmed_amount, enqueue_job, run_one, try_job, is_queued,
}
use homtech_hub.Airpay.Jobs.Work.{
  JobStep, submit, work, report, lose, worker_actions, job_run, job_step, released,
}
use homtech_hub.Airpay.Jobs.Active.{active_share, one_active_job}
use homtech_hub.Airpay.Jobs.Once.{no_jobs, sensitive_runs_once}
use homtech_hub.Airpay.Jobs.Chances.{is_run}
use homtech_hub.Hub.Settings.{live_pay_allowed}
use homtech_hub.Hub.Settings.Load.{
  load_settings, env_bool, is_yes, settings_are_bounded, live_pay_is_switched_on,
}

-- A payment is queued twice, taken, reported, and its worker dies; two more workers come.
abbrev queue_steps : List JobStep
queue_steps =
    submit (codes "owner") 55 pay_batch (confirmed_amount (codes "10.00")) 1 100
    ∷ submit (codes "owner") 55 pay_batch (confirmed_amount (codes "10.00")) 2 101
    ∷ work (worker_actions true) 102 (2 ∷ 1 ∷ [])
    ∷ work (worker_actions true) 103 (1 ∷ [])
    ∷ report 1 1 104
    ∷ lose 1
    ∷ []

abbrev pub lost_job : Job
lost_job = record {
  id = 1;
  created_by = codes "owner";
  transaction_id = 55;
  action = pay_batch;
  payload = confirmed_amount (codes "10.00");
  state = running;
  progress = 1;
  result = none;
  error = [];
  error_status = none;
  created_at = 100;
  updated_at = 104;
}

sensitive_runs_once_example :
    (total (is_run 1) (job_run no_jobs queue_steps).executed ≤ 1)
    × ((total (is_run 1) (job_run no_jobs queue_steps).executed ≡ 0) ⊎ (is_queued running ≡ false))
unfolding job_run job_step enqueue_job run_one try_job released find any text_eq codes
sensitive_runs_once_example = sensitive_runs_once queue_steps 1 lost_job refl refl

one_active_job_example :
    total (active_share (codes "owner") 55) (job_run no_jobs queue_steps).jobs ≤ 1
one_active_job_example = one_active_job queue_steps (codes "owner") 55

abbrev paid_result : Json
paid_result = object (
    field (codes "state") (string (codes "paid"))
      (field (codes "pin_code") (string (codes "1234")) no_fields))

hide_codes-IsCodeless_example :
    IsCodeless (hide_codes paid_result)
    × (hide_codes (hide_codes paid_result) ≡ hide_codes paid_result)
hide_codes-IsCodeless_example = hide_codes-IsCodeless paid_result

abbrev yes_environment : Text → Option Text
yes_environment name = some (codes " On ")

abbrev no_json : Text → Option Json
no_json text = none

abbrev empty_text : Json → Text
empty_text v = []

settings_are_bounded_example :
    ((1 ≤ (load_settings yes_environment no_json empty_text).worker_poll_sec)
      × ((load_settings yes_environment no_json empty_text).worker_poll_sec ≤ 300))
    × ((15 ≤ (load_settings yes_environment no_json empty_text).lease_sec)
        × ((load_settings yes_environment no_json empty_text).lease_sec ≤ 900))
    × ((1 ≤ (load_settings yes_environment no_json empty_text).max_status_checks)
        × ((load_settings yes_environment no_json empty_text).max_status_checks ≤ 10000))
    × ((5 ≤ (load_settings yes_environment no_json empty_text).interhub_timeout_sec)
        × ((load_settings yes_environment no_json empty_text).interhub_timeout_sec ≤ 120))
settings_are_bounded_example = settings_are_bounded yes_environment no_json empty_text

live_pay_is_switched_on_example :
    (value : Text) × (some (codes " On ") ≡ some value)
    × (is_yes value ≡ true)
    × (other : Text) × (some (codes " On ") ≡ some other)
    × (is_yes other ≡ true)
unfolding load_settings live_pay_allowed env_bool is_yes strip lower any text_eq codes
live_pay_is_switched_on_example = live_pay_is_switched_on yes_environment no_json empty_text refl
