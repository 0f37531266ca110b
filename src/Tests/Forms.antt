-- ===== src/Tests/Forms.antt =====
-- A catalogue, a form, its renewal, the queue, and the check of a batch.
use homtech_hub.Prelude.{
  ℕ, ◌≡◌, refl, ap, some-injective, is_empty, List, [], ◌∷◌, none, some, Text, Bool, true, false,
  Json, string, integer, array, object, item, no_items, field, no_fields, Option, codes, pos, map,
  All, arith, no_repeats, lookup, put, strip, text_eq, get_field, set_field, keep, sort_by, total,
}
use homtech_hub.Airpay.Http.{Try, returns, raises, http}
use homtech_hub.Airpay.Transaction.{Transaction, CheckResult, TransactionState}
use homtech_hub.Airpay.Catalogue.{
  InputField, normalize_services, normalize_service, get_service, AirpayItem,
}
use homtech_hub.Airpay.Catalogue.Unique.{catalogue_is_keyed}
use homtech_hub.Airpay.Catalogue.Keys.{id_of, IsNamed}
use homtech_hub.Airpay.Preparation.{
  ServiceForm, FieldCheck, build_check_payload, renewed_fields, is_top, field_values, field_value,
  unclear_fields,
}
use homtech_hub.Airpay.Preparation.Slots.{slots_differ}
use homtech_hub.Airpay.Preparation.Renewal.{renewed_request}
use homtech_hub.Airpay.Jobs.{Job, queued}
use homtech_hub.Airpay.Jobs.Work.{worker_actions}
use homtech_hub.Airpay.Jobs.Queue.{candidates, is_candidate, is_sooner}
use homtech_hub.Airpay.Jobs.Order.{ids_differ}
use homtech_hub.Airpay.Jobs.Paging.{candidates_pass_the_queue}
use homtech_hub.Airpay.Batch.{amount_or_0}
use homtech_hub.Airpay.Batch.Check.{batch_check, BatchSummary, summary_of}
use homtech_hub.Airpay.Batch.Check.Ready.{IsPassed, ready_batch_is_covered}
use homtech_hub.Airpay.Batch.Check.Reasons.{IsReadyRow, IsFunded}
use homtech_hub.Tests.Airpay.{rich}
use homtech_hub.Tests.Jobs.{lost_job}
use homtech_hub.Tests.History.{good_check, first_row, checked_row}

-- `str` of an int, in unary.
abbrev show : Json → Text
show (integer (pos n)) = n ∷ []
show v = []

abbrev service_entry : Text → Text → Json
service_entry id name = object (
    field (codes "serviceId") (string id)
      (field (codes "name") (string name) (field (codes "type") (integer (pos 1)) no_fields)))

abbrev answer : Json
answer = object (
    field (codes "result") (integer (pos 0)) (
      field (codes "services")
        (array (
          item (service_entry (codes "7") (codes "Phone"))
            (item (service_entry (codes "8") (codes "Game")) no_items)))
        no_fields))

abbrev listed : Text → Text → AirpayItem
listed id title = record {
  service_id = id;
  title = title;
  type = pos 1;
  group = [];
  country = [];
  fixed_payment = none;
  inputs = [];
  displays = [];
}

abbrev listing : List AirpayItem
listing = listed (codes "7") (codes "Phone") ∷ listed (codes "8") (codes "Game") ∷ []

catalogue_is_keyed_example :
    (no_repeats (map id_of listing) ≡ true)
    × All IsNamed listing
    × All (λ (s : AirpayItem). get_service show s.service_id answer ≡ returns s) listing
unfolding normalize_services codes text_eq normalize_service
catalogue_is_keyed_example = catalogue_is_keyed show answer listing refl

abbrev input : Text → InputField
input name = record { name = name; title = []; required = false; regexp = [] }

abbrev phone : ServiceForm
phone = record {
  service_id = codes "7";
  inputs = input (codes "account") ∷ input (codes "ev_code") ∷ [];
}

abbrev filled : List (Text × Text)
filled = (codes "account", codes " 77 ") ∷ (codes "ev_code", codes "x") ∷ []

abbrev no_checks : List FieldCheck → Option (List Text)
no_checks checks = some []

renewed_request_example :
    (renewed : List (Text × Text)) × (renewed_fields show phone.inputs (
        field (codes "serviceId") (string (codes "7")) (
          field (codes "account") (string (codes "77")) (
            field
              (codes "extras")
              (object (field (codes "code") (string (codes "x")) no_fields))
              no_fields)))
      ≡ some renewed)
    × (build_check_payload no_checks phone renewed none none
        ≡ build_check_payload no_checks phone filled none none)
unfolding build_check_payload codes text_eq slots_differ is_top lookup strip get_field set_field
renewed_request_example =
    renewed_request no_checks show phone filled none none
      (field (codes "serviceId") (string (codes "7")) (
        field (codes "account") (string (codes "77")) (
          field (codes "extras") (object (field (codes "code") (string (codes "x")) no_fields))
            no_fields)))
      refl refl

-- Two inputs with one place: a form that fills one of them is prepared, but not again after a renewal.
abbrev twofold : ServiceForm
twofold = record {
  service_id = codes "7";
  inputs = input (codes "code") ∷ input (codes "ev_code") ∷ [];
}

abbrev half_filled : List (Text × Text)
half_filled = (codes "account", codes "77") ∷ (codes "code", codes "x") ∷ []

twofold_renewal :
    (build_check_payload no_checks twofold half_filled none none
      ≡ returns (
          field (codes "serviceId") (string (codes "7")) (
            field (codes "account") (string (codes "77")) (
              field
                (codes "extras")
                (object (field (codes "code") (string (codes "x")) no_fields))
                no_fields))))
    × (renewed_fields show twofold.inputs (
          field (codes "serviceId") (string (codes "7")) (
            field (codes "account") (string (codes "77")) (
              field
                (codes "extras")
                (object (field (codes "code") (string (codes "x")) no_fields))
                no_fields)))
        ≡ some (
            (codes "code", codes "x")
            ∷ (codes "ev_code", codes "x")
            ∷ (codes "account", codes "77")
            ∷ []))
    × (build_check_payload no_checks twofold
          ((codes "code", codes "x")
            ∷ (codes "ev_code", codes "x")
            ∷ (codes "account", codes "77")
            ∷ [])
          none
          none
        ≡ raises (http 502 unclear_fields))
unfolding build_check_payload codes text_eq lookup strip is_top get_field set_field renewed_fields
    field_values field_value put
twofold_renewal = (refl, refl, refl)

abbrev waiting_job : Job
waiting_job = record lost_job { id = 2; state = queued; created_at = 50 }

abbrev queue : List Job
queue = lost_job ∷ waiting_job ∷ []

candidates_pass_the_queue_example :
    candidates 1 (worker_actions true) none none queue
    ≡ some (sort_by is_sooner (keep (is_candidate (worker_actions true) none) queue))
unfolding ids_differ
candidates_pass_the_queue_example =
    candidates_pass_the_queue (worker_actions true) none queue refl 1 (omega arith)

abbrev passes : Transaction → Try (Option CheckResult)
passes r = returns (some good_check)

abbrev going : ℕ → Bool
going n = false

abbrev unpaid_row : Transaction
unpaid_row = record first_row { state = TransactionState.checked }

gives_reason :
    (x : CheckResult)
    → some good_check ≡ some x
    → x.purchase_ready ≡ false
    → is_empty x.purchase_block_reason ≡ false
gives_reason x same blocked =
    absurd (
      ground (arith, ap (λ (c : CheckResult). c.purchase_ready) (some-injective _ _ same), blocked))

abbrev summary : BatchSummary
summary = summary_of true unpaid_row (checked_row ∷ []) good_check []

ready_batch_is_covered_example :
    All (IsPassed passes) (unpaid_row ∷ checked_row ∷ [])
    × All (IsReadyRow unpaid_row.currency) (unpaid_row ∷ checked_row ∷ [])
    × (summary.purchase_amount ≡ total amount_or_0 (unpaid_row ∷ checked_row ∷ []))
    × IsFunded (returns rich) unpaid_row.currency summary.purchase_amount
unfolding batch_check codes
ready_batch_is_covered_example =
    ready_batch_is_covered passes going 30 true (returns rich) (unpaid_row ∷ checked_row ∷ [])
      unpaid_row (checked_row ∷ []) summary (gives_reason, (gives_reason, tt)) refl refl
