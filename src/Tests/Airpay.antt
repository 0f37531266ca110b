-- ===== src/Tests/Airpay.antt =====
-- A top-up of Airpay: prepared, checked, paid with a lost answer, and reconciled.
use homtech_hub.Prelude.{
  real, ◌++◌, ℕ, ◌*◌, ◌^◌, ◌≤◌, ◌≡◌, refl, true, false, List, [], ◌∷◌, none, some, Json, string,
  integer, object, Fields, no_fields, field, pos, finite, codes, Text, total, text_eq,
  parse_decimal, truncated, strip, set_field, get_field, digits_of, value_of, keep, lower,
}
use homtech_hub.Airpay.Http.{Try, returns, raises, http}
use homtech_hub.Airpay.Money.{
  Balance, required_amount, max_amount, cents_of, available_funds, falls_short,
}
use homtech_hub.Airpay.Transaction.{Transaction, TransactionState, topup}
use homtech_hub.Airpay.Answer.{
  normalize_check, validate_response, quote_amount, all_dicts, rows_are_good, invoices_are_good,
}
use homtech_hub.Airpay.Purchase.{check_transaction, pause_after}
use homtech_hub.Airpay.Payment.{pay_body, pay_transaction, send_pay, reconcile, state_after_pay}
use homtech_hub.Airpay.Resolution.{
  refused_row, ResolutionPayload, confirm_failed, resolve_transaction, resolution_changes,
  check_decision, confirm_failure, find_decided,
}
use homtech_hub.Airpay.Journal.{
  Journal, Moment, JournalAction, start_check, start_pay, start_reconcile, proceed, journal_run,
  journal_step, proceed_run,
}
use homtech_hub.Airpay.Journal.Safe.{is_pay}
use homtech_hub.Airpay.Journal.Bounds.{unpaid_journal, pays_are_counted, pays_are_the_same}
use homtech_hub.Airpay.Journal.Final.{outcome_is_final}
use homtech_hub.Airpay.Resolution.Repeated.{repeated_resolution}
use homtech_hub.Airpay.Money.Exact.{accepted_amount_is_exact}
use homtech_hub.Tests.Samples.{crypto}

-- `str` of the values that the answers hold: an id is its digits in unary here, and "7" is 7.
abbrev show : Json → Text
show (integer (pos n)) = n ∷ []
show v = []

abbrev pub prepared_row : Transaction
prepared_row = record {
  agent_transaction_id = 55;
  purchase_kind = topup;
  request_payload = field (codes "amountTo") (string (codes "10")) no_fields;
  service_snapshot = no_fields;
  check_response = none;
  check_result = none;
  pay_request = none;
  pay_response = none;
  voucher_response = none;
  pin_code = [];
  pin_ciphertext = none;
  result_hash = [];
  state = TransactionState.prepared;
  amount = none;
  currency = [];
  provider_transaction_id = [];
  provider_message = [];
  check_attempts = 0;
  pay_attempts = 0;
  voucher_attempts = 0;
  next_attempt_at = none;
  expires_at = 900;
  requires_attention = false;
  attention_reason = [];
  replacement_key = none;
  resolution_request_id = none;
  updated_at = 0;
}

-- An answer that is a success, with a transaction id.
abbrev success : Json
success = object (
    field (codes "result") (integer (pos 0)) (
      field (codes "agentTransactionId") (integer (pos 55))
        (field (codes "transactionId") (integer (pos 900)) no_fields)))

abbrev pub rich : Balance
rich = record {
  configured = true;
  balance = finite (pos 5000) 2;
  overdraft = finite (pos 0) 0;
  currency = codes "KZT";
}

abbrev at : ℕ → Try Json → Moment
at now answer = record { now = now; answer = answer; balance = returns rich; clash = false }

abbrev answered : ℕ → JournalAction
answered now = proceed (at now (returns success))

abbrev lost : ℕ → JournalAction
lost now = proceed (at now (raises (http 504 (codes "timeout"))))

-- Check and price; pay, and lose the answer.
abbrev first_part : List JournalAction
first_part =
    start_check 10 true
    ∷ answered 10
    ∷ answered 11
    ∷ answered 12
    ∷ answered 13
    ∷ answered 13
    ∷ start_pay 20 false (string (codes "10"))
    ∷ answered 20
    ∷ answered 20
    ∷ answered 20
    ∷ lost 40
    ∷ lost 40
    ∷ lost 40
    ∷ []

-- The same payment again, answered this time.
abbrev second_part : List JournalAction
second_part = start_reconcile 100 ∷ answered 100 ∷ answered 101 ∷ answered 101 ∷ answered 101 ∷ []

abbrev after_first : Journal
after_first = journal_run crypto show [] true (unpaid_journal prepared_row) first_part

abbrev after_second : Journal
after_second = journal_run crypto show [] true after_first second_part

lost_payment_is_open :
    (after_first.row.state ≡ TransactionState.processing)
    × (total is_pay after_first.calls ≡ 1)
    × (after_first.row.pay_attempts ≡ 1)
unfolding journal_run journal_step proceed_run check_transaction pay_transaction send_pay reconcile
    normalize_check validate_response quote_amount all_dicts rows_are_good invoices_are_good
    required_amount cents_of available_funds falls_short codes text_eq get_field set_field
    parse_decimal digits_of value_of keep strip lower pay_body pause_after state_after_pay truncated
lost_payment_is_open = (refl, refl, refl)

pays_are_counted_example :
    (total is_pay after_second.calls ≤ after_second.row.pay_attempts)
    × (after_second.row.pay_attempts ≤ 5)
unfolding journal_run
pays_are_counted_example =
    pays_are_counted crypto show [] true prepared_row (first_part ++ second_part) refl

abbrev sent_body : Fields
sent_body = field (codes "amountTo") (real (finite (pos 1000) 2)) no_fields

pays_are_the_same_example : after_first.row.pay_request ≡ some sent_body
unfolding journal_run journal_step proceed_run check_transaction pay_transaction send_pay reconcile
    normalize_check validate_response quote_amount all_dicts rows_are_good invoices_are_good
    required_amount cents_of available_funds falls_short codes text_eq get_field set_field
    parse_decimal digits_of value_of keep strip lower pay_body pause_after state_after_pay truncated
pays_are_the_same_example =
    pays_are_the_same crypto show [] true prepared_row first_part 0 sent_body refl refl

outcome_is_final_example :
    (journal_run crypto show [] true after_second first_part).row.state ≡ after_second.row.state
unfolding journal_run journal_step proceed_run check_transaction pay_transaction send_pay reconcile
    normalize_check validate_response quote_amount all_dicts rows_are_good invoices_are_good
    required_amount cents_of available_funds falls_short codes text_eq get_field set_field
    parse_decimal digits_of value_of keep strip lower pay_body pause_after state_after_pay truncated
outcome_is_final_example =
    outcome_is_final crypto show [] true prepared_row (first_part ++ second_part) first_part refl
      refl

-- The owner finds that the lost payment was never made.
abbrev never_paid : ResolutionPayload
never_paid = record {
  request_id = codes "r-1";
  expected_updated_at = 40;
  evidence = codes "Statement of the day: nothing was charged";
  verified = true;
  decision = confirm_failed;
  code = [];
  provider_transaction_id = [];
}

abbrev open_row : Transaction
open_row = record prepared_row {
  state = TransactionState.processing;
  amount = some 1000;
  updated_at = 40;
  pay_attempts = 1;
}

repeated_resolution_example :
    resolve_transaction crypto [] false
      (codes "d")
      60
      never_paid
      (record (refused_row never_paid open_row) { updated_at = 50 })
      (record { request_id = codes "r-1"; request_hash = codes "d" } ∷ [])
    ≡ (
      returns (record (refused_row never_paid open_row) { updated_at = 50 }),
      record (refused_row never_paid open_row) { updated_at = 50 },
      record { request_id = codes "r-1"; request_hash = codes "d" } ∷ [],
    )
unfolding resolve_transaction resolution_changes check_decision confirm_failure find_decided strip
    text_eq codes
repeated_resolution_example =
    repeated_resolution crypto [] false false (codes "d") 50 60 never_paid open_row
      (record (refused_row never_paid open_row) { updated_at = 50 }) []
      (record { request_id = codes "r-1"; request_hash = codes "d" } ∷ [])
      (record (refused_row never_paid open_row) { updated_at = 50 }) refl

accepted_amount_is_exact_example :
    (c : ℕ) × (s : ℕ) × (parse_decimal (codes "12.50") ≡ some (finite (pos c) s))
    × (10 ^ s * 1250 ≡ c * 100)
    × (c * 100 ≤ max_amount * 10 ^ s)
    × (1 ≤ c)
unfolding required_amount cents_of parse_decimal digits_of value_of strip codes
accepted_amount_is_exact_example =
    accepted_amount_is_exact max_amount (some (string (codes "12.50"))) 1250 refl

abbrev pub paid_row : Transaction
paid_row = record prepared_row { state = TransactionState.paid; amount = some 1000 }
