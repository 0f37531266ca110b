-- ===== src/Airpay/Transaction.antt =====
-- A row of `airpay_transactions` (migrations/airpay), and what airpay_contract.py says of it.
use homtech_hub.Prelude.{
  ℕ, ℤ, Text, Bool, true, false, not, ◌&&◌, ◌||◌, Option, Json, Fields, is_some, is_empty,
  if◌then◌else◌,
}

pub data TransactionState : Type 0 where
  prepared checking check_pending check_failed checked processing paid failed : TransactionState

pub data PurchaseKind : Type 0 where
  voucher topup : PurchaseKind

pub data Scheme : Type 0 where
  simple contracts invoice : Scheme

-- What is read again of `check_result`; what only the form shows is left out.
pub record CheckResult : Type 0 where
  pub success : Bool
  pub result : ℤ
  pub message : Text
  pub retryable : Bool
  pub transaction_id : Text
  pub amount_to : Text
  pub fixed_amount : Text
  pub scheme : Scheme
  pub purchase_ready : Bool
  pub purchase_block_reason : Text

pub record Transaction : Type 0 where
  pub agent_transaction_id : ℕ
  pub purchase_kind : PurchaseKind
  pub request_payload : Fields
  pub service_snapshot : Fields
  pub check_response : Option Json
  pub check_result : Option CheckResult
  pub pay_request : Option Fields
  pub pay_response : Option Json
  pub voucher_response : Option Json
  pub pin_code : Text
  pub pin_ciphertext : Option Text
  pub result_hash : Text
  pub state : TransactionState
  pub amount : Option ℕ
  pub currency : Text
  pub provider_transaction_id : Text
  pub provider_message : Text
  pub check_attempts : ℕ
  pub pay_attempts : ℕ
  pub voucher_attempts : ℕ
  pub next_attempt_at : Option ℕ
  pub expires_at : ℕ
  pub requires_attention : Bool
  pub attention_reason : Text
  pub replacement_key : Option ℕ
  pub resolution_request_id : Option Text
  pub updated_at : ℕ

abbrev pub is_processing : TransactionState → Bool
is_processing processing = true
is_processing _ = false

abbrev pub is_paid : TransactionState → Bool
is_paid paid = true
is_paid _ = false

abbrev pub is_failed : TransactionState → Bool
is_failed failed = true
is_failed _ = false

abbrev pub is_checked_state : TransactionState → Bool
is_checked_state checked = true
is_checked_state _ = false

abbrev pub is_voucher_kind : PurchaseKind → Bool
is_voucher_kind voucher = true
is_voucher_kind topup = false

-- `bool(row['pin_code'])` of a stored row: the code, or the mark of the encrypted one.
abbrev pub has_code : Transaction → Bool
has_code r = is_some r.pin_ciphertext || not (is_empty r.pin_code)

pub data PaymentState : Type 0 where
  not_started payment_processing payment_paid payment_failed : PaymentState

pub data ResultState : Type 0 where
  ready pending unavailable not_required : ResultState

-- The part of the contract between the CRM and the executor that depends on the row.
pub record TransactionOutcome : Type 0 where
  pub payment_state : PaymentState
  pub result_state : ResultState
  pub result_available : Bool
  pub completed : Bool
  pub blocks_fallback : Bool
  pub requires_attention : Bool
  pub attention_reason : Text
  pub resolution_available : Bool

abbrev pub payment_state_of : TransactionState → PaymentState
payment_state_of processing = payment_processing
payment_state_of paid = payment_paid
payment_state_of failed = payment_failed
payment_state_of _ = not_started

abbrev pub code_available : Transaction → Bool
code_available r = is_paid r.state && is_voucher_kind r.purchase_kind && has_code r

abbrev pub result_state_of : Transaction → ResultState
result_state_of r =
    if is_voucher_kind r.purchase_kind
    then (if code_available r then ready else if is_paid r.state then pending else unavailable)
    else not_required

unfoldable pub transaction_outcome : Transaction → TransactionOutcome
transaction_outcome r = record {
  payment_state = payment_state_of r.state;
  result_state = result_state_of r;
  result_available = code_available r;
  completed = is_paid r.state && (code_available r || not (is_voucher_kind r.purchase_kind));
  blocks_fallback = not (is_failed r.state);
  requires_attention = r.requires_attention;
  attention_reason = r.attention_reason;
  resolution_available =
      is_processing r.state
      || (is_paid r.state && is_voucher_kind r.purchase_kind && not (code_available r));
}
