-- ===== src/Hub/Domain.antt =====
-- api/hub/domain.py: the purchase contracts and the state rules.
use homtech_hub.Prelude.{
  ℕ, ℤ, Text, Bool, true, false, ◌&&◌, ◌||◌, [], ◌∷◌, Option, Decimal, Fields, is_some, leb, ◌==◌,
  length,
}

-- [A-Za-z0-9]
unfoldable pub is_alnum : ℕ → Bool
is_alnum c = (leb b'A' c && leb c b'Z') || (leb b'a' c && leb c b'z') || (leb b'0' c && leb c b'9')

-- [A-Za-z0-9._:/-]
unfoldable pub is_request_char : ℕ → Bool
unfolding is_alnum
is_request_char c = is_alnum c || c == b'.' || c == b'_' || c == b':' || c == b'/' || c == b'-'

unfoldable pub all_request_chars : Text → Bool
all_request_chars [] = true
all_request_chars (c ∷ s) = is_request_char c && all_request_chars s

-- ^[A-Za-z0-9][A-Za-z0-9._:/-]{0,127}$ by fullmatch
unfoldable pub valid_request_id : Text → Bool
unfolding is_alnum is_request_char all_request_chars
valid_request_id [] = false
valid_request_id (c ∷ s) = is_alnum c && all_request_chars s && leb (length s) 127

pub data PurchaseState : Type 0 where
  created checked payment_started processing succeeded failed requires_attention : PurchaseState

pub PurchaseState-discrete : Discrete PurchaseState
PurchaseState-discrete = hlevel

-- `state in BLOCKS_FALLBACK`
abbrev pub blocks : PurchaseState → Bool
blocks created = false
blocks checked = false
blocks payment_started = true
blocks processing = true
blocks succeeded = true
blocks failed = false
blocks requires_attention = true

pub data Kind : Type 0 where
  voucher steam_topup : Kind
  -- any other text
  other_kind : Text → Kind

abbrev pub is_voucher : Kind → Bool
is_voucher voucher = true
is_voucher _ = false

abbrev pub is_topup : Kind → Bool
is_topup steam_topup = true
is_topup _ = false

pub record PurchaseRequest : Type 0 where
  pub consumer_id : Text
  pub idempotency_key : Text
  pub request_id : Text
  pub provider_code : Text
  pub service_id : ℤ
  pub max_amount : Option Decimal
  pub account : Text
  pub params : Fields
  pub kind : Kind
  pub requested_amount : Option Decimal
  pub workspace_id : Option ℤ
  pub connection_id : Option ℤ

-- A UUID is its 128-bit number, and a time is a number of seconds.
pub record Purchase : Type 0 where
  pub id : ℕ
  pub consumer_id : Text
  pub idempotency_key : Text
  pub request_id : Text
  pub provider_code : Text
  pub service_id : ℤ
  pub max_amount : Option Decimal
  pub account : Text
  pub params : Fields
  pub request_fingerprint : Text
  pub provider_operation_id : Text
  pub state : PurchaseState
  pub amount : Option Decimal
  pub provider_status : Option ℤ
  pub provider_message : Text
  pub provider_transaction_id : Text
  pub result_ciphertext : Option Text
  pub result_hash : Text
  pub status_check_attempts : ℕ
  pub created_at : ℕ
  pub updated_at : ℕ
  pub preflight_attempts : ℕ
  pub pay_started_at : Option ℕ
  pub completed_at : Option ℕ
  pub last_error : Text
  pub kind : Kind
  pub requested_amount : Option Decimal
  pub workspace_id : Option ℤ
  pub connection_id : Option ℤ

abbrev pub is_succeeded : PurchaseState → Bool
is_succeeded succeeded = true
is_succeeded _ = false

unfoldable pub result_available : Purchase → Bool
result_available p = is_succeeded p.state && is_some p.result_ciphertext

unfoldable pub blocks_fallback : Purchase → Bool
blocks_fallback p = blocks p.state
