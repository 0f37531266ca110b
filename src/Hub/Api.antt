-- ===== src/Hub/Api.antt =====
-- api/hub/app.py: answers over HTTP, the keys of consumers and operators, request ids, and what is shown of
-- a purchase. FastAPI, and pydantic's check of a body, are outside; a route gets a body that has passed.
pub mod Purchases
pub mod Operators
pub mod Suppliers
pub mod Private
pub mod Requests
pub mod Audited
pub mod Steps
use homtech_hub.Prelude.{
  ℕ, ℤ, Text, Bool, true, false, not, ◌&&◌, ◌||◌, List, [], ◌∷◌, Option, none, some, Json, Decimal,
  if◌then◌else◌, is_empty, is_some, ltb, any, strip, text_eq, codes, get_field, present,
}
use homtech_hub.Hub.Domain.{
  Purchase, PurchaseState, Kind, valid_request_id, result_available, blocks_fallback,
}
use homtech_hub.Hub.Errors.{Error}
use homtech_hub.Hub.Settings.{ReadinessError}
use homtech_hub.Hub.Repository.Table.{uuid_text}

-- The `detail` of an `HTTPException`; `of_error` is `str(exc)`.
pub data Detail : Type 0 where
  message : Text → Detail
  of_error : Error → Detail
  not_ready : List ReadinessError → Option Text → Detail

-- A response, an `HTTPException`, or another exception, which FastAPI answers by 500.
pub data Reply {ℓ} (A : Type ℓ) : Type ℓ where
  replies : A → Reply A
  refuses : ℕ → Detail → Reply A
  crashes : Reply A

infixl 5 ◌>>=◌
abbrev pub ◌>>=◌ {ℓ κ} : {A : Type ℓ} {B : Type κ} → Reply A → (A → Reply B) → Reply B
replies a >>= f = f a
refuses status detail >>= f = refuses status detail
crashes >>= f = crashes

abbrev pub refuse {ℓ} : {A : Type ℓ} → ℕ → Text → Reply A
refuse status text = refuses status (message text)

abbrev pub not_found : Text
not_found = codes "Purchase not found"

abbrev pub found {ℓ} : {A : Type ℓ} → Option A → Reply A
found none = refuse 404 not_found
found (some a) = replies a

-- The two headers of a consumer, or of an operator.
pub record Headers : Type 0 where
  pub name : Text
  pub key : Text

-- `clients.get(name, "")`
unfoldable pub secret_of : Text → List (Text × Text) → Text
secret_of name [] = []
secret_of name ((k, v) ∷ entries) = if text_eq k name then v else secret_of name entries

-- `compare_digest` raises `TypeError` on a text that is not ASCII.
abbrev pub is_ascii : Text → Bool
is_ascii t = not (any (λ c. ltb 127 c) t)

-- The test of a key against the secret of its name.
unfoldable pub check_key : Text → Text → Text → Text → Reply Text
unfolding any text_eq
check_key refusal expected key name =
    if is_empty expected
    then refuse 401 refusal
    else if not (is_ascii expected) || not (is_ascii key)
    then crashes
    else if text_eq expected key
    then replies name
    else refuse 401 refusal

-- `authenticated_client` and `authenticated_operator`
unfoldable pub authenticate : Text → List (Text × Text) → Headers → Reply Text
unfolding secret_of strip check_key
authenticate refusal entries h =
    check_key refusal (secret_of (strip h.name) entries) (strip h.key) (strip h.name)

abbrev pub bad_client : Text
bad_client = codes "Invalid Supplier Hub credentials"

abbrev pub bad_operator : Text
bad_operator = codes "Invalid Supplier Hub operator credentials"

-- The value of X-Request-ID; a `ValueError` is answered by 422. `fresh` is the `uuid4()` that is drawn for
-- no value.
unfoldable pub normalize_request_id : ℕ → Text → Reply Text
unfolding strip uuid_text text_eq valid_request_id
normalize_request_id fresh value =
    if is_empty (strip value)
    then replies (uuid_text fresh)
    else if not (text_eq (strip value) value)
    then refuse 422 (codes "X-Request-ID must not contain surrounding whitespace")
    else if not (valid_request_id (strip value))
    then refuse 422 (codes "X-Request-ID must contain 1 to 128 safe characters")
    else replies (strip value)

unfoldable pub required_request_id : ℕ → Text → Reply Text
unfolding normalize_request_id
required_request_id fresh value =
    if is_empty value
    then refuse 422 (codes "X-Request-ID is required for operator decisions")
    else normalize_request_id fresh value

-- The amounts are shown by `str`.
pub record PurchaseOut : Type 0 where
  pub id : ℕ
  pub idempotency_key : Text
  pub request_id : Text
  pub provider_code : Text
  pub service_id : ℤ
  pub max_amount : Option Decimal
  pub state : PurchaseState
  pub amount : Option Decimal
  pub provider_status : Option ℤ
  pub provider_message : Text
  pub result_available : Bool
  pub blocks_fallback : Bool
  pub status_check_attempts : ℕ
  pub kind : Kind
  pub requested_amount : Option Decimal
  pub payment_started : Bool

unfoldable pub purchase_out : Purchase → PurchaseOut
purchase_out p = record {
  id = p.id;
  idempotency_key = p.idempotency_key;
  request_id = p.request_id;
  provider_code = p.provider_code;
  service_id = p.service_id;
  max_amount = p.max_amount;
  state = p.state;
  amount = p.amount;
  provider_status = p.provider_status;
  provider_message = p.provider_message;
  result_available = result_available p;
  blocks_fallback = blocks_fallback p;
  status_check_attempts = p.status_check_attempts;
  kind = p.kind;
  requested_amount = p.requested_amount;
  payment_started = is_some p.pay_started_at;
}

pub record OperatorPurchaseOut : Type 0 where
  pub id : ℕ
  pub consumer_id : Text
  pub idempotency_key : Text
  pub request_id : Text
  pub provider_code : Text
  pub service_id : ℤ
  pub nominal_id : Text
  pub max_amount : Option Decimal
  pub provider_operation_id : Text
  pub state : PurchaseState
  pub amount : Option Decimal
  pub provider_status : Option ℤ
  pub provider_message : Text
  pub provider_transaction_id : Text
  pub result_available : Bool
  pub status_check_attempts : ℕ
  pub created_at : ℕ
  pub updated_at : ℕ
  pub pay_started_at : Option ℕ
  pub completed_at : Option ℕ
  pub last_error : Text

-- `str(params.get("nominal") or params.get("nominal_id") or "")`, where `show` is `str`
unfoldable pub nominal_id : (Json → Text) → Purchase → Text
unfolding get_field codes text_eq
nominal_id show p = elim (present (get_field (codes "nominal") p.params)) [
  | some v ↦ show v
  | none ↦ elim (present (get_field (codes "nominal_id") p.params)) [ some v ↦ show v | none ↦ [] ]
]

unfoldable pub operator_purchase_out : (Json → Text) → Purchase → OperatorPurchaseOut
unfolding nominal_id
operator_purchase_out show p = record {
  id = p.id;
  consumer_id = p.consumer_id;
  idempotency_key = p.idempotency_key;
  request_id = p.request_id;
  provider_code = p.provider_code;
  service_id = p.service_id;
  nominal_id = nominal_id show p;
  max_amount = p.max_amount;
  provider_operation_id = p.provider_operation_id;
  state = p.state;
  amount = p.amount;
  provider_status = p.provider_status;
  provider_message = p.provider_message;
  provider_transaction_id = p.provider_transaction_id;
  result_available = result_available p;
  status_check_attempts = p.status_check_attempts;
  created_at = p.created_at;
  updated_at = p.updated_at;
  pay_started_at = p.pay_started_at;
  completed_at = p.completed_at;
  last_error = p.last_error;
}
