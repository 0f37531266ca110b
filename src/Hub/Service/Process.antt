-- ===== src/Hub/Service/Process.antt =====
-- api/hub/service.py: `PurchaseService.process_claimed`, method by method, as programs.
use homtech_hub.Prelude.{
  ℕ, pos, Text, Bool, true, false, not, ◌&&◌, ◌||◌, List, Option, none, some, Decimal, zero_decimal,
  ◌++◌, [], ltb, leb, if◌then◌else◌, is_empty, or_else, codes, text_eq, any, eqb_ℤ, le_decimal,
  get_field, is_true, is_int, is_bool,
}
use homtech_hub.Hub.Domain.{
  PurchaseState, created, checked, payment_started, processing, succeeded, failed, Purchase,
  is_topup,
}
use homtech_hub.Hub.Provider.{
  ProviderState, ProviderResult, ProviderRequest, Response, answered, provider_error, calculate,
  check, pay, check_status,
}
use homtech_hub.Hub.Errors.{Error, Outcome, ok, err, duplicate_supplier_result, compared}
use homtech_hub.Hub.Crypto.{Crypto, value_hash}
use homtech_hub.Hub.Settings.{Settings}
use homtech_hub.Hub.Repository.Marks.{
  mark_checked, mark_preflight_failed, mark_payment_started, mark_processing, mark_provider_result,
  mark_requires_attention, retry_topup_check, TopupScope, is_created, is_checked,
}
use homtech_hub.Hub.Program.{
  Prog, done, raise, ask, transact, permit, defer, ◌>>=◌, except_provider_error, lift, call,
  mark_purchase,
}

abbrev pub provider_request : Purchase → Text → Option (Option Decimal) → ProviderRequest
provider_request p operation amount = record {
  service_id = p.service_id;
  account = p.account;
  params = p.params;
  agent_transaction_id = operation;
  amount = amount;
}

abbrev pub not_configured : Text
not_configured = codes "Provider is not configured"

abbrev pub invalid_price : Text
invalid_price = codes "Provider did not return a valid amount"

abbrev pub check_rejected : Text
check_rejected = codes "Provider rejected purchase validation"

abbrev pub account_rejected : Text
account_rejected = codes "Steam account validation failed"

abbrev pub limit_reached : Text
limit_reached = codes "Provider status check limit reached; manual reconciliation is required"

abbrev pub unrecognized : Text
unrecognized = codes "Unrecognized topup response; reconciliation required"

abbrev pub duplicate_code : Text
duplicate_code = codes "Supplier returned a code already assigned to another purchase"

-- A validated top-up has `success` True and an int `status` of 0.
abbrev pub account_is_valid : ProviderResult → Bool
account_is_valid r =
    is_true (get_field (codes "success") r.public_payload)
    && is_int (get_field (codes "status") r.public_payload)
    && eqb_ℤ r.status (pos 0)

-- A top-up is checked with its own amount, with no `calculate`.
unfoldable pub preflight_topup : Purchase → ℕ → Prog Purchase
preflight_topup p token = do
  r ← call (check (provider_request p p.provider_operation_id (some p.requested_amount)))
  mark_purchase p.id token (
      if account_is_valid r
      then mark_checked p.requested_amount r
      else mark_preflight_failed (or_else r.message account_rejected))

-- `not calculated.success or amount <= 0`
abbrev pub price_is_bad : ProviderResult → Outcome Bool
price_is_bad r = if r.success then compared (le_decimal r.fixed_amount zero_decimal) else ok true

-- The `check` at the calculated amount.
unfoldable pub check_voucher : Purchase → ℕ → Decimal → Prog Purchase
check_voucher p token amount = do
  r ← call (check (provider_request p p.provider_operation_id (some (some amount))))
  mark_purchase p.id token (
      if r.success
      then mark_checked (some amount) r
      else mark_preflight_failed (or_else r.message check_rejected))

abbrev pub after_price : Purchase → ℕ → ProviderResult → Bool → Prog Purchase
after_price p token r bad =
    if bad
    then mark_purchase p.id token (mark_preflight_failed (or_else r.message invalid_price))
    else check_voucher p token r.fixed_amount

unfoldable pub preflight_voucher : Purchase → ℕ → Prog Purchase
unfolding check_voucher
preflight_voucher p token = do
  r ← call (calculate (provider_request p (p.provider_operation_id ++ codes "-calculate") none))
  bad ← lift (price_is_bad r)
  after_price p token r bad

-- What `_preflight` does with a `ProviderError`.
abbrev pub preflight_error : Purchase → ℕ → Text → Prog Purchase
preflight_error p token message =
    if is_topup p.kind && ltb p.preflight_attempts 4
    then mark_purchase p.id token (retry_topup_check message)
    else mark_purchase p.id token (mark_preflight_failed message)

unfoldable pub preflight : Purchase → ℕ → Prog Purchase
unfolding preflight_topup preflight_voucher ◌>>=◌ except_provider_error
preflight p token =
    except_provider_error
      (if is_topup p.kind then preflight_topup p token else preflight_voucher p token)
      (preflight_error p token)

abbrev pub purchase_state : ProviderState → PurchaseState
purchase_state ProviderState.processing = processing
purchase_state ProviderState.succeeded = succeeded
purchase_state ProviderState.failed = failed

-- The state, the value and the hash that `_save_result` stores.
abbrev pub saved_parts : Crypto → Purchase → ProviderResult → PurchaseState × Text × Text
saved_parts c p r = elim (purchase_state r.state) [
  | succeeded ↦
      if is_topup p.kind
      then (succeeded, [], [])
      else if is_empty r.secret_value
      then (processing, [], [])
      else (succeeded, r.secret_value, value_hash c r.secret_value)
  | s ↦ (s, [], [])
]

-- A top-up's answer has a bool `success` and an int `status`.
abbrev pub is_recognized : ProviderResult → Bool
is_recognized r =
    is_bool (get_field (codes "success") r.public_payload)
    && is_int (get_field (codes "status") r.public_payload)

abbrev pub is_duplicate : Error → Bool
is_duplicate duplicate_supplier_result = true
is_duplicate _ = false

-- `except DuplicateSupplierResult`
abbrev pub except_duplicate : Purchase → ℕ → Outcome Purchase → Prog Purchase
except_duplicate p token (ok q) = done q
except_duplicate p token (err e) =
    if is_duplicate e
    then mark_purchase p.id token (mark_requires_attention duplicate_code)
    else raise e

unfoldable pub save_result :
    Crypto → Settings → Purchase → ℕ → ProviderResult → Bool → Prog Purchase
save_result c s p token r status_check =
    if is_topup p.kind && not (is_recognized r)
    then mark_purchase p.id token (mark_processing unrecognized status_check)
    else let (state, value, digest) = saved_parts c p r in
      transact p.id token (mark_provider_result r state value digest s.data_secret status_check)
        (except_duplicate p token)

-- What `_pay` and `_check_status` do with the provider's answer, or with its `ProviderError`.
abbrev pub on_response : Crypto → Settings → Purchase → ℕ → Bool → Response → Prog Purchase
on_response c s p token status_check (answered r) = save_result c s p token r status_check
on_response c s p token status_check (provider_error m) =
    mark_purchase p.id token (mark_processing m status_check)

abbrev pub send_payment : Crypto → Settings → ℕ → Purchase → Prog Purchase
send_payment c s token started =
    ask (pay started.provider_operation_id) (on_response c s started token false)

-- PAYMENT_STARTED is committed before the call of the provider.
unfoldable pub pay_purchase : Crypto → Settings → Purchase → ℕ → Prog Purchase
unfolding save_result ◌>>=◌
pay_purchase c s p token = do
  started ← mark_purchase p.id token mark_payment_started
  send_payment c s token started

unfoldable pub check_purchase : Crypto → Settings → Purchase → ℕ → Prog Purchase
unfolding save_result
check_purchase c s p token =
    if leb s.max_status_checks p.status_check_attempts
    then mark_purchase p.id token (mark_requires_attention limit_reached)
    else ask (check_status p.provider_operation_id) (on_response c s p token true)

-- The end of `process_claimed`: what is done in each state.
unfoldable pub dispatch : Crypto → Settings → Purchase → ℕ → PurchaseState → Prog Purchase
unfolding preflight pay_purchase check_purchase
dispatch c s p token created = preflight p token
dispatch c s p token checked = pay_purchase c s p token
dispatch c s p token payment_started = check_purchase c s p token
dispatch c s p token processing = check_purchase c s p token
dispatch c s p token _ = done p

abbrev pub scope_of_purchase : Purchase → TopupScope
scope_of_purchase p = record {
  consumer_id = p.consumer_id;
  workspace_id = p.workspace_id;
  requested_amount = p.requested_amount;
}

abbrev pub process_permitted : Crypto → Settings → Purchase → ℕ → Bool → Prog Purchase
process_permitted c s p token allowed =
    if allowed then dispatch c s p token p.state else defer p.id token (done p)

unfoldable pub process_claimed : Crypto → List Text → Settings → Purchase → ℕ → Prog Purchase
unfolding dispatch any
process_claimed c providers s p token =
    if not (any (text_eq p.provider_code) providers)
    then mark_purchase p.id token (
        if is_created p.state
        then mark_preflight_failed not_configured
        else mark_requires_attention not_configured)
    else if is_topup p.kind && (is_created p.state || is_checked p.state)
    then (if s.topups_enabled
        then permit (scope_of_purchase p) (process_permitted c s p token)
        else process_permitted c s p token false)
    else dispatch c s p token p.state
