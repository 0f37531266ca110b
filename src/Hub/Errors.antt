-- ===== src/Hub/Errors.antt =====
-- The exceptions of api/hub: what a method that may raise returns.
use homtech_hub.Prelude.{Text, Bool, true, false, Option, none, some}

pub data Error : Type 0 where
  -- `ValueError` of `PurchaseService.enqueue`
  unknown_provider bad_service_id bad_max_amount bad_idempotency_key bad_request_id : Error
  unsupported_kind invalid_topup topups_disabled topup_fields : Error
  -- `ValueError` of `OperatorService.resolve`
  bad_reason unexpected_result topup_has_no_result missing_result result_too_long : Error
  -- decimal.InvalidOperation
  invalid_operation : Error
  -- api/hub/repository.py
  idempotency_conflict unique_violation lease_or_state_changed duplicate_supplier_result : Error
  action_conflict purchase_not_found not_awaiting_attention access_conflict : Error
  decryption_failed : Error
  -- api/hub/providers/base.py
  provider_failed : Text → Error

pub data Outcome {ℓ} (A : Type ℓ) : Type ℓ where
  ok : A → Outcome A
  err : Error → Outcome A

infixl 5 ◌>>=◌ ◌>>◌
abbrev pub ◌>>=◌ {ℓ κ} : {A : Type ℓ} {B : Type κ} → Outcome A → (A → Outcome B) → Outcome B
ok a >>= f = f a
err e >>= f = err e

abbrev pub ◌>>◌ {ℓ} : {B : Type ℓ} → Outcome (Unit {0}) → Outcome B → Outcome B
m >> k = m >>= λ _. k

abbrev pub raise_if : Bool → Error → Outcome (Unit {0})
raise_if true e = err e
raise_if false e = ok tt

-- A comparison of decimals in a test, which may raise.
abbrev pub compared : Option Bool → Outcome Bool
compared none = err invalid_operation
compared (some b) = ok b
