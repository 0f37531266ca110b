-- ===== src/Hub/Provider.antt =====
-- api/hub/providers/base.py: what a supplier adapter answers.
use homtech_hub.Prelude.{ℤ, Text, Bool, Option, Decimal, Fields}

pub data ProviderState : Type 0 where
  processing succeeded failed : ProviderState

pub record ProviderResult : Type 0 where
  pub state : ProviderState
  pub success : Bool
  pub status : ℤ
  pub message : Text
  pub amount : Decimal
  pub fixed_amount : Decimal
  pub provider_transaction_id : Text
  pub secret_value : Text
  pub public_payload : Fields

-- A method of `SupplierProvider` answers, or raises `ProviderError` with a message.
pub data Response : Type 0 where
  answered : ProviderResult → Response
  provider_error : Text → Response

-- The dict that `_provider_request` builds. The amount is sent as `str(amount)`, if at all, and for no
-- amount (`some none`) that is the text None.
pub record ProviderRequest : Type 0 where
  pub service_id : ℤ
  pub account : Text
  pub params : Fields
  pub agent_transaction_id : Text
  pub amount : Option (Option Decimal)

-- The calls of `SupplierProvider` that the service makes.
pub data Call : Type 0 where
  calculate : ProviderRequest → Call
  check : ProviderRequest → Call
  pay : Text → Call
  check_status : Text → Call
