-- ===== src/Hub/InterHub/Answers.antt =====
-- What `_normalize` of api/hub/providers/interhub.py reads in an answer of InterHub.
use homtech_hub.Prelude.{
  zero, suc, pos, negsuc, ℤ, Text, ◌≡◌, Bool, true, false, some, Json, Fields, boolean, integer,
  string, object, get_field, codes, finite,
}
use homtech_hub.Hub.Provider.{ProviderState, ProviderResult, succeeded, processing, failed}
use homtech_hub.Hub.InterHub.Redaction.{redact_fields}

-- What InterHub has to say of an operation.
pub record Answer : Type 0 where
  pub success : Bool
  pub status : ℤ
  pub message : Text
  pub amount : ℤ
  pub fixed_amount : ℤ
  pub transaction_id : Text
  pub code : Text

-- The fields of an answer that says so, in whatever order, among whatever others.
pub record Says (a : Answer) (fs params : Fields) : Type 0 where
  pub success : get_field (codes "success") fs ≡ some (boolean a.success)
  pub status : get_field (codes "status") fs ≡ some (integer a.status)
  pub message : get_field (codes "message") fs ≡ some (string a.message)
  pub amount : get_field (codes "amount") fs ≡ some (integer a.amount)
  pub fixed_amount : get_field (codes "fixed_amount") fs ≡ some (integer a.fixed_amount)
  pub transaction_id : get_field (codes "transaction_id") fs ≡ some (string a.transaction_id)
  pub nested : get_field (codes "params") fs ≡ some (object params)
  pub code : get_field (codes "gift_code") params ≡ some (string a.code)

-- Only a success may be final or open: 0 is done, 1 is under way, and all else has failed.
abbrev pub verdict : Bool → ℤ → ProviderState
verdict false n = failed
verdict true (pos zero) = succeeded
verdict true (pos (suc zero)) = processing
verdict true (pos (suc (suc n))) = failed
verdict true (negsuc n) = failed

module _ (show : Json → Text) where
  -- The adapter's result for an answer that says `a`.
  abbrev pub read_as : Answer → Fields → ProviderResult
  read_as a fs = record {
    state = verdict a.success a.status;
    success = a.success;
    status = a.status;
    message = a.message;
    amount = finite a.amount 0;
    fixed_amount = finite a.fixed_amount 0;
    provider_transaction_id = a.transaction_id;
    secret_value = a.code;
    public_payload = redact_fields fs;
  }
