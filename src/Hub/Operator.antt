-- ===== src/Hub/Operator.antt =====
-- api/hub/operator_service.py: the operator's decision on a purchase that awaits attention. It has
-- the repository alone, and no supplier.
use homtech_hub.Prelude.{
  ℕ, Text, Bool, true, false, not, ◌&&◌, ◌||◌, [], Option, none, some, ltb, if◌then◌else◌, is_empty,
  strip, length,
}
use homtech_hub.Hub.Domain.{Purchase, is_topup, valid_request_id}
use homtech_hub.Hub.Errors.{
  Outcome, ok, err, bad_request_id, bad_reason, unexpected_result, topup_has_no_result,
  missing_result, result_too_long, raise_if, ◌>>◌,
}
use homtech_hub.Hub.Crypto.{Crypto, Decision, confirm_failed, record_success, value_hash}
use homtech_hub.Hub.Repository.Table.{Db, uuid_text}
use homtech_hub.Hub.Repository.Create.{get}
use homtech_hub.Hub.Repository.Reconcile.{Resolution, resolve_attention}

-- The arguments of `OperatorService.resolve` beside the purchase's id.
pub record OperatorRequest : Type 0 where
  pub operator_id : Text
  pub request_id : Text
  pub decision : Decision
  pub reason : Text
  pub result_value : Text

abbrev pub is_confirm_failed : Decision → Bool
is_confirm_failed confirm_failed = true
is_confirm_failed record_success = false

-- `existing is not None and existing.kind == "steam_topup"`
abbrev pub is_topup_purchase : Option Purchase → Bool
is_topup_purchase none = false
is_topup_purchase (some p) = is_topup p.kind

-- The checks of `resolve`, in its order.
unfoldable pub validate_resolution : OperatorRequest → Bool → Outcome (Unit {0})
validate_resolution x topup = do
  raise_if (not (valid_request_id x.request_id)) bad_request_id
  raise_if (ltb (length (strip x.reason)) 3 || ltb 1000 (length (strip x.reason))) bad_reason
  raise_if (is_confirm_failed x.decision && not (is_empty (strip x.result_value))) unexpected_result
  raise_if (topup && not (is_empty (strip x.result_value))) topup_has_no_result
  raise_if (not (is_confirm_failed x.decision) && is_empty (strip x.result_value) && not topup)
      missing_result
  raise_if (ltb 5000 (length (strip x.result_value))) result_too_long

-- `value_hash(clean_result) if clean_result else ""`
abbrev pub result_digest : Crypto → Text → Text
result_digest c value = if is_empty value then [] else value_hash c value

unfoldable pub resolution_of : Crypto → Text → ℕ → OperatorRequest → Resolution
resolution_of c secret id x =
    let reason = strip x.reason in
    let value = strip x.result_value in
    let digest = result_digest c value in
    record {
      operator_id = x.operator_id;
      request_id = x.request_id;
      fingerprint = c.action_digest (uuid_text id) x.decision reason digest;
      decision = x.decision;
      reason = reason;
      result_value = value;
      result_hash = digest;
      data_secret = secret;
    }

-- What follows the checks.
abbrev pub resolve_checked :
    Crypto
    → Text
    → ℕ
    → ℕ
    → OperatorRequest
    → Db
    → Outcome (Unit {0})
    → Outcome (Purchase × Bool) × Db
resolve_checked c secret now id x db (ok _) =
    resolve_attention c now id (resolution_of c secret id x) db
resolve_checked c secret now id x db (err e) = (err e, db)

unfoldable pub resolve :
    Crypto → Text → ℕ → ℕ → OperatorRequest → Db → Outcome (Purchase × Bool) × Db
unfolding validate_resolution resolution_of
resolve c secret now id x db =
    resolve_checked c secret now id x db
      (validate_resolution x (is_topup_purchase (get id none db)))
