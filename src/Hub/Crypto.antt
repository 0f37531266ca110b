-- ===== src/Hub/Crypto.antt =====
-- api/hub/crypto.py, and the cryptography that the hub calls: hashlib, and pgcrypto in PostgreSQL.
use homtech_hub.Prelude.{Text, Option, Fields, ℤ, Decimal, codes, ◌++◌}
use homtech_hub.Hub.Domain.{Kind}

-- The dict that `request_fingerprint` dumps; `topup` is there for what is no voucher.
pub record TopupPart : Type 0 where
  pub kind : Kind
  pub requested_amount : Option Decimal
  pub workspace_id : Option ℤ
  pub connection_id : Option ℤ

pub record FingerprintPayload : Type 0 where
  pub provider_code : Text
  pub service_id : ℤ
  pub max_amount : Option Decimal
  pub account : Text
  pub params : Fields
  pub topup : Option TopupPart

-- The decision of an operator, as `OperatorDecision` has it.
pub data Decision : Type 0 where
  confirm_failed record_success : Decision

-- sha256 of a text, and of the canonical dump of a dict; `pgp_sym_encrypt value secret`, and
-- `pgp_sym_decrypt`, which raises at a wrong secret.
pub record Crypto : Type 0 where
  pub sha256 : Text → Text
  pub request_digest : FingerprintPayload → Text
  pub action_digest : Text → Decision → Text → Text → Text
  pub encrypt : Text → Text → Text
  pub decrypt : Text → Text → Option Text

unfoldable pub value_hash : Crypto → Text → Text
value_hash c value = c.sha256 (codes "supplier-result:v1:" ++ value)
