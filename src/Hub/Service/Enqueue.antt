-- ===== src/Hub/Service/Enqueue.antt =====
-- api/hub/service.py: `request_fingerprint` and `PurchaseService.enqueue`.
use homtech_hub.Prelude.{
  ℕ, ℤ, pos, Text, Bool, true, false, not, ◌||◌, Option, none, some, Decimal, finite, zero_decimal,
  ltb, if◌then◌else◌, is_empty, strip, length, codes, text_eq, List, any, is_positive, eqb_ℤ, leb_ℤ,
  le_decimal, lt_decimal, is_finite, in_cents, is_some, has_fields,
}
use homtech_hub.Hub.Domain.{
  Purchase, PurchaseRequest, Kind, voucher, steam_topup, other_kind, is_voucher, valid_request_id,
}
use homtech_hub.Hub.Errors.{
  Outcome, ok, err, unknown_provider, bad_service_id, bad_max_amount, bad_idempotency_key,
  bad_request_id, unsupported_kind, invalid_topup, topups_disabled, topup_fields, raise_if,
  compared, ◌>>=◌, ◌>>◌,
}
use homtech_hub.Hub.Crypto.{Crypto, FingerprintPayload}
use homtech_hub.Hub.Settings.{Settings}
use homtech_hub.Hub.Repository.Table.{Db}
use homtech_hub.Hub.Repository.Marks.{TopupScope, topup_allowed}
use homtech_hub.Hub.Repository.Create.{create_or_get}

-- The old fingerprints of vouchers stay as they were: they leave the later fields out.
unfoldable pub fingerprint_payload : PurchaseRequest → FingerprintPayload
fingerprint_payload r = record {
  provider_code = r.provider_code;
  service_id = r.service_id;
  max_amount = r.max_amount;
  account = r.account;
  params = r.params;
  topup =
      if is_voucher r.kind
      then none
      else some (record {
        kind = r.kind;
        requested_amount = r.requested_amount;
        workspace_id = r.workspace_id;
        connection_id = r.connection_id;
      });
}

unfoldable pub request_fingerprint : Crypto → PurchaseRequest → Text
unfolding fingerprint_payload
request_fingerprint c r = c.request_digest (fingerprint_payload r)

-- `max_amount is not None and max_amount <= 0`
abbrev pub max_amount_is_bad : Option Decimal → Outcome Bool
max_amount_is_bad none = ok false
max_amount_is_bad (some m) = compared (le_decimal m zero_decimal)

-- Decimal("16.99")
abbrev pub min_topup : Decimal
min_topup = finite (pos 1699) 2

-- `not amount.is_finite() or amount < Decimal("16.99") or amount != amount.quantize(…)`
abbrev pub amount_is_bad : Option Decimal → Outcome Bool
amount_is_bad none = ok true
amount_is_bad (some a) = if not (is_finite a) then ok true else elim (lt_decimal a min_topup) [
  | none ↦ compared none
  | some true ↦ ok true
  | some false ↦ elim (in_cents a) [ none ↦ compared none | some t ↦ ok (not t) ]
]

-- The tests of a top-up before its amount; `workspace_id` is false at None and at 0.
unfoldable pub topup_is_bad : PurchaseRequest → Bool
topup_is_bad r =
    not (text_eq r.provider_code (codes "interhub"))
    || not (eqb_ℤ r.service_id (pos 9361))
    || not (elim r.workspace_id [ none ↦ false | some w ↦ is_positive w ])
    || is_some r.connection_id
    || has_fields r.params
    || is_empty (strip r.account)
    || ltb 100 (length r.account)

abbrev pub has_topup_fields : PurchaseRequest → Bool
has_topup_fields r = is_some r.requested_amount || is_some r.workspace_id || is_some r.connection_id

abbrev pub scope_of : Text → Option ℤ → Option Decimal → TopupScope
scope_of consumer workspace amount = record {
  consumer_id = consumer;
  workspace_id = workspace;
  requested_amount = amount;
}

-- What `enqueue` raises for the kind of the request.
unfoldable pub check_kind : Settings → PurchaseRequest → Kind → Db → Outcome (Unit {0})
unfolding topup_is_bad
check_kind s r steam_topup db = do
  raise_if (topup_is_bad r) invalid_topup
  bad ← amount_is_bad r.requested_amount
  raise_if bad invalid_topup
  raise_if
      (not s.topups_enabled
        || not (topup_allowed (scope_of r.consumer_id r.workspace_id r.requested_amount) db))
      topups_disabled
check_kind s r voucher db = raise_if (has_topup_fields r) topup_fields
check_kind s r (other_kind _) db = err unsupported_kind

-- The checks of `enqueue`, in its order.
unfoldable pub validate : List Text → Settings → PurchaseRequest → Db → Outcome (Unit {0})
unfolding check_kind any
validate providers s r db = do
  raise_if (not (any (text_eq r.provider_code) providers)) unknown_provider
  raise_if (leb_ℤ r.service_id (pos 0)) bad_service_id
  bad ← max_amount_is_bad r.max_amount
  raise_if bad bad_max_amount
  raise_if (is_empty (strip r.idempotency_key) || ltb 200 (length r.idempotency_key))
      bad_idempotency_key
  raise_if (not (valid_request_id r.request_id)) bad_request_id
  check_kind s r r.kind db

-- What follows the checks.
abbrev pub enqueue_checked :
    Crypto → ℕ → ℕ → PurchaseRequest → Db → Outcome (Unit {0}) → Outcome (Purchase × Bool) × Db
enqueue_checked c now id r db (ok _) = create_or_get now id r (request_fingerprint c r) db
enqueue_checked c now id r db (err e) = (err e, db)

unfoldable pub enqueue :
    Crypto → List Text → Settings → ℕ → ℕ → PurchaseRequest → Db → Outcome (Purchase × Bool) × Db
unfolding validate request_fingerprint
enqueue c providers s now id r db = enqueue_checked c now id r db (validate providers s r db)
