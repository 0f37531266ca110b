-- ===== src/Hub/Api/Purchases.antt =====
-- The routes of api/hub/app.py for consumers: purchases, their events, their results, and the report.
use homtech_hub.Prelude.{
  ℕ, ℤ, Text, Bool, true, false, List, map, Option, none, some, Decimal, Fields, if◌then◌else◌,
  strip, lower, codes,
}
use homtech_hub.Hub.Domain.{Purchase, PurchaseRequest, Kind, result_available}
use homtech_hub.Hub.Errors.{
  Error, Outcome, ok, err, unknown_provider, bad_service_id, bad_max_amount, bad_idempotency_key,
  bad_request_id, unsupported_kind, invalid_topup, topups_disabled, topup_fields, bad_reason,
  unexpected_result, topup_has_no_result, missing_result, result_too_long, idempotency_conflict,
  action_conflict, access_conflict,
}
use homtech_hub.Hub.Crypto.{Crypto}
use homtech_hub.Hub.Settings.{Settings}
use homtech_hub.Hub.Repository.Table.{Db, Event}
use homtech_hub.Hub.Repository.Create.{get}
use homtech_hub.Hub.Repository.Reconcile.{read_result}
use homtech_hub.Hub.Repository.Queries.{list_events, Summary, observability_summary}
use homtech_hub.Hub.Service.Enqueue.{enqueue}
use homtech_hub.Hub.Api.{
  found, Reply, replies, refuses, crashes, refuse, ◌>>=◌, of_error, Headers, authenticate,
  bad_client, normalize_request_id, PurchaseOut, purchase_out,
}

pub record PurchaseIn : Type 0 where
  pub idempotency_key : Text
  pub provider_code : Text
  pub service_id : ℤ
  pub max_amount : Option Decimal
  pub account : Text
  pub params : Fields
  pub kind : Kind
  pub requested_amount : Option Decimal
  pub workspace_id : Option ℤ
  pub connection_id : Option ℤ

-- `isinstance(exc, ValueError)` of an error of api/hub; the conflicts of api/hub/repository.py are among
-- them.
abbrev pub is_value_error : Error → Bool
is_value_error unknown_provider = true
is_value_error bad_service_id = true
is_value_error bad_max_amount = true
is_value_error bad_idempotency_key = true
is_value_error bad_request_id = true
is_value_error unsupported_kind = true
is_value_error invalid_topup = true
is_value_error topups_disabled = true
is_value_error topup_fields = true
is_value_error bad_reason = true
is_value_error unexpected_result = true
is_value_error topup_has_no_result = true
is_value_error missing_result = true
is_value_error result_too_long = true
is_value_error idempotency_conflict = true
is_value_error action_conflict = true
is_value_error access_conflict = true
is_value_error _ = false

abbrev pub is_idempotency_conflict : Error → Bool
is_idempotency_conflict idempotency_conflict = true
is_idempotency_conflict _ = false

unfoldable pub request_of : Text → Text → PurchaseIn → PurchaseRequest
unfolding strip lower
request_of client request_id p = record {
  consumer_id = client;
  idempotency_key = strip p.idempotency_key;
  request_id = request_id;
  provider_code = map lower (strip p.provider_code);
  service_id = p.service_id;
  max_amount = p.max_amount;
  account = p.account;
  params = p.params;
  kind = p.kind;
  requested_amount = p.requested_amount;
  workspace_id = p.workspace_id;
  connection_id = p.connection_id;
}

-- The `except` clauses of `create_purchase`.
abbrev pub created_or_refused : Outcome (Purchase × Bool) → Reply PurchaseOut
created_or_refused (ok (p, is_new)) = replies (purchase_out p)
created_or_refused (err e) =
    if is_idempotency_conflict e
    then refuses 409 (of_error e)
    else if is_value_error e
    then refuses 422 (of_error e)
    else crashes

-- A part of a route that changes the tables, after one that does not.
abbrev pub and_then {ℓ κ} :
    {A : Type ℓ} {B : Type κ} → Reply A → Db → (A → Reply B × Db) → Reply B × Db
and_then (replies a) db k = k a
and_then (refuses status detail) db k = (refuses status detail, db)
and_then crashes db k = (crashes, db)

abbrev pub no_result : Text
no_result = codes "Purchase result is not available"

-- Whatever `read_result` raises is answered by 500.
abbrev pub shown_result : Outcome (Option Text) → Reply Text
shown_result (ok none) = refuse 409 no_result
shown_result (ok (some value)) = replies value
shown_result (err e) = refuse 500 (codes "Stored purchase result cannot be decrypted")

module _ (c : Crypto) (providers : List Text) (s : Settings) where
  -- The body of `create_purchase`; `fresh` and `id` are the `uuid4()` of the request id and of the purchase.
  abbrev pub enqueue_for : ℕ → ℕ → Text → PurchaseIn → Db → Text → Reply PurchaseOut × Db
  enqueue_for now id client p db request_id =
      let (outcome, db') = enqueue c providers s now id (request_of client request_id p) db in
      (created_or_refused outcome, db')

  unfoldable pub create_purchase :
      ℕ → ℕ → ℕ → Headers → Text → PurchaseIn → Db → Reply PurchaseOut × Db
  unfolding normalize_request_id request_of enqueue authenticate
  create_purchase now fresh id h header p db =
      and_then (authenticate bad_client s.clients h) db
        (λ client. and_then (normalize_request_id fresh header) db (enqueue_for now id client p db))

  unfoldable pub read_purchase : Headers → ℕ → Db → Reply PurchaseOut
  unfolding authenticate get purchase_out
  read_purchase h id db = do
    client ← authenticate bad_client s.clients h
    p ← found (get id (some client) db)
    replies (purchase_out p)

  unfoldable pub read_purchase_events : Headers → ℕ → Db → Reply (List Event)
  unfolding authenticate get list_events
  read_purchase_events h id db = do
    client ← authenticate bad_client s.clients h
    p ← found (get id (some client) db)
    replies (list_events id client db)

  -- `observability_summary`, with `stale_after_sec` beside it
  unfoldable pub read_summary : ℕ → Headers → Db → Reply (Summary × ℕ)
  unfolding authenticate observability_summary
  read_summary now h db = do
    client ← authenticate bad_client s.clients h
    replies (observability_summary now client s.stale_after_sec db, s.stale_after_sec)

  unfoldable pub read_purchase_result : Headers → ℕ → Db → Reply Text
  unfolding authenticate get read_result
  read_purchase_result h id db = do
    client ← authenticate bad_client s.clients h
    p ← found (get id (some client) db)
    (if result_available p
        then shown_result (read_result c p.id client s.data_secret db)
        else refuse 409 no_result)
