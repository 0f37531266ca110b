-- ===== src/Hub/Repository/Create.antt =====
-- `create_or_get` and `get` of api/hub/repository.py.
use homtech_hub.Prelude.{
  ℕ, Text, Bool, true, false, ◌&&◌, ◌||◌, List, [], ◌∷◌, ◌++◌, Option, none, some, ◌==◌,
  if◌then◌else◌, text_eq, codes, any, find, no_fields,
}
use homtech_hub.Hub.Domain.{PurchaseState, Purchase, PurchaseRequest}
use homtech_hub.Hub.Errors.{Outcome, ok, err, idempotency_conflict, unique_violation}
use homtech_hub.Hub.Repository.Table.{Row, Db, EventType, purchase_of, find_row, event_of, uuid_hex}

-- f"hub-{request.provider_code}-{purchase_id.hex}"
unfoldable pub operation_id : Text → ℕ → Text
unfolding uuid_hex
operation_id provider_code id = codes "hub-" ++ (provider_code ++ (codes "-" ++ uuid_hex id))

-- The inserted row, with the defaults of the schema.
unfoldable pub new_row : ℕ → ℕ → PurchaseRequest → Text → Row
new_row now id request fingerprint = record {
  purchase = record {
    id = id;
    consumer_id = request.consumer_id;
    idempotency_key = request.idempotency_key;
    request_id = request.request_id;
    provider_code = request.provider_code;
    service_id = request.service_id;
    max_amount = request.max_amount;
    account = request.account;
    params = request.params;
    request_fingerprint = fingerprint;
    provider_operation_id = operation_id request.provider_code id;
    state = PurchaseState.created;
    amount = none;
    provider_status = none;
    provider_message = [];
    provider_transaction_id = [];
    result_ciphertext = none;
    result_hash = [];
    status_check_attempts = 0;
    created_at = now;
    updated_at = now;
    preflight_attempts = 0;
    pay_started_at = none;
    completed_at = none;
    last_error = [];
    kind = request.kind;
    requested_amount = request.requested_amount;
    workspace_id = request.workspace_id;
    connection_id = request.connection_id;
  };
  provider_response = no_fields;
  next_attempt_at = now;
  lease_token = none;
  lease_until = none;
}

abbrev pub has_key : Text → Text → Row → Bool
has_key consumer_id key r = text_eq r.consumer_id consumer_id && text_eq r.idempotency_key key

-- The first row of an idempotency key; there is at most one, by the unique constraint.
unfoldable pub find_key : Text → Text → List Row → Option Row
unfolding find
find_key consumer_id key rows = find (has_key consumer_id key) rows

-- The primary key, and the unique operation id.
unfoldable pub is_taken : ℕ → Text → List Row → Bool
unfolding any
is_taken id operation rows =
    any (λ (r : Row). r.id == id || text_eq r.provider_operation_id operation) rows

-- The tables after the insert.
abbrev pub with_purchase : Row → Db → Db
with_purchase r db = record db {
  purchases = db.purchases ++ r ∷ [];
  events = db.events ++ event_of r EventType.created none (some PurchaseState.created) none ∷ [];
}

-- The transaction; `id` is the `uuid4()` that it draws.
unfoldable pub create_or_get : ℕ → ℕ → PurchaseRequest → Text → Db → Outcome (Purchase × Bool) × Db
create_or_get now id request fingerprint db =
    elim (find_key request.consumer_id request.idempotency_key db.purchases) [
      | some r ↦
          if text_eq r.request_fingerprint fingerprint
          then (ok (purchase_of r, false), db)
          else (err idempotency_conflict, db)
      | none ↦
          if is_taken id (operation_id request.provider_code id) db.purchases
          then (err unique_violation, db)
          else let r = new_row now id request fingerprint in
            (ok (purchase_of r, true), with_purchase r db)
    ]

-- `get`, with and without a consumer
unfoldable pub get : ℕ → Option Text → Db → Option Purchase
get id consumer db = elim (find_row id db.purchases) [
  | none ↦ none
  | some r ↦ elim consumer [
    | none ↦ some (purchase_of r)
    | some c ↦ if text_eq r.consumer_id c then some (purchase_of r) else none
  ]
]
