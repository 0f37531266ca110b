-- ===== src/Hub/Repository/Reconcile.antt =====
-- The operator's side of api/hub/repository.py: `resolve_attention`, and the reading of results.
use homtech_hub.Prelude.{
  ℕ, Text, Bool, true, false, ◌&&◌, List, [], ◌∷◌, ◌++◌, Option, none, some, ◌==◌, if◌then◌else◌,
  text_eq, find,
}
use homtech_hub.Hub.Domain.{
  PurchaseState, Purchase, is_topup, requires_attention, succeeded, failed, is_succeeded,
}
use homtech_hub.Hub.Errors.{
  Outcome, ok, err, action_conflict, purchase_not_found, not_awaiting_attention,
  duplicate_supplier_result, access_conflict, decryption_failed,
}
use homtech_hub.Hub.Crypto.{Crypto, Decision, confirm_failed, record_success}
use homtech_hub.Hub.Repository.Table.{
  Row, Db, EventType, OperatorAction, ResultAccess, purchase_of, find_row, put_row, clashes,
  event_of,
}

-- WHERE operator_id AND request_id, which are unique together
unfoldable pub find_action : Text → Text → List OperatorAction → Option OperatorAction
unfolding find
find_action operator request actions =
    find (λ (a : OperatorAction). text_eq a.operator_id operator && text_eq a.request_id request)
      actions

abbrev pub is_attention : PurchaseState → Bool
is_attention requires_attention = true
is_attention _ = false

-- The SET lists of the two decisions.
abbrev pub resolved : Crypto → ℕ → Decision → Text → Text → Text → Text → Row → Row
resolved c now confirm_failed reason value hash secret r = record r {
  purchase = record r.purchase {
    state = failed;
    last_error = reason;
    completed_at = some now;
    updated_at = now;
  };
  lease_token = none;
  lease_until = none;
}
resolved c now record_success reason value hash secret r = record r {
  purchase = record r.purchase {
    state = succeeded;
    last_error = [];
    completed_at = some now;
    updated_at = now;
    result_ciphertext = if is_topup r.kind then none else some (c.encrypt value secret);
    result_hash = hash;
  };
  lease_token = none;
  lease_until = none;
}

-- The arguments of `resolve_attention` beside the purchase's id.
pub record Resolution : Type 0 where
  pub operator_id : Text
  pub request_id : Text
  pub fingerprint : Text
  pub decision : Decision
  pub reason : Text
  pub result_value : Text
  pub result_hash : Text
  pub data_secret : Text

abbrev pub action_of : ℕ → Resolution → OperatorAction
action_of id x = record {
  purchase_id = id;
  operator_id = x.operator_id;
  request_id = x.request_id;
  action_fingerprint = x.fingerprint;
  decision = x.decision;
  reason = x.reason;
  result_hash = x.result_hash;
}

abbrev pub resolution_row : Crypto → ℕ → Resolution → Row → Row
resolution_row c now x =
    resolved c now x.decision x.reason x.result_value x.result_hash x.data_secret

-- The tables after a decision.
abbrev pub with_resolution : Resolution → Row → Row → Db → Db
with_resolution x r r' db = record db {
  purchases = put_row r' db.purchases;
  actions = db.actions ++ action_of r.id x ∷ [];
  events =
      db.events
      ++ event_of r' EventType.operator_reconciled (some requires_attention) (some r'.state) (
          some (record {
            operator_id = x.operator_id;
            operator_request_id = x.request_id;
            decision = x.decision;
          }))
        ∷ [];
}

-- The update, the action and the event, or `UniqueViolation`, which the method renames.
abbrev pub store_resolution : Crypto → ℕ → Resolution → Row → Db → Outcome (Purchase × Bool) × Db
store_resolution c now x current db =
    let r' = resolution_row c now x current in
    if clashes r' db.purchases
    then (err duplicate_supplier_result, db)
    else (ok (purchase_of r', true), with_resolution x current r' db)

-- A replay reads the purchase of the earlier action, by the foreign key.
abbrev pub replay : Text → OperatorAction → Db → Outcome (Purchase × Bool) × Db
replay fingerprint a db =
    if text_eq a.action_fingerprint fingerprint
    then elim (find_row a.purchase_id db.purchases) [
      | none ↦ (err purchase_not_found, db)
      | some r ↦ (ok (purchase_of r, false), db)
    ]
    else (err action_conflict, db)

-- The second look at the actions, under the row's lock, sees what the first one saw, since nothing
-- runs in between here.
unfoldable pub resolve_attention : Crypto → ℕ → ℕ → Resolution → Db → Outcome (Purchase × Bool) × Db
resolve_attention c now id x db = elim (find_action x.operator_id x.request_id db.actions) [
  | some a ↦ replay x.fingerprint a db
  | none ↦ elim (find_row id db.purchases) [
    | none ↦ (err purchase_not_found, db)
    | some current ↦
        if is_attention current.state
        then store_resolution c now x current db
        else (err not_awaiting_attention, db)
  ]
]

-- `pgp_sym_decrypt` of a succeeded purchase's result, which raises at a wrong secret
abbrev pub readable : Row → Option Text
readable r = if is_succeeded r.state then r.result_ciphertext else none

abbrev decrypted : Crypto → Text → Text → Outcome (Option Text)
decrypted c ciphertext secret = elim (c.decrypt ciphertext secret) [
  | none ↦ err decryption_failed
  | some value ↦ ok (some value)
]

unfoldable pub read_result : Crypto → ℕ → Text → Text → Db → Outcome (Option Text)
read_result c id consumer secret db = elim (find_row id db.purchases) [
  | none ↦ ok none
  | some r ↦
      if text_eq r.consumer_id consumer
      then elim (readable r) [ none ↦ ok none | some ct ↦ decrypted c ct secret ]
      else ok none
]

unfoldable pub find_access : Text → Text → List ResultAccess → Option ResultAccess
unfolding find
find_access operator request accesses =
    find (λ (a : ResultAccess). text_eq a.operator_id operator && text_eq a.request_id request)
      accesses

-- INSERT … ON CONFLICT (operator_id, request_id) DO NOTHING, and the check of the earlier access
abbrev pub record_access : ℕ → Text → Text → Text → Db → Outcome (Option Text × Bool) × Db
record_access id operator request value db = elim (find_access operator request db.accesses) [
  | some a ↦ if a.purchase_id == id then (ok (some value, false), db) else (err access_conflict, db)
  | none ↦ (
    ok (some value, true),
    record db {
      accesses =
          db.accesses
          ++ record { purchase_id = id; operator_id = operator; request_id = request } ∷ [];
    },
  )
]

unfoldable pub read_result_for_operator :
    Crypto → ℕ → Text → Text → Text → Db → Outcome (Option Text × Bool) × Db
read_result_for_operator c id operator request secret db = elim (find_row id db.purchases) [
  | none ↦ (ok (none, false), db)
  | some r ↦ elim (readable r) [
    | none ↦ (ok (none, false), db)
    | some ct ↦ elim (c.decrypt ct secret) [
      | none ↦ (err decryption_failed, db)
      | some value ↦ record_access id operator request value db
    ]
  ]
]
