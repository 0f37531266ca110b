-- ===== src/Hub/Api/Operators.antt =====
-- The routes of api/hub/app.py for operators: what awaits attention, the history, decisions, results.
use homtech_hub.Prelude.{
  ℕ, ℤ, pos, negsuc, Text, Bool, true, false, List, [], ◌∷◌, map, Option, none, some, Decimal, Json,
  if◌then◌else◌, strip, lower, take, codes, ltb, leb, text_eq, is_empty,
}
use homtech_hub.Hub.Domain.{
  Purchase, PurchaseState, created, checked, payment_started, processing, succeeded, failed,
  requires_attention,
}
use homtech_hub.Hub.Errors.{
  Error, Outcome, ok, err, purchase_not_found, action_conflict, not_awaiting_attention,
  duplicate_supplier_result, access_conflict,
}
use homtech_hub.Hub.Crypto.{Crypto, Decision}
use homtech_hub.Hub.Settings.{Settings}
use homtech_hub.Hub.Repository.Table.{Db, Event}
use homtech_hub.Hub.Repository.Create.{get}
use homtech_hub.Hub.Repository.Reconcile.{read_result_for_operator}
use homtech_hub.Hub.Repository.Sql.{Sql}
use homtech_hub.Hub.Repository.Queries.{
  PurchaseQuery, Arrange, SortColumn, list_requires_attention, list_purchases,
  list_events_for_operator,
}
use homtech_hub.Hub.Operator.{resolve}
use homtech_hub.Hub.Api.{
  found, Reply, replies, refuses, crashes, refuse, ◌>>=◌, of_error, Headers, authenticate,
  bad_operator, required_request_id, OperatorPurchaseOut, operator_purchase_out,
}
use homtech_hub.Hub.Api.Purchases.{is_value_error, and_then}

-- `max(1, min(limit, 100))` and `max(0, offset)`
unfoldable pub bounded_limit : ℤ → ℕ
bounded_limit (pos n) = if ltb 100 n then 100 else if ltb n 1 then 1 else n
bounded_limit (negsuc n) = 1

abbrev pub bounded_offset : ℤ → ℕ
bounded_offset (pos n) = n
bounded_offset (negsuc n) = 0

abbrev pub state_names : List (Text × PurchaseState)
state_names =
    (codes "created", created)
    ∷ (codes "checked", checked)
    ∷ (codes "payment_started", payment_started)
    ∷ (codes "processing", processing)
    ∷ (codes "succeeded", succeeded)
    ∷ (codes "failed", failed)
    ∷ (codes "requires_attention", requires_attention)
    ∷ []

unfoldable pub state_named : Text → List (Text × PurchaseState) → Option PurchaseState
state_named name [] = none
state_named name ((k, s) ∷ names) = if text_eq k name then some s else state_named name names

-- The query parameters of `operator_transaction_history`.
pub record HistoryParams : Type 0 where
  pub limit : ℤ
  pub offset : ℤ
  pub state : Text
  pub provider_code : Text
  pub consumer_id : Text
  pub query : Text
  pub created_from : Option ℕ
  pub created_to : Option ℕ
  pub sort_by : SortColumn
  pub ascending : Bool

pub record OperatorPurchaseListOut : Type 0 where
  pub items : List OperatorPurchaseOut
  pub total : ℕ
  pub total_amount : Decimal
  pub limit : ℕ
  pub offset : ℕ

-- `created_from and created_to and created_from >= created_to`
abbrev pub is_backwards : Option ℕ → Option ℕ → Bool
is_backwards (some a) (some b) = leb b a
is_backwards _ _ = false

unfoldable pub query_of : HistoryParams → Option PurchaseState → PurchaseQuery
unfolding strip lower take
query_of x state = record {
  state = state;
  provider_code = take 40 (map lower (strip x.provider_code));
  consumer_id = take 120 (strip x.consumer_id);
  query = take 200 (strip x.query);
  created_from = x.created_from;
  created_to = x.created_to;
  sort_column = x.sort_by;
  ascending = x.ascending;
}

-- `clean_state`, which must name a state if it is there
unfoldable pub checked_state : Text → Reply (Option PurchaseState)
unfolding strip lower state_named
checked_state text =
    if is_empty (map lower (strip text))
    then replies none
    else elim (state_named (map lower (strip text)) state_names) [
      | none ↦ refuse 422 (codes "Unknown purchase state")
      | some s ↦ replies (some s)
    ]

pub record ResolutionIn : Type 0 where
  pub decision : Decision
  pub reason : Text
  pub result_value : Text

-- OperatorActionConflict, PurchaseNotAwaitingAttention, DuplicateSupplierResult
abbrev pub is_conflict : Error → Bool
is_conflict action_conflict = true
is_conflict not_awaiting_attention = true
is_conflict duplicate_supplier_result = true
is_conflict _ = false

-- `KeyError`
abbrev pub is_missing : Error → Bool
is_missing purchase_not_found = true
is_missing _ = false

abbrev pub is_access_conflict : Error → Bool
is_access_conflict access_conflict = true
is_access_conflict _ = false

-- The `except` clauses of `operator_purchase_result`: all but the two named ones are answered by 500.
abbrev pub result_or_refused : Outcome (Option Text × Bool) → Reply (Text × Bool)
result_or_refused (ok (some value, is_new)) = replies (value, is_new)
result_or_refused (ok (none, is_new)) = refuse 409 (codes "Purchase result is not available")
result_or_refused (err e) =
    if is_access_conflict e
    then refuses 409 (of_error e)
    else if is_value_error e
    then refuses 422 (of_error e)
    else refuse 500 (codes "Stored purchase result cannot be decrypted")

module _ (c : Crypto) (s : Settings) (show : Json → Text) (sql : Sql) where
  abbrev pub operator : Headers → Reply Text
  operator h = authenticate bad_operator s.operators h

  unfoldable pub operator_attention_list : Headers → ℤ → ℤ → Db → Reply (List OperatorPurchaseOut)
  unfolding authenticate bounded_limit list_requires_attention
  operator_attention_list h limit offset db = do
    name ← operator h
    replies (
        map (operator_purchase_out show)
          (list_requires_attention (bounded_limit limit) (bounded_offset offset) db))

  abbrev pub history_page : Arrange → HistoryParams → PurchaseQuery → Db → OperatorPurchaseListOut
  history_page arrange x q db =
      let (items, total, amount) =
        list_purchases sql arrange (bounded_limit x.limit) (bounded_offset x.offset) q db in
      record {
        items = map (operator_purchase_out show) items;
        total = total;
        total_amount = amount;
        limit = bounded_limit x.limit;
        offset = bounded_offset x.offset;
      }

  unfoldable pub operator_transaction_history :
      Arrange → Headers → HistoryParams → Db → Reply OperatorPurchaseListOut
  unfolding authenticate checked_state query_of bounded_limit list_purchases
  operator_transaction_history arrange h x db = do
    name ← operator h
    state ← checked_state x.state
    (if is_backwards x.created_from x.created_to
        then refuse 422 (codes "created_from must be earlier than created_to")
        else replies (history_page arrange x (query_of x state) db))

  unfoldable pub operator_purchase_detail : Headers → ℕ → Db → Reply OperatorPurchaseOut
  unfolding authenticate get operator_purchase_out
  operator_purchase_detail h id db = do
    name ← operator h
    p ← found (get id none db)
    replies (operator_purchase_out show p)

  unfoldable pub operator_purchase_events : Headers → ℕ → Db → Reply (List Event)
  unfolding authenticate get list_events_for_operator
  operator_purchase_events h id db = do
    name ← operator h
    p ← found (get id none db)
    replies (list_events_for_operator id db)

  -- The `except` clauses of `operator_resolve_purchase`.
  abbrev pub resolved_or_refused : Outcome (Purchase × Bool) → Reply (OperatorPurchaseOut × Bool)
  resolved_or_refused (ok (p, is_new)) = replies (operator_purchase_out show p, is_new)
  resolved_or_refused (err e) =
      if is_missing e
      then refuse 404 (codes "Purchase not found")
      else if is_conflict e
      then refuses 409 (of_error e)
      else if is_value_error e
      then refuses 422 (of_error e)
      else crashes

  abbrev pub resolve_for :
      ℕ → ℕ → Text → ResolutionIn → Db → Text → Reply (OperatorPurchaseOut × Bool) × Db
  resolve_for now id name x db request_id =
      let (outcome, db') =
        resolve c s.data_secret now id
          (record {
            operator_id = name;
            request_id = request_id;
            decision = x.decision;
            reason = x.reason;
            result_value = x.result_value;
          })
          db in
      (resolved_or_refused outcome, db')

  unfoldable pub operator_resolve_purchase :
      ℕ → ℕ → Headers → ℕ → Text → ResolutionIn → Db → Reply (OperatorPurchaseOut × Bool) × Db
  unfolding authenticate required_request_id resolve
  operator_resolve_purchase now fresh h id header x db =
      and_then (operator h) db
        (λ name. and_then (required_request_id fresh header) db (resolve_for now id name x db))

  abbrev pub read_for : ℕ → Text → Db → Text → Reply (Text × Bool) × Db
  read_for id name db request_id =
      let (outcome, db') = read_result_for_operator c id name request_id s.data_secret db in
      (result_or_refused outcome, db')

  unfoldable pub operator_purchase_result : ℕ → Headers → ℕ → Text → Db → Reply (Text × Bool) × Db
  unfolding authenticate get required_request_id read_result_for_operator
  operator_purchase_result fresh h id header db = and_then (operator h) db (λ name.
      and_then (found (get id none db)) db
        (λ p. and_then (required_request_id fresh header) db (read_for id name db)))
