-- ===== src/Hub/Repository/Decided.antt =====
-- What `resolve_attention` of api/hub/repository.py comes to, on each of its branches.
use homtech_hub.Prelude.{
  ℕ, Text, ◌≡◌, true, false, ◌⊎◌, inl, inr, none, some, Option-cases, Bool-cases, arith,
}
use homtech_hub.Hub.Domain.{PurchaseState, requires_attention}
use homtech_hub.Hub.Errors.{
  Error, ok, err, purchase_not_found, not_awaiting_attention, duplicate_supplier_result,
}
use homtech_hub.Hub.Crypto.{Crypto}
use homtech_hub.Hub.Repository.Table.{Row, Db, OperatorAction, purchase_of, find_row, clashes}
use homtech_hub.Hub.Repository.Reconcile.{
  find_action, is_attention, resolution_row, with_resolution, Resolution, replay, resolve_attention,
  read_result_for_operator,
}

attention_iff : (s : PurchaseState) → is_attention s ≡ true → s ≡ requires_attention
attention_iff s h = ground arith

-- A repeated request replays the earlier action; a new one is refused with nothing changed, or it moves
-- a purchase that awaits attention.
pub resolve_attention-cases :
    (c : Crypto) (now id : ℕ) (x : Resolution) (db : Db)
    → ((a : OperatorAction) × (find_action x.operator_id x.request_id db.actions ≡ some a)
        × (resolve_attention c now id x db ≡ replay x.fingerprint a db))
      ⊎ ((e : Error) × (find_action x.operator_id x.request_id db.actions ≡ none)
          × (resolve_attention c now id x db ≡ (err e, db)))
      ⊎ ((r : Row) × (find_action x.operator_id x.request_id db.actions ≡ none)
          × (find_row id db.purchases ≡ some r)
          × (r.state ≡ requires_attention)
          × (clashes (resolution_row c now x r) db.purchases ≡ false)
          × (resolve_attention c now id x db ≡ (
            ok (purchase_of (resolution_row c now x r), true),
            with_resolution x r (resolution_row c now x r) db,
          )))
unfolding resolve_attention
resolve_attention-cases c now id x db =
    elim (Option-cases (find_action x.operator_id x.request_id db.actions)) [
      | inr (a, earlier) ↦ inl (a, earlier, ground arith)
      | inl new ↦ elim (Option-cases (find_row id db.purchases)) [
        | inl missing ↦ inr (inl (purchase_not_found, new, ground arith))
        | inr (r, found) ↦ elim (Bool-cases (is_attention r.state)) [
          | inr other ↦ inr (inl (not_awaiting_attention, new, ground arith))
          | inl waits ↦ elim (Bool-cases (clashes (resolution_row c now x r) db.purchases)) [
            | inl clash ↦ inr (inl (duplicate_supplier_result, new, ground arith))
            | inr free ↦ inr (inr (r, new, found, attention_iff r.state waits, free, ground arith))
          ]
        ]
      ]
    ]

-- A replay changes nothing.
pub replay_unchanged :
    (fingerprint : Text) (a : OperatorAction) (db : Db) → (replay fingerprint a db).1 ≡ db
replay_unchanged fingerprint a db = ground arith

-- Reading a result touches the journal of accesses at most.
pub read_result_for_operator-purchases :
    (c : Crypto) (id : ℕ) (operator request secret : Text) (db : Db)
    → (read_result_for_operator c id operator request secret db).1.purchases ≡ db.purchases
unfolding read_result_for_operator
read_result_for_operator-purchases c id operator request secret db = ground arith
