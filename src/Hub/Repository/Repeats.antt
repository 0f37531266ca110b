-- ===== src/Hub/Repository/Repeats.antt =====
-- Repeated calls of api/hub/repository.py: a consumer's request and an operator's decision.
use homtech_hub.Prelude.{
  ℕ, Text, ◌≡◌, Bool, true, false, ◌&&◌, inl, inr, List, [], ◌∷◌, ◌++◌, none, some, Option-cases,
  Bool-cases, arith, text_eq, text_eq_refl, find, if◌then◌else◌, text_eq_iff, sym, ap, subst, ◌∙◌,
}
use homtech_hub.Hub.Domain.{Purchase, PurchaseRequest}
use homtech_hub.Hub.Crypto.{Crypto}
use homtech_hub.Hub.Errors.{Outcome, ok, err, idempotency_conflict}
use homtech_hub.Hub.Repository.Table.{
  Row, Db, OperatorAction, purchase_of, find_row, put_row, find_row-put_row, find_row-id,
}
use homtech_hub.Hub.Repository.Create.{
  operation_id, new_row, has_key, find_key, is_taken, create_or_get,
}
use homtech_hub.Hub.Repository.Reconcile.{
  find_action, action_of, Resolution, resolution_row, with_resolution, replay, resolve_attention,
}
use homtech_hub.Hub.Repository.Decided.{resolve_attention-cases}

find_key-append :
    (consumer key : Text) (rows : List Row) (r : Row)
    → find_key consumer key rows ≡ none
    → has_key consumer key r ≡ true
    → find_key consumer key (rows ++ r ∷ []) ≡ some r
unfolding find_key find
find_key-append consumer key [] r new mine = ground arith
find_key-append consumer key (x ∷ rows) r new mine =
    ground (arith, find_key-append consumer key rows r)

new_row-has_key :
    (now id : ℕ) (request : PurchaseRequest) (fingerprint : Text)
    → has_key request.consumer_id request.idempotency_key (new_row now id request fingerprint)
      ≡ true
unfolding new_row
new_row-has_key now id request fingerprint =
    ground (arith, text_eq_refl request.consumer_id, text_eq_refl request.idempotency_key)

-- After a request has been accepted, new or not, its key leads to a purchase with its fingerprint.
key_after :
    (now id : ℕ) (request : PurchaseRequest) (fingerprint : Text) (db db' : Db) (p : Purchase)
    (b : Bool)
    → create_or_get now id request fingerprint db ≡ (ok (p, b), db')
    → (r : Row) × (find_key request.consumer_id request.idempotency_key db'.purchases ≡ some r)
      × (text_eq r.request_fingerprint fingerprint ≡ true)
      × (p ≡ purchase_of r)
unfolding create_or_get new_row
key_after now id request fingerprint db db' p b accepted =
    elim (Option-cases (find_key request.consumer_id request.idempotency_key db.purchases)) [
      | inr (r, found) ↦ (r, ground arith, ground arith, ground arith)
      | inl new ↦
          elim (Bool-cases (is_taken id (operation_id request.provider_code id) db.purchases)) [
            | inl taken ↦ ground arith
            | inr free ↦
                let r = new_row now id request fingerprint in
                let put : db'.purchases ≡ db.purchases ++ r ∷ [] = ground arith in
                (
                  r,
                  rw put (
                      find_key-append request.consumer_id request.idempotency_key db.purchases r new
                        (new_row-has_key now id request fingerprint)),
                  text_eq_refl fingerprint,
                  ground arith,
                )
          ]
    ]

-- Once a request has been accepted, any request of the same consumer under the same key, whatever else it
-- holds, its request id included, leaves the tables as they are: with the same fingerprint it gets the
-- purchase that is there, and not as a new one; with another fingerprint it is a conflict.
pub repeated_request :
    (now now' id id' : ℕ) (request request' : PurchaseRequest) (fingerprint fingerprint' : Text)
    (db db' : Db) (p : Purchase) (b : Bool)
    → create_or_get now id request fingerprint db ≡ (ok (p, b), db')
    → request'.consumer_id ≡ request.consumer_id
    → request'.idempotency_key ≡ request.idempotency_key
    → create_or_get now' id' request' fingerprint' db' ≡ (
        if text_eq fingerprint fingerprint'
        then (ok (p, false), db')
        else (err idempotency_conflict, db'))
unfolding create_or_get
repeated_request now now' id id' request request' fingerprint fingerprint' db db' p b accepted
      same_consumer same_key =
    let (r, found, same, is_it) = key_after now id request fingerprint db db' p b accepted in
    let here : find_key request'.consumer_id request'.idempotency_key db'.purchases ≡ some r =
      rw same_consumer (rw same_key found) in
    ground (arith, here, is_it, text_eq_iff r.request_fingerprint fingerprint)

find_action-append :
    (operator request : Text) (actions : List OperatorAction) (a : OperatorAction)
    → find_action operator request actions ≡ none
    → text_eq a.operator_id operator && text_eq a.request_id request ≡ true
    → find_action operator request (actions ++ a ∷ []) ≡ some a
unfolding find_action find
find_action-append operator request [] a new mine = ground arith
find_action-append operator request (x ∷ actions) a new mine =
    ground (arith, find_action-append operator request actions a)

resolution_row-id :
    (c : Crypto) (now : ℕ) (x : Resolution) (r : Row) → (resolution_row c now x r).id ≡ r.id
resolution_row-id c now x r = ground arith

decided_row :
    (c : Crypto) (now id : ℕ) (x : Resolution) (rows : List Row) (r : Row)
    → find_row id rows ≡ some r
    → find_row r.id (put_row (resolution_row c now x r) rows) ≡ some (resolution_row c now x r)
decided_row c now id x rows r found = ground (
  arith,
  find_row-put_row r.id (resolution_row c now x r) rows,
  resolution_row-id c now x r,
  find_row-id id rows r found,
)

replayed_action :
    (operator request fingerprint : Text) (a : OperatorAction) (db db' : Db) (p : Purchase)
    (b : Bool)
    → find_action operator request db.actions ≡ some a
    → replay fingerprint a db ≡ (ok (p, b), db')
    → (r : Row) × (find_action operator request db'.actions ≡ some a)
      × (text_eq a.action_fingerprint fingerprint ≡ true)
      × (find_row a.purchase_id db'.purchases ≡ some r)
      × (p ≡ purchase_of r)
replayed_action operator request fingerprint a db db' p b earlier replayed =
    elim (Option-cases (find_row a.purchase_id db.purchases)) [
      | inl missing ↦ ground arith
      | inr (r, found) ↦ (r, ground arith, ground arith, ground arith, ground arith)
    ]

decided_purchase :
    (c : Crypto) (now : ℕ) (x : Resolution) (r : Row) (p : Purchase) (b : Bool) (db' : Db)
    (result : Outcome (Purchase × Bool) × Db)
    → result.0 ≡ ok (purchase_of (resolution_row c now x r), true)
    → result ≡ (ok (p, b), db')
    → p ≡ purchase_of (resolution_row c now x r)
decided_purchase c now x r p b db' result is same = ground (arith, is, ap (λ o. o.0) same)

-- After a decision has been accepted, its request id leads to an action with its fingerprint.
action_after :
    (c : Crypto) (now id : ℕ) (x : Resolution) (db db' : Db) (p : Purchase) (b : Bool)
    → resolve_attention c now id x db ≡ (ok (p, b), db')
    → (a : OperatorAction) × (r : Row) × (find_action x.operator_id x.request_id db'.actions
        ≡ some a)
      × (text_eq a.action_fingerprint x.fingerprint ≡ true)
      × (find_row a.purchase_id db'.purchases ≡ some r)
      × (p ≡ purchase_of r)
action_after c now id x db db' p b decided = elim (resolve_attention-cases c now id x db) [
  | inl (a, earlier, replayed) ↦
      let (r, there, same, found, is_it) =
        replayed_action x.operator_id x.request_id x.fingerprint a db db' p b earlier
          (sym replayed ∙ decided) in
      (a, r, there, same, found, is_it)
  | inr (inl (e, new, refused)) ↦ ground arith
  | inr (inr (r, new, found, from, free, done)) ↦
      let r' = resolution_row c now x r in
      let same : with_resolution x r r' db ≡ db' = ap (λ o. o.1) (sym done ∙ decided) in
      (
        action_of r.id x,
        r',
        subst (λ d. find_action x.operator_id x.request_id d.actions ≡ some (action_of r.id x)) same
            (find_action-append x.operator_id x.request_id db.actions (action_of r.id x) new
              (ground (arith, text_eq_refl x.operator_id, text_eq_refl x.request_id))),
        text_eq_refl x.fingerprint,
        subst (λ d. find_row r.id d.purchases ≡ some r') same
            (decided_row c now id x db.purchases r found),
        decided_purchase c now x r p b db' _ (ap (λ o. o.0) done) decided,
      )
]

-- A decision that has been carried out and comes again with the same operator, request id and content
-- gives the same purchase, is reported as no new one, and changes nothing, whatever id it names.
pub repeated_decision :
    (c : Crypto) (now now' id id' : ℕ) (x : Resolution) (db db' : Db) (p : Purchase) (b : Bool)
    → resolve_attention c now id x db ≡ (ok (p, b), db')
    → resolve_attention c now' id' x db' ≡ (ok (p, false), db')
unfolding resolve_attention
repeated_decision c now now' id id' x db db' p b decided =
    let (a, r, found, same, there, is_it) = action_after c now id x db db' p b decided in
    ground (arith, found, same, there, is_it)
