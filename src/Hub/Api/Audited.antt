-- ===== src/Hub/Api/Audited.antt =====
-- The route of api/hub/app.py that shows a stored code to an operator, and result_access_events.
use homtech_hub.Prelude.{
  ℕ, Text, ◌≡◌, refl, sym, ap, subst, ◌∙◌, Bool, true, false, Bool-cases, Option-cases, inl, inr,
  List, [], ◌∷◌, ◌++◌, Option, none, some, text_eq, text_eq_refl, strip, ◌==◌, arith, Json,
  if◌then◌else◌,
}
use homtech_hub.Hub.Errors.{Outcome, ok, err, access_conflict}
use homtech_hub.Hub.Crypto.{Crypto}
use homtech_hub.Hub.Settings.{Settings}
use homtech_hub.Hub.Repository.Sql.{Sql}
use homtech_hub.Hub.Repository.Table.{Db, ResultAccess, find_row}
use homtech_hub.Hub.Repository.Create.{get}
use homtech_hub.Hub.Repository.Reconcile.{
  readable, find_access, record_access, read_result_for_operator,
}
use homtech_hub.Hub.Api.{
  Reply, replies, refuses, crashes, Headers, authenticate, bad_operator, required_request_id, found,
}
use homtech_hub.Hub.Api.Private.{authenticate-name}
use homtech_hub.Hub.Api.Purchases.{and_then}
use homtech_hub.Hub.Api.Operators.{operator_purchase_result, result_or_refused, read_for}

and_then-replies :
    {A B : Type 0} (r : Reply A) (db : Db) (k : A → Reply B × Db) (b : B)
    → (and_then r db k).0 ≡ replies b
    → (a : A) × (r ≡ replies a) × ((k a).0 ≡ replies b) × ((and_then r db k).1 ≡ (k a).1)
and_then-replies (replies a) db k b e = (a, refl, e, refl)
and_then-replies (refuses st d) db k b e = absurd (ground (arith, e))
and_then-replies crashes db k b e = absurd (ground (arith, e))

find_access-append :
    (operator request : Text) (a : ResultAccess) (accesses : List ResultAccess)
    → find_access operator request accesses ≡ none
    → text_eq a.operator_id operator ≡ true
    → text_eq a.request_id request ≡ true
    → find_access operator request (accesses ++ a ∷ []) ≡ some a
unfolding find_access
find_access-append operator request a [] e same_operator same_request =
    ground (arith, same_operator, same_request)
find_access-append operator request a (x ∷ accesses) e same_operator same_request =
    ground (arith, find_access-append operator request a accesses, e)

abbrev IsRecorded : ℕ → Text → Text → Db → Type 0
IsRecorded id operator request db =
    (a : ResultAccess) × (find_access operator request db.accesses ≡ some a) × (a.purchase_id ≡ id)

record_access-IsRecorded :
    (id : ℕ) (operator request value : Text) (db : Db) (v : Option Text × Bool)
    → (record_access id operator request value db).0 ≡ ok v
    → IsRecorded id operator request (record_access id operator request value db).1
record_access-IsRecorded id operator request value db v h =
    go (find_access operator request db.accesses) refl h
  where
    go :
        (o : Option ResultAccess)
        → find_access operator request db.accesses ≡ o
        → (elim o as (λ _. Outcome (Option Text × Bool) × Db) [
          | some a ↦
              if a.purchase_id == id
              then (ok (some value, false), db)
              else (err access_conflict, db)
          | none ↦ (
            ok (some value, true),
            record db {
              accesses =
                  db.accesses
                  ++ record { purchase_id = id; operator_id = operator; request_id = request } ∷ [];
            },
          )
        ]).0
          ≡ ok v
        → IsRecorded id operator request
            (elim o as (λ _. Outcome (Option Text × Bool) × Db) [
              | some a ↦
                  if a.purchase_id == id
                  then (ok (some value, false), db)
                  else (err access_conflict, db)
              | none ↦ (
                ok (some value, true),
                record db {
                  accesses =
                      db.accesses
                      ++ record { purchase_id = id; operator_id = operator; request_id = request }
                        ∷ [];
                },
              )
            ]).1
    go none e h = (
      record { purchase_id = id; operator_id = operator; request_id = request },
      find_access-append operator request
          (record { purchase_id = id; operator_id = operator; request_id = request }) db.accesses e
          (text_eq_refl operator) (text_eq_refl request),
      refl,
    )
    go (some a) e h = elim (Bool-cases (a.purchase_id == id)) [
      | inl same ↦ (a, ground (arith, same, e), ground (arith, same))
      | inr other ↦ absurd (ground (arith, other, h))
    ]

read_result-cases :
    (c : Crypto) (id : ℕ) (operator request secret : Text) (db : Db) (value : Text) (is_new : Bool)
    → (read_result_for_operator c id operator request secret db).0 ≡ ok (some value, is_new)
    → (v : Text) × (read_result_for_operator c id operator request secret db
        ≡ record_access id operator request v db)
unfolding read_result_for_operator
read_result-cases c id operator request secret db value is_new h =
    elim (Option-cases (find_row id db.purchases)) [
      | inl missing ↦ absurd (ground (arith, missing, h))
      | inr (r, there) ↦ elim (Option-cases (readable r)) [
        | inl unreadable ↦ absurd (ground (arith, there, unreadable, h))
        | inr (ct, stored) ↦ elim (Option-cases (c.decrypt ct secret)) [
          | inl wrong ↦ absurd (ground (arith, there, stored, wrong, h))
          | inr (v, plain) ↦ (v, ground (arith, there, stored, plain))
        ]
      ]
    ]

read_result-IsRecorded :
    (c : Crypto) (id : ℕ) (operator request secret : Text) (db : Db) (value : Text) (is_new : Bool)
    → (read_result_for_operator c id operator request secret db).0 ≡ ok (some value, is_new)
    → IsRecorded id operator request (read_result_for_operator c id operator request secret db).1
read_result-IsRecorded c id operator request secret db value is_new h =
    let (v, same) = read_result-cases c id operator request secret db value is_new h in
    subst (λ o. IsRecorded id operator request o.1) (sym same)
      (record_access-IsRecorded id operator request v db (some value, is_new)
        (ap (λ o. o.0) (sym same) ∙ h))

result_or_refused-replies :
    (o : Outcome (Option Text × Bool)) (value : Text) (is_new : Bool)
    → result_or_refused o ≡ replies (value, is_new)
    → o ≡ ok (some value, is_new)
result_or_refused-replies (ok (some v, b)) value is_new h = ground (arith, h)
result_or_refused-replies (ok (none, b)) value is_new h = absurd (ground (arith, h))
result_or_refused-replies (err e) value is_new h = absurd (ground (arith, h))

-- Whenever the code of a purchase is shown to an operator, the access is on record afterwards: under the
-- operator's name, with the request id of the call, and for that purchase.
pub shown_code_is_recorded :
    (c : Crypto) (s : Settings) (show : Json → Text) (sql : Sql) (fresh : ℕ) (h : Headers) (id : ℕ)
    (header : Text) (db : Db) (value : Text) (is_new : Bool)
    → (operator_purchase_result c s show sql fresh h id header db).0 ≡ replies (value, is_new)
    → (request_id : Text) × (required_request_id fresh header ≡ replies request_id)
      × (a : ResultAccess) × (find_access
            (strip h.name)
            request_id
            (operator_purchase_result c s show sql fresh h id header db).1.accesses
          ≡ some a)
      × (a.purchase_id ≡ id)
unfolding operator_purchase_result
shown_code_is_recorded c s show sql fresh h id header db value is_new e =
    let (name, known, e1, same1) =
      and_then-replies (authenticate bad_operator s.operators h) db
        (λ name.
          and_then (found (get id none db)) db (λ p.
            and_then (required_request_id fresh header) db (read_for c s show sql id name db)))
        (value, is_new) e in
    let (p, exists, e2, same2) =
      and_then-replies (found (get id none db)) db
        (λ p. and_then (required_request_id fresh header) db (read_for c s show sql id name db))
        (value, is_new) e1 in
    let (request_id, given, e3, same3) =
      and_then-replies (required_request_id fresh header) db (read_for c s show sql id name db)
        (value, is_new) e2 in
    let (a, recorded, purchase) =
      read_result-IsRecorded c id name request_id s.data_secret db value is_new (
        result_or_refused-replies (read_result_for_operator c id name request_id s.data_secret db).0
          value is_new e3) in
    (
      request_id,
      given,
      a,
      subst
          (λ n.
            find_access n request_id
              (operator_purchase_result c s show sql fresh h id header db).1.accesses
            ≡ some a)
          (authenticate-name bad_operator s.operators h name known).0
          (ap (λ (d : Db). find_access name request_id d.accesses) (same1 ∙ same2 ∙ same3)
            ∙ recorded),
      purchase,
    )
