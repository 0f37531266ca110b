-- ===== src/Tests/Tables.antt =====
-- Transactions on small tables.
use homtech_hub.Prelude.{
  List, ◌++◌, ◌⊎◌, Bool, ℕ, ◌≤◌, ◌≡◌, refl, true, false, ◌∷◌, [], some, none, if◌then◌else◌,
  text_eq, codes, arith, ◌==◌, any, strip,
}
use homtech_hub.Hub.Domain.{Purchase, PurchaseState, PurchaseRequest, valid_request_id}
use homtech_hub.Hub.Crypto.{confirm_failed}
use homtech_hub.Hub.Errors.{
  Outcome, ok, err, lease_or_state_changed, idempotency_conflict, unknown_provider,
}
use homtech_hub.Hub.Repository.Table.{
  Row, Db, EventType, event_of, purchase_of, find_row, put_row, clashes, uuid_hex,
}
use homtech_hub.Hub.Repository.Create.{operation_id, new_row, find_key, is_taken, create_or_get}
use homtech_hub.Hub.Repository.Claim.{candidate, is_due, leased, claim_due}
use homtech_hub.Hub.Repository.Marks.{
  mark, Mark, mark_payment_started, mark_preflight_failed, defer_topup,
}
use homtech_hub.Hub.Repository.Change.{is_settled, claim_due-Change}
use homtech_hub.Hub.Repository.Unleased.{MarkCall, marked}
use homtech_hub.Hub.Repository.Handover.{keeps_lease, stale_worker_is_refused, mark_hands_back}
use homtech_hub.Hub.Repository.Sound.{Sound, Change-Sound}
use homtech_hub.Hub.Repository.Reconcile.{
  Resolution, resolve_attention, resolution_row, find_action,
}
use homtech_hub.Hub.Repository.Leases.{claim_takes_earliest, lease_is_exclusive}
use homtech_hub.Hub.Repository.Repeats.{repeated_request, repeated_decision}
use homtech_hub.Hub.Service.Enqueue.{enqueue, validate, check_kind, request_fingerprint}
use homtech_hub.Hub.Service.Accepted.{IsAcceptable, enqueue-IsAcceptable, refused_leaves_no_trace}
use homtech_hub.Hub.World.{World, request, run, step, initial, empty_db}
use homtech_hub.Hub.World.History.{run-Steady, initial-Steady}
use homtech_hub.Tests.Samples.{crypto, interhub, settings, voucher_request}

abbrev fresh : Row
fresh = new_row 100 1 voucher_request (codes "fp")

abbrev one_row : Db
one_row = record empty_db { purchases = fresh ∷ [] }

one_row-Sound : Sound one_row.purchases
one_row-Sound = record {
  ids = λ id. ground arith;
  keys = λ consumer key. ground arith;
  results = λ hash full. ground arith;
}

fresh-is_due : is_due 101 fresh ≡ true
unfolding is_due new_row
fresh-is_due = refl

claim_takes_earliest_example :
    (due : Row) × (find_row due.id one_row.purchases ≡ some due)
    × (is_due 101 due ≡ true)
    × (due.next_attempt_at ≤ fresh.next_attempt_at)
    × (claim_due 101 21 60 one_row ≡ (
      some (purchase_of (leased 101 21 60 due), 21),
      record one_row { purchases = put_row (leased 101 21 60 due) one_row.purchases },
    ))
claim_takes_earliest_example =
    claim_takes_earliest 101 21 60 one_row 0 fresh one_row-Sound refl fresh-is_due

-- Of two due purchases, each goes to a worker of its own.
abbrev other_request : PurchaseRequest
other_request = record voucher_request { idempotency_key = codes "order-2" }

abbrev two_requests : World
two_requests =
    run crypto interhub settings initial
      (request 100 1 voucher_request ∷ request 100 2 other_request ∷ [])

abbrev two_rows-Sound : Sound two_requests.db.purchases
two_rows-Sound =
    (run-Steady crypto interhub settings initial
      (request 100 1 voucher_request ∷ request 100 2 other_request ∷ [])
      (initial-Steady crypto interhub settings)).sound

abbrev row_of : ℕ → Db → Row
row_of id db = elim (find_row id db.purchases) [ none ↦ fresh | some r ↦ r ]

abbrev first_leased : Row
first_leased = leased 101 21 60 (row_of 1 two_requests.db)

abbrev after_first : Db
after_first = (claim_due 101 21 60 two_requests.db).1

abbrev second_leased : Row
second_leased = leased 110 22 60 (row_of 2 two_requests.db)

abbrev after_second : Db
after_second = (claim_due 110 22 60 after_first).1

two_claims :
    (claim_due 101 21 60 two_requests.db ≡ (some (purchase_of first_leased, 21), after_first))
    × (claim_due 110 22 60 after_first ≡ (some (purchase_of second_leased, 22), after_second))
unfolding claim_due candidate is_due run step enqueue validate check_kind create_or_get find_key
    is_taken new_row codes text_eq strip valid_request_id request_fingerprint any operation_id
    uuid_hex
two_claims = (refl, refl)

lease_is_exclusive_example :
    ((purchase_of second_leased).id == (purchase_of first_leased).id) ≡ false
lease_is_exclusive_example =
    lease_is_exclusive 101 110 21 22 60 60 two_requests.db after_first after_second
      (purchase_of first_leased) (purchase_of second_leased) 21 22 two_rows-Sound two_claims.0
      two_claims.1 (omega arith)

after_first-Sound : Sound after_first.purchases
after_first-Sound =
    Change-Sound two_requests.db.purchases after_first.purchases two_rows-Sound
      (claim_due-Change 101 21 60 two_requests.db two_rows-Sound.ids)

-- The first worker at the purchase of the second, which has been refused in the meantime.
abbrev other_calls : List MarkCall
other_calls =
    record { now = 112; id = 2; token = 22; method = mark_preflight_failed (codes "no stock") } ∷ []

stale_worker_is_refused_example :
    (mark crypto 115 2 21 mark_payment_started (marked crypto other_calls after_second)
      ≡ (err lease_or_state_changed, marked crypto other_calls after_second))
    × (defer_topup 115 2 21 (marked crypto other_calls after_second)
        ≡ marked crypto other_calls after_second)
unfolding purchase_of run enqueue text_eq codes strip valid_request_id create_or_get mark
    defer_topup find_key is_taken new_row operation_id
stale_worker_is_refused_example =
    stale_worker_is_refused crypto 110 115 21 22 60 22 (purchase_of second_leased) after_first
      after_second other_calls mark_payment_started after_first-Sound two_claims.1 refl

abbrev refusal : Mark
refusal = mark_preflight_failed (codes "no stock")

abbrev after_refusal : Db
after_refusal = (mark crypto 112 1 21 refusal after_first).1

abbrev turned_down : Row
turned_down = row_of 1 after_refusal

refusal_is :
    mark crypto 112 1 21 refusal after_first ≡ (ok (purchase_of turned_down), after_refusal)
unfolding mark claim_due candidate is_due run step enqueue validate check_kind create_or_get
    find_key is_taken new_row codes text_eq strip valid_request_id request_fingerprint any
    operation_id uuid_hex clashes
refusal_is = refl

mark_hands_back_example :
    (r : Row) × (r' : Row) × (find_row 1 after_first.purchases ≡ some r)
    × (find_row 1 after_refusal.purchases ≡ some r')
    × (purchase_of turned_down ≡ purchase_of r')
    × (r.lease_token ≡ some 21)
    × (is_settled r.state ≡ false)
    × (find_row 2 after_refusal.purchases ≡ find_row 2 after_first.purchases)
    × (after_refusal.events
        ≡ after_first.events
          ++ event_of r' EventType.state_changed (some r.state) (some r'.state) none ∷ [])
    × (r'.lease_token ≡ (if keeps_lease refusal then some 21 else none))
    × (r'.lease_until ≡ (if keeps_lease refusal then r.lease_until else none))
    × ((keeps_lease refusal ≡ true)
        ⊎ (mark crypto 120 1 21 refusal after_refusal
            ≡ (err lease_or_state_changed, after_refusal)))
mark_hands_back_example =
    mark_hands_back crypto 112 1 21 refusal (purchase_of turned_down) after_first after_refusal 2
      120 21 refusal refusal_is refl

-- The same request again, and another one under its key.
abbrev created_once : Outcome (Purchase × Bool) × Db
created_once = create_or_get 100 1 voucher_request (codes "fp") empty_db

created_once_is :
    created_once
    ≡ (ok (purchase_of (new_row 100 1 voucher_request (codes "fp")), true), created_once.1)
unfolding create_or_get find_key is_taken
created_once_is = refl

-- The same key with another request id.
abbrev sent_again : PurchaseRequest
sent_again = record voucher_request { request_id = codes "retry-2" }

repeated_request_example : create_or_get 200 2 sent_again (codes "other") created_once.1 ≡ (
    if text_eq (codes "fp") (codes "other")
    then (ok (purchase_of (new_row 100 1 voucher_request (codes "fp")), false), created_once.1)
    else (err idempotency_conflict, created_once.1))
repeated_request_example =
    repeated_request 100 200 1 2 voucher_request sent_again (codes "fp") (codes "other") empty_db
      created_once.1 (purchase_of (new_row 100 1 voucher_request (codes "fp"))) true created_once_is
      refl refl

-- A decision on a purchase that awaits attention, sent twice.
abbrev waiting : Db
waiting = record empty_db {
  purchases =
      record fresh { purchase = record fresh.purchase { state = PurchaseState.requires_attention } }
      ∷ [];
}

abbrev decision : Resolution
decision = record {
  operator_id = codes "operator";
  request_id = codes "decision-1";
  fingerprint = codes "digest";
  decision = confirm_failed;
  reason = codes "refused by the supplier";
  result_value = [];
  result_hash = [];
  data_secret = codes "secret";
}

abbrev decided : Outcome (Purchase × Bool) × Db
decided = resolve_attention crypto 300 1 decision waiting

abbrev decided_purchase : Purchase
decided_purchase = purchase_of (resolution_row crypto 300 decision (row_of 1 waiting))

decided_is : decided ≡ (ok (decided_purchase, true), decided.1)
unfolding resolve_attention find_action new_row clashes
decided_is = refl

repeated_decision_example :
    resolve_attention crypto 400 7 decision decided.1 ≡ (ok (decided_purchase, false), decided.1)
repeated_decision_example =
    repeated_decision crypto 300 400 1 7 decision waiting decided.1 decided_purchase true decided_is

-- The checks of a request.
abbrev accepted : Outcome (Purchase × Bool)
accepted = (enqueue crypto interhub settings 100 1 voucher_request empty_db).0

abbrev accepted_purchase : Purchase
accepted_purchase =
    purchase_of (row_of 1 (enqueue crypto interhub settings 100 1 voucher_request empty_db).1)

accepted_is : accepted ≡ ok (accepted_purchase, true)
unfolding claim_due candidate is_due run step enqueue validate check_kind create_or_get find_key
    is_taken new_row codes text_eq strip valid_request_id request_fingerprint any
accepted_is = refl

enqueue-IsAcceptable_example : IsAcceptable interhub settings voucher_request empty_db
enqueue-IsAcceptable_example =
    enqueue-IsAcceptable crypto interhub settings 100 1 voucher_request empty_db accepted_purchase
      true accepted_is

unknown_is : (enqueue crypto [] settings 100 1 voucher_request one_row).0 ≡ err unknown_provider
unfolding enqueue validate any
unknown_is = refl

refused_leaves_no_trace_example :
    (enqueue crypto [] settings 100 1 voucher_request one_row).1 ≡ one_row
refused_leaves_no_trace_example =
    refused_leaves_no_trace crypto [] settings 100 1 voucher_request one_row unknown_provider
      unknown_is
