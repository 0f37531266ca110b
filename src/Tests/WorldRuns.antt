-- ===== src/Tests/WorldRuns.antt =====
-- Runs of the whole hub.
use homtech_hub.Hub.Crypto.{value_hash}
use homtech_hub.Hub.Repository.Marks.{mark, transition, backoff}
use homtech_hub.Hub.Repository.Claim.{claim_due, candidate, is_due}
use homtech_hub.Hub.Settings.{live_pay_allowed}
use homtech_hub.Hub.Service.Process.{
  process_claimed, dispatch, preflight, preflight_voucher, check_voucher, pay_purchase,
  check_purchase, save_result,
}
use homtech_hub.Hub.Service.Enqueue.{enqueue, validate, check_kind, request_fingerprint}
use homtech_hub.Prelude.{
  true, ◌≤◌, ◌≡◌, refl, List, [], ◌∷◌, length, total, codes, get_elem?, some, map, text_eq, strip,
  any, truncated,
}
use homtech_hub.Hub.Domain.{PurchaseState, valid_request_id}
use homtech_hub.Hub.Repository.Table.{Row, find_row, clashes, purchase_of, uuid_hex}
use homtech_hub.Hub.Repository.Create.{operation_id, create_or_get, find_key, is_taken, new_row}
use homtech_hub.Hub.Service.Arming.{pays}
use homtech_hub.Hub.World.{
  World, Action, request, claim, advance, crash, run, initial, step, advance_worker,
  advance_program, claim_next,
}
use homtech_hub.Hub.World.Shares.{started}
use homtech_hub.Hub.World.History.{
  settled_for_good, never_goes_back, one_purchase_per_key, no_code_twice,
}
use homtech_hub.Hub.Repository.Change.{is_settled, stage}
use homtech_hub.Hub.Repository.Sound.{with_key, with_result}
use homtech_hub.Hub.World.Payments.{paid_at_most_once, paid_only_if_started}
use homtech_hub.Tests.Samples.{crypto, interhub, settings, voucher_request, agreed, delivered, lost}

-- A request; a worker prices and checks it, a second one starts the payment and loses the answer, and
-- a third, after the lease, asks for the status and gets the code.
abbrev lost_answer : List Action
lost_answer =
    request 100 1 voucher_request
    ∷ claim 100 21
    ∷ advance 0 101 agreed
    ∷ advance 0 101 agreed
    ∷ advance 0 102 agreed
    ∷ advance 0 102 agreed
    ∷ claim 103 22
    ∷ advance 0 103 agreed
    ∷ advance 0 104 lost
    ∷ advance 0 105 agreed
    ∷ advance 0 105 agreed
    ∷ claim 300 23
    ∷ advance 0 301 delivered
    ∷ advance 0 302 delivered
    ∷ []

abbrev after : World
after = run crypto interhub settings initial lost_answer

lost_answer_succeeds :
    (map (λ (r : Row). r.state) after.db.purchases ≡ PurchaseState.succeeded ∷ [])
    × (length after.calls ≡ 4)
    × (total (pays (operation_id (codes "interhub") 1)) after.calls ≡ 1)
unfolding run step advance_worker advance_program claim_next enqueue validate check_kind
    live_pay_allowed claim_due candidate is_due mark transition create_or_get find_key is_taken
    new_row operation_id uuid_hex process_claimed dispatch preflight preflight_voucher check_voucher
    pay_purchase check_purchase save_result clashes codes text_eq strip purchase_of backoff
    value_hash request_fingerprint valid_request_id any truncated
lost_answer_succeeds = (refl, refl, refl)

paid_at_most_once_example : total (pays (operation_id (codes "interhub") 1)) after.calls ≤ 1
paid_at_most_once_example =
    paid_at_most_once crypto interhub settings (operation_id (codes "interhub") 1) lost_answer

-- The purchase, delivered.
abbrev first_row : List Row → Row
first_row [] = new_row 0 0 voucher_request []
first_row (r ∷ rows) = r

abbrev delivered_row : Row
delivered_row = first_row after.db.purchases

delivered_row_found :
    (find_row 1 after.db.purchases ≡ some delivered_row)
    × (get_elem? after.db.purchases 0 ≡ some delivered_row)
    × (is_settled delivered_row.state ≡ true)
unfolding run step advance_worker advance_program claim_next enqueue validate check_kind
    live_pay_allowed claim_due candidate is_due mark transition create_or_get find_key is_taken
    new_row operation_id uuid_hex process_claimed dispatch preflight preflight_voucher check_voucher
    pay_purchase check_purchase save_result clashes codes text_eq strip purchase_of backoff
    value_hash request_fingerprint valid_request_id any truncated
delivered_row_found = (refl, refl, refl)

paid_only_if_started_example :
    total (pays delivered_row.provider_operation_id) after.calls ≤ started delivered_row.state
paid_only_if_started_example =
    paid_only_if_started crypto interhub settings lost_answer 0 delivered_row delivered_row_found.1

-- The same request comes again, and a worker looks for work.
abbrev afterwards : List Action
afterwards = request 400 2 voucher_request ∷ claim 9000 24 ∷ crash 0 ∷ []

settled_for_good_example :
    find_row 1 (run crypto interhub settings after afterwards).db.purchases ≡ some delivered_row
settled_for_good_example =
    settled_for_good crypto interhub settings lost_answer afterwards 1 delivered_row
      delivered_row_found.0 delivered_row_found.2

never_goes_back_example :
    (r : Row) × (find_row 1 (run crypto interhub settings after afterwards).db.purchases ≡ some r)
    × (r.consumer_id ≡ delivered_row.consumer_id)
    × (r.idempotency_key ≡ delivered_row.idempotency_key)
    × (r.request_fingerprint ≡ delivered_row.request_fingerprint)
    × (r.provider_operation_id ≡ delivered_row.provider_operation_id)
    × (stage delivered_row.state ≤ stage r.state)
never_goes_back_example =
    never_goes_back crypto interhub settings lost_answer afterwards 1 delivered_row
      delivered_row_found.0

one_purchase_per_key_example :
    total (with_key (codes "seller") (codes "order-1")) after.db.purchases ≤ 1
one_purchase_per_key_example =
    one_purchase_per_key crypto interhub settings lost_answer (codes "seller") (codes "order-1")

no_code_twice_example : total (with_result (codes "supplier-result:v1:CODE")) after.db.purchases ≤ 1
unfolding codes
no_code_twice_example =
    no_code_twice crypto interhub settings lost_answer (codes "supplier-result:v1:CODE") refl
