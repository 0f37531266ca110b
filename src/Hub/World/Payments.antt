-- ===== src/Hub/World/Payments.antt =====
-- The calls of pay that the provider receives, whatever the workers of api/hub/worker.py, the API and the
-- operators do, and in whatever order.
use homtech_hub.Hub.Repository.Create.{get}
use homtech_hub.Hub.Errors.{Outcome, ok, err}
use homtech_hub.Prelude.{
  ℕ, ◌≤◌, Text, ◌≡◌, refl, inl, inr, List, [], ◌∷◌, Option, none, some, Bool-cases, total,
  get_elem?, remove_at, get_elem?-total, remove_at-All, arith, remove_at-total-le,
}
use homtech_hub.Hub.Domain.{Purchase, PurchaseRequest}
use homtech_hub.Hub.Crypto.{Crypto}
use homtech_hub.Hub.Settings.{Settings, live_pay_allowed}
use homtech_hub.Hub.Repository.Table.{Db, Row}
use homtech_hub.Hub.Repository.Claim.{claim_due}
use homtech_hub.Hub.Repository.Decided.{read_result_for_operator-purchases}
use homtech_hub.Hub.Service.Enqueue.{enqueue, validate, request_fingerprint, enqueue_checked}
use homtech_hub.Hub.Service.Arming.{pays, pending, IsDisciplined}
use homtech_hub.Hub.Service.Armed.{process_claimed-IsFresh}
use homtech_hub.Hub.Operator.{
  OperatorRequest, resolve, resolution_of, validate_resolution, resolve_checked, is_topup_purchase,
}
use homtech_hub.Hub.World.{
  World, Action, request, claim, advance, crash, decide, reveal, set_permissions, claim_next, step,
  run, initial, with_claim,
}
use homtech_hub.Hub.World.Shares.{
  share, owns, share-le-owns, Grows, claim_due-Grows, resolve_attention-Grows, create_or_get-Grows,
  same_purchases-Grows, started,
}
use homtech_hub.Hub.World.Covered.{Inv, advance_worker-Inv, own_share, with_db-Inv}

module _ (c : Crypto) (providers : List Text) (s : Settings) (op : Text) where
  with_claim-Inv :
      (w : World) (db' : Db) (claimed : Option (Purchase × ℕ))
      → Grows op 0 w.db.purchases db'.purchases
      → Inv op w
      → Inv op (with_claim c providers s w db' claimed)
  with_claim-Inv w db' none grows inv = with_db-Inv op w db' grows inv
  with_claim-Inv w db' (some (p, token)) grows inv =
      let fresh = process_claimed-IsFresh c providers s p token in
      record {
        disciplined = (fresh.disciplined, inv.disciplined);
        single = grows.1 inv.single;
        counted = omega (arith, grows, inv.counted, fresh.unarmed op);
      }

  claim_next-Inv :
      (now token : ℕ) (w : World) → Inv op w → Inv op (claim_next c providers s now token w)
  unfolding claim_next
  claim_next-Inv now token w inv = elim (Bool-cases (live_pay_allowed s)) [
    | inl live ↦ rw live (
        with_claim-Inv w (claim_due now token s.lease_sec w.db).1
          (claim_due now token s.lease_sec w.db).0 (claim_due-Grows op now token s.lease_sec w.db)
          inv)
    | inr paused ↦ rw paused inv
  ]

  enqueue-Grows :
      (now id : ℕ) (r : PurchaseRequest) (db : Db)
      → Grows op 0 db.purchases (enqueue c providers s now id r db).1.purchases
  unfolding enqueue
  enqueue-Grows now id r db = go (validate providers s r db)
    where
      go :
          (checks : Outcome (Unit {0}))
          → Grows op 0 db.purchases (enqueue_checked c now id r db checks).1.purchases
      go (ok _) = create_or_get-Grows op now id r (request_fingerprint c r) db
      go (err e) = (omega arith, λ one. one)

  resolve-Grows :
      (now id : ℕ) (x : OperatorRequest) (db : Db)
      → Grows op 0 db.purchases (resolve c s.data_secret now id x db).1.purchases
  unfolding resolve
  resolve-Grows now id x db = go (validate_resolution x (is_topup_purchase (get id none db)))
    where
      go :
          (checks : Outcome (Unit {0}))
          → Grows op 0 db.purchases (resolve_checked c s.data_secret now id x db checks).1.purchases
      go (ok _) = resolve_attention-Grows op c now id (resolution_of c s.data_secret id x) db
      go (err e) = (omega arith, λ one. one)

  -- Every action of anybody keeps the account.
  pub step-Inv : (w : World) (a : Action) → Inv op w → Inv op (step c providers s w a)
  unfolding step
  step-Inv w (request now id r) inv = with_db-Inv op w _ (enqueue-Grows now id r w.db) inv
  step-Inv w (claim now token) inv = claim_next-Inv now token w inv
  step-Inv w (advance i now r) inv = advance_worker-Inv c op i now r w inv
  step-Inv w (crash i) inv = record {
    disciplined = remove_at-All IsDisciplined w.workers i inv.disciplined;
    single = inv.single;
    counted = omega (arith, inv.counted, remove_at-total-le (pending op) w.workers i);
  }
  step-Inv w (decide now id x) inv = with_db-Inv op w _ (resolve-Grows now id x w.db) inv
  step-Inv w (reveal id operator request_id) inv =
      with_db-Inv op w _
        (same_purchases-Grows op _ _
          (read_result_for_operator-purchases c id operator request_id s.data_secret w.db))
        inv
  step-Inv w (set_permissions ps) inv = with_db-Inv op w _ (omega arith, λ one. one) inv

  run-Inv : (w : World) (actions : List Action) → Inv op w → Inv op (run c providers s w actions)
  unfolding run
  run-Inv w [] inv = inv
  run-Inv w (a ∷ actions) inv = run-Inv (step c providers s w a) actions (step-Inv w a inv)

  pub initial-Inv : Inv op initial
  initial-Inv = record { disciplined = tt; single = omega arith; counted = omega arith }

  -- Whatever requests, claims, answers, crashes and decisions come in whatever order, the provider is
  -- asked at most once to pay an operation.
  pub paid_at_most_once :
      (actions : List Action) → total (pays op) (run c providers s initial actions).calls ≤ 1
  paid_at_most_once actions =
      let inv = run-Inv initial actions initial-Inv in
      omega (
        arith,
        inv.counted,
        inv.single,
        share-le-owns op (run c providers s initial actions).db.purchases,
      )

  share-of-row :
      (rows : List Row) (i : ℕ) (r : Row)
      → get_elem? rows i ≡ some r
      → r.provider_operation_id ≡ op
      → total (owns op) rows ≤ 1
      → total (share op) rows ≤ started r.state
  share-of-row rows i r found mine one = omega (
    arith,
    get_elem?-total (share op) rows i r found,
    get_elem?-total (owns op) rows i r found,
    share-le-owns op (remove_at rows i),
    own_share op r mine,
  )

-- A purchase that is created or checked has not been paid for, and any other at most once: the start
-- of a payment is in the table before the provider is asked.
pub paid_only_if_started :
    (c : Crypto) (providers : List Text) (s : Settings) (actions : List Action) (i : ℕ) (r : Row)
    → get_elem? (run c providers s initial actions).db.purchases i ≡ some r
    → total (pays r.provider_operation_id) (run c providers s initial actions).calls
      ≤ started r.state
paid_only_if_started c providers s actions i r found =
    let op = r.provider_operation_id in
    let w = run c providers s initial actions in
    let inv = run-Inv c providers s op initial actions (initial-Inv c providers s op) in
    omega
      (arith, inv.counted, share-of-row c providers s op w.db.purchases i r found refl inv.single)
