-- ===== src/Hub/World/History.antt =====
-- The tables of the hub over its runs: the constraints, and what the past has settled.
use homtech_hub.Prelude.{
  ℕ, ◌≤◌, Text, ◌≡◌, refl, true, false, inl, inr, List, [], ◌∷◌, Option, none, some, Option-cases,
  Bool-cases, total, All, get_elem?, arith, ap, subst, sym, is_empty, get_elem?-All, ◌∙◌,
}
use homtech_hub.Hub.Domain.{Purchase, PurchaseRequest}
use homtech_hub.Hub.Provider.{Response}
use homtech_hub.Hub.Crypto.{Crypto}
use homtech_hub.Hub.Errors.{Outcome, ok, err}
use homtech_hub.Hub.Settings.{Settings, live_pay_allowed}
use homtech_hub.Hub.Repository.Table.{Db, Row, find_row}
use homtech_hub.Hub.Repository.Create.{get}
use homtech_hub.Hub.Repository.Claim.{claim_due}
use homtech_hub.Hub.Repository.Decided.{read_result_for_operator-purchases}
use homtech_hub.Hub.Repository.Change.{
  Change, is_settled, stage, mark-Change, defer_topup-Change, claim_due-Change,
  resolve_attention-Change, create_or_get-Change,
}
use homtech_hub.Hub.Repository.Sound.{Sound, with_key, with_result, Change-Sound}
use homtech_hub.Hub.Repository.Later.{Later, Later-refl, Later-trans, Change-Later}
use homtech_hub.Hub.Program.{Prog, done, raise, ask, transact, permit, defer}
use homtech_hub.Hub.Service.Enqueue.{enqueue, enqueue_checked, validate, request_fingerprint}
use homtech_hub.Hub.Service.Arming.{IsDisciplined}
use homtech_hub.Hub.Operator.{
  OperatorRequest, resolve, resolution_of, resolve_checked, validate_resolution, is_topup_purchase,
}
use homtech_hub.Hub.World.{
  World, Action, request, claim, advance, crash, decide, reveal, set_permissions, advance_program,
  advance_worker, with_claim, claim_next, step, run, initial,
}
use homtech_hub.Hub.World.Payments.{step-Inv, initial-Inv}
use homtech_hub.Hub.World.Covered.{Inv}

-- What holds throughout: the constraints, and that the workers stay disciplined.
pub record Steady (w : World) : Type 0 where
  pub sound : Sound w.db.purchases
  pub account : Inv [] w

module _ (c : Crypto) where
  advance_program-Change :
      (now : ℕ) (r : Response) (p : Prog Purchase) (db : Db)
      → IsDisciplined p
      → Change db.purchases (advance_program c now r p db).1.purchases
  unfolding advance_program
  advance_program-Change now r (done p) db h = inl refl
  advance_program-Change now r (raise e) db h = inl refl
  advance_program-Change now r (ask call k) db h = inl refl
  advance_program-Change now r (transact id token m k) db h = mark-Change c now id token m db h.0
  advance_program-Change now r (permit scope k) db h = inl refl
  advance_program-Change now r (defer id token k) db h = defer_topup-Change now id token db

  advance_worker-Change :
      (i now : ℕ) (r : Response) (w : World)
      → All IsDisciplined w.workers
      → Change w.db.purchases (advance_worker c i now r w).db.purchases
  unfolding advance_worker
  advance_worker-Change i now r w all = elim (Option-cases (get_elem? w.workers i)) [
    | inl gone ↦ rw (gone, advance_worker) (inl refl)
    | inr (p, found) ↦
        rw (found, advance_worker)
          (advance_program-Change now r p w.db (get_elem?-All IsDisciplined w.workers i all found))
  ]

module _ (c : Crypto) (providers : List Text) (s : Settings) where
  with_claim-db :
      (w : World) (db' : Db) (claimed : Option (Purchase × ℕ))
      → (with_claim c providers s w db' claimed).db ≡ db'
  with_claim-db w db' none = refl
  with_claim-db w db' (some (p, token)) = refl

  claim_next-Change :
      (now token : ℕ) (w : World)
      → Sound w.db.purchases
      → Change w.db.purchases (claim_next c providers s now token w).db.purchases
  unfolding claim_next
  claim_next-Change now token w sound = elim (Bool-cases (live_pay_allowed s)) [
    | inr paused ↦ rw paused (inl refl)
    | inl live ↦
        let (claimed, db') = claim_due now token s.lease_sec w.db in
        rw live (
          subst (λ d. Change w.db.purchases d.purchases) (sym (with_claim-db w db' claimed))
            (claim_due-Change now token s.lease_sec w.db sound.ids))
  ]

  enqueue-Change :
      (now id : ℕ) (r : PurchaseRequest) (db : Db)
      → Change db.purchases (enqueue c providers s now id r db).1.purchases
  unfolding enqueue
  enqueue-Change now id r db = go (validate providers s r db)
    where
      go :
          (checks : Outcome (Unit {0}))
          → Change db.purchases (enqueue_checked c now id r db checks).1.purchases
      go (ok _) = create_or_get-Change now id r (request_fingerprint c r) db
      go (err e) = inl refl

  resolve-Change :
      (now id : ℕ) (x : OperatorRequest) (db : Db)
      → Change db.purchases (resolve c s.data_secret now id x db).1.purchases
  unfolding resolve
  resolve-Change now id x db = go (validate_resolution x (is_topup_purchase (get id none db)))
    where
      go :
          (checks : Outcome (Unit {0}))
          → Change db.purchases (resolve_checked c s.data_secret now id x db checks).1.purchases
      go (ok _) = resolve_attention-Change c now id (resolution_of c s.data_secret id x) db
      go (err e) = inl refl

  step-Change :
      (w : World) (a : Action)
      → Steady w
      → Change w.db.purchases (step c providers s w a).db.purchases
  unfolding step
  step-Change w (request now id r) h = enqueue-Change now id r w.db
  step-Change w (claim now token) h = claim_next-Change now token w h.sound
  step-Change w (advance i now r) h = advance_worker-Change c i now r w h.account.disciplined
  step-Change w (crash i) h = inl refl
  step-Change w (decide now id x) h = resolve-Change now id x w.db
  step-Change w (reveal id operator request_id) h =
      inl (read_result_for_operator-purchases c id operator request_id s.data_secret w.db)
  step-Change w (set_permissions ps) h = inl refl

  step-Steady : (w : World) (a : Action) → Steady w → Steady (step c providers s w a)
  step-Steady w a h = record {
    sound = Change-Sound w.db.purchases _ h.sound (step-Change w a h);
    account = step-Inv c providers s [] w a h.account;
  }

  pub run-Steady :
      (w : World) (actions : List Action) → Steady w → Steady (run c providers s w actions)
  unfolding run
  run-Steady w [] h = h
  run-Steady w (a ∷ actions) h = run-Steady (step c providers s w a) actions (step-Steady w a h)

  pub initial-Steady : Steady initial
  initial-Steady = record {
    sound = record {
      ids = λ id. omega arith;
      keys = λ consumer key. omega arith;
      results = λ hash full. omega arith;
    };
    account = initial-Inv c providers s [];
  }

  run-Later :
      (w : World) (actions : List Action) (id : ℕ) (r : Row)
      → Steady w
      → find_row id w.db.purchases ≡ some r
      → (r' : Row) × (find_row id (run c providers s w actions).db.purchases ≡ some r') × Later r r'
  unfolding run
  run-Later w [] id r h found = (r, found, Later-refl r)
  run-Later w (a ∷ actions) id r h found =
      let (r₁, found₁, later₁) = Change-Later w.db.purchases _ id r (step-Change w a h) found in
      let (r₂, found₂, later₂) =
        run-Later (step c providers s w a) actions id r₁ (step-Steady w a h) found₁ in
      (r₂, found₂, Later-trans r r₁ r₂ later₁ later₂)

  -- However the actions go on, a purchase stays in the table, under the same consumer, key, fingerprint
  -- and operation id, and its state never moves back to an earlier stage.
  pub never_goes_back :
      (before after : List Action) (id : ℕ) (r : Row)
      → find_row id (run c providers s initial before).db.purchases ≡ some r
      → (r' : Row) × (find_row id
            (run c providers s (run c providers s initial before) after).db.purchases
          ≡ some r')
        × (r'.consumer_id ≡ r.consumer_id)
        × (r'.idempotency_key ≡ r.idempotency_key)
        × (r'.request_fingerprint ≡ r.request_fingerprint)
        × (r'.provider_operation_id ≡ r.provider_operation_id)
        × (stage r.state ≤ stage r'.state)
  never_goes_back before after id r found =
      let (r', there, later) =
        run-Later (run c providers s initial before) after id r
          (run-Steady initial before initial-Steady) found in
      (
        r', there, later.consumer_id, later.idempotency_key, later.request_fingerprint,
        later.provider_operation_id, later.forward,
      )

  -- A purchase that has succeeded or failed keeps its whole row, its code included, whatever follows.
  pub settled_for_good :
      (before after : List Action) (id : ℕ) (r : Row)
      → find_row id (run c providers s initial before).db.purchases ≡ some r
      → is_settled r.state ≡ true
      → find_row id (run c providers s (run c providers s initial before) after).db.purchases
        ≡ some r
  settled_for_good before after id r found final =
      let (r', there, later) =
        run-Later (run c providers s initial before) after id r
          (run-Steady initial before initial-Steady) found in
      there ∙ ap some (later.settled final)

  -- However often a consumer repeats a request, there is at most one purchase under its key.
  pub one_purchase_per_key :
      (actions : List Action) (consumer key : Text)
      → total (with_key consumer key) (run c providers s initial actions).db.purchases ≤ 1
  one_purchase_per_key actions consumer key =
      (run-Steady initial actions initial-Steady).sound.keys consumer key

  -- No two purchases hold the same code: at most one row has any given non-empty result hash.
  pub no_code_twice :
      (actions : List Action) (hash : Text)
      → is_empty hash ≡ false
      → total (with_result hash) (run c providers s initial actions).db.purchases ≤ 1
  no_code_twice actions hash full =
      (run-Steady initial actions initial-Steady).sound.results hash full
