-- ===== src/Hub/World.antt =====
-- The running system: the database, the workers (api/hub/worker.py) that are in the middle of a
-- purchase, and the calls that the provider has received. The API (api/hub/app.py), the operators and
-- any number of worker processes act in any order; a worker may stop at any point.
pub mod Shares
pub mod Covered
pub mod Payments
pub mod History
use homtech_hub.Prelude.{
  ℕ, Text, List, [], ◌∷◌, ◌++◌, Option, none, some, if◌then◌else◌, get_elem?, set, remove_at,
}
use homtech_hub.Hub.Domain.{Purchase, PurchaseRequest}
use homtech_hub.Hub.Provider.{Response, Call}
use homtech_hub.Hub.Crypto.{Crypto}
use homtech_hub.Hub.Settings.{Settings, live_pay_allowed}
use homtech_hub.Hub.Repository.Table.{Db, TopupPermission}
use homtech_hub.Hub.Repository.Marks.{mark, defer_topup, topup_allowed}
use homtech_hub.Hub.Repository.Claim.{claim_due}
use homtech_hub.Hub.Repository.Reconcile.{read_result_for_operator}
use homtech_hub.Hub.Program.{Prog, done, raise, ask, transact, permit, defer}
use homtech_hub.Hub.Service.Enqueue.{enqueue}
use homtech_hub.Hub.Service.Process.{process_claimed}
use homtech_hub.Hub.Operator.{OperatorRequest, resolve}

pub record World : Type 0 where
  pub db : Db
  pub workers : List (Prog Purchase)
  pub calls : List Call

-- `now` comes with each action, and with it the UUIDs that the code draws and the provider's answer.
pub data Action : Type 0 where
  request : ℕ → ℕ → PurchaseRequest → Action
  claim : ℕ → ℕ → Action
  advance : ℕ → ℕ → Response → Action
  crash : ℕ → Action
  decide : ℕ → ℕ → OperatorRequest → Action
  reveal : ℕ → Text → Text → Action
  set_permissions : List TopupPermission → Action

abbrev pub replaced : List (Prog Purchase) → ℕ → Option (Prog Purchase) → List (Prog Purchase)
replaced workers i none = remove_at workers i
replaced workers i (some p) = set workers i p

module _ (c : Crypto) where
  -- One action of a worker; after the last one its program is gone.
  unfoldable pub advance_program :
      ℕ → Response → Prog Purchase → Db → Option (Prog Purchase) × Db × List Call
  advance_program now r (done p) db = (none, db, [])
  advance_program now r (raise e) db = (none, db, [])
  advance_program now r (ask call k) db = (some (k r), db, call ∷ [])
  advance_program now r (transact id token m k) db =
      let (outcome, db') = mark c now id token m db in (some (k outcome), db', [])
  advance_program now r (permit scope k) db = (some (k (topup_allowed scope db)), db, [])
  advance_program now r (defer id token k) db = (some k, defer_topup now id token db, [])

  abbrev pub advanced : ℕ → ℕ → Response → World → Prog Purchase → World
  advanced i now r w p =
      let (next, db', calls) = advance_program now r p w.db in
      record { db = db'; workers = replaced w.workers i next; calls = w.calls ++ calls }

  unfoldable pub advance_worker : ℕ → ℕ → Response → World → World
  unfolding advance_program
  advance_worker i now r w = elim (get_elem? w.workers i) [
    | none ↦ w
    | some p ↦ advanced i now r w p
  ]

-- A run of the system, without the answers that its clients get.
module _ (c : Crypto) (providers : List Text) (s : Settings) where
  -- One turn of the loop of `main`: nothing is claimed while the kill switches pause purchases.
  abbrev pub with_claim : World → Db → Option (Purchase × ℕ) → World
  with_claim w db' none = record w { db = db' }
  with_claim w db' (some (p, token)) = record w {
    db = db';
    workers = process_claimed c providers s p token ∷ w.workers;
  }

  unfoldable pub claim_next : ℕ → ℕ → World → World
  claim_next now token w =
      if live_pay_allowed s
      then (let (claimed, db') = claim_due now token s.lease_sec w.db in with_claim w db' claimed)
      else w

  unfoldable pub step : World → Action → World
  unfolding advance_worker claim_next
  step w (request now id r) = record w { db = (enqueue c providers s now id r w.db).1 }
  step w (claim now token) = claim_next now token w
  step w (advance i now r) = advance_worker c i now r w
  step w (crash i) = record w { workers = remove_at w.workers i }
  step w (decide now id x) = record w { db = (resolve c s.data_secret now id x w.db).1 }
  step w (reveal id operator request_id) = record w {
    db = (read_result_for_operator c id operator request_id s.data_secret w.db).1;
  }
  step w (set_permissions ps) = record w { db = record w.db { permissions = ps } }

  unfoldable pub run : World → List Action → World
  unfolding step
  run w [] = w
  run w (a ∷ actions) = run (step w a) actions

abbrev pub empty_db : Db
empty_db = record { purchases = []; events = []; actions = []; accesses = []; permissions = [] }

abbrev pub initial : World
initial = record { db = empty_db; workers = []; calls = [] }
