-- ===== src/Airpay/Journal.antt =====
-- One transaction of api/airpay_runtime with everything that can happen to it: calls of `AirpayPurchase`
-- and decisions, one at a time under its lock (`AirpayRepository.locked`), renewals, the answers of
-- Airpay, and the end of the process at any point.
pub mod Safe
pub mod KeepsCheck
pub mod Keeps
pub mod KeepsVoucher
pub mod Settles
pub mod Bounded
pub mod Bounds
pub mod Final
use homtech_hub.Prelude.{
  ℕ, ◌+◌, Text, Bool, true, false, not, ◌&&◌, ◌||◌, List, [], ◌∷◌, ◌++◌, Option, none, some, Json,
  Fields, is_empty, is_some, if◌then◌else◌,
}
use homtech_hub.Hub.Crypto.{Crypto}
use homtech_hub.Airpay.Http.{Try}
use homtech_hub.Airpay.Money.{Balance}
use homtech_hub.Airpay.Transaction.{Transaction, is_paid, is_processing}
use homtech_hub.Airpay.Run.{
  Run, AirpayRequest, shows, fails, breaks, saves, saves_code, asks, asks_balance,
}
use homtech_hub.Airpay.Purchase.{check_transaction}
use homtech_hub.Airpay.Payment.{pay_transaction, reconcile}
use homtech_hub.Airpay.Voucher.{fetch_voucher}
use homtech_hub.Airpay.Resolution.{ResolutionPayload, Decided, resolve_transaction}

pub record Journal : Type 0 where
  pub row : Transaction
  pub current : Option Run
  pub calls : List AirpayRequest
  pub decided : List Decided

-- What one action of the running call meets: the clock, Airpay's answer, the balance, and whether another
-- operation holds the code that is to be stored.
pub record Moment : Type 0 where
  pub now : ℕ
  pub answer : Try Json
  pub balance : Try Balance
  pub clash : Bool

pub data JournalAction : Type 0 where
  start_check : ℕ → Bool → JournalAction
  start_pay : ℕ → Bool → Json → JournalAction
  start_reconcile : ℕ → JournalAction
  start_voucher : ℕ → JournalAction
  proceed : Moment → JournalAction
  stop : JournalAction
  decide : Bool → Text → ResolutionPayload → ℕ → JournalAction
  renew : ℕ → ℕ → JournalAction

-- `AirpayRecord.update` stamps the row; only a renewal writes `replacement_key`.
abbrev pub stamped : ℕ → Transaction → Transaction → Transaction
stamped now r r' = record r' { updated_at = now; replacement_key = r.replacement_key }

unfoldable pub proceed_run : Moment → Run → Journal → Journal
proceed_run m (shows r) j = record j { current = none }
proceed_run m (fails e) j = record j { current = none }
proceed_run m breaks j = record j { current = none }
proceed_run m (saves r' k) j = record j { row = stamped m.now j.row r'; current = some k }
proceed_run m (saves_code r' k) j =
    if m.clash && not (is_empty r'.result_hash)
    then record j { current = none }
    else record j { row = stamped m.now j.row r'; current = some k }
proceed_run m (asks q k) j = record j { calls = q ∷ j.calls; current = some (k m.now m.answer) }
proceed_run m (asks_balance k) j = record j { current = some (k m.now m.balance) }

-- The advisory lock: a second call is refused while one is running.
abbrev pub start : Run → Journal → Journal
start p j = elim j.current [ none ↦ record j { current = some p } | some q ↦ j ]

-- `AirpayRepository.renew`, on this row: it has no replacement yet, and is neither paid nor of unknown
-- outcome.
abbrev pub renewed : ℕ → ℕ → Transaction → Transaction
renewed now key r =
    if is_some r.replacement_key || is_paid r.state || is_processing r.state
    then r
    else record r { replacement_key = some key; updated_at = now }

module _ (c : Crypto) (show : Json → Text) (secret : Text) (enabled : Bool) where
  unfoldable pub journal_step : Journal → JournalAction → Journal
  unfolding proceed_run check_transaction pay_transaction reconcile fetch_voucher
      resolve_transaction
  journal_step j (start_check now matches) = start (check_transaction show now matches j.row) j
  journal_step j (start_pay now batch confirmed) =
      start (pay_transaction show enabled now batch confirmed j.row) j
  journal_step j (start_reconcile now) = start (reconcile show enabled now j.row) j
  journal_step j (start_voucher now) = start (fetch_voucher c secret show enabled now j.row) j
  journal_step j (proceed m) = elim j.current [ none ↦ j | some p ↦ proceed_run m p j ]
  journal_step j stop = record j { current = none }
  journal_step j (decide clash digest x now) = elim j.current [
    | some p ↦ j
    | none ↦
        let (outcome, r', decided) =
          resolve_transaction c secret clash digest now x j.row j.decided in
        record j { row = r'; decided = decided }
  ]
  journal_step j (renew now key) = record j { row = renewed now key j.row }

  unfoldable pub journal_run : Journal → List JournalAction → Journal
  unfolding journal_step
  journal_run j [] = j
  journal_run j (a ∷ actions) = journal_run (journal_step j a) actions
