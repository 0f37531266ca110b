-- ===== src/Airpay/Journal/Bounds.antt =====
-- However a transaction of api/airpay_runtime is called, answered, interrupted and decided: how often `pay` is
-- sent for it, and with what.
use homtech_hub.Prelude.{
  ℕ, ◌+◌, ◌≤◌, ◌≡◌, refl, Bool, inl, inr, Text, List, [], ◌∷◌, Option, none, some, Json, Fields,
  total, arith, subst, get_elem?, get_elem?-All,
}
use homtech_hub.Hub.Crypto.{Crypto}
use homtech_hub.Airpay.Transaction.{Transaction}
use homtech_hub.Airpay.Run.{Run, pay_request}
use homtech_hub.Airpay.Resolution.{resolve_transaction}
use homtech_hub.Airpay.Journal.{
  Journal, JournalAction, start_check, start_pay, start_reconcile, start_voucher, proceed, stop,
  decide, renew, proceed_run, renewed, journal_step, journal_run,
}
use homtech_hub.Airpay.Journal.Safe.{is_pay}
use homtech_hub.Airpay.Journal.Settles.{resolve_transaction-Settles}
use homtech_hub.Airpay.Journal.Keeps.{pay_transaction-Safe, reconcile-Safe}
use homtech_hub.Airpay.Journal.KeepsCheck.{check_transaction-Safe}
use homtech_hub.Airpay.Journal.KeepsVoucher.{fetch_voucher-Safe}
use homtech_hub.Airpay.Journal.Bounded.{
  next_of, IsSafeNext, HasBody, Bounded, stopped-Bounded, proceed_run-Bounded, start-Bounded,
  settled-Bounded, renewed-same, same_payment-Bounded,
}

abbrev pub unpaid_journal : Transaction → Journal
unpaid_journal r = record { row = r; current = none; calls = []; decided = [] }

pub unpaid-Bounded : (r : Transaction) → r.pay_attempts ≡ 0 → Bounded (unpaid_journal r)
unpaid-Bounded r none_yet = record {
  good = (omega (arith, none_yet), inl none_yet);
  safe = tt;
  counted = omega (arith, none_yet);
  bodies = tt;
}

module _ (c : Crypto) (show : Json → Text) (secret : Text) (enabled : Bool) where
  pub journal_step-Bounded :
      (j : Journal) (a : JournalAction)
      → Bounded j
      → Bounded (journal_step c show secret enabled j a)
  unfolding journal_step
  journal_step-Bounded j (start_check now matches) h =
      start-Bounded _ j (check_transaction-Safe show now matches j.row h.good) h
  journal_step-Bounded j (start_pay now batch confirmed) h =
      start-Bounded _ j (pay_transaction-Safe show enabled now batch confirmed j.row h.good) h
  journal_step-Bounded j (start_reconcile now) h =
      start-Bounded _ j (reconcile-Safe show enabled now j.row h.good) h
  journal_step-Bounded j (start_voucher now) h =
      start-Bounded _ j (fetch_voucher-Safe c secret show enabled now j.row h.good) h
  journal_step-Bounded j (proceed m) h = go j.current refl
    where
      go :
          (current : Option Run)
          → j.current ≡ current
          → Bounded (elim current [ none ↦ j | some p ↦ proceed_run m p j ])
      go none at = h
      go (some p) at =
          proceed_run-Bounded m p j at (subst (IsSafeNext j.row) at h.safe)
            (subst (λ q. total is_pay j.calls + next_of q ≤ j.row.pay_attempts) at h.counted) h
  journal_step-Bounded j stop h = stopped-Bounded j h
  journal_step-Bounded j (decide clash digest x now) h = go j.current refl
    where
      go :
          (current : Option Run)
          → j.current ≡ current
          → Bounded (elim current [
            | some p ↦ j
            | none ↦
                let (outcome, r', decided) =
                  resolve_transaction c secret clash digest now x j.row j.decided in
                record j { row = r'; decided = decided }
          ])
      go (some p) at = h
      go none at =
          settled-Bounded _ _ j at
            (resolve_transaction-Settles c secret clash digest now x j.row j.decided) h
  journal_step-Bounded j (renew now key) h =
      let (attempts, body, state) = renewed-same now key j.row in
      same_payment-Bounded (renewed now key j.row) j attempts body state h

  pub journal_run-Bounded :
      (j : Journal) (actions : List JournalAction)
      → Bounded j
      → Bounded (journal_run c show secret enabled j actions)
  unfolding journal_run
  journal_run-Bounded j [] h = h
  journal_run-Bounded j (a ∷ actions) h =
      journal_run-Bounded (journal_step c show secret enabled j a) actions
        (journal_step-Bounded j a h)

  -- Whatever calls, answers, crashes and decisions follow, a transaction that starts unpaid has `pay` sent
  -- for it at most as often as its row counts attempts, and that is at most five times.
  pub pays_are_counted :
      (r : Transaction) (actions : List JournalAction)
      → r.pay_attempts ≡ 0
      → (total is_pay (journal_run c show secret enabled (unpaid_journal r) actions).calls
          ≤ (journal_run c show secret enabled (unpaid_journal r) actions).row.pay_attempts)
        × ((journal_run c show secret enabled (unpaid_journal r) actions).row.pay_attempts ≤ 5)
  pays_are_counted r actions none_yet =
      let h = journal_run-Bounded (unpaid_journal r) actions (unpaid-Bounded r none_yet) in
      (omega (arith, h.counted), h.good.0)

  -- Every `pay` that is ever sent for a transaction that starts unpaid has the body that its row holds: a
  -- repetition cannot change the amount, the account or the operation id.
  pub pays_are_the_same :
      (r : Transaction) (actions : List JournalAction) (i : ℕ) (body : Fields)
      → r.pay_attempts ≡ 0
      → get_elem? (journal_run c show secret enabled (unpaid_journal r) actions).calls i
        ≡ some (pay_request body)
      → (journal_run c show secret enabled (unpaid_journal r) actions).row.pay_request ≡ some body
  pays_are_the_same r actions i body none_yet sent =
      let j = journal_run c show secret enabled (unpaid_journal r) actions in
      let h = journal_run-Bounded (unpaid_journal r) actions (unpaid-Bounded r none_yet) in
      let has : HasBody j.row.pay_request (pay_request body) =
        get_elem?-All (HasBody j.row.pay_request) j.calls i h.bodies sent in
      elim has [ inl other ↦ absurd (omega (arith, other)) | inr same ↦ same ]
